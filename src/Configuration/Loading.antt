-- ===== src/Configuration/Loading.antt =====
-- A partition's image read from flash.
use bristlemouth_rs.Common.{
  ℕ, ◌+◌, ◌-◌, ◌≤◌, ◌≡◌, refl, sym, ap, ◌∙◌, inl, inr, Bool-cases, Bool, true, false, ◌&&◌, List,
  leb, ◌==◌, arith, length, take, drop, get_or, copy_at, length-copy_at, length-to_le_bytes,
  to_le_bytes, from_le_bytes, u32_at, from_le_bytes-to_le_bytes, drop-take, take-take,
  drop-copy_at_after, take-drop-copy_at, get_or-take, get_or-copy_at_after, get_or-copy_at_in,
  take-copy_at_before, ◌⊎◌, [], ◌∷◌,
}
use bristlemouth_rs.Crc.{crc32_ieee}
use bristlemouth_rs.Configuration.{image_len, max_image_len, max_num_kv}
use bristlemouth_rs.Configuration.Image.{
  ConfigPartition, image_of, crc32, num_keys, put_u32, load_with, version,
}
use bristlemouth_rs.Configuration.Sealing.{Fits}

-- What an image that was read must be for its partition to be accepted.
unfoldable pub accepts : List ℕ → Bool → Bool
accepts bs good =
    good
    && ((crc32_ieee (drop 4 bs) == from_le_bytes (take 4 bs)) && leb (get_or bs 8 0) max_num_kv)

module _ (q : ConfigPartition) (f : Fits q) (bs : List ℕ)
    (filled : length bs ≡ image_len q.layout) where
  filled_image : List ℕ
  filled_image = copy_at q.image 0 bs

  filled_room : 0 + length bs ≤ length q.image
  filled_room = omega (arith, filled, f.whole, f.within)

  length-filled_image : length filled_image ≡ max_image_len
  unfolding filled_image
  length-filled_image = length-copy_at q.image 0 bs filled_room ∙ f.whole

  filled_image_front : take (image_len q.layout) filled_image ≡ bs
  unfolding filled_image
  filled_image_front =
      ap (λ n. take n (copy_at q.image 0 bs)) (sym filled)
      ∙ take-drop-copy_at q.image 0 bs filled_room

  filled_image_crc : take 4 filled_image ≡ take 4 bs
  filled_image_crc =
      sym (take-take 4 (image_len q.layout) filled_image (omega arith))
      ∙ ap (take 4) filled_image_front

  filled_image_keys : get_or filled_image 8 0 ≡ get_or bs 8 0
  filled_image_keys =
      sym (get_or-take filled_image (image_len q.layout) 8 0 (omega arith))
      ∙ ap (λ xs. get_or xs 8 0) filled_image_front

  accepts-filled_image :
      (good : Bool)
      → (good
          && ((crc32_ieee (drop 4 (take (image_len q.layout) filled_image))
                == u32_at filled_image 0)
              && leb (get_or filled_image 8 0) max_num_kv))
        ≡ accepts bs good
  unfolding accepts u32_at
  accepts-filled_image good = rw (filled_image_front, filled_image_crc, filled_image_keys) refl

  -- What is left of an image that is refused.
  reset_image : List ℕ
  reset_image = copy_at (copy_at filled_image 8 (0 ∷ [])) 4 (to_le_bytes 4 0)

  uncounted : List ℕ
  uncounted = copy_at filled_image 8 (0 ∷ [])

  length-uncounted : length uncounted ≡ max_image_len
  unfolding uncounted
  length-uncounted =
      length-copy_at filled_image 8 (0 ∷ []) (omega (arith, length-filled_image))
      ∙ length-filled_image

  reset_image_keys : get_or reset_image 8 0 ≡ 0
  unfolding reset_image uncounted length-uncounted
  reset_image_keys =
      get_or-copy_at_after uncounted 4 (to_le_bytes 4 0)
        (omega (arith, length-to_le_bytes 4 0, length-uncounted)) 8 0
        (omega (arith, length-to_le_bytes 4 0))
      ∙ get_or-copy_at_in filled_image 8 (0 ∷ []) (omega (arith, length-filled_image)) 0 0
          (omega arith)

  reset_image_version : u32_at reset_image 4 ≡ 0
  unfolding reset_image uncounted length-uncounted u32_at
  reset_image_version =
      ap from_le_bytes (
        ap (λ n. take n (drop 4 reset_image)) (sym (length-to_le_bytes 4 0))
        ∙ take-drop-copy_at uncounted 4 (to_le_bytes 4 0)
            (omega (arith, length-to_le_bytes 4 0, length-uncounted)))
      ∙ from_le_bytes-to_le_bytes 4 0 (omega arith)

  reset_image_crc : u32_at reset_image 0 ≡ from_le_bytes (take 4 bs)
  unfolding reset_image uncounted length-uncounted u32_at
  reset_image_crc = ap from_le_bytes (
      take-copy_at_before uncounted 4 (to_le_bytes 4 0)
        (omega (arith, length-to_le_bytes 4 0, length-uncounted)) 4 (omega arith)
      ∙ take-copy_at_before filled_image 8 (0 ∷ []) (omega (arith, length-filled_image)) 4
          (omega arith)
      ∙ filled_image_crc)

  reset_image_rest : drop 9 (take (image_len q.layout) reset_image) ≡ drop 9 bs
  unfolding reset_image uncounted length-uncounted
  reset_image_rest =
      let w : ℕ = image_len q.layout - 9 in
      let z : 9 + w ≡ image_len q.layout = omega arith in
      ap (λ n. drop 9 (take n reset_image)) (sym z)
      ∙ drop-take 9 w reset_image
      ∙ ap (take w) (
          drop-copy_at_after uncounted 4 (to_le_bytes 4 0)
            (omega (arith, length-to_le_bytes 4 0, length-uncounted)) 9
            (omega (arith, length-to_le_bytes 4 0))
          ∙ drop-copy_at_after filled_image 8 (0 ∷ []) (omega (arith, length-filled_image)) 9
              (omega arith))
      ∙ sym (drop-take 9 w filled_image)
      ∙ ap (λ n. drop 9 (take n filled_image)) z
      ∙ ap (drop 9) filled_image_front

-- `read` fills the image of the partition with as many bytes. If it succeeds, if the CRC is that of the
-- bytes behind it and if the keys are no more than a partition holds, the image is accepted and is what
-- was read. Otherwise the image is refused: it has no keys and version 0, and the CRC, the keys' slots
-- and the values are as read.
pub load_with_cases :
    (q : ConfigPartition) (read : List ℕ → List ℕ × Bool)
    → Fits q
    → length (read (image_of q)).0 ≡ image_len q.layout
    → ((accepts (read (image_of q)).0 (read (image_of q)).1 ≡ true)
        × ((load_with q read).1 ≡ true)
        × (image_of (load_with q read).0 ≡ (read (image_of q)).0))
      ⊎ ((accepts (read (image_of q)).0 (read (image_of q)).1 ≡ false)
          × ((load_with q read).1 ≡ false)
          × (num_keys (load_with q read).0 ≡ 0)
          × (version (load_with q read).0 ≡ 0)
          × (crc32 (load_with q read).0 ≡ from_le_bytes (take 4 (read (image_of q)).0))
          × (drop 9 (image_of (load_with q read).0) ≡ drop 9 (read (image_of q)).0))
unfolding load_with put_u32 filled_image accepts-filled_image reset_image
load_with_cases q read f filled =
    let bs : List ℕ = (read (image_of q)).0 in
    elim (Bool-cases (accepts bs (read (image_of q)).1)) [
      | inl good ↦
          rw (accepts-filled_image q f bs filled (read (image_of q)).1, good)
            (inl (refl, refl, filled_image_front q f bs filled))
      | inr bad ↦
          rw (accepts-filled_image q f bs filled (read (image_of q)).1, bad)
            (inr (
              refl,
              refl,
              reset_image_keys q f bs filled,
              reset_image_version q f bs filled,
              reset_image_crc q f bs filled,
              reset_image_rest q f bs filled,
            ))
    ]
