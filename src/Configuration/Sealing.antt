-- ===== src/Configuration/Sealing.antt =====
-- The CRC of a partition's image, written into its header.
use bristlemouth_rs.Common.{
  ℕ, ◌+◌, ◌-◌, ◌^◌, ◌<◌, ◌≤◌, ◌≡◌, sym, ap, ◌∙◌, List, arith, length, take, drop, get_or, copy_at,
  length-take, length-copy_at, length-to_le_bytes, to_le_bytes, from_le_bytes,
  from_le_bytes-to_le_bytes, drop-take, take-take, drop-copy_at_after, take-drop-copy_at,
  get_or-take, get_or-copy_at_after,
}
use bristlemouth_rs.Crc.{crc32_ieee, crc32_ieee_update}
use bristlemouth_rs.Configuration.{image_len, max_image_len}
use bristlemouth_rs.Configuration.Image.{
  ConfigPartition, image_of, covered, num_keys, put_u32, seal,
}

-- The image of the layout is within the array.
pub record Fits (p : ConfigPartition) : Type 0 where
  pub whole : length p.image ≡ max_image_len
  pub within : image_len p.layout ≤ max_image_len

pub crc32_ieee_bound : (bs : List ℕ) → crc32_ieee bs < 256 ^ 4
unfolding crc32_ieee crc32_ieee_update
crc32_ieee_bound bs = omega arith

module _ (p : ConfigPartition) (f : Fits p) where
  crc_bytes : List ℕ
  crc_bytes = to_le_bytes 4 (crc32_ieee (covered p))

  length-crc_bytes : length crc_bytes ≡ 4
  unfolding crc_bytes
  length-crc_bytes = length-to_le_bytes 4 (crc32_ieee (covered p))

  room : 0 + length crc_bytes ≤ length p.image
  room = omega (arith, length-crc_bytes, f.whole)

  -- Sealing leaves the bytes that the CRC is over.
  pub covered-seal : covered (seal p) ≡ covered p
  unfolding seal put_u32 crc_bytes length-crc_bytes
  covered-seal =
      let w : ℕ = image_len p.layout - 4 in
      let z : 4 + w ≡ image_len p.layout = omega arith in
      ap (λ n. drop 4 (take n (copy_at p.image 0 crc_bytes))) (sym z)
      ∙ drop-take 4 w (copy_at p.image 0 crc_bytes)
      ∙ ap (take w)
          (drop-copy_at_after p.image 0 crc_bytes room 4 (omega (arith, length-crc_bytes)))
      ∙ sym (drop-take 4 w p.image)
      ∙ ap (λ n. drop 4 (take n p.image)) z

  pub length-image-seal : length (image_of (seal p)) ≡ image_len p.layout
  unfolding seal put_u32 crc_bytes
  length-image-seal = omega (
    arith,
    length-take (image_len p.layout) (copy_at p.image 0 crc_bytes),
    length-copy_at p.image 0 crc_bytes room,
    f.whole,
    f.within,
  )

  pub crc32-seal : from_le_bytes (take 4 (image_of (seal p))) ≡ crc32_ieee (covered p)
  unfolding seal put_u32 crc_bytes
  crc32-seal =
      ap from_le_bytes (
        take-take 4 (image_len p.layout) (copy_at p.image 0 crc_bytes) (omega arith)
        ∙ ap (λ n. take n (copy_at p.image 0 crc_bytes)) (sym length-crc_bytes)
        ∙ take-drop-copy_at p.image 0 crc_bytes room)
      ∙ from_le_bytes-to_le_bytes 4 (crc32_ieee (covered p)) (crc32_ieee_bound (covered p))

  pub num_keys-seal : get_or (image_of (seal p)) 8 0 ≡ num_keys p
  unfolding seal put_u32 crc_bytes
  num_keys-seal =
      get_or-take (copy_at p.image 0 crc_bytes) (image_len p.layout) 8 0 (omega arith)
      ∙ get_or-copy_at_after p.image 0 crc_bytes room 8 0 (omega (arith, length-crc_bytes))
