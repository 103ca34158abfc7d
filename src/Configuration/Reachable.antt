-- ===== src/Configuration/Reachable.antt =====
-- The partitions that calls lead to.
use native.Mathlib.Nat.{add-mul}
use bristlemouth_rs.Common.{
  ℕ, ◌+◌, ◌-◌, ◌*◌, ◌<◌, ◌≤◌, ◌≡◌, refl, ◌∙◌, inl, inr, Bool-cases, Option-cases, Bool, true, ◌&&◌,
  List, ltb, leb, ◌==◌, ltb→lt, arith, length, drop, get_or, replicate, length-replicate, copy_at,
  array_at, length-copy_at, length-take,
}
use bristlemouth_rs.Crc.{crc32_ieee}
use bristlemouth_rs.Configuration.{
  ValueType, Layout, key_size, image_len, key_offset, value_offset, max_image_len, max_num_kv,
  slot_size, Key,
}
use bristlemouth_rs.Configuration.Image.{
  ConfigPartition, new_partition, image_of, num_keys, put_num_keys, put_u32, covered, crc32,
  find_key, load_with, remove_key, remove_as, remove_at_index, clear, seal, mark_saved, copy_within,
}
use bristlemouth_rs.Configuration.Access.{Encoding, set_typed, set_cbor}
use bristlemouth_rs.Configuration.Places.{next_multiple}
use bristlemouth_rs.Configuration.Counting.{
  Counts, copy_at-Counts, count-Counts, put_u32-Counts, IsValid, Counts-IsValid,
}
use bristlemouth_rs.Configuration.Invariant.{
  Keeps, find_key_bound, set_typed-IsValid, set_cbor-IsValid,
}

zeroed-Counts : Counts 0 (replicate max_image_len 0)
zeroed-Counts = (length-replicate {A = ℕ} max_image_len 0, refl)

new_partition-IsValid : (l : Layout) → image_len l ≤ max_image_len → IsValid (new_partition l)
unfolding new_partition
new_partition-IsValid l fits = Counts-IsValid 0 _ fits zeroed-Counts (omega arith)

clear-IsValid : (p : ConfigPartition) → IsValid p → IsValid (clear p)
unfolding clear put_u32
clear-IsValid p v =
    let z : ConfigPartition = record p { image = replicate max_image_len 0 } in
    Counts-IsValid 0 _ v.fits (put_u32-Counts 0 z 4 0 zeroed-Counts (omega arith)) (omega arith)

seal-IsValid : (p : ConfigPartition) → IsValid p → IsValid (seal p)
unfolding seal put_u32
seal-IsValid p v =
    Counts-IsValid (num_keys p) _ v.fits
      (put_u32-Counts (num_keys p) p 0 (crc32_ieee (covered p)) v.counts (omega arith)) v.few

mark_saved-IsValid : (p : ConfigPartition) → IsValid p → IsValid (mark_saved p)
unfolding mark_saved
mark_saved-IsValid p v = Counts-IsValid (num_keys p) _ v.fits v.counts v.few

-- Moving what stands behind an index keeps the size and the count.
moved-Counts :
    (n : ℕ) (xs : List ℕ) (from m to : ℕ)
    → Counts n xs
    → 9 ≤ to
    → to + m ≤ max_image_len
    → Counts n (copy_within xs from m to)
moved-Counts n xs from m to c low high =
    copy_at-Counts n xs to (array_at m xs from) c low
      (omega (arith, length-take m (drop from xs), high))

remove_at_index-IsValid :
    (p : ConfigPartition) (idx : ℕ) → IsValid p → idx < num_keys p → IsValid (remove_at_index p idx)
unfolding remove_at_index
remove_at_index-IsValid p idx v h = elim (Bool-cases (ltb idx (num_keys p - 1))) [
  | inr last ↦ rw last (
      Counts-IsValid (num_keys p - 1) _ v.fits
        (count-Counts (num_keys p) (num_keys p - 1) p.image v.counts) (omega (arith, v.few)))
  | inl inner ↦ rw inner (shifted (ltb→lt _ _ inner))
]
  where
    l : Layout
    l = p.layout

    left : ℕ
    left = num_keys p - 1 - idx

    keys_moved : List ℕ
    keys_moved =
        copy_within p.image (key_offset l (idx + 1)) (left * key_size l)
          (key_offset l (idx + 1) - key_size l)

    moved : List ℕ
    moved =
        copy_within keys_moved (value_offset l (idx + 1)) (left * slot_size)
          (value_offset l (idx + 1) - slot_size)

    shifted :
        idx < num_keys p - 1
        → IsValid (record (put_num_keys (record p { image = moved }) (get_or moved 8 0 - 1)) {
          needs_commit = true;
        })
    shifted inner =
        let keys_c : Counts (num_keys p) keys_moved =
          moved-Counts (num_keys p) p.image (key_offset l (idx + 1)) (left * key_size l)
            (key_offset l (idx + 1) - key_size l) v.counts
            (omega (arith, add-mul idx 1 (key_size l)))
            (omega (
              arith,
              add-mul idx 1 (key_size l),
              add-mul idx left (key_size l),
              next_multiple (idx + left) 50 (key_size l) (omega (arith, h, v.few)),
              v.fits,
            )) in
        let both_c : Counts (num_keys p) moved =
          moved-Counts (num_keys p) keys_moved (value_offset l (idx + 1)) (left * slot_size)
            (value_offset l (idx + 1) - slot_size) keys_c (omega arith)
            (omega (arith, h, v.few, v.fits)) in
        Counts-IsValid (get_or moved 8 0 - 1) _ v.fits
          (count-Counts (num_keys p) (get_or moved 8 0 - 1) moved both_c)
          (omega (arith, both_c.1, v.few))

remove_key-IsValid : (p : ConfigPartition) (key : Key) → IsValid p → IsValid (remove_key p key).0
unfolding remove_key remove_as
remove_key-IsValid p key v = elim (Option-cases (find_key p key)) [
  | inl absent ↦ rw absent v
  | inr (idx, found) ↦ rw found (remove_at_index-IsValid p idx v (find_key_bound p key idx found))
]

load_with-IsValid :
    (p : ConfigPartition) (read : List ℕ → List ℕ × Bool)
    → IsValid p
    → length (read (image_of p)).0 ≡ image_len p.layout
    → IsValid (load_with p read).0
unfolding load_with put_u32
load_with-IsValid p read v filled =
    let q : ConfigPartition = record p { image = copy_at p.image 0 (read (image_of p)).0 } in
    let size : length q.image ≡ max_image_len =
      length-copy_at p.image 0 (read (image_of p)).0 (omega (arith, filled, v.counts.0, v.fits))
      ∙ v.counts.0 in
    let c : Counts (num_keys q) q.image = (size, refl) in
    elim (Bool-cases (
      (read (image_of p)).1
      && ((crc32_ieee (covered q) == crc32 q) && leb (num_keys q) max_num_kv))) [
        | inl good ↦ rw good (Counts-IsValid (num_keys q) q v.fits c (ground arith))
        | inr bad ↦ rw bad (
            Counts-IsValid 0 _ v.fits
              (put_u32-Counts 0 (put_num_keys q 0) 4 0 (count-Counts (num_keys q) 0 q.image c)
                (omega arith))
              (omega arith))
      ]

-- A call of one of the methods that change a partition. A typed setter comes with its encoder.
pub data Step : ConfigPartition → ConfigPartition → Type 0 where
  loaded :
      (p : ConfigPartition) (read : List ℕ → List ℕ × Bool)
      → length (read (image_of p)).0 ≡ image_len p.layout
      → Step p (load_with p read).0
  typed :
      (p : ConfigPartition) (key : Key) (ty : ValueType) (encode : Encoding)
      → Keeps encode
      → Step p (set_typed p key ty encode).0
  encoded : (p : ConfigPartition) (key : Key) (value : List ℕ) → Step p (set_cbor p key value).0
  removed : (p : ConfigPartition) (key : Key) → Step p (remove_key p key).0
  cleared : (p : ConfigPartition) → Step p (clear p)
  sealed : (p : ConfigPartition) → Step p (seal p)
  saved : (p : ConfigPartition) → Step p (mark_saved p)

pub data Reached : ConfigPartition → Type 0 where
  start : (l : Layout) → image_len l ≤ max_image_len → Reached (new_partition l)
  step : (p q : ConfigPartition) → Reached p → Step p q → Reached q

Step-IsValid : (p q : ConfigPartition) → Step p q → IsValid p → IsValid q
Step-IsValid p q (loaded _ read filled) v = load_with-IsValid p read v filled
Step-IsValid p q (typed _ key ty encode keeps) v = set_typed-IsValid p key ty encode v keeps
Step-IsValid p q (encoded _ key value) v = set_cbor-IsValid p key value v
Step-IsValid p q (removed _ key) v = remove_key-IsValid p key v
Step-IsValid p q (cleared _) v = clear-IsValid p v
Step-IsValid p q (sealed _) v = seal-IsValid p v
Step-IsValid p q (saved _) v = mark_saved-IsValid p v

-- Every partition that calls lead to from a zeroed one, a layout's image being no longer than the array
-- and an encoder leaving its slot's length, has an image of the array's size and no more than 50 keys,
-- whatever is read from flash.
pub Reached-IsValid : (p : ConfigPartition) → Reached p → IsValid p
Reached-IsValid p (start l fits) = new_partition-IsValid l fits
Reached-IsValid q (step p _ reached s) = Step-IsValid p q s (Reached-IsValid p reached)
