-- ===== src/Configuration/Counting.antt =====
-- What the writes into an image leave of its size and its count of keys.
use Prim.Native.Nat.{min}
use bristlemouth_rs.Common.{
  ℕ, ◌+◌, ◌<◌, ◌≤◌, ◌≡◌, refl, ◌∙◌, List, [], ◌∷◌, arith, length, take, get_or, copy_at,
  to_le_bytes, length-copy_at, length-to_le_bytes, length-take, get_or-copy_at_before,
  get_or-copy_at_after, get_or-copy_at_in,
}
use bristlemouth_rs.Configuration.{
  ValueType, type_number, image_len, key_offset, value_offset, max_image_len, max_num_kv,
  key_buf_len, slot_size, Key, strlen,
}
use bristlemouth_rs.Configuration.Image.{
  ConfigPartition, num_keys, put_u32, write_key_buf, write_key_meta,
}
use bristlemouth_rs.Configuration.Places.{key_offset_room, value_offset_room}

-- An image of the array's size that counts `n` keys.
abbrev pub Counts : ℕ → List ℕ → Type 0
Counts n xs = (length xs ≡ max_image_len) × (get_or xs 8 0 ≡ n)

pub copy_at-Counts :
    (n : ℕ) (xs : List ℕ) (off : ℕ) (bytes : List ℕ)
    → Counts n xs
    → 9 ≤ off
    → off + length bytes ≤ max_image_len
    → Counts n (copy_at xs off bytes)
copy_at-Counts n xs off bytes c low high =
    let room : off + length bytes ≤ length xs = omega (arith, c.0, high) in
    (
      length-copy_at xs off bytes room ∙ c.0,
      get_or-copy_at_before xs off bytes room 8 0 (omega (arith, low)) ∙ c.1,
    )

-- `image[8] = m`.
pub count-Counts : (n m : ℕ) (xs : List ℕ) → Counts n xs → Counts m (copy_at xs 8 (m ∷ []))
count-Counts n m xs c =
    let room : 8 + length (m ∷ []) ≤ length xs = omega (arith, c.0) in
    (
      length-copy_at xs 8 (m ∷ []) room ∙ c.0,
      get_or-copy_at_in xs 8 (m ∷ []) room 0 0 (omega arith),
    )

-- A field of four bytes in the header, before the count.
pub put_u32-Counts :
    (n : ℕ) (p : ConfigPartition) (off v : ℕ)
    → Counts n p.image
    → off + 4 ≤ 8
    → Counts n (put_u32 p off v).image
unfolding put_u32
put_u32-Counts n p off v c low =
    let room : off + length (to_le_bytes 4 v) ≤ length p.image =
      omega (arith, c.0, length-to_le_bytes 4 v, low) in
    (
      length-copy_at p.image off (to_le_bytes 4 v) room ∙ c.0,
      get_or-copy_at_after p.image off (to_le_bytes 4 v) room 8 0
            (omega (arith, length-to_le_bytes 4 v, low))
          ∙ c.1,
    )

pub write_key_buf-Counts :
    (n : ℕ) (p : ConfigPartition) (idx : ℕ) (key : Key)
    → image_len p.layout ≤ max_image_len
    → idx < 50
    → Counts n p.image
    → Counts n (write_key_buf p idx key).image
unfolding write_key_buf
write_key_buf-Counts n p idx key fits h c =
    let m : ℕ = min (strlen key) 31 in
    let few : m ≤ 31 = omega arith in
    let room = key_offset_room p.layout idx h in
    copy_at-Counts n (copy_at p.image (key_offset p.layout idx) (take m key.text))
      (key_offset p.layout idx + m) (0 ∷ [])
      (copy_at-Counts n p.image (key_offset p.layout idx) (take m key.text) c (omega arith)
        (omega (arith, length-take m key.text, few, room, fits)))
      (omega arith) (omega (arith, few, room, fits))

pub write_key_meta-Counts :
    (n : ℕ) (p : ConfigPartition) (idx : ℕ) (key : Key) (ty : ValueType)
    → image_len p.layout ≤ max_image_len
    → idx < 50
    → Counts n p.image
    → Counts n (write_key_meta p idx key ty).image
unfolding write_key_meta
write_key_meta-Counts n p idx key ty fits h c =
    let kw : ℕ = p.layout.key_len_width in
    let vw : ℕ = p.layout.value_type_width in
    let off : ℕ = key_offset p.layout idx + key_buf_len in
    let room = key_offset_room p.layout idx h in
    copy_at-Counts n (copy_at p.image (off + kw) (to_le_bytes vw (type_number ty))) off
      (to_le_bytes kw key.len)
      (copy_at-Counts n p.image (off + kw) (to_le_bytes vw (type_number ty)) c (omega arith)
        (omega (arith, length-to_le_bytes vw (type_number ty), room, fits)))
      (omega arith) (omega (arith, length-to_le_bytes kw key.len, room, fits))

pub value-Counts :
    (n : ℕ) (p : ConfigPartition) (idx : ℕ) (bytes : List ℕ)
    → image_len p.layout ≤ max_image_len
    → idx < 50
    → length bytes ≤ slot_size
    → Counts n p.image
    → Counts n (copy_at p.image (value_offset p.layout idx) bytes)
value-Counts n p idx bytes fits h short c =
    copy_at-Counts n p.image (value_offset p.layout idx) bytes c (omega arith)
      (omega (arith, value_offset_room p.layout idx h, short, fits))

-- What every operation keeps: the layout's image is within the array, which has its size, and there are
-- no more keys than slots.
pub record IsValid (p : ConfigPartition) : Type 0 where
  pub fits : image_len p.layout ≤ max_image_len
  pub counts : Counts (num_keys p) p.image
  pub few : num_keys p ≤ max_num_kv

pub Counts-IsValid :
    (n : ℕ) (p : ConfigPartition)
    → image_len p.layout ≤ max_image_len
    → Counts n p.image
    → n ≤ max_num_kv
    → IsValid p
Counts-IsValid n p fits c few = record {
  fits = fits;
  counts = (c.0, refl);
  few = omega (arith, c.1, few);
}
