-- ===== src/Configuration/Image.antt =====
-- bm-wire/src/configuration.rs, `ConfigPartition`: the bytes of a partition and the operations on them
-- that read no value. `read`, which fills the image from flash, is an argument.
use Prim.Native.Nat.{min}
use bristlemouth_rs.Common.{
  ℕ, zero, suc, ◌+◌, ◌-◌, ◌*◌, ◌%◌, ◌^◌, Bool, true, false, not, ◌&&◌, Option, none, some, List, [],
  ◌∷◌, ltb, leb, ◌==◌, if◌then◌else◌, take, drop, get_or, replicate, copy_at, array_at, u32_at,
  to_le_bytes, from_le_bytes,
}
use bristlemouth_rs.Crc.{crc32_ieee}
use bristlemouth_rs.Configuration.{
  Partition, user, system, hardware, ValueType, type_number, Layout, key_size, image_len,
  key_offset, value_offset, max_image_len, max_num_kv, config_version, key_buf_len, slot_size, Key,
  key_byte, strlen,
}

pub record StoredKey : Type 0 where
  pub key_buf : List ℕ
  pub key_len : ℕ
  pub value_type : ℕ

pub record ConfigPartition : Type 0 where
  pub layout : Layout
  pub image : List ℕ
  pub needs_commit : Bool

unfoldable pub new_partition : Layout → ConfigPartition
new_partition l = record { layout = l; image = replicate max_image_len 0; needs_commit = false }

-- `image()`.
abbrev pub image_of : ConfigPartition → List ℕ
image_of p = take (image_len p.layout) p.image

abbrev pub crc32 : ConfigPartition → ℕ
crc32 p = u32_at p.image 0

abbrev pub version : ConfigPartition → ℕ
version p = u32_at p.image 4

abbrev pub num_keys : ConfigPartition → ℕ
num_keys p = get_or p.image 8 0

-- `image[8] = n`.
abbrev pub put_num_keys : ConfigPartition → ℕ → ConfigPartition
put_num_keys p n = record p { image = copy_at p.image 8 (n ∷ []) }

unfoldable pub put_u32 : ConfigPartition → ℕ → ℕ → ConfigPartition
put_u32 p off v = record p { image = copy_at p.image off (to_le_bytes 4 v) }

-- The bytes that the CRC is over.
abbrev pub covered : ConfigPartition → List ℕ
covered p = drop 4 (image_of p)

unfoldable pub load_with : ConfigPartition → (List ℕ → List ℕ × Bool) → ConfigPartition × Bool
unfolding put_u32
load_with p read =
    let filled = read (image_of p) in
    let q = record p { image = copy_at p.image 0 filled.0 } in
    let good = filled.1 && ((crc32_ieee (covered q) == crc32 q) && leb (num_keys q) max_num_kv) in
    if good then (q, true) else (put_u32 (put_num_keys q 0) 4 config_version, false)

unfoldable pub stored_key : ConfigPartition → ℕ → StoredKey
stored_key p i =
    let off = key_offset p.layout i in
    let kw = p.layout.key_len_width in
    let vw = p.layout.value_type_width in
    record {
      key_buf = array_at key_buf_len p.image off;
      key_len = from_le_bytes (array_at kw p.image (off + key_buf_len));
      value_type = from_le_bytes (array_at vw p.image (off + key_buf_len + kw)) % 2 ^ 32;
    }

unfoldable pub stored_from : ConfigPartition → ℕ → ℕ → List StoredKey
stored_from p i zero = []
stored_from p i (suc n) = stored_key p i ∷ stored_from p (i + 1) n

unfoldable pub stored_keys : ConfigPartition → List StoredKey
unfolding stored_from
stored_keys p = stored_from p 0 (num_keys p)

-- The comparison of `n` more bytes from the one numbered `j`, as `strncmp` does it.
unfoldable pub same_from : List ℕ → ℕ → Key → ℕ → ℕ → Bool
same_from image off key j zero = true
same_from image off key j (suc n) =
    let rest = same_from image off key (j + 1) n in
    if not (key_byte key j == get_or image (off + j) 0)
    then false
    else if key_byte key j == 0
    then true
    else rest

unfoldable pub is_stored : ConfigPartition → Key → ℕ → Bool
unfolding stored_key same_from
is_stored p key i =
    if not ((stored_key p i).key_len == key.len)
    then false
    else same_from p.image (key_offset p.layout i) key 0 key.len

unfoldable pub find_from : (ℕ → Bool) → ℕ → ℕ → Option ℕ
find_from test i zero = none
find_from test i (suc n) = let rest = find_from test (i + 1) n in if test i then some i else rest

unfoldable pub find_key : ConfigPartition → Key → Option ℕ
unfolding is_stored find_from
find_key p key = find_from (λ i. is_stored p key i) 0 (num_keys p)

unfoldable pub write_key_buf : ConfigPartition → ℕ → Key → ConfigPartition
write_key_buf p idx key =
    let off = key_offset p.layout idx in
    let n = min (strlen key) (key_buf_len - 1) in
    record p { image = copy_at (copy_at p.image off (take n key.text)) (off + n) (0 ∷ []) }

unfoldable pub write_key_meta : ConfigPartition → ℕ → Key → ValueType → ConfigPartition
unfolding type_number
write_key_meta p idx key ty =
    let off = key_offset p.layout idx + key_buf_len in
    let kw = p.layout.key_len_width in
    let vw = p.layout.value_type_width in
    let typed = copy_at p.image (off + kw) (to_le_bytes vw (type_number ty)) in
    record p { image = copy_at typed off (to_le_bytes kw key.len) }

abbrev pub slot : ConfigPartition → ℕ → List ℕ
slot p idx = array_at slot_size p.image (value_offset p.layout idx)

-- `copy_within(from..from + n, to)`.
abbrev pub copy_within : List ℕ → ℕ → ℕ → ℕ → List ℕ
copy_within image from n to = copy_at image to (array_at n image from)

unfoldable pub remove_at_index : ConfigPartition → ℕ → ConfigPartition
remove_at_index p idx =
    let l = p.layout in
    let ks = key_size l in
    let left = num_keys p - 1 - idx in
    let keys_moved =
      copy_within p.image (key_offset l (idx + 1)) (left * ks) (key_offset l (idx + 1) - ks) in
    let moved =
      copy_within keys_moved (value_offset l (idx + 1)) (left * slot_size)
        (value_offset l (idx + 1) - slot_size) in
    let q = if ltb idx (num_keys p - 1) then record p { image = moved } else p in
    record (put_num_keys q (num_keys q - 1)) { needs_commit = true }

unfoldable pub remove_as : ConfigPartition → Option ℕ → ConfigPartition × Bool
unfolding remove_at_index
remove_as p none = (p, false)
remove_as p (some idx) = (remove_at_index p idx, true)

unfoldable pub remove_key : ConfigPartition → Key → ConfigPartition × Bool
unfolding remove_as find_key
remove_key p key = remove_as p (find_key p key)

unfoldable pub clear : ConfigPartition → ConfigPartition
unfolding put_u32
clear p = record (put_u32 (record p { image = replicate max_image_len 0 }) 4 config_version) {
  needs_commit = true;
}

-- The bytes to save are `image_of` the result.
unfoldable pub seal : ConfigPartition → ConfigPartition
unfolding put_u32
seal p = put_u32 p 0 (crc32_ieee (covered p))

unfoldable pub mark_saved : ConfigPartition → ConfigPartition
mark_saved p = record p { needs_commit = false }

pub record ConfigStore : Type 0 where
  pub user_part : ConfigPartition
  pub system_part : ConfigPartition
  pub hardware_part : ConfigPartition

unfoldable pub new_store : Layout → ConfigStore
unfolding new_partition
new_store l = record {
  user_part = new_partition l;
  system_part = new_partition l;
  hardware_part = new_partition l;
}

unfoldable pub partition : ConfigStore → Partition → ConfigPartition
partition s user = s.user_part
partition s system = s.system_part
partition s hardware = s.hardware_part
