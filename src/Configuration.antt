-- ===== src/Configuration.antt =====
-- bm-wire/src/configuration.rs: the local configuration store. A partition is the bytes that are saved to
-- flash; this file has its layout and the keys, and the children have the heads of the values, the image
-- and the access to its values.
pub mod Head
pub mod Chunks
pub mod Image
pub mod Access
pub mod Places
pub mod Sealing
pub mod Loading
pub mod Saving
pub mod Keys
pub mod Storing
pub mod Prefixes
pub mod Found
pub mod RoundTrip
pub mod Counting
pub mod Invariant
pub mod Reachable
use bristlemouth_rs.Common.{
  ℕ, zero, suc, ◌+◌, ◌*◌, Bool, true, false, ◌&&◌, ◌||◌, Option, none, some, List, [], ◌∷◌, leb,
  ◌==◌, if◌then◌else◌, length, get_or, get_elem?,
}

abbrev pub max_num_kv : ℕ
max_num_kv = 50

abbrev pub max_key_len_bytes : ℕ
max_key_len_bytes = 32

abbrev pub max_config_buffer_size_bytes : ℕ
max_config_buffer_size_bytes = 50

abbrev pub config_version : ℕ
config_version = 0

abbrev pub header_len : ℕ
header_len = 9

abbrev pub key_buf_len : ℕ
key_buf_len = max_key_len_bytes

abbrev pub slot_size : ℕ
slot_size = max_config_buffer_size_bytes

pub data Partition : Type 0 where
  user system hardware : Partition

abbrev pub all_partitions : List Partition
all_partitions = user ∷ system ∷ hardware ∷ []

unfoldable pub partition_from_u8 : ℕ → Option Partition
partition_from_u8 n = get_elem? all_partitions n

pub data ValueType : Type 0 where
  uint32 int32 float str bytes array : ValueType

-- `ty as u64`.
unfoldable pub type_number : ValueType → ℕ
type_number uint32 = 0
type_number int32 = 1
type_number float = 2
type_number str = 3
type_number bytes = 4
type_number array = 5

pub record Layout : Type 0 where
  pub key_len_width : ℕ
  pub value_type_width : ℕ

abbrev pub lp64 : Layout
lp64 = record { key_len_width = 8; value_type_width = 4 }

abbrev pub arm_eabi_gcc : Layout
arm_eabi_gcc = record { key_len_width = 4; value_type_width = 1 }

unfoldable pub new_layout : ℕ → ℕ → Option Layout
new_layout key_len_width value_type_width =
    let size_ok = (key_len_width == 4) || (key_len_width == 8) in
    let enum_ok = (value_type_width == 1) || ((value_type_width == 2) || (value_type_width == 4)) in
    if size_ok && enum_ok
    then some (record { key_len_width = key_len_width; value_type_width = value_type_width })
    else none

abbrev pub key_size : Layout → ℕ
key_size l = key_buf_len + l.key_len_width + l.value_type_width

abbrev pub image_len : Layout → ℕ
image_len l = header_len + max_num_kv * key_size l + max_num_kv * slot_size

abbrev pub key_offset : Layout → ℕ → ℕ
key_offset l i = header_len + i * key_size l

abbrev pub value_offset : Layout → ℕ → ℕ
value_offset l i = header_len + max_num_kv * key_size l + i * slot_size

abbrev pub max_image_len : ℕ
max_image_len = image_len lp64

-- The memory at the pointer of a key, and its `key_len`.
pub record Key : Type 0 where
  pub text : List ℕ
  pub len : ℕ

abbrev pub new_key : List ℕ → Key
new_key key = record { text = key; len = length key }

-- `key[i]`, which past the end of the text reads as NUL.
abbrev pub key_byte : Key → ℕ → ℕ
key_byte key i = get_or key.text i 0

-- `position(|&b| b == 0).unwrap_or(len)`.
unfoldable pub strlen_of : List ℕ → ℕ
strlen_of [] = 0
strlen_of (b ∷ bs) = let rest = strlen_of bs in if b == 0 then 0 else suc rest

abbrev pub strlen : Key → ℕ
strlen key = strlen_of key.text

abbrev pub is_ascii_alphanumeric : ℕ → Bool
is_ascii_alphanumeric b =
    (leb 0x30 b && leb b 0x39) || ((leb 0x41 b && leb b 0x5a) || (leb 0x61 b && leb b 0x7a))

unfoldable pub valid_first : Key → ℕ → Bool
valid_first key zero = true
valid_first key (suc n) =
    valid_first key n
    && (is_ascii_alphanumeric (key_byte key n)
        || ((key_byte key n == 0x5f) || (key_byte key n == 0)))

unfoldable pub is_valid : Key → Bool
unfolding valid_first
is_valid key = valid_first key key.len
