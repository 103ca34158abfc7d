-- ===== src/Configuration/Access.antt =====
-- bm-wire/src/configuration.rs and cbor.rs: the values of a partition, read and set under their keys. The
-- heads that the `cbor2` crate writes are an argument, `Encoder`; a float is its bits.
use bristlemouth_rs.Common.{
  ℕ, ◌+◌, ◌-◌, ◌/◌, ◌%◌, ◌^◌, Bool, true, false, not, ◌&&◌, Option, none, some, List, [], ◌∷◌, ltb,
  leb, ◌==◌, if◌then◌else◌, length, take, copy_at, Result, err,
}
use bristlemouth_rs.Configuration.{
  ValueType, uint32, int32, float, str, bytes, array, value_offset, max_num_kv, max_key_len_bytes,
  slot_size, Key, is_valid,
}
use bristlemouth_rs.Configuration.Head.{
  Head, parse, config_type, head_length, CopyError, refused, copy_string,
}
use bristlemouth_rs.Configuration.Image.{
  ConfigPartition, num_keys, put_num_keys, find_key, write_key_buf, write_key_meta, slot,
}

unfoldable pub with_head : ℕ → Option Head → Option (ℕ × Head)
with_head idx none = none
with_head idx (some head) = some (idx, head)

unfoldable pub parsed_at : ConfigPartition → Option ℕ → Option (ℕ × Head)
unfolding parse with_head
parsed_at p none = none
parsed_at p (some idx) = with_head idx (parse (slot p idx))

unfoldable pub parsed : ConfigPartition → Key → Option (ℕ × Head)
unfolding parsed_at find_key
parsed p key = if ltb max_key_len_bytes key.len then none else parsed_at p (find_key p key)

unfoldable pub uint_of : Option (ℕ × Head) → Option ℕ
uint_of none = none
uint_of (some (idx, head)) = if head.major == 0 then some (head.arg % 2 ^ 32) else none

unfoldable pub get_uint : ConfigPartition → Key → Option ℕ
unfolding parsed uint_of
get_uint p key = uint_of (parsed p key)

-- An `i32` is its bits, and `wrapping_neg().wrapping_sub(1)` is the complement.
unfoldable pub int_of : Option (ℕ × Head) → Option ℕ
int_of none = none
int_of (some (idx, head)) =
    if head.major == 0
    then some (head.arg % 2 ^ 32)
    else if head.major == 1
    then some ((2 ^ 64 - 1 - head.arg) % 2 ^ 32)
    else none

unfoldable pub get_int : ConfigPartition → Key → Option ℕ
unfolding parsed int_of
get_int p key = int_of (parsed p key)

unfoldable pub float_of : Option (ℕ × Head) → Option ℕ
float_of none = none
float_of (some (idx, head)) =
    if (head.major == 7) && (head.info == 26) then some (head.arg % 2 ^ 32) else none

unfoldable pub get_float : ConfigPartition → Key → Option ℕ
unfolding parsed float_of
get_float p key = float_of (parsed p key)

unfoldable pub str_like_of :
    ConfigPartition → ℕ → List ℕ → Option (ℕ × Head) → List ℕ × Result CopyError ℕ
unfolding copy_string
str_like_of p major out none = (out, err refused)
str_like_of p major out (some (idx, head)) =
    if not (head.major == major) then (out, err refused) else copy_string (slot p idx) out

unfoldable pub get_str_like : ConfigPartition → Key → ℕ → List ℕ → List ℕ × Result CopyError ℕ
unfolding parsed str_like_of
get_str_like p key major out = str_like_of p major out (parsed p key)

unfoldable pub get_string : ConfigPartition → Key → List ℕ → List ℕ × Result CopyError ℕ
unfolding get_str_like
get_string p key out = get_str_like p key 3 out

unfoldable pub get_buffer : ConfigPartition → Key → List ℕ → List ℕ × Result CopyError ℕ
unfolding get_str_like
get_buffer p key out = get_str_like p key 2 out

-- What `out` then holds, and the result.
unfoldable pub cbor_of : ConfigPartition → List ℕ → Option (ℕ × Head) → List ℕ × Option ℕ
cbor_of p out none = (out, none)
cbor_of p out (some (idx, head)) =
    if leb slot_size (length out) then (copy_at out 0 (slot p idx), some slot_size) else (out, none)

unfoldable pub get_cbor : ConfigPartition → Key → List ℕ → List ℕ × Option ℕ
unfolding parsed cbor_of
get_cbor p key out = cbor_of p out (parsed p key)

unfoldable pub size_as : Head → Option ValueType → Option ℕ
unfolding head_length
size_as head none = none
size_as head (some uint32) = some 4
size_as head (some int32) = some 4
size_as head (some float) = some 4
size_as head (some str) = head_length head
size_as head (some bytes) = head_length head
size_as head (some array) = head_length head

unfoldable pub size_of : Option (ℕ × Head) → Option ℕ
unfolding size_as config_type
size_of none = none
size_of (some (idx, head)) = size_as head (config_type head)

unfoldable pub value_size : ConfigPartition → Key → Option ℕ
unfolding parsed size_of
value_size p key = size_of (parsed p key)

-- The key's index, and whether it is there already.
unfoldable pub place : ConfigPartition → Key → Option ℕ → Option (ℕ × Bool)
unfolding is_valid
place p key (some idx) = some (idx, true)
place p key none = if is_valid key then some (num_keys p, false) else none

-- The slot after an encoder, and whether it had room.
abbrev pub Encoding : Type 0
Encoding = List ℕ → List ℕ × Bool

unfoldable pub counted : ConfigPartition → Bool → ConfigPartition
counted p exists = record (if exists then p else put_num_keys p (num_keys p + 1)) {
  needs_commit = true;
}

unfoldable pub encode_in :
    ConfigPartition → Key → ValueType → Encoding → ℕ × Bool → ConfigPartition × Bool
unfolding write_key_meta counted
encode_in p key ty encode (idx, exists) =
    let encoded = encode (slot p idx) in
    let q = record p { image = copy_at p.image (value_offset p.layout idx) encoded.0 } in
    if not encoded.1 then (q, false) else (counted (write_key_meta q idx key ty) exists, true)

unfoldable pub set_placed :
    ConfigPartition → Key → ValueType → Encoding → Option (ℕ × Bool) → ConfigPartition × Bool
unfolding write_key_buf encode_in
set_placed p key ty encode none = (p, false)
set_placed p key ty encode (some at) = encode_in (write_key_buf p at.0 key) key ty encode at

unfoldable pub set_typed : ConfigPartition → Key → ValueType → Encoding → ConfigPartition × Bool
unfolding set_placed place find_key
set_typed p key ty encode =
    if ltb max_key_len_bytes key.len
    then (p, false)
    else if leb max_num_kv (num_keys p)
    then (p, false)
    else set_placed p key ty encode (place p key (find_key p key))

-- The bytes of the head that `cbor2` writes for an integer, or for a text or a byte string of a length.
pub record Encoder : Type 0 where
  pub positive : ℕ → List ℕ
  pub negative : ℕ → List ℕ
  pub text_head : ℕ → List ℕ
  pub bytes_head : ℕ → List ℕ

-- An integer's head of more than the slot, of which there is none, would be written in part.
unfoldable pub push : List ℕ → Encoding
push head s =
    if leb (length head) (length s) then (copy_at s 0 head, true) else (take (length s) head, false)

unfoldable pub push_string : List ℕ → List ℕ → Encoding
push_string head body s =
    let headed = copy_at s 0 head in
    if ltb 9 (length head)
    then (s, false)
    else if leb (length head + length body) (length s)
    then (copy_at headed (length head) body, true)
    else (headed, false)

abbrev pub be_bytes4 : ℕ → List ℕ
be_bytes4 v = (v / 2 ^ 24 % 256) ∷ (v / 2 ^ 16 % 256) ∷ (v / 2 ^ 8 % 256) ∷ (v % 256) ∷ []

unfoldable pub push_f32_wide : ℕ → Encoding
unfolding push
push_f32_wide value = push (0xfa ∷ be_bytes4 value)

unfoldable pub set_uint : Encoder → ConfigPartition → Key → ℕ → ConfigPartition × Bool
unfolding set_typed push
set_uint e p key value = set_typed p key uint32 (push (e.positive value))

-- `value` is the bits of an `i32`; `!value` of a negative one is their complement.
unfoldable pub int_header : Encoder → ℕ → List ℕ
int_header e value =
    if leb (2 ^ 31) value then e.negative (2 ^ 32 - 1 - value) else e.positive value

unfoldable pub set_int : Encoder → ConfigPartition → Key → ℕ → ConfigPartition × Bool
unfolding set_typed push int_header
set_int e p key value = set_typed p key int32 (push (int_header e value))

unfoldable pub set_float : ConfigPartition → Key → ℕ → ConfigPartition × Bool
unfolding set_typed push_f32_wide
set_float p key value = set_typed p key float (push_f32_wide value)

unfoldable pub set_string : Encoder → ConfigPartition → Key → List ℕ → ConfigPartition × Bool
unfolding set_typed push_string
set_string e p key value = set_typed p key str (push_string (e.text_head (length value)) value)

unfoldable pub set_buffer : Encoder → ConfigPartition → Key → List ℕ → ConfigPartition × Bool
unfolding set_typed push_string
set_buffer e p key value = set_typed p key bytes (push_string (e.bytes_head (length value)) value)

-- The partition whose key is written, and the key's index.
unfoldable pub prepare_cbor : ConfigPartition → Key → Option ℕ → Option (ConfigPartition × ℕ)
unfolding is_valid write_key_buf
prepare_cbor p key (some idx) = some (p, idx)
prepare_cbor p key none =
    if not (is_valid key)
    then none
    else if leb max_num_kv (num_keys p)
    then none
    else some (write_key_buf p (num_keys p) key, num_keys p)

unfoldable pub store_cbor :
    ConfigPartition → ℕ → Key → List ℕ → Option ValueType → ConfigPartition × Bool
unfolding write_key_meta counted
store_cbor p idx key value none = (p, false)
store_cbor p idx key value (some ty) =
    let q = write_key_meta p idx key ty in
    let r = record q { image = copy_at q.image (value_offset q.layout idx) value } in
    (counted r (not (idx == num_keys p)), true)

unfoldable pub set_prepared :
    ConfigPartition → Key → List ℕ → Head → Option (ConfigPartition × ℕ) → ConfigPartition × Bool
unfolding store_cbor config_type
set_prepared p key value head none = (p, false)
set_prepared p key value head (some (q, idx)) = store_cbor q idx key value (config_type head)

unfoldable pub set_headed : ConfigPartition → Key → List ℕ → Option Head → ConfigPartition × Bool
unfolding set_prepared prepare_cbor find_key
set_headed p key value none = (p, false)
set_headed p key value (some head) =
    set_prepared p key value head (prepare_cbor p key (find_key p key))

unfoldable pub set_cbor : ConfigPartition → Key → List ℕ → ConfigPartition × Bool
unfolding set_headed parse
set_cbor p key value =
    if ltb max_key_len_bytes key.len
    then (p, false)
    else if ltb slot_size (length value)
    then (p, false)
    else if length value == 0
    then (p, false)
    else set_headed p key value (parse value)
