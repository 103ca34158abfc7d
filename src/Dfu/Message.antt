-- ===== src/Dfu/Message.antt =====
-- bm-wire/src/bcmp/dfu.rs: the bodies of the DFU messages. A buffer that `encode` writes to is a
-- list; the result is the list with the message at its front.
pub mod RoundTrip
use bristlemouth_rs.Common.{
  ℕ, suc, ◌+◌, ◌-◌, Bool, Option, none, some, List, [], ◌∷◌, ◌++◌, ltb, ◌==◌, if◌then◌else◌, length,
  take, drop, get_or, Result, ok, err, BmWireError, truncated, invalid, ◌>>=◌, to_le_bytes,
  from_le_bytes, u16_at, u32_at, u64_at, prefix, fill_prefix,
}

pub record DfuAddress : Type 0 where
  pub src_node_id : ℕ
  pub dst_node_id : ℕ

abbrev pub address_offset : ℕ
address_offset = 1

unfoldable pub encode_address : DfuAddress → List ℕ
encode_address a = to_le_bytes 8 a.src_node_id ++ to_le_bytes 8 a.dst_node_id

unfoldable pub decode_address : List ℕ → Result BmWireError DfuAddress
decode_address buf = do
  b ← prefix 16 buf
  ok (record { src_node_id = u64_at b 0; dst_node_id = u64_at b 8 })

-- `body.get(ADDRESS_OFFSET..)` fails on an empty body only.
unfoldable pub of_body : List ℕ → Result BmWireError DfuAddress
of_body body =
    if ltb (length body) address_offset
    then err truncated
    else decode_address (drop address_offset body)

pub record ImgInfo : Type 0 where
  pub image_size : ℕ
  pub chunk_size : ℕ
  pub crc16 : ℕ
  pub major_ver : ℕ
  pub minor_ver : ℕ
  pub filter_key : ℕ
  pub git_sha : ℕ

unfoldable pub encode_info : ImgInfo → List ℕ
encode_info i =
    to_le_bytes 4 i.image_size
    ++ (to_le_bytes 2 i.chunk_size
        ++ (to_le_bytes 2 i.crc16
            ++ (i.major_ver
                ∷ i.minor_ver
                ∷ (to_le_bytes 4 i.filter_key ++ to_le_bytes 4 i.git_sha))))

unfoldable pub decode_info : List ℕ → Result BmWireError ImgInfo
decode_info buf = do
  b ← prefix 18 buf
  ok (record {
    image_size = u32_at b 0;
    chunk_size = u16_at b 4;
    crc16 = u16_at b 6;
    major_ver = get_or b 8 0;
    minor_ver = get_or b 9 0;
    filter_key = u32_at b 10;
    git_sha = u32_at b 14;
  })

pub record DfuStart : Type 0 where
  pub addresses : DfuAddress
  pub img_info : ImgInfo

pub record DfuChunkRequest : Type 0 where
  pub addresses : DfuAddress
  pub seq_num : ℕ

pub record DfuChunk : Type 0 where
  pub addresses : DfuAddress
  pub payload : List ℕ

pub record DfuResult : Type 0 where
  pub addresses : DfuAddress
  pub success : ℕ
  pub err_code : ℕ

pub data DfuMessage : Type 0 where
  start : DfuStart → DfuMessage
  payload_req : DfuChunkRequest → DfuMessage
  payload : DfuChunk → DfuMessage
  update_end : DfuResult → DfuMessage
  ack : DfuResult → DfuMessage
  abort : DfuResult → DfuMessage
  heartbeat : DfuAddress → DfuMessage
  reboot_req : DfuAddress → DfuMessage
  reboot : DfuAddress → DfuMessage
  boot_complete : DfuAddress → DfuMessage

unfoldable pub message_type : DfuMessage → ℕ
message_type (start m) = 0xD0
message_type (payload_req m) = 0xD1
message_type (payload m) = 0xD2
message_type (update_end m) = 0xD3
message_type (ack m) = 0xD4
message_type (abort m) = 0xD5
message_type (heartbeat a) = 0xD6
message_type (reboot_req a) = 0xD7
message_type (reboot a) = 0xD8
message_type (boot_complete a) = 0xD9

unfoldable pub addresses : DfuMessage → DfuAddress
addresses (start m) = m.addresses
addresses (payload_req m) = m.addresses
addresses (payload m) = m.addresses
addresses (update_end m) = m.addresses
addresses (ack m) = m.addresses
addresses (abort m) = m.addresses
addresses (heartbeat a) = a
addresses (reboot_req a) = a
addresses (reboot a) = a
addresses (boot_complete a) = a

-- `MIN_LEN`, `START_LEN` and `WITH_TWO_BYTES_LEN`.
abbrev pub min_len : ℕ
min_len = 17

unfoldable pub encoded_len : DfuMessage → ℕ
encoded_len (start m) = 35
encoded_len (payload_req m) = 19
encoded_len (payload m) = 19 + length m.payload
encoded_len (update_end m) = 19
encoded_len (ack m) = 19
encoded_len (abort m) = 19
encoded_len (heartbeat a) = 17
encoded_len (reboot_req a) = 17
encoded_len (reboot a) = 17
encoded_len (boot_complete a) = 17

-- What follows the addresses.
unfoldable pub encode_tail : DfuMessage → List ℕ
unfolding encode_info
encode_tail (start m) = encode_info m.img_info
encode_tail (payload_req m) = to_le_bytes 2 m.seq_num
encode_tail (payload m) = to_le_bytes 2 (length m.payload) ++ m.payload
encode_tail (update_end m) = m.success ∷ m.err_code ∷ []
encode_tail (ack m) = m.success ∷ m.err_code ∷ []
encode_tail (abort m) = m.success ∷ m.err_code ∷ []
encode_tail (heartbeat a) = []
encode_tail (reboot_req a) = []
encode_tail (reboot a) = []
encode_tail (boot_complete a) = []

unfoldable pub encode_bytes : DfuMessage → List ℕ
unfolding encode_address encode_tail message_type addresses
encode_bytes m = message_type m ∷ (encode_address (addresses m) ++ encode_tail m)

-- A payload whose length does not fit its field.
unfoldable pub is_oversized : DfuMessage → Bool
is_oversized (payload m) = ltb 65535 (length m.payload)
is_oversized _ = Bool.false

-- The length written and the buffer after it.
unfoldable pub encode : DfuMessage → List ℕ → Result BmWireError (ℕ × List ℕ)
encode m buf =
    if is_oversized m
    then err invalid
    else if ltb (length buf) (encoded_len m)
    then err truncated
    else ok (encoded_len m, encode_bytes m ++ drop (encoded_len m) buf)

-- `two`.
unfoldable pub decode_two : List ℕ → Result BmWireError (ℕ × ℕ)
decode_two tail = do b ← prefix 2 tail; ok (get_or b 0 0, get_or b 1 0)

unfoldable pub decode_u16 : List ℕ → Result BmWireError ℕ
decode_u16 tail = do b ← prefix 2 tail; ok (from_le_bytes b)

unfoldable pub decode_result : DfuAddress → List ℕ → Result BmWireError DfuResult
unfolding decode_two
decode_result a tail = do
  (success, err_code) ← decode_two tail
  ok (record { addresses = a; success = success; err_code = err_code })

unfoldable pub decode_chunk : DfuAddress → List ℕ → Result BmWireError DfuChunk
unfolding decode_u16
decode_chunk a tail = do
  len ← decode_u16 tail
  if ltb (length tail) (2 + len)
      then err truncated
      else ok (record { addresses = a; payload = take len (drop 2 tail) })

-- The `match` of `decode` on the frame type, given the addresses and what follows them.
unfoldable pub decode_as : ℕ → DfuAddress → List ℕ → Result BmWireError DfuMessage
unfolding decode_info decode_u16 decode_result decode_chunk
decode_as frame_type a tail =
    if frame_type == 0xD0
    then decode_info tail >>= (λ i. ok (start (record { addresses = a; img_info = i })))
    else if frame_type == 0xD1
    then decode_u16 tail >>= (λ n. ok (payload_req (record { addresses = a; seq_num = n })))
    else if frame_type == 0xD2
    then decode_chunk a tail >>= (λ m. ok (payload m))
    else if frame_type == 0xD3
    then decode_result a tail >>= (λ m. ok (update_end m))
    else if frame_type == 0xD4
    then decode_result a tail >>= (λ m. ok (ack m))
    else if frame_type == 0xD5
    then decode_result a tail >>= (λ m. ok (abort m))
    else if frame_type == 0xD6
    then ok (heartbeat a)
    else if frame_type == 0xD7
    then ok (reboot_req a)
    else if frame_type == 0xD8
    then ok (reboot a)
    else if frame_type == 0xD9
    then ok (boot_complete a)
    else err invalid

unfoldable pub decode : List ℕ → Result BmWireError DfuMessage
unfolding decode_as of_body decode_address
decode [] = err truncated
decode (frame_type ∷ rest) = do
  a ← of_body (frame_type ∷ rest)
  decode_as frame_type a (drop min_len (frame_type ∷ rest))
