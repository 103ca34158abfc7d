-- ===== src/Bcmp/Transmit.antt =====
-- bm-wire/src/bcmp/tx.rs: a message put into a frame, and a frame built around a message. The closure
-- that writes the body takes the slice to its length and to the slice as it leaves it.
pub mod Pieces
pub mod RoundTrip
use bristlemouth_rs.Common.{
  ℕ, ◌+◌, List, ◌++◌, ltb, if◌then◌else◌, length, take, drop, Result, err, ok, ◌>>=◌, BmWireError,
  truncated, copy_at,
}
use bristlemouth_rs.Addr.{link_local_prefix, nodeid_to_ip, write_headers}
use bristlemouth_rs.Bcmp.{
  BcmpHeader, bcmp_header_len, bcmp_header_offset, encode, put_checksum, checksum_calc,
}

-- `BcmpHeader::default()` with a type and a sequence number.
abbrev pub fresh_header : ℕ → ℕ → BcmpHeader
fresh_header message_type seq_num = record {
  message_type = message_type;
  checksum = 0;
  flags = 0;
  reserved = 0;
  seq_num = seq_num;
  frag_total = 0;
  frag_id = 0;
  next_header = 0;
}

-- The checksum over the first `len` bytes of the message goes into its field.
unfoldable pub sealed : ℕ → List ℕ → List ℕ
unfolding put_checksum checksum_calc
sealed len frame = put_checksum frame (checksum_calc len frame)

-- A length that `checked_add` refuses is longer than any frame.
unfoldable pub serialize_in_place : List ℕ → ℕ → ℕ → ℕ → Result BmWireError (List ℕ)
unfolding encode sealed
serialize_in_place frame message_type seq_num body_len =
    if ltb (length frame) (bcmp_header_offset + (bcmp_header_len + body_len))
    then err truncated
    else do
      message ← encode (fresh_header message_type seq_num) (drop bcmp_header_offset frame)
      ok (sealed (bcmp_header_len + body_len) (take bcmp_header_offset frame ++ message))

unfoldable pub serialize : List ℕ → ℕ → ℕ → List ℕ → Result BmWireError (List ℕ)
unfolding serialize_in_place copy_at
serialize frame message_type seq_num body =
    if ltb (length frame) (bcmp_header_offset + bcmp_header_len + length body)
    then err truncated
    else serialize_in_place (copy_at frame (bcmp_header_offset + bcmp_header_len) body) message_type
        seq_num (length body)

-- `buf.get_mut(..end)`, `buf.get_mut(start..)`.
abbrev pub get_to : ℕ → List ℕ → Result BmWireError (List ℕ)
get_to end buf = if ltb (length buf) end then err truncated else ok (take end buf)

abbrev pub get_from : ℕ → List ℕ → Result BmWireError (List ℕ)
get_from start buf = if ltb (length buf) start then err truncated else ok (drop start buf)

-- The length of the frame, and the buffer.
unfoldable pub build :
    List ℕ
    → ℕ
    → List ℕ
    → ℕ
    → ℕ
    → (List ℕ → Result BmWireError (ℕ × List ℕ))
    → Result BmWireError (ℕ × List ℕ)
unfolding nodeid_to_ip write_headers serialize_in_place
build buf node_id dst message_type seq_num body = do
  space ← get_from (bcmp_header_offset + bcmp_header_len) buf
  written ← body space
  let src = nodeid_to_ip link_local_prefix node_id
  let payload_len = bcmp_header_len + written.0
  let filled = take (bcmp_header_offset + bcmp_header_len) buf ++ written.1
  headed ← write_headers filled src dst 0xBC 255 payload_len
  frame ← get_to (bcmp_header_offset + payload_len) headed
  sent ← serialize_in_place frame message_type seq_num written.0
  ok (bcmp_header_offset + payload_len, sent ++ drop (bcmp_header_offset + payload_len) headed)
