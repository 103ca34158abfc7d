-- ===== src/Bcmp.antt =====
-- bm-wire/src/bcmp/header.rs and bm-wire/src/bcmp/rx.rs: the BCMP header, and the check of a frame
-- that arrives. A frame is the list of its bytes, and `accept` gives it back as it leaves it.
pub mod Fields
pub mod Receive
pub mod Transmit
pub mod Forward
pub mod Framing
pub mod Sealing
use bristlemouth_rs.Common.{
  ℕ, ◌+◌, ◌*◌, ◌/◌, ◌%◌, Option, none, some, List, ltb, ◌==◌, if◌then◌else◌, length, get_or, set,
  take, drop, Result, ok, err, BmWireError, ◌>>=◌, u16_at, u32_at, prefix, ◌++◌, ◌∷◌, [],
  to_le_bytes, fill_prefix,
}
use bristlemouth_rs.L2.{min_frame_with_addresses, next_header_offset, ports_offset, is_ipv6}
use bristlemouth_rs.Checksum.{ipv6_pseudo_checksum}

abbrev pub bcmp_header_len : ℕ
bcmp_header_len = 13

pub record BcmpHeader : Type 0 where
  pub message_type : ℕ
  pub checksum : ℕ
  pub flags : ℕ
  pub reserved : ℕ
  pub seq_num : ℕ
  pub frag_total : ℕ
  pub frag_id : ℕ
  pub next_header : ℕ

-- The fields of a buffer that is long enough.
unfoldable pub header_of : List ℕ → BcmpHeader
header_of buf = record {
  message_type = u16_at buf 0;
  checksum = u16_at buf 2;
  flags = get_or buf 4 0;
  reserved = get_or buf 5 0;
  seq_num = u32_at buf 6;
  frag_total = get_or buf 10 0;
  frag_id = get_or buf 11 0;
  next_header = get_or buf 12 0;
}

unfoldable pub decode : List ℕ → Result BmWireError BcmpHeader
unfolding header_of prefix
decode buf = do fixed ← prefix bcmp_header_len buf; ok (header_of fixed)

unfoldable pub encoded_header : BcmpHeader → List ℕ
unfolding to_le_bytes
encoded_header h =
    to_le_bytes 2 h.message_type
    ++ (to_le_bytes 2 h.checksum
        ++ (h.flags
            ∷ h.reserved
            ∷ (to_le_bytes 4 h.seq_num ++ (h.frag_total ∷ h.frag_id ∷ h.next_header ∷ []))))

-- The buffer with the header in front.
unfoldable pub encode : BcmpHeader → List ℕ → Result BmWireError (List ℕ)
unfolding encoded_header fill_prefix
encode h buf = fill_prefix buf (encoded_header h)

-- `Truncated` is `too_short` here.
pub data RxError : Type 0 where
  too_short not_ipv6 not_bcmp bad_checksum : RxError

pub record Received : Type 0 where
  pub header : BcmpHeader
  pub body : List ℕ
  pub src : List ℕ
  pub dst : List ℕ
  pub ingress_port : ℕ

abbrev pub bcmp_header_offset : ℕ
bcmp_header_offset = 54

abbrev pub checksum_offset : ℕ
checksum_offset = 56

unfoldable pub read_addr : List ℕ → ℕ → List ℕ
read_addr frame offset = take 16 (drop offset frame)

unfoldable pub payload_len : List ℕ → ℕ
payload_len frame = get_or frame 18 0 * 256 + get_or frame 19 0

-- The header and the body, of `len` bytes.
unfoldable pub bcmp_of : ℕ → List ℕ → List ℕ
bcmp_of len frame = take len (drop bcmp_header_offset frame)

-- The ingress nibble and the legacy port bytes of the source address; `x & 0x0F` is `x % 16`.
unfoldable pub clear_source : List ℕ → List ℕ
clear_source frame =
    let legacy = set (set frame 26 0) 27 0 in
    set legacy ports_offset (get_or legacy ports_offset 0 % 16)

unfoldable pub put_checksum : List ℕ → ℕ → List ℕ
put_checksum frame w = set (set frame checksum_offset (w % 256)) (checksum_offset + 1) (w / 256)

unfoldable pub zero_checksum : List ℕ → List ℕ
zero_checksum frame = set (set frame checksum_offset 0) (checksum_offset + 1) 0

unfoldable pub checksum_calc : ℕ → List ℕ → ℕ
unfolding read_addr bcmp_of ipv6_pseudo_checksum
checksum_calc len frame =
    ipv6_pseudo_checksum (read_addr frame 22) (read_addr frame 38) 0xBC (bcmp_of len frame)

-- `none` is the panic of `expect`.
abbrev pub Outcome : Type 0
Outcome = Option (Result RxError Received)

abbrev pub hand_over : Result BmWireError BcmpHeader → List ℕ → List ℕ → List ℕ → ℕ → Outcome
hand_over (err _) bcmp src dst port = none
hand_over (ok h) bcmp src dst port = some (
    ok (record {
      header = h;
      body = drop bcmp_header_len bcmp;
      src = src;
      dst = dst;
      ingress_port = port;
    }))

-- From the comparison of the checksums; `zeroed` is the frame without its checksum.
unfoldable pub verify : ℕ → ℕ → ℕ → List ℕ → Outcome × List ℕ
unfolding checksum_calc put_checksum bcmp_of read_addr decode
verify port len checksum_read zeroed =
    let restored = put_checksum zeroed checksum_read in
    let bcmp = bcmp_of len restored in
    if checksum_calc len zeroed == checksum_read
    then (hand_over (decode bcmp) bcmp (read_addr zeroed 22) (read_addr zeroed 38) port, restored)
    else (some (err bad_checksum), zeroed)

-- `process_received_message` of the C.
unfoldable pub process_received : ℕ → List ℕ → Outcome × List ℕ
unfolding clear_source zero_checksum verify
process_received len frame =
    let cleared = clear_source frame in
    verify (get_or frame ports_offset 0 / 16 % 16) len (u16_at cleared checksum_offset)
      (zero_checksum cleared)

abbrev pub turn_away : RxError → List ℕ → Outcome × List ℕ
turn_away e frame = (some (err e), frame)

unfoldable pub accept : List ℕ → Outcome × List ℕ
unfolding payload_len is_ipv6 process_received
accept frame =
    if ltb (length frame) min_frame_with_addresses
    then turn_away too_short frame
    else if is_ipv6 frame
    then if ltb (length frame) (payload_len frame + min_frame_with_addresses)
      then turn_away too_short frame
      else if get_or frame next_header_offset 0 == 0xBC
      then if ltb (payload_len frame) bcmp_header_len
        then turn_away too_short frame
        else process_received (payload_len frame) frame
      else turn_away not_bcmp frame
    else turn_away not_ipv6 frame
