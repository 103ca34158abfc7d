-- ===== src/Bcmp/Transmit/Pieces.antt =====
-- The headers and the message that `build` puts into a frame.
use bristlemouth_rs.Common.{
  ℕ, ◌+◌, ◌^◌, ◌<◌, ◌≤◌, ◌≡◌, refl, sym, ap, ◌∙◌, inl, inr, ok, List, ◌++◌, arith, length, take,
  drop, All, All-append, All-get_or, IsByte, length-append, take-append_of, drop-append_of,
  Bool-cases, le→ltb, fill_prefix_ok, append_assoc, to_le_bytes, from_le_bytes, u16_at, u32_at,
}
use bristlemouth_rs.Addr.{
  to_be_bytes, nodeid_to_ip, link_local_prefix, destination_mac, mac_address, to_node_id,
  header_bytes, write_headers, multicast_mac_from_ipv6, is_multicast,
}
use bristlemouth_rs.Bcmp.{BcmpHeader, bcmp_header_len, header_of, encoded_header, encode}
use bristlemouth_rs.Bcmp.Framing.{framed}
use bristlemouth_rs.Bcmp.Sealing.{with_field}
use bristlemouth_rs.Bcmp.Transmit.{fresh_header, sealed, serialize_in_place}

pub encode_ok :
    (h : BcmpHeader) (buf : List ℕ)
    → 13 ≤ length buf
    → encode h buf ≡ ok (encoded_header h ++ drop 13 buf)
unfolding encode encoded_header to_le_bytes
encode_ok h buf room = fill_prefix_ok buf (encoded_header h) room

pub serialize_in_place_front :
    (front rest : List ℕ) (message_type seq_num n : ℕ)
    → length front ≡ 54
    → length rest ≡ 13 + n
    → serialize_in_place (front ++ rest) message_type seq_num n
      ≡ ok (
          sealed
            (13 + n)
            (front ++ (encoded_header (fresh_header message_type seq_num) ++ drop 13 rest)))
unfolding serialize_in_place
serialize_in_place_front front rest message_type seq_num n ef er =
    rw
      (
        le→ltb (length (front ++ rest)) (54 + (13 + n)) (omega (arith, length-append front rest)),
        drop-append_of front rest 54 ef,
        take-append_of front rest 54 ef,
        encode_ok (fresh_header message_type seq_num) rest (omega arith),
      )
      refl

-- The MACs that a node writes.
abbrev pub macs_of : ℕ → List ℕ → List ℕ
macs_of id dst = destination_mac dst ++ mac_address (to_node_id (nodeid_to_ip link_local_prefix id))

pub length-destination_mac : (dst : List ℕ) → length (destination_mac dst) ≡ 6
unfolding destination_mac multicast_mac_from_ipv6
length-destination_mac dst = elim (Bool-cases (is_multicast dst)) [
  | inl m ↦ rw m refl
  | inr u ↦ rw u refl
]

pub length-macs_of : (id : ℕ) (dst : List ℕ) → length (macs_of id dst) ≡ 12
unfolding mac_address to_be_bytes
length-macs_of id dst = omega (
  arith,
  length-destination_mac dst,
  length-append (destination_mac dst)
      (mac_address (to_node_id (nodeid_to_ip link_local_prefix id))),
)

pub header_bytes-framed :
    (len id : ℕ) (dst rest : List ℕ)
    → header_bytes (nodeid_to_ip link_local_prefix id) dst 0xBC 255 len ++ rest
      ≡ framed (macs_of id dst) len id dst rest
unfolding header_bytes framed mac_address to_be_bytes nodeid_to_ip
header_bytes-framed len id dst rest =
    append_assoc (destination_mac dst) _ rest ∙ sym (append_assoc (destination_mac dst) _ _)

pub length-header_bytes :
    (len id : ℕ) (dst : List ℕ)
    → length dst ≡ 16
    → length (header_bytes (nodeid_to_ip link_local_prefix id) dst 0xBC 255 len) ≡ 54
unfolding header_bytes mac_address to_be_bytes nodeid_to_ip
length-header_bytes len id dst e =
    omega (arith, length-destination_mac dst, length-append (destination_mac dst) _)

pub write_headers-framed :
    (buf : List ℕ) (len id : ℕ) (dst : List ℕ)
    → 54 ≤ length buf
    → length dst ≡ 16
    → len < 65536
    → write_headers buf (nodeid_to_ip link_local_prefix id) dst 0xBC 255 len
      ≡ ok (framed (macs_of id dst) len id dst (drop 54 buf))
unfolding write_headers
write_headers-framed buf len id dst room e small =
    rw
      (
        le→ltb 65535 len (omega arith),
        fill_prefix_ok buf (header_bytes (nodeid_to_ip link_local_prefix id) dst 0xBC 255 len)
            (omega (arith, length-header_bytes len id dst e)),
        length-header_bytes len id dst e,
      )
      (ap ok (header_bytes-framed len id dst (drop 54 buf)))

pub destination_mac-bytes :
    (dst : List ℕ) → length dst ≡ 16 → All IsByte dst → All IsByte (destination_mac dst)
unfolding destination_mac multicast_mac_from_ipv6
destination_mac-bytes dst e a = elim (Bool-cases (is_multicast dst)) [
  | inl m ↦ rw m (
    omega arith,
    (
      omega arith,
      (
        All-get_or IsByte dst 12 0 (omega arith) a,
        (
          All-get_or IsByte dst 13 0 (omega arith) a,
          (
            All-get_or IsByte dst 14 0 (omega arith) a,
            (All-get_or IsByte dst 15 0 (omega arith) a, tt),
          ),
        ),
      ),
    ),
  )
  | inr u ↦ rw u (omega arith)
]

pub macs_of-bytes :
    (id : ℕ) (dst : List ℕ) → length dst ≡ 16 → All IsByte dst → All IsByte (macs_of id dst)
unfolding mac_address to_be_bytes
macs_of-bytes id dst e a =
    All-append IsByte (destination_mac dst) _ (destination_mac-bytes dst e a) (omega arith)

-- The message of a fresh header, with its checksum put in.
pub fresh_message :
    (message_type seq_num c : ℕ) (body : List ℕ)
    → message_type < 65536
    → seq_num < 2 ^ 32
    → c < 65536
    → header_of (
        take bcmp_header_len
          (with_field c (encoded_header (fresh_header message_type seq_num) ++ body)))
      ≡ record (fresh_header message_type seq_num) { checksum = c }
unfolding header_of encoded_header to_le_bytes u16_at u32_at from_le_bytes
fresh_message message_type seq_num c body hm hs hc = ground arith

pub encoded_header-bytes :
    (message_type seq_num : ℕ) → All IsByte (encoded_header (fresh_header message_type seq_num))
unfolding encoded_header to_le_bytes
encoded_header-bytes message_type seq_num = omega arith
