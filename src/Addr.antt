-- ===== src/Addr.antt =====
-- bm-wire/src/addr.rs: the addresses of a node. An IPv6 address is the list of its 16 bytes, a MAC
-- that of its 6. bm-wire/src/frame.rs: the headers in front of a payload.
use bristlemouth_rs.Common.{
  ℕ, zero, suc, ◌+◌, ◌*◌, ◌/◌, ◌%◌, ◌^◌, Bool, List, [], ◌∷◌, ◌++◌, ltb, ◌==◌, if◌then◌else◌,
  get_or, replicate, drop, Result, err, BmWireError, invalid, fill_prefix,
}

-- `to_be_bytes` of a number of `n` bytes, its high bytes dropped.
unfoldable pub to_be_bytes : ℕ → ℕ → List ℕ
to_be_bytes zero v = []
to_be_bytes (suc n) v = (v / 256 ^ n % 256) ∷ to_be_bytes n v

unfoldable pub from_be_bytes : ℕ → List ℕ → ℕ
from_be_bytes acc [] = acc
from_be_bytes acc (b ∷ bs) = from_be_bytes (acc * 256 + b) bs

abbrev pub link_local_prefix : ℕ
link_local_prefix = 0xFE800000

abbrev pub link_local_multicast : List ℕ
link_local_multicast = 0xFF ∷ 0x02 ∷ (replicate 13 0 ++ (0x01 ∷ []))

unfoldable pub nodeid_to_ip : ℕ → ℕ → List ℕ
unfolding to_be_bytes
nodeid_to_ip prefix id = to_be_bytes 4 prefix ++ (replicate 4 0 ++ to_be_bytes 8 id)

unfoldable pub to_node_id : List ℕ → ℕ
unfolding from_be_bytes
to_node_id addr = from_be_bytes 0 (drop 8 addr)

-- `00:00` and the low 32 bits.
unfoldable pub mac_address : ℕ → List ℕ
unfolding to_be_bytes
mac_address id = 0 ∷ 0 ∷ to_be_bytes 4 id

unfoldable pub multicast_mac_from_ipv6 : List ℕ → List ℕ
multicast_mac_from_ipv6 dst =
    0x33 ∷ 0x33 ∷ get_or dst 12 0 ∷ get_or dst 13 0 ∷ get_or dst 14 0 ∷ get_or dst 15 0 ∷ []

unfoldable pub is_multicast : List ℕ → Bool
is_multicast addr = get_or addr 0 0 == 0xFF

unfoldable pub destination_mac : List ℕ → List ℕ
unfolding is_multicast multicast_mac_from_ipv6
destination_mac dst = if is_multicast dst then multicast_mac_from_ipv6 dst else replicate 6 0xFF

-- The 54 bytes of the Ethernet and the IPv6 header.
unfoldable pub header_bytes : List ℕ → List ℕ → ℕ → ℕ → ℕ → List ℕ
unfolding destination_mac mac_address to_node_id to_be_bytes
header_bytes src dst next_header hop_limit payload_len =
    destination_mac dst
    ++ (mac_address (to_node_id src)
        ++ (0x86
            ∷ 0xDD
            ∷ 0x60
            ∷ 0
            ∷ 0
            ∷ 0
            ∷ (to_be_bytes 2 payload_len ++ (next_header ∷ hop_limit ∷ (src ++ dst)))))

-- The buffer with the headers in front.
unfoldable pub write_headers : List ℕ → List ℕ → List ℕ → ℕ → ℕ → ℕ → Result BmWireError (List ℕ)
unfolding header_bytes fill_prefix
write_headers buf src dst next_header hop_limit payload_len =
    if ltb 65535 payload_len
    then err invalid
    else fill_prefix buf (header_bytes src dst next_header hop_limit payload_len)
