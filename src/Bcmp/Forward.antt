-- ===== src/Bcmp/Forward.antt =====
-- bm-wire/src/bcmp/forward.rs: a link-local message sent on through the other ports.
pub mod Ports
pub mod RoundTrip
pub mod Request
use bristlemouth_rs.Common.{
  ℕ, zero, suc, ◌+◌, ◌*◌, ◌^◌, Bool, not, List, [], ◌∷◌, ◌++◌, map, ltb, ◌==◌, if◌then◌else◌,
  length, take, drop, Result, err, ok, ◌>>=◌, BmWireError, truncated, copy_at, to_le_bytes,
}
use bristlemouth_rs.Addr.{link_local_multicast, multicast_mac_from_ipv6}
use bristlemouth_rs.L2.{take_requested_egress_port, min_frame_with_addresses, destination_offset}
use bristlemouth_rs.Bcmp.{
  bcmp_header_len, bcmp_header_offset, put_checksum, zero_checksum, checksum_calc,
}

-- The ports `from`, `from + 1`, and so on, `count` of them.
unfoldable pub ports_from : ℕ → ℕ → List ℕ
ports_from zero from = []
ports_from (suc count) from = from ∷ ports_from count (from + 1)

unfoldable pub without_port : ℕ → List ℕ → List ℕ
without_port ingress_port [] = []
without_port ingress_port (port ∷ ports) =
    let rest = without_port ingress_port ports in if port == ingress_port then rest else port ∷ rest

unfoldable pub egress_ports : ℕ → ℕ → List ℕ
unfolding ports_from without_port
egress_ports num_ports ingress_port = without_port ingress_port (ports_from num_ports 1)

abbrev pub is_empty : List ℕ → Bool
is_empty [] = Bool.true
is_empty (x ∷ xs) = Bool.false

unfoldable pub ll_forward_is_a_no_op : ℕ → ℕ → Bool
unfolding egress_ports
ll_forward_is_a_no_op num_ports ingress_port = is_empty (egress_ports num_ports ingress_port)

-- Of the constant and the shifted port, no bit of which overlaps, the sum is the `|`.
unfoldable pub port_specific_destination : ℕ → List ℕ
unfolding copy_at to_le_bytes
port_specific_destination egress_port =
    copy_at link_local_multicast 12 (to_le_bytes 4 (0x01000000 + egress_port * 2 ^ 8))

-- The length of the frame, and the frame.
unfoldable pub serialize_forwarded : List ℕ → List ℕ → Result BmWireError (ℕ × List ℕ)
unfolding copy_at zero_checksum put_checksum checksum_calc
serialize_forwarded frame bcmp =
    let end = bcmp_header_offset + length bcmp in
    let copied = zero_checksum (copy_at frame bcmp_header_offset bcmp) in
    if ltb (length bcmp) bcmp_header_len
    then err truncated
    else if ltb (length frame) end
    then err truncated
    else ok (end, put_checksum copied (checksum_calc (length bcmp) copied))

unfoldable pub apply_port_specific_destination : List ℕ → ℕ → Result BmWireError (List ℕ)
unfolding port_specific_destination copy_at multicast_mac_from_ipv6
apply_port_specific_destination frame egress_port =
    let dst = port_specific_destination egress_port in
    if ltb (length frame) min_frame_with_addresses
    then err truncated
    else ok (copy_at (copy_at frame destination_offset dst) 0 (multicast_mac_from_ipv6 dst))

unfoldable pub take_egress_port : List ℕ → ℕ → Result BmWireError (ℕ × List ℕ)
unfolding take_requested_egress_port
take_egress_port frame num_ports = take_requested_egress_port frame num_ports
