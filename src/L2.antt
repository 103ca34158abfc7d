-- ===== src/L2.antt =====
-- bm-wire/src/l2.rs: what becomes of a frame before it leaves on a port. The offsets are those of
-- bm-wire/src/frame.rs.
pub mod Fields
pub mod Checksum
pub mod Restore
pub mod Ports
use Prim.Native.Nat.{bit_or}
use bristlemouth_rs.Common.{
  ℕ, ◌+◌, ◌-◌, ◌*◌, ◌/◌, ◌%◌, ◌^◌, Bool, true, false, ◌&&◌, Option, none, some, List, ltb, leb,
  ◌==◌, if◌then◌else◌, length, get_or, set, Result, ok, err, BmWireError, truncated, ◌>>=◌, u16_at,
}

abbrev pub min_frame_with_addresses : ℕ
min_frame_with_addresses = 54

abbrev pub min_stampable_frame : ℕ
min_stampable_frame = 62

abbrev pub next_header_offset : ℕ
next_header_offset = 20

abbrev pub ports_offset : ℕ
ports_offset = 24

abbrev pub destination_offset : ℕ
destination_offset = 38

abbrev pub requested_egress_port_offset : ℕ
requested_egress_port_offset = 51

abbrev pub bcmp_checksum_offset : ℕ
bcmp_checksum_offset = 56

abbrev pub udp_checksum_offset : ℕ
udp_checksum_offset = 60

abbrev pub ethernet_type_ipv6 : ℕ
ethernet_type_ipv6 = 0x86DD

-- `ethernet_type` of frame.rs.
unfoldable pub ethernet_type : List ℕ → Option ℕ
ethernet_type frame =
    if ltb (length frame) 14 then none else some (get_or frame 12 0 * 256 + get_or frame 13 0)

unfoldable pub is_ipv6 : List ℕ → Bool
unfolding ethernet_type
is_ipv6 frame = elim (ethernet_type frame) [ none ↦ false | some t ↦ t == ethernet_type_ipv6 ]

pub data TxKind : Type 0 where
  global_multicast link_local_multicast dropped : TxKind

-- `is_global_multicast` and `is_link_local_multicast` of the destination address.
unfoldable pub tx_kind : List ℕ → TxKind
tx_kind frame =
    let addr = λ (i : ℕ). get_or frame (destination_offset + i) 0 in
    if ltb (length frame) min_frame_with_addresses
    then dropped
    else if (addr 0 == 0xFF) && (addr 1 == 0x03) && (addr 15 == 0x01)
    then global_multicast
    else if (addr 0 == 0xFF) && (addr 1 == 0x02)
    then link_local_multicast
    else dropped

unfoldable pub all_ports_mask : ℕ → ℕ
all_ports_mask num_ports = if leb 16 num_ports then 65535 else 2 ^ num_ports - 1

-- The mask and the frame with the request cleared. The shift takes its amount modulo the width, as it
-- does where overflow is not checked.
unfoldable pub take_requested_egress_port : List ℕ → ℕ → Result BmWireError (ℕ × List ℕ)
unfolding all_ports_mask
take_requested_egress_port frame num_ports =
    let requested = get_or frame requested_egress_port_offset 0 in
    let cleared = set frame requested_egress_port_offset 0 in
    if ltb (length frame) min_frame_with_addresses
    then err truncated
    else if ltb 0 requested && leb requested num_ports
    then ok (2 ^ ((requested - 1) % 16), cleared)
    else ok (all_ports_mask num_ports, cleared)

pub data Patch : Type 0 where
  add subtract : Patch

-- `wrapping_add` and `wrapping_sub` of a port, modulo `m`.
unfoldable pub apply_port : Patch → ℕ → ℕ → ℕ → ℕ
apply_port add m x port = (x + port) % m
apply_port subtract m x port = (x + (m - port)) % m

-- `x ^ 0xFF` of a byte is `255 - x`.
unfoldable pub patch_udp : Patch → ℕ → List ℕ → List ℕ
unfolding apply_port
patch_udp op port frame =
    set frame udp_checksum_offset
      (255 - apply_port op 256 (255 - get_or frame udp_checksum_offset 0) port)

-- `x ^ 0xFFFF` of a 16-bit number is `65535 - x`.
unfoldable pub patch_bcmp : Patch → ℕ → List ℕ → List ℕ
unfolding apply_port
patch_bcmp op port frame =
    let checksum = 65535 - apply_port op 65536 (65535 - u16_at frame bcmp_checksum_offset) port in
    set (set frame bcmp_checksum_offset (checksum % 256)) (bcmp_checksum_offset + 1)
      (checksum / 256)

-- The part of `patch` behind the stamp.
unfoldable pub patch_checksum : Patch → ℕ → List ℕ → List ℕ
unfolding patch_udp patch_bcmp is_ipv6
patch_checksum op port frame =
    if is_ipv6 frame
    then if get_or frame next_header_offset 0 == 17
      then patch_udp op port frame
      else if get_or frame next_header_offset 0 == 0xBC
      then patch_bcmp op port frame
      else frame
    else frame

unfoldable pub stamp : Patch → ℕ → List ℕ → List ℕ
stamp add port frame = set frame ports_offset (bit_or (get_or frame ports_offset 0) port)
stamp subtract port frame = frame

unfoldable pub patch : List ℕ → ℕ → Patch → Result BmWireError (List ℕ)
unfolding patch_checksum stamp
patch frame port op =
    if ltb (length frame) min_stampable_frame
    then err truncated
    else ok (patch_checksum op port (stamp op port frame))

unfoldable pub add_egress_port : List ℕ → ℕ → Result BmWireError (List ℕ)
add_egress_port frame port = patch frame port add

unfoldable pub revert_checksum : List ℕ → ℕ → Result BmWireError (List ℕ)
revert_checksum frame port = patch frame port subtract

unfoldable pub clear_ports : List ℕ → Result BmWireError (List ℕ)
clear_ports frame =
    if ltb (length frame) min_frame_with_addresses
    then err truncated
    else ok (set frame ports_offset 0)

-- An error leaves the frame as it was: `let _ =`.
abbrev pub or_same : Result BmWireError (List ℕ) → List ℕ → List ℕ
or_same (err _) frame = frame
or_same (ok next) frame = next

-- `Stamped::drop`: the frame cleared and its checksum reverted.
unfoldable pub unstamp : List ℕ → ℕ → List ℕ
unfolding clear_ports revert_checksum
unstamp frame port =
    let cleared = or_same (clear_ports frame) frame in
    or_same (revert_checksum cleared port) cleared

-- The frame as `send` gets it, and the frame after the stamp is dropped.
unfoldable pub with_egress_port : List ℕ → ℕ → Result BmWireError (List ℕ × List ℕ)
unfolding add_egress_port unstamp
with_egress_port frame port = do
  stamped ← add_egress_port frame port
  ok (stamped, unstamp stamped port)
