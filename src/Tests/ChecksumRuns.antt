-- ===== src/Tests/ChecksumRuns.antt =====
-- Runs of the checksum.
use bristlemouth_rs.Common.{ℕ, ◌-◌, ◌≡◌, refl, List, [], ◌∷◌, ◌++◌, arith, replicate}
use bristlemouth_rs.Checksum.{ipv6_pseudo_checksum, swap_bytes}
use bristlemouth_rs.Checksum.Rfc2460.{
  pseudo_packet, ones_complement_sum, ipv6_pseudo_checksum-pseudo_packet,
}
use bristlemouth_rs.Tests.L2Runs.{all_bytes, all_bytes_sound}

-- `real_packet_heartbeat` of the code's tests.
abbrev pub src_node : List ℕ
src_node = 0xfe ∷ 0x80 ∷ (replicate 10 0 ++ (0x55 ∷ 0xaa ∷ 0x00 ∷ 0x11 ∷ []))

abbrev pub all_nodes : List ℕ
all_nodes = 0xff ∷ 0x02 ∷ (replicate 13 0 ++ (0x01 ∷ []))

abbrev heartbeat : List ℕ
heartbeat =
    0x01 ∷ (replicate 12 0 ++ (0x30 ∷ 0x7c ∷ 0x71 ∷ 0x22 ∷ 0 ∷ 0 ∷ 0 ∷ 0 ∷ 0x0a ∷ 0 ∷ 0 ∷ 0 ∷ []))

real_packet_heartbeat : ipv6_pseudo_checksum src_node all_nodes 0xbc heartbeat ≡ 0x3f0c
unfolding ipv6_pseudo_checksum
real_packet_heartbeat = refl

ipv6_pseudo_checksum-pseudo_packet_example :
    ipv6_pseudo_checksum src_node all_nodes 0xbc heartbeat
    ≡ swap_bytes (65535 - ones_complement_sum (pseudo_packet src_node all_nodes 0xbc heartbeat))
unfolding all_bytes
ipv6_pseudo_checksum-pseudo_packet_example =
    ipv6_pseudo_checksum-pseudo_packet src_node all_nodes 0xbc heartbeat
      (all_bytes_sound src_node refl) (all_bytes_sound all_nodes refl)
      (all_bytes_sound heartbeat refl) refl refl (omega arith) (omega arith)
