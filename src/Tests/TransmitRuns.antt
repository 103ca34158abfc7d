-- ===== src/Tests/TransmitRuns.antt =====
-- A heartbeat built into a frame, and sent on.
use bristlemouth_rs.Common.{
  ℕ, ◌+◌, ◌-◌, ◌^◌, ◌<◌, ◌≤◌, ◌≡◌, ◌≢◌, ◌⊎◌, refl, List, [], ◌∷◌, ◌++◌, some, ok, length, take,
  drop, replicate, arith, Bool, Result, BmWireError, ◌>>=◌, copy_at,
}
use bristlemouth_rs.Addr.{nodeid_to_ip, link_local_prefix, link_local_multicast, write_headers}
use bristlemouth_rs.Bcmp.{header_of, accept}
use bristlemouth_rs.Bcmp.Transmit.{fresh_header, build}
use bristlemouth_rs.Bcmp.Transmit.RoundTrip.{build-accept}
use bristlemouth_rs.Bcmp.Forward.{
  egress_ports, serialize_forwarded, apply_port_specific_destination, take_egress_port,
  ll_forward_is_a_no_op,
}
use bristlemouth_rs.Bcmp.Forward.Ports.{count, egress_ports_count}
use bristlemouth_rs.Bcmp.Forward.Request.{apply-take_egress_port}
use bristlemouth_rs.Bcmp.Forward.RoundTrip.{serialize_forwarded-accept}
use bristlemouth_rs.Tests.BcmpRuns.{heartbeat_frame}
use bristlemouth_rs.Tests.L2Runs.{all_bytes, all_bytes_sound}

abbrev beat_body : List ℕ
beat_body = 0x30 ∷ 0x7c ∷ 0x71 ∷ 0x22 ∷ 0 ∷ 0 ∷ 0 ∷ 0 ∷ 0x0a ∷ 0 ∷ 0 ∷ 0 ∷ []

abbrev empty_buffer : List ℕ
empty_buffer = replicate 82 0

abbrev put_beat : List ℕ → Result BmWireError (ℕ × List ℕ)
put_beat space = ok (12, beat_body ++ drop 12 space)

-- The captured frame but for its MACs.
reproduces_captured :
    (build empty_buffer 0x55AA0011 link_local_multicast 1 0 put_beat >>= λ r.
    ok (drop 12 (take r.0 r.1)))
    ≡ ok (drop 12 heartbeat_frame)
unfolding build
reproduces_captured = refl

build-accept_example :
    (c : ℕ) × (out : List ℕ) × (build empty_buffer 0x55AA0011 link_local_multicast 1 7 put_beat
      ≡ ok (54 + (13 + 12), out))
    × (accept (take (54 + (13 + 12)) out) ≡ (
      some (
          ok (record {
            header = record (fresh_header 1 7) { checksum = c };
            body = take 12 (beat_body ++ drop 12 (drop 67 empty_buffer));
            src = nodeid_to_ip link_local_prefix 0x55AA0011;
            dst = link_local_multicast;
            ingress_port = 0;
          })),
      take (54 + (13 + 12)) out,
    ))
unfolding all_bytes
build-accept_example =
    build-accept empty_buffer 0x55AA0011 link_local_multicast 1 7 12
      (beat_body ++ drop 12 (drop 67 empty_buffer)) put_beat (omega arith) refl (omega arith)
      (omega arith) refl (omega arith) (omega arith) (all_bytes_sound link_local_multicast refl)
      (all_bytes_sound (beat_body ++ drop 12 (drop 67 empty_buffer)) refl)

abbrev came_in : List ℕ
came_in = drop 54 heartbeat_frame

serialize_forwarded-accept_example :
    (c : ℕ) × (out : List ℕ) × ((write_headers empty_buffer
          (nodeid_to_ip link_local_prefix 9)
          link_local_multicast
          0xBC
          255
          (length came_in)
        >>= λ headed. serialize_forwarded headed came_in)
      ≡ ok (54 + length came_in, out))
    × (accept out ≡ (
      some (
          ok (record {
            header = record (header_of came_in) { checksum = c };
            body = drop 13 came_in;
            src = nodeid_to_ip link_local_prefix 9;
            dst = link_local_multicast;
            ingress_port = 0;
          })),
      out,
    ))
unfolding all_bytes
serialize_forwarded-accept_example =
    serialize_forwarded-accept empty_buffer 9 link_local_multicast came_in (omega arith)
      (omega arith) (omega arith) refl (all_bytes_sound link_local_multicast refl)
      (all_bytes_sound came_in refl) (all_bytes_sound empty_buffer refl)

apply-take_egress_port_example :
    (apply_port_specific_destination heartbeat_frame 3 >>= λ f. take_egress_port f 4)
    ≡ ok (2 ^ (3 - 1), copy_at heartbeat_frame 0 (0x33 ∷ 0x33 ∷ 0 ∷ 3 ∷ 0 ∷ 1 ∷ []))
apply-take_egress_port_example =
    apply-take_egress_port heartbeat_frame 3 4 (omega arith) refl (omega arith) (omega arith)
      (omega arith)

egress_ports_count_example :
    ((1 ≤ 3) × (3 ≤ 4) × (◌≢◌ {A = ℕ} 3 2) × (count 3 (egress_ports 4 2) ≡ 1))
    ⊎ (((3 < 1) ⊎ (4 < 3) ⊎ (◌≡◌ {A = ℕ} 3 2)) × (count 3 (egress_ports 4 2) ≡ 0))
egress_ports_count_example = egress_ports_count 4 2 3

-- A port of its own is all that a device with one port has.
no_other_port : ll_forward_is_a_no_op 1 1 ≡ Bool.true
unfolding ll_forward_is_a_no_op
no_other_port = refl
