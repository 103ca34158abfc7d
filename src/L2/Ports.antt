-- ===== src/L2/Ports.antt =====
-- The ports that a frame is sent on.
use bristlemouth_rs.Common.{
  ℕ, ◌-◌, ◌%◌, ◌^◌, ◌<◌, ◌≤◌, ◌≡◌, refl, ap, suc, inl, inr, ◌⊎◌, ◌&&◌, List, arith, ltb, leb,
  Bool-cases, length, get_or, set, ltb→lt, ok, err, truncated,
}
use native.Mathlib.Nat.{two-pow-succ, one-le-pow, pow-le-pow_right}
use bristlemouth_rs.L2.{
  min_frame_with_addresses, requested_egress_port_offset, all_ports_mask,
  take_requested_egress_port,
}

-- A bit below `n` is in the mask of `n` ports.
bit_in_mask : (k n : ℕ) → k < n → n ≤ 16 → 2 ^ k ≤ all_ports_mask n
unfolding all_ports_mask
bit_in_mask k n h w =
    let below : 2 ^ suc k ≤ 2 ^ n = pow-le-pow_right (omega arith) (omega arith) in
    elim (Bool-cases (leb 16 n)) [
      | inl sixteen ↦
          let top : 2 ^ k ≤ 2 ^ 15 = pow-le-pow_right (omega arith) {j = 15} (omega arith) in
          rw sixteen (omega (arith, top))
      | inr fewer ↦ rw fewer (omega (arith, below, two-pow-succ k, one-le-pow k 2 (omega arith)))
    ]

-- Of a device with at most sixteen ports, the frame goes out on the one port asked for, if the device
-- has it, or else on all, and on no other; the request is cleared. Only a frame that is too short to
-- hold its addresses is refused.
pub take_requested_egress_port_cases :
    (frame : List ℕ) (num_ports : ℕ)
    → num_ports ≤ 16
    → let requested = get_or frame requested_egress_port_offset 0 in
      ((length frame < min_frame_with_addresses)
        × (take_requested_egress_port frame num_ports ≡ err truncated))
      ⊎ ((mask : ℕ) × (take_requested_egress_port frame num_ports
            ≡ ok (mask, set frame requested_egress_port_offset 0))
          × (((mask ≡ 2 ^ (requested - 1)) × (0 < requested) × (requested ≤ num_ports))
              ⊎ (mask ≡ all_ports_mask num_ports))
          × (mask ≤ all_ports_mask num_ports))
unfolding take_requested_egress_port
take_requested_egress_port_cases frame num_ports h =
    let requested = get_or frame requested_egress_port_offset 0 in
    elim (Bool-cases (ltb (length frame) min_frame_with_addresses)) [
      | inl short ↦ inl (ltb→lt _ _ short, rw short refl)
      | inr room ↦ elim (Bool-cases (ltb 0 requested && leb requested num_ports)) [
        | inl one ↦
            let shift : (requested - 1) % 16 ≡ requested - 1 = ground arith in
            inr (
              2 ^ ((requested - 1) % 16),
              rw (room, one) refl,
              inl (ap (◌^◌ 2) shift, ground arith, ground arith),
              rw shift (bit_in_mask (requested - 1) num_ports (ground arith) h),
            )
        | inr all ↦ inr (all_ports_mask num_ports, rw (room, all) refl, inr refl, omega arith)
      ]
    ]
