-- ===== src/L2/Restore.antt =====
-- A frame stamped for a port is the frame it was once the stamp is dropped.
use Prim.Native.Nat.{bit_or, bit_or-bitwise}
use bristlemouth_rs.Common.{
  ℕ, ◌<◌, ◌≤◌, ◌≡◌, ◌⊎◌, refl, sym, ap, ◌∙◌, subst, inl, inr, true, List, arith, ltb, Bool-cases,
  length, get_or, set, All, ok, err, truncated, IsByte, length-set, get_or-set_self, set-set,
  set-get_or, ltb→le, ltb→lt, le→ltb,
}
use bristlemouth_rs.L2.{
  min_stampable_frame, ports_offset, add, patch_checksum, stamp, patch, add_egress_port,
  revert_checksum, clear_ports, unstamp, with_egress_port,
}
use bristlemouth_rs.L2.Checksum.{length-patch_checksum, patch_checksum-set, patch_checksum-undone}

zero-bit_or : (b : ℕ) → bit_or 0 b ≡ b
zero-bit_or b = bit_or-bitwise 0 b

-- A frame whose ports byte is clear, stamped.
abbrev stamped_for : ℕ → List ℕ → List ℕ
stamped_for port frame = set (patch_checksum add port frame) ports_offset port

length-stamped_for : (port : ℕ) (frame : List ℕ) → length (stamped_for port frame) ≡ length frame
length-stamped_for port frame =
    length-set (patch_checksum add port frame) ports_offset port
    ∙ length-patch_checksum add port frame

add_egress_port_short :
    (frame : List ℕ) (port : ℕ)
    → ltb (length frame) min_stampable_frame ≡ true
    → add_egress_port frame port ≡ err truncated
unfolding add_egress_port patch
add_egress_port_short frame port short = rw short refl

add_egress_port_clear :
    (frame : List ℕ) (port : ℕ)
    → min_stampable_frame ≤ length frame
    → get_or frame ports_offset 0 ≡ 0
    → add_egress_port frame port ≡ ok (stamped_for port frame)
unfolding add_egress_port patch stamp
add_egress_port_clear frame port fits clear =
    rw (le→ltb _ _ fits, clear, zero-bit_or port)
      (ap ok (sym (patch_checksum-set add port port frame fits)))

clear_ports_stamped :
    (frame : List ℕ) (port : ℕ)
    → min_stampable_frame ≤ length frame
    → get_or frame ports_offset 0 ≡ 0
    → clear_ports (stamped_for port frame) ≡ ok (patch_checksum add port frame)
unfolding clear_ports
clear_ports_stamped frame port fits clear =
    let same : set frame ports_offset 0 ≡ frame =
      subst (λ b. set frame ports_offset b ≡ frame) clear (set-get_or frame ports_offset 0) in
    rw (le→ltb (length (stamped_for port frame)) 54 (omega (arith, length-stamped_for port frame)))
      (ap ok (
        set-set (patch_checksum add port frame) ports_offset port 0
        ∙ patch_checksum-set add port 0 frame fits
        ∙ ap (patch_checksum add port) same))

unstamp_stamped :
    (frame : List ℕ) (port : ℕ)
    → All IsByte frame
    → port < 256
    → min_stampable_frame ≤ length frame
    → get_or frame ports_offset 0 ≡ 0
    → unstamp (stamped_for port frame) port ≡ frame
unfolding unstamp revert_checksum patch stamp
unstamp_stamped frame port a hp fits clear =
    rw (unstamp, clear_ports_stamped frame port fits clear)
      (rw
        (le→ltb (length (patch_checksum add port frame)) 62
          (omega (arith, length-patch_checksum add port frame)))
        (patch_checksum-undone port frame hp a fits))

-- `with_egress_port` on a frame whose ports byte is clear, for a port that is a byte. A frame shorter
-- than 62 bytes is refused; any other is handed on with the port in the ports byte and is, after the
-- stamp is dropped, the frame it was in every byte, the checksum included.
pub with_egress_port_restores :
    (frame : List ℕ) (port : ℕ)
    → All IsByte frame
    → port < 256
    → get_or frame ports_offset 0 ≡ 0
    → ((length frame < min_stampable_frame) × (with_egress_port frame port ≡ err truncated))
      ⊎ ((sent : List ℕ) × (with_egress_port frame port ≡ ok (sent, frame))
          × (get_or sent ports_offset 0 ≡ port)
          × (length sent ≡ length frame))
unfolding with_egress_port
with_egress_port_restores frame port a hp clear =
    elim (Bool-cases (ltb (length frame) min_stampable_frame)) [
      | inl short ↦
          inl (ltb→lt _ _ short, rw (with_egress_port, add_egress_port_short frame port short) refl)
      | inr room ↦
          let fits = ltb→le _ _ room in
          let sent = stamped_for port frame in
          inr (
            sent,
            rw
                (
                  with_egress_port,
                  add_egress_port_clear frame port fits clear,
                  unstamp_stamped frame port a hp fits clear,
                )
                refl,
            get_or-set_self (patch_checksum add port frame) ports_offset port 0
                (omega (arith, length-patch_checksum add port frame)),
            length-stamped_for port frame,
          )
    ]
