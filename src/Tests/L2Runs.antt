-- ===== src/Tests/L2Runs.antt =====
-- A BCMP frame on a device with two ports.
use bristlemouth_rs.Common.{
  ℕ, ◌<◌, ◌≡◌, refl, ◌⊎◌, arith, Bool, true, ◌&&◌, ltb, List, [], ◌∷◌, ◌++◌, length, get_or,
  replicate, All, IsByte, ok, err, truncated,
}
use bristlemouth_rs.L2.{min_stampable_frame, ports_offset, with_egress_port}
use bristlemouth_rs.L2.Restore.{with_egress_port_restores}

-- The checksum is 0xffff, whose complement carries.
abbrev frame : List ℕ
frame =
    replicate 12 1
    ++ (0x86
        ∷ 0xdd
        ∷ (replicate 6 0
            ++ (0xbc
                ∷ (replicate 30 0 ++ (2 ∷ (replicate 4 0 ++ (0 ∷ 0xff ∷ 0xff ∷ replicate 6 3)))))))

unfoldable pub all_bytes : List ℕ → Bool
all_bytes [] = true
all_bytes (b ∷ bs) = ltb b 256 && all_bytes bs

pub all_bytes_sound : (bs : List ℕ) → all_bytes bs ≡ true → All IsByte bs
unfolding all_bytes
all_bytes_sound [] h = tt
all_bytes_sound (b ∷ bs) h = (ground arith, all_bytes_sound bs (ground arith))

frame-bytes : All IsByte frame
unfolding all_bytes
frame-bytes = all_bytes_sound frame refl

with_egress_port_restores_example :
    ((length frame < min_stampable_frame) × (with_egress_port frame 2 ≡ err truncated))
    ⊎ ((sent : List ℕ) × (with_egress_port frame 2 ≡ ok (sent, frame))
        × (get_or sent ports_offset 0 ≡ 2)
        × (length sent ≡ length frame))
with_egress_port_restores_example = with_egress_port_restores frame 2 frame-bytes (omega arith) refl
