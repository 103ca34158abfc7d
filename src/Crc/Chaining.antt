-- ===== src/Crc/Chaining.antt =====
-- The CRC of a sequence is the CRC of its parts in a chain, as the DFU client computes it.
use bristlemouth_rs.Common.{ℕ, ◌≡◌, refl, List, [], ◌∷◌, ◌++◌}
use bristlemouth_rs.Crc.{crc16_ccitt}

pub crc16-append :
    (xs ys : List ℕ) (seed : ℕ) → crc16_ccitt seed (xs ++ ys) ≡ crc16_ccitt (crc16_ccitt seed xs) ys
unfolding crc16_ccitt
crc16-append [] ys seed = refl
crc16-append (x ∷ xs) ys seed = crc16-append xs ys _
