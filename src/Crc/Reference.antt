-- ===== src/Crc/Reference.antt =====
-- `crc16_ccitt` against the shift register that defines the CRC, a bit at a time.
use Prim.Native.Nat.{bit_xor}
use bristlemouth_rs.Common.{
  ℕ, zero, suc, ◌+◌, ◌*◌, ◌/◌, ◌%◌, ◌<◌, ◌≡◌, refl, sym, ap, ◌∙◌, Bool, true, false, if◌then◌else◌,
  inl, inr, Bool-cases, List, [], ◌∷◌, arith, ◌==◌, ==_iff, All, IsByte,
}
use mathlib.Core.Path.{ap₂}
use bristlemouth_rs.Crc.{crc16_mix, crc16_byte, crc16_ccitt}
use bristlemouth_rs.Crc.Xor.{
  bit_xor-half, bit_xor-parity, bit_xor-zero, bit_xor_assoc, bit_xor_medial, bit_xor-div256,
  bit_xor-shift_left, shift_left,
}

-- The polynomial 0x1021, lowest bit first.
abbrev poly : ℕ
poly = 0x8408

-- What a bit that falls out puts back.
abbrev pub feedback : ℕ → ℕ
feedback zero = 0
feedback (suc b) = poly

unfoldable pub shift_bit : ℕ → ℕ
shift_bit x = bit_xor (x / 2) (feedback (x % 2))

unfoldable pub shift_bits : ℕ → ℕ → ℕ
shift_bits zero x = x
shift_bits (suc n) x = shift_bits n (shift_bit x)

-- The register after each byte is mixed into its low end.
unfoldable pub spec_crc16 : ℕ → List ℕ → ℕ
spec_crc16 seed [] = seed
spec_crc16 seed (byte ∷ bytes) = spec_crc16 (shift_bits 8 (bit_xor seed byte)) bytes

feedback_xor :
    (a b : ℕ) → a < 2 → b < 2 → feedback ((a + b) % 2) ≡ bit_xor (feedback a) (feedback b)
feedback_xor zero zero p q = refl
feedback_xor zero (suc zero) p q = refl
feedback_xor (suc zero) zero p q = refl
feedback_xor (suc zero) (suc zero) p q = refl
feedback_xor zero (suc (suc b)) p q = absurd (omega arith)
feedback_xor (suc zero) (suc (suc b)) p q = absurd (omega arith)
feedback_xor (suc (suc a)) b p q = absurd (omega arith)

-- The register is linear.
shift_bit_xor : (x y : ℕ) → shift_bit (bit_xor x y) ≡ bit_xor (shift_bit x) (shift_bit y)
unfolding shift_bit
shift_bit_xor x y =
    let e : bit_xor x y % 2 ≡ (x % 2 + y % 2) % 2 = omega (arith, bit_xor-parity x y) in
    ap₂ bit_xor (bit_xor-half x y)
      (ap feedback e ∙ feedback_xor (x % 2) (y % 2) (omega arith) (omega arith))
    ∙ bit_xor_medial (x / 2) (y / 2) (feedback (x % 2)) (feedback (y % 2))

shift_bits_xor :
    (n x y : ℕ) → shift_bits n (bit_xor x y) ≡ bit_xor (shift_bits n x) (shift_bits n y)
unfolding shift_bits
shift_bits_xor zero x y = refl
shift_bits_xor (suc n) x y = ap (shift_bits n) (shift_bit_xor x y) ∙ shift_bits_xor n _ _

-- Nothing falls out of an even register.
shift_bit_even : (y : ℕ) → shift_bit (2 * y) ≡ y
unfolding shift_bit
shift_bit_even y =
    let e : 2 * y / 2 ≡ y = omega arith in
    let f : 2 * y % 2 ≡ 0 = omega arith in ap₂ bit_xor e (ap feedback f) ∙ bit_xor-zero y

shift_bits-shift_left : (n q : ℕ) → shift_bits n (shift_left n q) ≡ q
unfolding shift_bits shift_left
shift_bits-shift_left zero q = refl
shift_bits-shift_left (suc n) q =
    ap (shift_bits n) (shift_bit_even (shift_left n q)) ∙ shift_bits-shift_left n q

-- The high byte comes through eight shifts as it is.
shift_bits_byte : (q r : ℕ) → r < 256 → shift_bits 8 (q * 256 + r) ≡ bit_xor q (shift_bits 8 r)
unfolding shift_left
shift_bits_byte q r h =
    let shifted : q * 256 ≡ shift_left 8 q = omega arith in
    ap (λ x. shift_bits 8 (x + r)) shifted
    ∙ ap (shift_bits 8) (sym (bit_xor-shift_left 8 q r (omega arith)))
    ∙ shift_bits_xor 8 (shift_left 8 q) r
    ∙ ap (λ x. bit_xor x (shift_bits 8 r)) (shift_bits-shift_left 8 q)

-- What a byte that falls out puts back, by the code's three shifts.
folded : ℕ → ℕ
unfolding crc16_mix
folded e = let f = crc16_mix e in bit_xor (bit_xor (f * 256 % 65536) (f * 8 % 65536)) (f / 16)

-- The two agree on the bytes below `n`.
agree : ℕ → Bool
agree zero = true
agree (suc n) = if folded n == shift_bits 8 n then agree n else false

agree_on_bytes : agree 256 ≡ true
unfolding agree folded shift_bits shift_bit
agree_on_bytes = refl

agree_below : (n e : ℕ) → agree n ≡ true → e < n → folded e ≡ shift_bits 8 e
unfolding agree
agree_below zero e h below = absurd (omega arith)
agree_below (suc n) e h below = elim (Bool-cases (folded n == shift_bits 8 n)) [
  | inr differs ↦ absurd (impossible (rw differs at h))
  | inl same ↦ elim (Bool-cases (e == n)) [
    | inl here ↦
        let at_n : e ≡ n = (==_iff e n).0 here in
        ap folded at_n ∙ (==_iff _ _).0 same ∙ ap (shift_bits 8) (sym at_n)
    | inr before ↦ agree_below n e (rw same at h) (ground arith)
  ]
]
  where
    impossible : false ≡ true → ⊥
    impossible p = cc

crc16_byte-shift_bits :
    (crc byte : ℕ) → byte < 256 → crc16_byte crc byte ≡ shift_bits 8 (bit_xor crc byte)
unfolding crc16_byte folded
crc16_byte-shift_bits crc byte h =
    let f = crc16_mix low in
    let x : bit_xor crc byte / 256 * 256 + low ≡ bit_xor crc byte = omega arith in
    ap (λ p. bit_xor p (f / 16)) (bit_xor_assoc (crc / 256) (f * 256 % 65536) (f * 8 % 65536))
    ∙ bit_xor_assoc (crc / 256) (bit_xor (f * 256 % 65536) (f * 8 % 65536)) (f / 16)
    ∙ ap₂ bit_xor (sym (bit_xor-div256 crc byte h))
        (agree_below 256 low agree_on_bytes (omega arith))
    ∙ sym (shift_bits_byte (bit_xor crc byte / 256) low (omega arith))
    ∙ ap (shift_bits 8) x
  where
    low : ℕ
    low = bit_xor crc byte % 256

-- On bytes, `crc16_ccitt` computes from its seed what the shift register of the reflected polynomial
-- 0x1021 does, eight shifts to each byte.
pub crc16_ccitt-spec_crc16 :
    (bytes : List ℕ) (seed : ℕ) → All IsByte bytes → crc16_ccitt seed bytes ≡ spec_crc16 seed bytes
unfolding crc16_ccitt spec_crc16
crc16_ccitt-spec_crc16 [] seed h = refl
crc16_ccitt-spec_crc16 (b ∷ bs) seed h =
    ap (λ s. crc16_ccitt s bs) (crc16_byte-shift_bits seed b h.0)
    ∙ crc16_ccitt-spec_crc16 bs (shift_bits 8 (bit_xor seed b)) h.1
