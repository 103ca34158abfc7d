-- ===== src/Crc/Xor.antt =====
-- Exclusive or at variables: the digit law, and with it the algebra and the shifts.
use Prim.Native.Nat.{bit_xor, digits, differ, bit_xor-bitwise}
use bristlemouth_rs.Common.{
  ℕ, zero, suc, ◌+◌, ◌*◌, ◌/◌, ◌%◌, ◌≤◌, ◌<◌, ◌≡◌, refl, sym, ap, ◌∙◌, arith, leb, leb→le,
  Bool-cases, false, inl, inr,
}
use mathlib.Core.Path.{ap₂}

-- A digit more to go makes no difference once there are enough.
one_more : (n a b : ℕ) → a ≤ n → digits (λ y. y) differ (suc n) a b ≡ digits (λ y. y) differ n a b
one_more zero zero b h = refl
one_more zero (suc a) b h = absurd (omega arith)
one_more (suc n) zero b h = refl
one_more (suc n) (suc a) b h =
    ap (λ d. d * 2 + differ (suc a % 2) (b % 2)) (one_more n (suc a / 2) (b / 2) (omega arith))

surplus :
    (m n a b : ℕ) → a ≤ n → n ≤ m → digits (λ y. y) differ m a b ≡ digits (λ y. y) differ n a b
surplus zero zero a b p q = refl
surplus zero (suc n) a b p q = absurd (omega arith)
surplus (suc m) n a b p q = elim (Bool-cases (leb n m)) [
  | inl below ↦
      one_more m a b (omega (arith, leb→le n m below)) ∙ surplus m n a b p (leb→le n m below)
  | inr above ↦ ap (λ k. digits (λ y. y) differ k a b) (last above)
]
  where
    last : leb n m ≡ false → suc m ≡ n
    last above = ground arith

differ_mod : (x y : ℕ) → x < 2 → y < 2 → differ x y ≡ (x + y) % 2
differ_mod zero y p q = omega arith
differ_mod (suc zero) zero p q = refl
differ_mod (suc zero) (suc zero) p q = refl
differ_mod (suc zero) (suc (suc y)) p q = absurd (omega arith)
differ_mod (suc (suc x)) y p q = absurd (omega arith)

-- The lowest digit and the others.
pub bit_xor_step : (a b : ℕ) → bit_xor a b ≡ bit_xor (a / 2) (b / 2) * 2 + (a + b) % 2
bit_xor_step zero b = omega (arith, bit_xor-bitwise zero b, bit_xor-bitwise zero (b / 2))
bit_xor_step (suc a) b = omega (
  arith,
  bit_xor-bitwise (suc a) b,
  bit_xor-bitwise (suc a / 2) (b / 2),
  surplus a (suc a / 2) (suc a / 2) (b / 2) (omega arith) (omega arith),
  differ_mod (suc a % 2) (b % 2) (omega arith) (omega arith),
)

pub bit_xor-half : (a b : ℕ) → bit_xor a b / 2 ≡ bit_xor (a / 2) (b / 2)
bit_xor-half a b = omega (arith, bit_xor_step a b)

pub bit_xor-parity : (a b : ℕ) → bit_xor a b % 2 ≡ (a + b) % 2
bit_xor-parity a b = omega (arith, bit_xor_step a b)

comm_fuel : (n a b : ℕ) → a ≤ n → b ≤ n → bit_xor a b ≡ bit_xor b a
comm_fuel zero zero zero p q = refl
comm_fuel zero zero (suc b) p q = absurd (omega arith)
comm_fuel zero (suc a) b p q = absurd (omega arith)
comm_fuel (suc n) a b p q = omega (
  arith,
  bit_xor_step a b,
  bit_xor_step b a,
  comm_fuel n (a / 2) (b / 2) (omega arith) (omega arith),
)

pub bit_xor_comm : (a b : ℕ) → bit_xor a b ≡ bit_xor b a
bit_xor_comm a b = comm_fuel (a + b) a b (omega arith) (omega arith)

pub zero-bit_xor : (b : ℕ) → bit_xor 0 b ≡ b
zero-bit_xor b = bit_xor-bitwise 0 b

pub bit_xor-zero : (a : ℕ) → bit_xor a 0 ≡ a
bit_xor-zero a = bit_xor_comm a 0 ∙ zero-bit_xor a

assoc_fuel :
    (n a b c : ℕ) → a ≤ n → b ≤ n → c ≤ n → bit_xor (bit_xor a b) c ≡ bit_xor a (bit_xor b c)
assoc_fuel zero zero b c p q r =
    ap (λ x. bit_xor x c) (zero-bit_xor b) ∙ sym (zero-bit_xor (bit_xor b c))
assoc_fuel zero (suc a) b c p q r = absurd (omega arith)
assoc_fuel (suc n) a b c p q r = omega (
  arith,
  bit_xor_step (bit_xor a b) c,
  bit_xor_step a (bit_xor b c),
  bit_xor-parity a b,
  bit_xor-parity b c,
  ap (λ x. bit_xor x (c / 2)) (bit_xor-half a b),
  ap (bit_xor (a / 2)) (bit_xor-half b c),
  assoc_fuel n (a / 2) (b / 2) (c / 2) (omega arith) (omega arith) (omega arith),
)

pub bit_xor_assoc : (a b c : ℕ) → bit_xor (bit_xor a b) c ≡ bit_xor a (bit_xor b c)
bit_xor_assoc a b c = assoc_fuel (a + b + c) a b c (omega arith) (omega arith) (omega arith)

-- Two pairs, taken crosswise.
pub bit_xor_medial :
    (a b c d : ℕ) → bit_xor (bit_xor a b) (bit_xor c d) ≡ bit_xor (bit_xor a c) (bit_xor b d)
bit_xor_medial a b c d =
    bit_xor_assoc a b (bit_xor c d)
    ∙ ap (bit_xor a)
        (sym (bit_xor_assoc b c d) ∙ ap (λ x. bit_xor x d) (bit_xor_comm b c) ∙ bit_xor_assoc c b d)
    ∙ sym (bit_xor_assoc a c (bit_xor b d))

quarter : (a b : ℕ) → bit_xor a b / 4 ≡ bit_xor (a / 4) (b / 4)
quarter a b =
    let e : bit_xor a b / 4 ≡ bit_xor a b / 2 / 2 = omega arith in
    let f : a / 2 / 2 ≡ a / 4 = omega arith in
    let g : b / 2 / 2 ≡ b / 4 = omega arith in
    e ∙ ap (λ x. x / 2) (bit_xor-half a b) ∙ bit_xor-half (a / 2) (b / 2) ∙ ap₂ bit_xor f g

pub bit_xor-div16 : (a b : ℕ) → bit_xor a b / 16 ≡ bit_xor (a / 16) (b / 16)
bit_xor-div16 a b =
    let e : bit_xor a b / 16 ≡ bit_xor a b / 4 / 4 = omega arith in
    let f : a / 4 / 4 ≡ a / 16 = omega arith in
    let g : b / 4 / 4 ≡ b / 16 = omega arith in
    e ∙ ap (λ x. x / 4) (quarter a b) ∙ quarter (a / 4) (b / 4) ∙ ap₂ bit_xor f g

-- The byte above: a byte changes none of it.
pub bit_xor-div256 : (a b : ℕ) → b < 256 → bit_xor a b / 256 ≡ a / 256
bit_xor-div256 a b h =
    let e : bit_xor a b / 256 ≡ bit_xor a b / 16 / 16 = omega arith in
    let f : a / 16 / 16 ≡ a / 256 = omega arith in
    let g : b / 16 / 16 ≡ 0 = omega arith in
    e
    ∙ ap (λ x. x / 16) (bit_xor-div16 a b)
    ∙ bit_xor-div16 (a / 16) (b / 16)
    ∙ ap₂ bit_xor f g
    ∙ bit_xor-zero (a / 256)

-- A shift to the left, a place at a time.
unfoldable pub shift_left : ℕ → ℕ → ℕ
shift_left zero q = q
shift_left (suc k) q = 2 * shift_left k q

bit_xor-double : (q r b : ℕ) → b < 2 → bit_xor (2 * q) (2 * r + b) ≡ 2 * bit_xor q r + b
bit_xor-double q r b h =
    let high : 2 * q / 2 ≡ q = omega arith in
    let low : (2 * r + b) / 2 ≡ r = omega arith in
    omega (arith, bit_xor_step (2 * q) (2 * r + b), ap₂ bit_xor high low)

-- Bits below a shift are added to what was shifted.
pub bit_xor-shift_left :
    (k q r : ℕ) → r < shift_left k 1 → bit_xor (shift_left k q) r ≡ shift_left k q + r
unfolding shift_left
bit_xor-shift_left zero q r h =
    let none_left : r ≡ 0 = omega arith in ap (bit_xor q) none_left ∙ bit_xor-zero q ∙ omega arith
bit_xor-shift_left (suc k) q r h =
    let parts : r ≡ 2 * (r / 2) + r % 2 = omega arith in
    ap (bit_xor (2 * shift_left k q)) parts
    ∙ bit_xor-double (shift_left k q) (r / 2) (r % 2) (omega arith)
    ∙ omega (arith, bit_xor-shift_left k q (r / 2) (omega arith))
