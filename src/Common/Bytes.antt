-- ===== src/Common/Bytes.antt =====
-- bm-wire/src/le.rs: little-endian fields in byte slices, and slices written into buffers.
use Prim.Native.Nat.{ℕ, zero, suc, ◌+◌, ◌*◌, ◌/◌, ◌%◌, ◌^◌, ◌<◌, ◌≤◌}
use mathlib.Core.Path.{◌≡◌, refl, ap}
use mathlib.Core.Logic.{inl, inr}
use mathlib.Core.List.{List, [], ◌∷◌, ◌++◌}
use native.Mathlib.Nat.{pow-suc}
use native.Mathlib.Omega.{arith}
use bristlemouth_rs.Common.Lists.{length, take, drop, All, length-append, take-append}
use bristlemouth_rs.Common.Tests.{ltb, if◌then◌else◌, le→ltb, Bool-cases}
use bristlemouth_rs.Common.Fallible.{Result, ok, err, BmWireError, truncated, ok-injective}

abbrev pub IsByte : ℕ → Type 0
IsByte b = b < 256

-- `to_le_bytes` of a number of `n` bytes.
unfoldable pub to_le_bytes : ℕ → ℕ → List ℕ
to_le_bytes zero v = []
to_le_bytes (suc n) v = (v % 256) ∷ to_le_bytes n (v / 256)

unfoldable pub from_le_bytes : List ℕ → ℕ
from_le_bytes [] = 0
from_le_bytes (b ∷ bs) = b + 256 * from_le_bytes bs

pub length-to_le_bytes : (n v : ℕ) → length (to_le_bytes n v) ≡ n
unfolding to_le_bytes
length-to_le_bytes zero v = refl
length-to_le_bytes (suc n) v = ap suc (length-to_le_bytes n (v / 256))

pub to_le_bytes-IsByte : (n v : ℕ) → All IsByte (to_le_bytes n v)
unfolding to_le_bytes
to_le_bytes-IsByte zero v = tt
to_le_bytes-IsByte (suc n) v = (omega arith, to_le_bytes-IsByte n (v / 256))

-- A number that fits is read back.
pub from_le_bytes-to_le_bytes : (n v : ℕ) → v < 256 ^ n → from_le_bytes (to_le_bytes n v) ≡ v
unfolding from_le_bytes to_le_bytes
from_le_bytes-to_le_bytes zero v h = omega arith
from_le_bytes-to_le_bytes (suc n) v h =
    omega
      (arith, pow-suc 256 n, from_le_bytes-to_le_bytes n (v / 256) (omega (arith, pow-suc 256 n)))

-- `buf[at..at + n]`; the callers check the length.
abbrev pub array_at : ℕ → List ℕ → ℕ → List ℕ
array_at n buf at = take n (drop at buf)

unfoldable pub u16_at : List ℕ → ℕ → ℕ
u16_at buf at = from_le_bytes (array_at 2 buf at)

unfoldable pub u32_at : List ℕ → ℕ → ℕ
u32_at buf at = from_le_bytes (array_at 4 buf at)

unfoldable pub u64_at : List ℕ → ℕ → ℕ
u64_at buf at = from_le_bytes (array_at 8 buf at)

-- The first `n` bytes of `buf`, or `truncated`.
unfoldable pub prefix : ℕ → List ℕ → Result BmWireError (List ℕ)
prefix n buf = if ltb (length buf) n then err truncated else ok (take n buf)

-- `buf.get_mut(..len).ok_or(Truncated)?` filled with `bytes`: what the buffer then holds.
unfoldable pub fill_prefix : List ℕ → List ℕ → Result BmWireError (List ℕ)
fill_prefix buf bytes =
    if ltb (length buf) (length bytes) then err truncated else ok (bytes ++ drop (length bytes) buf)

-- What was filled in is what a reader of as many bytes gets.
pub prefix-fill_prefix :
    (buf bytes out : List ℕ) → fill_prefix buf bytes ≡ ok out → prefix (length bytes) out ≡ ok bytes
unfolding prefix fill_prefix
prefix-fill_prefix buf bytes out e = elim (Bool-cases (ltb (length buf) (length bytes))) [
  | inl short ↦ cc
  | inr fits ↦ fits_lem out (rw fits at e)
]
  where
    fits_lem :
        (out : List ℕ)
        → ◌≡◌ {A = Result BmWireError (List ℕ)} (ok (bytes ++ drop (length bytes) buf)) (ok out)
        → (if ltb (length out) (length bytes) then err truncated else ok (take (length bytes) out))
          ≡ ok bytes
    fits_lem out e = rw (← ok-injective _ _ e) (
        rw (
          le→ltb (length (bytes ++ drop (length bytes) buf)) (length bytes)
              (omega (arith, length-append bytes (drop (length bytes) buf))),
          take-append bytes (drop (length bytes) buf),
        ))

-- Reading or writing too short a buffer is refused, and any other is not.
pub fill_prefix_ok :
    (buf bytes : List ℕ)
    → length bytes ≤ length buf
    → fill_prefix buf bytes ≡ ok (bytes ++ drop (length bytes) buf)
unfolding fill_prefix
fill_prefix_ok buf bytes h = rw (le→ltb _ _ h)

-- A slice of a known length is read off the front.
pub prefix-append : (n : ℕ) (xs ys : List ℕ) → length xs ≡ n → prefix n (xs ++ ys) ≡ ok xs
unfolding prefix
prefix-append n xs ys e = rw (← e) (
    rw (
      le→ltb (length (xs ++ ys)) (length xs) (omega (arith, length-append xs ys)),
      take-append xs ys,
    ))
