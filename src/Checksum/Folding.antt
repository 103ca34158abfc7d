-- ===== src/Checksum/Folding.antt =====
-- Folding the carries of a u32 into sixteen bits, and the one's complement sum it stands for.
use bristlemouth_rs.Common.{
  ℕ, zero, suc, ◌+◌, ◌-◌, ◌%◌, ◌^◌, ◌<◌, ◌≡◌, refl, ltb, if◌then◌else◌, arith,
}
use bristlemouth_rs.Checksum.{fold_rounds, fold_carries}

-- The sixteen-bit one's complement number of a sum; zero only for zero.
unfoldable pub normal : ℕ → ℕ
normal zero = 0
normal (suc n) = n % 65535 + 1

pub normal-below : (s : ℕ) → normal s < 65536
unfolding normal
normal-below zero = omega arith
normal-below (suc n) = omega arith

pub fold_carries-normal : (s : ℕ) → s < 2 ^ 32 → fold_carries fold_rounds s ≡ normal s
unfolding fold_carries normal
fold_carries-normal zero h = refl
fold_carries-normal (suc n) h = ground arith

pub normal_small : (s : ℕ) → s < 65536 → s ≡ normal s
unfolding normal
normal_small zero h = refl
normal_small (suc n) h = omega arith

-- Addition with the end-around carry.
unfoldable pub ones_add : ℕ → ℕ → ℕ
ones_add x y = if ltb (x + y) 65536 then x + y else x + y - 65535

pub ones_add-normal : (w s : ℕ) → w < 65536 → ones_add w (normal s) ≡ normal (w + s)
unfolding ones_add normal
ones_add-normal zero zero h = refl
ones_add-normal zero (suc s) h = ground arith
ones_add-normal (suc w) zero h = ground arith
ones_add-normal (suc w) (suc s) h = ground arith
