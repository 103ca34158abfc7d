-- ===== src/Common/Keyed.antt =====
-- Searching, removing and replacing in a list.
use Prim.Native.Nat.{ℕ, zero, suc, ◌<◌, ◌≤◌}
use mathlib.Core.Path.{◌≡◌, refl}
use mathlib.Core.Logic.{◌≢◌, inl, inr}
use mathlib.Core.Bool.{Bool, true, false}
use mathlib.Core.List.{List, [], ◌∷◌, ◌++◌}
use mathlib.Core.Option.{Option, none, some}
use native.Mathlib.Omega.{arith}
use bristlemouth_rs.Common.Lists.{length, get_or, set}
use bristlemouth_rs.Common.Tests.{if◌then◌else◌, Bool-cases, Option-cases}

abbrev pub next_index : Option ℕ → Option ℕ
next_index none = none
next_index (some i) = some (suc i)

module _ {ℓ} {A : Type ℓ} where
  -- `iter().position(p)`.
  unfoldable pub position : (A → Bool) → List A → Option ℕ
  position p [] = none
  position p (x ∷ xs) = if p x then some 0 else next_index (position p xs)

  -- `iter().find(p)`.
  unfoldable pub find : (A → Bool) → List A → Option A
  find p [] = none
  find p (x ∷ xs) = if p x then some x else find p xs

  -- The element at `i` goes and those behind it close the gap.
  unfoldable pub remove_at : ℕ → List A → List A
  remove_at i [] = []
  remove_at zero (x ∷ xs) = xs
  remove_at (suc i) (x ∷ xs) = x ∷ remove_at i xs

  -- What a successful search found: an index in range, where the test holds.
  pub position_found :
      (p : A → Bool) (xs : List A) (i : ℕ) (d : A)
      → position p xs ≡ some i
      → (i < length xs) × (p (get_or xs i d) ≡ true)
  unfolding position
  position_found p [] i d e = cc
  position_found p (x ∷ xs) i d e = elim (Bool-cases (p x)) [
    | inl hit ↦ here i (rw hit at e) hit
    | inr miss ↦ elim (Option-cases (position p xs)) [
      | inl n ↦ cc
      | inr (j, f) ↦ there j i f (rw (miss, f) at e) (position_found p xs j d f)
    ]
  ]
    where
      here :
          (i : ℕ)
          → some 0 ≡ some i
          → p x ≡ true
          → (i < length (x ∷ xs)) × (p (get_or (x ∷ xs) i d) ≡ true)
      here zero e h = (omega arith, h)
      here (suc i) e h = ground arith

      there :
          (j i : ℕ)
          → position p xs ≡ some j
          → some (suc j) ≡ some i
          → (j < length xs) × (p (get_or xs j d) ≡ true)
          → (i < length (x ∷ xs)) × (p (get_or (x ∷ xs) i d) ≡ true)
      there j zero f e h = ground arith
      there j (suc i) f e h = ground arith

  pub length-remove_at :
      (i : ℕ) (xs : List A) → i < length xs → suc (length (remove_at i xs)) ≡ length xs
  unfolding remove_at
  length-remove_at i [] h = absurd (omega arith)
  length-remove_at zero (x ∷ xs) h = refl
  length-remove_at (suc i) (x ∷ xs) h = omega (arith, length-remove_at i xs)

  pub length-remove_at_le : (i : ℕ) (xs : List A) → length xs ≤ suc (length (remove_at i xs))
  unfolding remove_at
  length-remove_at_le i [] = omega arith
  length-remove_at_le zero (x ∷ xs) = omega arith
  length-remove_at_le (suc i) (x ∷ xs) = omega (arith, length-remove_at_le i xs)

  pub find-set_ne :
      (p : A → Bool) (xs : List A) (i : ℕ) (v d : A)
      → p v ≡ false
      → p (get_or xs i d) ≡ false
      → find p (set xs i v) ≡ find p xs
  unfolding find
  find-set_ne p [] i v d h k = refl
  find-set_ne p (x ∷ xs) zero v d h k = rw (h, k) refl
  find-set_ne p (x ∷ xs) (suc i) v d h k = rw (find-set_ne p xs i v d h k) refl

  pub find-append :
      (p : A → Bool) (xs ys : List A) → find p xs ≡ none → find p (xs ++ ys) ≡ find p ys
  unfolding find
  find-append p [] ys h = refl
  find-append p (x ∷ xs) ys h = ground (arith, find-append p xs ys)

  pub find-append_some :
      (p : A → Bool) (xs ys : List A) (a : A) → find p xs ≡ some a → find p (xs ++ ys) ≡ some a
  unfolding find
  find-append_some p [] ys a h = cc
  find-append_some p (x ∷ xs) ys a h = ground (arith, find-append_some p xs ys a)

  pub position_some→find :
      (p : A → Bool) (xs : List A) (i : ℕ) → position p xs ≡ some i → find p xs ≢ none
  unfolding position find
  position_some→find p [] i e = cc
  position_some→find p (x ∷ xs) zero e = ground (arith, Option-cases (position p xs))
  position_some→find p (x ∷ xs) (suc i) e =
      ground (arith, Option-cases (position p xs), position_some→find p xs i)

  -- `find` gives the element that `position` points at.
  pub get_or-position :
      (p : A → Bool) (xs : List A) (i : ℕ) (a d : A)
      → find p xs ≡ some a
      → position p xs ≡ some i
      → get_or xs i d ≡ a
  unfolding find position
  get_or-position p [] i a d f e = cc
  get_or-position p (x ∷ xs) zero a d f e = ground (arith, Option-cases (position p xs))
  get_or-position p (x ∷ xs) (suc i) a d f e =
      ground (arith, Option-cases (position p xs), get_or-position p xs i a d)

  -- Replacing an element that the search finds replaces what it finds.
  pub find-set-position :
      (p : A → Bool) (xs : List A) (i : ℕ) (v : A)
      → position p xs ≡ some i
      → p v ≡ true
      → find p (set xs i v) ≡ some v
  unfolding position find
  find-set-position p [] i v e h = cc
  find-set-position p (x ∷ xs) zero v e h = rw h refl
  find-set-position p (x ∷ xs) (suc i) v e h =
      ground (arith, Option-cases (position p xs), find-set-position p xs i v)

  pub position_none→find_none :
      (p : A → Bool) (xs : List A) → position p xs ≡ none → find p xs ≡ none
  unfolding position find
  position_none→find_none p [] e = refl
  position_none→find_none p (x ∷ xs) e =
      ground (arith, Option-cases (position p xs), position_none→find_none p xs)
