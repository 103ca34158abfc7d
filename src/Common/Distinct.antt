-- ===== src/Common/Distinct.antt =====
-- Lists whose elements are pairwise apart, and those whose keys differ.
use Prim.Native.Nat.{ℕ, zero, suc, ◌+◌, ◌<◌, ◌≤◌}
use mathlib.Core.Path.{◌≡◌, refl, sym, ap, ◌∙◌}
use mathlib.Core.Logic.{◌≢◌, inl, inr}
use mathlib.Core.Bool.{Bool, false}
use mathlib.Core.List.{List, [], ◌∷◌, ◌++◌}
use mathlib.Core.Option.{none, some}
use native.Mathlib.Omega.{arith}
use bristlemouth_rs.Common.Lists.{length, get_or, set, All}
use bristlemouth_rs.Common.Tests.{◌==◌, ==_iff, Bool-cases, Option-cases}
use bristlemouth_rs.Common.Keyed.{position, find, remove_at, length-remove_at_le}

module _ {ℓ κ} {A : Type ℓ} (P : A → Type κ) where
  pub All-remove_at : (i : ℕ) (xs : List A) → All P xs → All P (remove_at i xs)
  unfolding remove_at
  All-remove_at i [] a = tt
  All-remove_at zero (x ∷ xs) a = a.1
  All-remove_at (suc i) (x ∷ xs) a = (a.0, All-remove_at i xs a.1)

  pub All-append : (xs ys : List A) → All P xs → All P ys → All P (xs ++ ys)
  All-append [] ys a b = b
  All-append (x ∷ xs) ys a b = (a.0, All-append xs ys a.1 b)

  pub All-set : (xs : List A) (i : ℕ) (v : A) → P v → All P xs → All P (set xs i v)
  All-set [] i v h a = tt
  All-set (x ∷ xs) zero v h a = (h, a.1)
  All-set (x ∷ xs) (suc i) v h a = (a.0, All-set xs i v h a.1)

  pub All-get_or : (xs : List A) (i : ℕ) (d : A) → i < length xs → All P xs → P (get_or xs i d)
  All-get_or [] i d h a = absurd (omega arith)
  All-get_or (x ∷ xs) zero d h a = a.0
  All-get_or (x ∷ xs) (suc i) d h a = All-get_or xs i d (omega arith) a.1

  pub All-map {μ} : {Q : A → Type μ} → ((x : A) → P x → Q x) → (xs : List A) → All P xs → All Q xs
  All-map f [] a = tt
  All-map f (x ∷ xs) a = (f x a.0, All-map f xs a.1)

module _ {ℓ κ} {A : Type ℓ} (R : A → A → Type κ) where
  -- Each element is apart from every one behind it.
  abbrev pub Apart : List A → Type κ
  Apart [] = Unit {κ}
  Apart (x ∷ xs) = All (R x) xs × Apart xs

  pub Apart-remove_at : (i : ℕ) (xs : List A) → Apart xs → Apart (remove_at i xs)
  unfolding remove_at
  Apart-remove_at i [] a = tt
  Apart-remove_at zero (x ∷ xs) a = a.1
  Apart-remove_at (suc i) (x ∷ xs) a = (All-remove_at _ i xs a.0, Apart-remove_at i xs a.1)

  pub Apart-snoc : (xs : List A) (y : A) → Apart xs → All (λ x. R x y) xs → Apart (xs ++ (y ∷ []))
  Apart-snoc [] y a b = (tt, tt)
  Apart-snoc (x ∷ xs) y a b = (All-append _ xs (y ∷ []) a.0 (b.0, tt), Apart-snoc xs y a.1 b.1)

  -- An element may be replaced by one that stands to all others as it did.
  pub Apart-set :
      (xs : List A) (i : ℕ) (v d : A)
      → ((y : A) → R (get_or xs i d) y → R v y)
      → ((y : A) → R y (get_or xs i d) → R y v)
      → Apart xs
      → Apart (set xs i v)
  Apart-set [] i v d f g a = tt
  Apart-set (x ∷ xs) zero v d f g a = (All-map _ f xs a.0, a.1)
  Apart-set (x ∷ xs) (suc i) v d f g a =
      (All-set_related xs i v d (g x) a.0, Apart-set xs i v d f g a.1)
    where
      All-set_related :
          (ys : List A) (i : ℕ) (v d : A)
          → (R x (get_or ys i d) → R x v)
          → All (R x) ys
          → All (R x) (set ys i v)
      All-set_related [] i v d g b = tt
      All-set_related (y ∷ ys) zero v d g b = (g b.0, b.1)
      All-set_related (y ∷ ys) (suc i) v d g b = (b.0, All-set_related ys i v d g b.1)

module _ {ℓ} {A : Type ℓ} (key : A → ℕ) where
  -- Two elements have different keys.
  abbrev pub KeysDiffer : A → A → Type 0
  KeysDiffer x y = key x ≢ key y

  pub position-none-All :
      (k : ℕ) (xs : List A) → position (λ x. key x == k) xs ≡ none → All (λ x. key x ≢ k) xs
  unfolding position
  position-none-All k [] e = tt
  position-none-All k (x ∷ xs) e =
      ground (arith, Option-cases (position (λ y. key y == k) xs), position-none-All k xs)

  -- Once the one element with key `k` is gone, no element has it.
  pub remove_at-position :
      (k i : ℕ) (xs : List A)
      → Apart KeysDiffer xs
      → position (λ x. key x == k) xs ≡ some i
      → All (λ x. key x ≢ k) (remove_at i xs)
  unfolding position remove_at
  remove_at-position k i [] a e = tt
  remove_at-position k zero (x ∷ xs) a e = elim (Bool-cases (key x == k)) [
    | inl hit ↦ All-map _ (λ y n f. n ((==_iff (key x) k).0 hit ∙ sym f)) xs a.0
    | inr miss ↦ absurd (ground (arith, Option-cases (position (λ y. key y == k) xs)))
  ]
  remove_at-position k (suc i) (x ∷ xs) a e =
      ground (arith, Option-cases (position (λ y. key y == k) xs), remove_at-position k i xs a.1)

module _ {ℓ} {A : Type ℓ} where
  -- An element that the search finds stays found when one that fails another test for it goes.
  pub find-remove_at :
      (p q : A → Bool) (xs : List A) (i : ℕ) (a : A)
      → find p xs ≡ some a
      → q a ≡ false
      → position q xs ≡ some i
      → find p (remove_at i xs) ≡ some a
  unfolding find position remove_at
  find-remove_at p q [] i a f h e = cc
  find-remove_at p q (x ∷ xs) zero a f h e = ground (arith, Option-cases (position q xs))
  find-remove_at p q (x ∷ xs) (suc i) a f h e =
      ground (arith, Option-cases (position q xs), find-remove_at p q xs i a)

  pub set-append_length :
      (xs : List A) (y v : A) → set (xs ++ (y ∷ [])) (length xs) v ≡ xs ++ (v ∷ [])
  set-append_length [] y v = refl
  set-append_length (x ∷ xs) y v = ap (◌∷◌ x) (set-append_length xs y v)

  pub get_or-append_length : (xs : List A) (y d : A) → get_or (xs ++ (y ∷ [])) (length xs) d ≡ y
  get_or-append_length [] y d = refl
  get_or-append_length (x ∷ xs) y d = get_or-append_length xs y d

  pub find-All-false : (p : A → Bool) (xs : List A) → All (λ x. p x ≡ false) xs → find p xs ≡ none
  unfolding find
  find-All-false p [] a = refl
  find-All-false p (x ∷ xs) a = rw a.0 (find-All-false p xs a.1)

All-within {ℓ} :
    {A : Type ℓ} (key : A → ℕ) (lo n : ℕ) (xs : List A)
    → All (λ x. (lo ≤ key x) × (key x < lo + suc n)) xs
    → All (λ x. key x ≢ lo + n) xs
    → All (λ x. (lo ≤ key x) × (key x < lo + n)) xs
All-within key lo n [] a b = tt
All-within key lo n (x ∷ xs) a b = (within (key x) a.0 b.0, All-within key lo n xs a.1 b.1)
  where
    within : (k : ℕ) → (lo ≤ k) × (k < lo + suc n) → k ≢ lo + n → (lo ≤ k) × (k < lo + n)
    within k h ne = omega arith

-- In a range of `n` keys there is room for `n` elements whose keys differ.
pub length-le-keys {ℓ} :
    {A : Type ℓ} (key : A → ℕ) (lo n : ℕ) (xs : List A)
    → Apart (KeysDiffer key) xs
    → All (λ x. (lo ≤ key x) × (key x < lo + n)) xs
    → length xs ≤ n
length-le-keys key lo zero [] a b = omega arith
length-le-keys key lo zero (x ∷ xs) a b = absurd (omega (arith, b.0))
length-le-keys key lo (suc n) xs a b = elim (Option-cases (position (λ x. key x == lo + n) xs)) [
  | inl e ↦
      let h =
        length-le-keys key lo n xs a
          (All-within key lo n xs b (position-none-All key (lo + n) xs e)) in
      omega (arith, h)
  | inr (i, e) ↦ omega (
    arith,
    length-remove_at_le i xs,
    length-le-keys key lo n (remove_at i xs) (Apart-remove_at (KeysDiffer key) i xs a) (
        All-within key lo n (remove_at i xs) (All-remove_at _ i xs b)
          (remove_at-position key (lo + n) i xs a e)),
  )
]
