-- ===== src/Configuration/Places.antt =====
-- Where the slots of a layout lie, and what the search of a key's slot returns.
use native.Mathlib.Nat.{mul-le-mul_right, add-mul}
use bristlemouth_rs.Common.{
  ℕ, zero, suc, ◌+◌, ◌*◌, ◌<◌, ◌≤◌, ◌≡◌, refl, sym, ap, ◌∙◌, ◌⊎◌, inl, inr, Bool, true, false,
  Bool-cases, Option, none, some, arith,
}
use bristlemouth_rs.Configuration.{Layout, key_size, key_offset, value_offset, image_len, slot_size}
use bristlemouth_rs.Configuration.Image.{find_from}

pub le_cases : (a b : ℕ) → a ≤ b → (a ≡ b) ⊎ (a + 1 ≤ b)
le_cases a b h = ground arith

pub next_multiple : (a b s : ℕ) → a < b → a * s + s ≤ b * s
next_multiple a b s h =
    let m : (a + 1) * s ≤ b * s = mul-le-mul_right s (omega (arith, h)) in
    omega (arith, m, add-mul a 1 s)

-- One key's slot ends before the next one's.
pub key_offset_apart : (l : Layout) (i j : ℕ) → i < j → key_offset l i + key_size l ≤ key_offset l j
key_offset_apart l i j h = omega (arith, next_multiple i j (key_size l) h)

-- The keys' slots end before the values'.
pub key_offset_room : (l : Layout) (i : ℕ) → i < 50 → key_offset l i + key_size l ≤ value_offset l 0
key_offset_room l i h = omega (arith, next_multiple i 50 (key_size l) h)

pub value_offset_room : (l : Layout) (i : ℕ) → i < 50 → value_offset l i + slot_size ≤ image_len l
value_offset_room l i h = omega (arith, h)

-- The first index that passes.
pub find_from-some :
    (test : ℕ → Bool) (i n k : ℕ)
    → find_from test i n ≡ some k
    → (i ≤ k) × (k < i + n) × (test k ≡ true) × ((j : ℕ) → i ≤ j → j < k → test j ≡ false)
unfolding find_from
find_from-some test i zero k e = cc
find_from-some test i (suc n) k e = elim (Bool-cases (test i)) [
  | inl here ↦ at_head here (rw here at e)
  | inr there ↦ behind there (find_from-some test (i + 1) n k (rw there at e))
]
  where
    at_head :
        test i ≡ true
        → ◌≡◌ {A = Option ℕ} (some i) (some k)
        → (i ≤ k) × (k < i + suc n) × (test k ≡ true) × ((j : ℕ) → i ≤ j → j < k → test j ≡ false)
    at_head here e =
        let same : i ≡ k = cc in
        (omega arith, omega arith, ap test (sym same) ∙ here, λ j low high. absurd (omega arith))

    behind :
        test i ≡ false
        → (i + 1 ≤ k)
          × (k < i + 1 + n)
          × (test k ≡ true)
          × ((j : ℕ) → i + 1 ≤ j → j < k → test j ≡ false)
        → (i ≤ k) × (k < i + suc n) × (test k ≡ true) × ((j : ℕ) → i ≤ j → j < k → test j ≡ false)
    behind there r = (
      omega (arith, r.0),
      omega (arith, r.1),
      r.2,
      λ j low high. elim (le_cases i j low) [
        | inl same ↦ ap test (sym same) ∙ there
        | inr above ↦ r.3 j above high
      ],
    )

-- An index that is the first to pass is the one found.
pub find_from_first :
    (test : ℕ → Bool) (i n k : ℕ)
    → i ≤ k
    → k < i + n
    → test k ≡ true
    → ((j : ℕ) → i ≤ j → j < k → test j ≡ false)
    → find_from test i n ≡ some k
unfolding find_from
find_from_first test i zero k low high passes before = absurd (omega arith)
find_from_first test i (suc n) k low high passes before = elim (le_cases i k low) [
  | inl same ↦ let here : test i ≡ true = ap test same ∙ passes in rw here (ap some same)
  | inr above ↦
      let fails : test i ≡ false = before i (omega arith) (omega (arith, above)) in
      let rest : find_from test (i + 1) n ≡ some k =
        find_from_first test (i + 1) n k above (omega (arith, high)) passes
          (λ j a b. before j (omega (arith, a)) b) in
      rw (fails, rest) refl
]

-- A search stays as it is when no test within it changes.
pub find_from_same :
    (test test' : ℕ → Bool) (i n : ℕ)
    → ((j : ℕ) → i ≤ j → j < i + n → test j ≡ test' j)
    → find_from test i n ≡ find_from test' i n
unfolding find_from
find_from_same test test' i zero same = refl
find_from_same test test' i (suc n) same =
    let here : test i ≡ test' i = same i (omega arith) (omega arith) in
    let rest : find_from test (i + 1) n ≡ find_from test' (i + 1) n =
      find_from_same test test' (i + 1) n (λ j a b. same j (omega arith) (omega arith)) in
    rw (here, rest) refl

-- Nothing is found when no test passes.
pub find_from-none :
    (test : ℕ → Bool) (i n j : ℕ) → find_from test i n ≡ none → i ≤ j → j < i + n → test j ≡ false
unfolding find_from
find_from-none test i zero j e low high = absurd (omega arith)
find_from-none test i (suc n) j e low high = elim (Bool-cases (test i)) [
  | inl here ↦ found_none (rw here at e)
  | inr there ↦ elim (le_cases i j low) [
    | inl same ↦ ap test (sym same) ∙ there
    | inr above ↦ find_from-none test (i + 1) n j (rw there at e) above (omega (arith, high))
  ]
]
  where
    found_none : ◌≡◌ {A = Option ℕ} (some i) none → test j ≡ false
    found_none e = cc
