-- ===== src/Configuration/Prefixes.antt =====
-- The head of an item is read from the item's first bytes.
use bristlemouth_rs.Common.{
  ℕ, ◌+◌, ◌-◌, ◌/◌, ◌%◌, ◌^◌, ◌≤◌, ◌≡◌, refl, ap, ◌⊎◌, inl, inr, true, Bool-cases, none, some, List,
  [], ◌∷◌, ◌++◌, ltb, leb, leb→le, le→leb, arith, length, length-append, take-append_le,
}
use bristlemouth_rs.Configuration.Head.{Head, parse, parse_arg, fold_slice, slice_at}

slice_at-append :
    (b : ℕ) (xs ys : List ℕ) (n : ℕ)
    → (slice_at (b ∷ xs) 1 n ≡ none) ⊎ (slice_at (b ∷ (xs ++ ys)) 1 n ≡ slice_at (b ∷ xs) 1 n)
unfolding slice_at
slice_at-append b xs ys n = elim (Bool-cases (leb (1 + n) (length (b ∷ xs)))) [
  | inr short ↦ inl (rw short refl)
  | inl long ↦
      let room : 1 + n ≤ length (b ∷ xs) = leb→le (1 + n) (length (b ∷ xs)) long in
      let more : leb (1 + n) (length (b ∷ (xs ++ ys))) ≡ true =
        le→leb (1 + n) (length (b ∷ (xs ++ ys))) (omega (arith, room, length-append xs ys)) in
      inr (rw (long, more) (ap some (take-append_le n xs ys (omega (arith, room)))))
]

-- An item's head is the same whatever follows the item.
pub parse-append :
    (xs ys : List ℕ) (head : Head) → parse xs ≡ some head → parse (xs ++ ys) ≡ some head
unfolding parse parse_arg fold_slice
parse-append [] ys head e = cc
parse-append (b ∷ xs) ys head e = elim (Bool-cases (ltb 27 (b % 32))) [
  | inl big ↦ rw big (rw big at e)
  | inr small ↦ elim (Bool-cases (ltb (b % 32) 24)) [
    | inl direct ↦ rw (small, direct) (rw (small, direct) at e)
    | inr sized ↦ rw (small, sized) (with_argument (rw (small, sized) at e))
  ]
]
  where
    with_argument :
        parse_arg (b / 32) (b % 32) (fold_slice (slice_at (b ∷ xs) 1 (2 ^ (b % 32 - 24))))
          ≡ some head
        → parse_arg (b / 32) (b % 32) (fold_slice (slice_at (b ∷ (xs ++ ys)) 1 (2 ^ (b % 32 - 24))))
          ≡ some head
    with_argument e = elim (slice_at-append b xs ys (2 ^ (b % 32 - 24))) [
      | inl gone ↦ absurd_none (rw gone at e)
      | inr same ↦ rw same e
    ]
      where
        absurd_none :
            parse_arg (b / 32) (b % 32) (fold_slice none) ≡ some head
            → parse_arg
                (b / 32)
                (b % 32)
                (fold_slice (slice_at (b ∷ (xs ++ ys)) 1 (2 ^ (b % 32 - 24))))
              ≡ some head
        absurd_none e = cc
