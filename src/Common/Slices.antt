-- ===== src/Common/Slices.antt =====
-- Cutting a list in two, and `copy_from_slice` into a range of an array.
use Prim.Native.Nat.{ℕ, zero, suc, ◌+◌, ◌≤◌}
use mathlib.Core.Path.{◌≡◌, refl, ap, sym, ◌∙◌}
use mathlib.Core.List.{List, [], ◌∷◌, ◌++◌, append-nil, append_assoc}
use native.Mathlib.Omega.{arith}
use bristlemouth_rs.Common.Lists.{
  length, take, drop, set, length-append, length-take, length-drop, take-append, drop-append,
}

module _ {ℓ} {A : Type ℓ} where
  pub take-append_of : (xs ys : List A) (n : ℕ) → length xs ≡ n → take n (xs ++ ys) ≡ xs
  take-append_of xs ys n e = rw (← e) (take-append xs ys)

  pub drop_past : (n : ℕ) (xs : List A) → length xs ≤ n → drop n xs ≡ []
  drop_past zero [] h = refl
  drop_past zero (x ∷ xs) h = absurd (omega arith)
  drop_past (suc n) [] h = refl
  drop_past (suc n) (x ∷ xs) h = drop_past n xs (omega arith)

  -- `buf[at..at + bytes.len()].copy_from_slice(bytes)`.
  unfoldable pub copy_at : List A → ℕ → List A → List A
  copy_at buf at bytes = take at buf ++ (bytes ++ drop (at + length bytes) buf)

  pub length-copy_at :
      (buf : List A) (at : ℕ) (bytes : List A)
      → at + length bytes ≤ length buf
      → length (copy_at buf at bytes) ≡ length buf
  unfolding copy_at
  length-copy_at buf at bytes h = omega (
    arith,
    length-append (take at buf) (bytes ++ drop (at + length bytes) buf),
    length-append bytes (drop (at + length bytes) buf),
    length-take at buf,
    length-drop (at + length bytes) buf,
  )

  -- What stands before the end of the range: the old elements, then the new.
  pub take-copy_at :
      (buf : List A) (at : ℕ) (bytes : List A)
      → at ≤ length buf
      → take (at + length bytes) (copy_at buf at bytes) ≡ take at buf ++ bytes
  unfolding copy_at
  take-copy_at buf at bytes h =
      ap (take (at + length bytes)) (sym (append_assoc (take at buf) bytes _))
      ∙ take-append_of (take at buf ++ bytes) _ (at + length bytes)
          (omega (arith, length-append (take at buf) bytes, length-take at buf))

  -- A range up to the end of the array.
  pub copy_at_end :
      (buf : List A) (at : ℕ) (bytes : List A)
      → length buf ≤ at + length bytes
      → copy_at buf at bytes ≡ take at buf ++ bytes
  unfolding copy_at
  copy_at_end buf at bytes h =
      ap (λ zs. take at buf ++ (bytes ++ zs)) (drop_past (at + length bytes) buf h)
      ∙ ap (λ zs. take at buf ++ zs) (append-nil bytes)

  pub drop-append_of : (xs ys : List A) (n : ℕ) → length xs ≡ n → drop n (xs ++ ys) ≡ ys
  drop-append_of xs ys n e = rw (← e) (drop-append xs ys)

  pub take_past : (n : ℕ) (xs : List A) → length xs ≤ n → take n xs ≡ xs
  take_past zero [] h = refl
  take_past zero (x ∷ xs) h = absurd (omega arith)
  take_past (suc n) [] h = refl
  take_past (suc n) (x ∷ xs) h = ap (◌∷◌ x) (take_past n xs (omega arith))

  pub set-append_past :
      (xs ys : List A) (n i : ℕ) (v : A)
      → length xs ≡ n
      → set (xs ++ ys) (n + i) v ≡ xs ++ set ys i v
  set-append_past [] ys n i v e = let z : n + i ≡ i = omega (arith, e) in ap (λ k. set ys k v) z
  set-append_past (x ∷ xs) ys zero i v e = absurd (omega arith)
  set-append_past (x ∷ xs) ys (suc n) i v e =
      let z : suc n + i ≡ suc (n + i) = omega arith in
      ap (λ k. set (x ∷ (xs ++ ys)) k v) z ∙ ap (◌∷◌ x) (set-append_past xs ys n i v (omega arith))

  pub take-append_past :
      (xs ys : List A) (n k : ℕ) → length xs ≡ n → take (n + k) (xs ++ ys) ≡ xs ++ take k ys
  take-append_past [] ys n k e = let z : n + k ≡ k = omega (arith, e) in ap (λ j. take j ys) z
  take-append_past (x ∷ xs) ys zero k e = absurd (omega arith)
  take-append_past (x ∷ xs) ys (suc n) k e =
      let z : suc n + k ≡ suc (n + k) = omega arith in
      ap (λ j. take j (x ∷ (xs ++ ys))) z ∙ ap (◌∷◌ x) (take-append_past xs ys n k (omega arith))

  pub drop-drop : (a b : ℕ) (xs : List A) → drop a (drop b xs) ≡ drop (b + a) xs
  drop-drop a zero xs = let z : 0 + a ≡ a = omega arith in ap (λ k. drop k xs) (sym z)
  drop-drop zero (suc b) [] = let z : suc b + 0 ≡ suc b = omega arith in ap (λ k. drop k []) (sym z)
  drop-drop (suc a) (suc b) [] =
      let z : suc b + suc a ≡ suc (b + suc a) = omega arith in ap (λ k. drop k []) (sym z)
  drop-drop a (suc b) (x ∷ xs) =
      let z : suc b + a ≡ suc (b + a) = omega arith in
      drop-drop a b xs ∙ ap (λ k. drop k (x ∷ xs)) (sym z)

  pub drop-take : (a n : ℕ) (xs : List A) → drop a (take (a + n) xs) ≡ take n (drop a xs)
  drop-take zero n xs = let z : 0 + n ≡ n = omega arith in ap (λ k. take k xs) z
  drop-take (suc a) zero [] =
      let z : suc a + 0 ≡ suc a = omega arith in ap (λ k. drop (suc a) (take k [])) z
  drop-take (suc a) (suc n) [] =
      let z : suc a + suc n ≡ suc (a + suc n) = omega arith in ap (λ k. drop (suc a) (take k [])) z
  drop-take (suc a) n (x ∷ xs) =
      let z : suc a + n ≡ suc (a + n) = omega arith in
      ap (λ k. drop (suc a) (take k (x ∷ xs))) z ∙ drop-take a n xs
