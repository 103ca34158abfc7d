-- ===== src/Common/Patches.antt =====
-- What a write into a range of an array leaves as it was, and what is read back from the range.
use Prim.Native.Nat.{ℕ, zero, suc, ◌+◌, ◌-◌, ◌<◌, ◌≤◌}
use mathlib.Core.Path.{◌≡◌, refl, ap, sym, ◌∙◌}
use mathlib.Core.List.{List, [], ◌∷◌, ◌++◌, append_assoc}
use native.Mathlib.Omega.{arith}
use bristlemouth_rs.Common.Lists.{length, take, drop, get_or, length-append, length-take}
use bristlemouth_rs.Common.Slices.{
  copy_at, take-append_of, drop-append_of, drop-drop, drop-take, take-append_past,
}

module _ {ℓ} {A : Type ℓ} where
  pub get_or-take : (xs : List A) (n i : ℕ) (d : A) → i < n → get_or (take n xs) i d ≡ get_or xs i d
  get_or-take [] zero i d h = refl
  get_or-take [] (suc n) i d h = refl
  get_or-take (x ∷ xs) zero i d h = absurd (omega arith)
  get_or-take (x ∷ xs) (suc n) zero d h = refl
  get_or-take (x ∷ xs) (suc n) (suc i) d h = get_or-take xs n i d (omega arith)

  pub get_or-drop : (xs : List A) (n i : ℕ) (d : A) → get_or (drop n xs) i d ≡ get_or xs (n + i) d
  get_or-drop xs zero i d = let z : 0 + i ≡ i = omega arith in ap (λ k. get_or xs k d) (sym z)
  get_or-drop [] (suc n) i d = refl
  get_or-drop (x ∷ xs) (suc n) i d =
      let z : suc n + i ≡ suc (n + i) = omega arith in
      get_or-drop xs n i d ∙ ap (λ k. get_or (x ∷ xs) k d) (sym z)

  pub take-take : (m n : ℕ) (xs : List A) → m ≤ n → take m (take n xs) ≡ take m xs
  take-take zero zero xs h = refl
  take-take zero (suc n) [] h = refl
  take-take zero (suc n) (x ∷ xs) h = refl
  take-take (suc m) zero xs h = absurd (omega arith)
  take-take (suc m) (suc n) [] h = refl
  take-take (suc m) (suc n) (x ∷ xs) h = ap (◌∷◌ x) (take-take m n xs (omega arith))

  pub take-append_le : (n : ℕ) (xs ys : List A) → n ≤ length xs → take n (xs ++ ys) ≡ take n xs
  take-append_le zero [] [] h = refl
  take-append_le zero [] (y ∷ ys) h = refl
  take-append_le zero (x ∷ xs) ys h = refl
  take-append_le (suc n) [] ys h = absurd (omega arith)
  take-append_le (suc n) (x ∷ xs) ys h = ap (◌∷◌ x) (take-append_le n xs ys (omega arith))

  module _ (buf : List A) (at : ℕ) (bytes : List A) (room : at + length bytes ≤ length buf) where
    length-front : length (take at buf) ≡ at
    length-front = omega (arith, length-take at buf, room)

    -- What stands before the range.
    pub take-copy_at_before : (n : ℕ) → n ≤ at → take n (copy_at buf at bytes) ≡ take n buf
    unfolding copy_at
    take-copy_at_before n h =
        sym (take-take n at (copy_at buf at bytes) h)
        ∙ ap (take n) (take-append_of (take at buf) _ at length-front)
        ∙ take-take n at buf h

    -- What stands behind the range.
    pub drop-copy_at_after :
        (n : ℕ) → at + length bytes ≤ n → drop n (copy_at buf at bytes) ≡ drop n buf
    unfolding copy_at
    drop-copy_at_after n h =
        let k : ℕ = n - (at + length bytes) in
        let z : (at + length bytes) + k ≡ n = omega (arith, h) in
        ap (λ m. drop m (copy_at buf at bytes)) (sym z)
        ∙ sym (drop-drop k (at + length bytes) (copy_at buf at bytes))
        ∙ ap (drop k) (
            ap (drop (at + length bytes)) (sym (append_assoc (take at buf) bytes _))
            ∙ drop-append_of (take at buf ++ bytes) _ (at + length bytes)
                (omega (arith, length-append (take at buf) bytes, length-front)))
        ∙ drop-drop k (at + length bytes) buf
        ∙ ap (λ m. drop m buf) z

    -- The range itself.
    pub take-drop-copy_at : take (length bytes) (drop at (copy_at buf at bytes)) ≡ bytes
    unfolding copy_at
    take-drop-copy_at =
        ap (take (length bytes)) (drop-append_of (take at buf) _ at length-front)
        ∙ take-append_of bytes _ (length bytes) refl

    -- A range before or behind the one written is as it was.
    pub slice-copy_at_before :
        (off n : ℕ)
        → off + n ≤ at
        → take n (drop off (copy_at buf at bytes)) ≡ take n (drop off buf)
    slice-copy_at_before off n h =
        sym (drop-take off n (copy_at buf at bytes))
        ∙ ap (drop off) (take-copy_at_before (off + n) h)
        ∙ drop-take off n buf

    pub slice-copy_at_after :
        (off n : ℕ)
        → at + length bytes ≤ off
        → take n (drop off (copy_at buf at bytes)) ≡ take n (drop off buf)
    slice-copy_at_after off n h = ap (take n) (drop-copy_at_after off h)

    pub get_or-copy_at_before :
        (i : ℕ) (d : A) → i < at → get_or (copy_at buf at bytes) i d ≡ get_or buf i d
    get_or-copy_at_before i d h =
        sym (get_or-take (copy_at buf at bytes) at i d h)
        ∙ ap (λ xs. get_or xs i d) (take-copy_at_before at (omega arith))
        ∙ get_or-take buf at i d h

    pub get_or-copy_at_after :
        (i : ℕ) (d : A) → at + length bytes ≤ i → get_or (copy_at buf at bytes) i d ≡ get_or buf i d
    get_or-copy_at_after i d h =
        let z : i + 0 ≡ i = omega arith in
        ap (λ k. get_or (copy_at buf at bytes) k d) (sym z)
        ∙ sym (get_or-drop (copy_at buf at bytes) i 0 d)
        ∙ ap (λ xs. get_or xs 0 d) (drop-copy_at_after i h)
        ∙ get_or-drop buf i 0 d
        ∙ ap (λ k. get_or buf k d) z

    pub get_or-copy_at_in :
        (i : ℕ) (d : A)
        → i < length bytes
        → get_or (copy_at buf at bytes) (at + i) d ≡ get_or bytes i d
    get_or-copy_at_in i d h =
        sym (get_or-drop (copy_at buf at bytes) at i d)
        ∙ sym (get_or-take (drop at (copy_at buf at bytes)) (length bytes) i d h)
        ∙ ap (λ xs. get_or xs i d) take-drop-copy_at

    -- A range that starts where the one written does, and is longer.
    pub slice-copy_at_head :
        (n : ℕ)
        → length bytes ≤ n
        → take n (drop at (copy_at buf at bytes))
          ≡ bytes ++ drop (length bytes) (take n (drop at buf))
    unfolding copy_at
    slice-copy_at_head n h =
        let k : ℕ = n - length bytes in
        let z : length bytes + k ≡ n = omega (arith, h) in
        ap (take n) (drop-append_of (take at buf) _ at length-front)
        ∙ ap (λ m. take m (bytes ++ drop (at + length bytes) buf)) (sym z)
        ∙ take-append_past bytes (drop (at + length bytes) buf) (length bytes) k refl
        ∙ ap (λ xs. bytes ++ take k xs) (sym (drop-drop (length bytes) at buf))
        ∙ ap (λ xs. bytes ++ xs) (sym (drop-take (length bytes) k (drop at buf)))
        ∙ ap (λ m. bytes ++ drop (length bytes) (take m (drop at buf))) z
