-- ===== src/Util/Wildcard/Prefixes.antt =====
-- What `bm_wildcard_match` answers for a pattern without `*`, and for a topic against itself.
use bristlemouth_rs.Common.{
  ℕ, zero, suc, ◌-◌, ◌≤◌, ◌<◌, ◌≡◌, ◌≢◌, refl, ap, ◌∙◌, inl, inr, Bool, true, false, ◌&&◌, ◌||◌,
  none, some, List, [], ◌∷◌, arith, length, get_or, drop, ltb, ◌==◌, Bool-cases, ltb→lt, ltb→le,
  lt→ltb, All, All-get_or,
}
use bristlemouth_rs.Util.Wildcard.{
  Scan, scan_step, scan, star_after, left, scan_start, all_stars, bm_wildcard_match,
}

-- The pattern matches the start of the string, a `?` any byte of it.
abbrev pub matches_prefix : List ℕ → List ℕ → Bool
matches_prefix s [] = true
matches_prefix [] (b ∷ bs) = false
matches_prefix (a ∷ rest) (b ∷ bs) = (b == 0x3f || a == b) && matches_prefix rest bs

matches_prefix_nil : (s : List ℕ) → matches_prefix s [] ≡ true
matches_prefix_nil [] = refl
matches_prefix_nil (a ∷ rest) = refl

abbrev pub IsNoStar : ℕ → Type 0
IsNoStar b = b ≢ 0x2a

drop-cons : (xs : List ℕ) (k : ℕ) → k < length xs → drop k xs ≡ get_or xs k 0 ∷ drop (suc k) xs
drop-cons [] k h = absurd (omega arith)
drop-cons (x ∷ xs) zero h = refl
drop-cons (x ∷ xs) (suc k) h = drop-cons xs k (omega arith)

drop_all : (xs : List ℕ) (k : ℕ) → length xs ≤ k → drop k xs ≡ []
drop_all [] zero h = refl
drop_all [] (suc k) h = refl
drop_all (x ∷ xs) zero h = absurd (omega arith)
drop_all (x ∷ xs) (suc k) h = drop_all xs k (omega arith)

All-drop : (P : ℕ → Type 0) (xs : List ℕ) (k : ℕ) → All P xs → All P (drop k xs)
All-drop P xs zero a = a
All-drop P [] (suc k) a = tt
All-drop P (x ∷ xs) (suc k) a = All-drop P xs k a.1

-- The loop's variables as long as there was no `*`.
abbrev at : ℕ → Scan
at k = record { star_idx = none; match_idx = 0; i = k; j = k }

all_stars-matches_prefix : (bs : List ℕ) → All IsNoStar bs → all_stars bs ≡ matches_prefix [] bs
unfolding all_stars
all_stars-matches_prefix [] a = refl
all_stars-matches_prefix (b ∷ bs) a = ground (arith, a.0)

same_step :
    (s pattern : List ℕ) (k : ℕ)
    → k < length pattern
    → (get_or pattern k 0 == 0x3f || get_or s k 0 == get_or pattern k 0) ≡ true
    → scan_step s pattern (at k) ≡ some (at (suc k))
unfolding scan_step
same_step s pattern k h e =
    rw (lt→ltb k (length pattern) h, e) (ap (λ n. some (at n)) (omega arith))

other_step :
    (s pattern : List ℕ) (k : ℕ)
    → (ltb k (length pattern) && (get_or pattern k 0 == 0x3f || get_or s k 0 == get_or pattern k 0))
      ≡ false
    → (ltb k (length pattern) && (get_or pattern k 0 == 0x2a)) ≡ false
    → scan_step s pattern (at k) ≡ none
unfolding scan_step
other_step s pattern k e f = rw (e, f) refl

-- The end of the loop when the pattern is used up or does not match.
scan_stops :
    (fuel : ℕ) (s pattern : List ℕ) (k : ℕ)
    → k < length s
    → scan_step s pattern (at k) ≡ none
    → scan (suc fuel) s pattern (at k) ≡ some k
unfolding scan
scan_stops fuel s pattern k h e = rw (lt→ltb k (length s) h, e, scan) refl

scan_goes_on :
    (fuel : ℕ) (s pattern : List ℕ) (k : ℕ)
    → k < length s
    → scan_step s pattern (at k) ≡ some (at (suc k))
    → scan (suc fuel) s pattern (at k) ≡ scan fuel s pattern (at (suc k))
unfolding scan
scan_goes_on fuel s pattern k h e = rw (lt→ltb k (length s) h, e, scan) refl

-- The loop on a pattern without `*`, from the index `k` of both strings.
scan-matches_prefix :
    (fuel : ℕ) (s pattern : List ℕ) (k : ℕ)
    → All IsNoStar pattern
    → length s - k < fuel
    → (j : ℕ) × (scan fuel s pattern (at k) ≡ some j)
      × (all_stars (drop j pattern) ≡ matches_prefix (drop k s) (drop k pattern))
unfolding scan all_stars
scan-matches_prefix zero s pattern k a h = absurd (omega arith)
scan-matches_prefix (suc fuel) s pattern k a h = elim (Bool-cases (ltb k (length s))) [
  | inr over ↦ (
    k,
    rw over,
    rw (drop_all s k (ltb→le _ _ over))
        (all_stars-matches_prefix (drop k pattern) (All-drop IsNoStar pattern k a)),
  )
  | inl more ↦
      let in_s = ltb→lt _ _ more in
      elim (Bool-cases (ltb k (length pattern))) [
        | inr done ↦ (
          k,
          scan_stops fuel s pattern k in_s (other_step s pattern k (rw done refl) (rw done refl)),
          rw (drop_all pattern k (ltb→le _ _ done), matches_prefix_nil (drop k s)) refl,
        )
        | inl room ↦
            let in_p = ltb→lt _ _ room in
            let no_star = All-get_or IsNoStar pattern k 0 in_p a in
            let plain : (get_or pattern k 0 == 0x2a) ≡ false = ground arith in
            elim (Bool-cases (get_or pattern k 0 == 0x3f || get_or s k 0 == get_or pattern k 0)) [
              | inl same ↦
                  let (j, e, f) = scan-matches_prefix fuel s pattern (suc k) a (omega arith) in
                  (
                    j,
                    scan_goes_on fuel s pattern k in_s (same_step s pattern k in_p same) ∙ e,
                    f ∙ rw (drop-cons s k in_s, drop-cons pattern k in_p, same) refl,
                  )
              | inr differs ↦ (
                k,
                scan_stops fuel s pattern k in_s
                    (other_step s pattern k (rw (room, differs) refl) (rw (room, plain) refl)),
                rw (drop-cons s k in_s, drop-cons pattern k in_p, differs, plain) refl,
              )
            ]
      ]
]

-- A pattern without `*` matches exactly the strings that start with it, a `?` standing for any byte:
-- the string may go on behind the pattern.
pub bm_wildcard_match-matches_prefix :
    (s pattern : List ℕ)
    → All IsNoStar pattern
    → bm_wildcard_match s pattern ≡ matches_prefix s pattern
unfolding bm_wildcard_match left star_after
bm_wildcard_match-matches_prefix s pattern a =
    let (j, e, f) =
      scan-matches_prefix (suc (left s pattern scan_start)) s pattern 0 a (omega arith) in
    rw (e, bm_wildcard_match) f

scan_self :
    (fuel : ℕ) (s : List ℕ) (k : ℕ)
    → length s - k < fuel
    → (j : ℕ) × (scan fuel s s (at k) ≡ some j) × (length s ≤ j)
unfolding scan
scan_self zero s k h = absurd (omega arith)
scan_self (suc fuel) s k h = elim (Bool-cases (ltb k (length s))) [
  | inr over ↦ (k, rw over, ltb→le _ _ over)
  | inl more ↦
      let in_s = ltb→lt _ _ more in
      let (j, e, f) = scan_self fuel s (suc k) (omega arith) in
      let same : (get_or s k 0 == 0x3f || get_or s k 0 == get_or s k 0) ≡ true = ground arith in
      (j, scan_goes_on fuel s s k in_s (same_step s s k in_s same) ∙ e, f)
]

-- Every topic matches itself as a pattern, whatever bytes it has.
pub bm_wildcard_match_self : (s : List ℕ) → bm_wildcard_match s s ≡ true
unfolding bm_wildcard_match left star_after all_stars
bm_wildcard_match_self s =
    let (j, e, f) = scan_self (suc (left s s scan_start)) s 0 (omega arith) in
    rw (e, bm_wildcard_match) (rw (drop_all s j f) refl)
