-- ===== src/Util/Wildcard/Termination.antt =====
-- The loop of `bm_wildcard_match` ends: each turn takes less from the measure `left`.
use bristlemouth_rs.Common.{
  ℕ, zero, suc, ◌+◌, ◌*◌, ◌≤◌, ◌<◌, ◌≡◌, sym, subst, inl, inr, false, ◌&&◌, ◌||◌, Option, none,
  some, List, arith, length, get_or, ltb, ◌==◌, Bool-cases, Option-cases, ltb→lt,
}
use native.Mathlib.Nat.{mul-le-mul_right}
use bristlemouth_rs.Util.Wildcard.{Scan, scan_step, scan, star_after, left, scan_start}

-- Two digits: a smaller first one outweighs any second one.
lex_lt : (x x' d d' w : ℕ) → x' < x → d' < w → x' * w + d' < x * w + d
lex_lt x x' d d' w h k = omega (arith, mul-le-mul_right w h)

-- What the loop keeps true of its variables.
pub record IsScan (s pattern : List ℕ) (c : Scan) : Type 0 where
  pub star_before : star_after c.star_idx ≤ c.j
  pub in_pattern : c.j ≤ length pattern
  pub matched : c.match_idx ≤ c.i
  pub in_s : c.i ≤ length s

-- A turn that goes on keeps this and takes from the measure.
abbrev pub Advances : List ℕ → List ℕ → Scan → Option Scan → Type 0
Advances s pattern c none = Unit {0}
Advances s pattern c (some next) = IsScan s pattern next × (left s pattern next < left s pattern c)

Advances-same :
    (s pattern : List ℕ) (c : Scan)
    → c.i < length s
    → c.j < length pattern
    → IsScan s pattern c
    → Advances s pattern c (some (record c { i = c.i + 1; j = c.j + 1 }))
unfolding left
Advances-same s pattern c h k v = (
  record {
    star_before = omega (arith, v.star_before);
    in_pattern = omega arith;
    matched = omega (arith, v.matched);
    in_s = omega arith;
  },
  omega arith,
)

Advances-star :
    (s pattern : List ℕ) (c : Scan)
    → c.i < length s
    → c.j < length pattern
    → IsScan s pattern c
    → Advances s pattern c (some (record c { star_idx = some c.j; j = c.j + 1; match_idx = c.i }))
unfolding left star_after
Advances-star s pattern c h k v = (
  record {
    star_before = omega arith;
    in_pattern = omega arith;
    matched = omega arith;
    in_s = v.in_s;
  },
  lex_lt _ _ _ _ (length s + 1)
      (lex_lt _ _ _ _ (length s + 1) (omega (arith, v.star_before)) (omega arith)) (omega arith),
)

Advances-back :
    (s pattern : List ℕ) (c : Scan) (star : ℕ)
    → c.i < length s
    → c.star_idx ≡ some star
    → IsScan s pattern c
    → Advances s pattern c
        (some (record c { j = star + 1; match_idx = c.match_idx + 1; i = c.match_idx + 1 }))
unfolding left star_after
Advances-back s pattern c star h e v =
    let before : star + 1 ≤ c.j = rw e at v.star_before in
    (
      record {
        star_before = rw e (omega arith);
        in_pattern = omega (arith, before, v.in_pattern);
        matched = omega arith;
        in_s = omega (arith, v.matched);
      },
      lex_lt _ _ _ _ (length s + 1) (omega (arith, v.matched)) (omega (arith, v.matched)),
    )

scan_step_back :
    (s pattern : List ℕ) (c : Scan) (star : ℕ)
    → (ltb c.j (length pattern)
        && (get_or pattern c.j 0 == 0x3f || get_or s c.i 0 == get_or pattern c.j 0))
      ≡ false
    → (ltb c.j (length pattern) && (get_or pattern c.j 0 == 0x2a)) ≡ false
    → c.star_idx ≡ some star
    → scan_step s pattern c
      ≡ some (record c { j = star + 1; match_idx = c.match_idx + 1; i = c.match_idx + 1 })
unfolding scan_step
scan_step_back s pattern c star differs other e =
    rw (differs, other, e, scan_step)
      (λ k.
        some (record {
          star_idx = e k;
          match_idx = c.match_idx + 1;
          i = c.match_idx + 1;
          j = star + 1;
        }))

scan_step-Advances :
    (s pattern : List ℕ) (c : Scan)
    → c.i < length s
    → IsScan s pattern c
    → Advances s pattern c (scan_step s pattern c)
unfolding scan_step
scan_step-Advances s pattern c h v =
    let here = ltb c.j (length pattern) in
    elim (Bool-cases
      (here && (get_or pattern c.j 0 == 0x3f || get_or s c.i 0 == get_or pattern c.j 0))) [
        | inl same ↦ rw same (Advances-same s pattern c h (ground arith) v)
        | inr differs ↦ elim (Bool-cases (here && (get_or pattern c.j 0 == 0x2a))) [
          | inl star ↦ rw (differs, star) (Advances-star s pattern c h (ground arith) v)
          | inr other ↦ elim (Option-cases c.star_idx) [
            | inl n ↦ rw (differs, other, n, scan_step) tt
            | inr (star, e) ↦
                subst (Advances s pattern c) (sym (scan_step_back s pattern c star differs other e))
                  (Advances-back s pattern c star h e v)
          ]
        ]
      ]

scan_done :
    (fuel : ℕ) (s pattern : List ℕ) (c : Scan)
    → IsScan s pattern c
    → left s pattern c < fuel
    → (j : ℕ) × (scan fuel s pattern c ≡ some j)
unfolding scan
scan_done zero s pattern c v h = absurd (omega arith)
scan_done (suc fuel) s pattern c v h = elim (Bool-cases (ltb c.i (length s))) [
  | inr over ↦ (c.j, rw over)
  | inl more ↦
      let go = scan_step-Advances s pattern c (ltb→lt _ _ more) v in
      elim (Option-cases (scan_step s pattern c)) [
        | inl n ↦ (c.j, rw (more, n, scan))
        | inr (next, e) ↦
            let (v', less) = rw e at go in
            let (j, f) = scan_done fuel s pattern next v' (omega arith) in (j, rw (more, e, scan) f)
      ]
]

-- The first loop of `bm_wildcard_match` ends within the fuel that it is given, on any two strings.
pub scan_finishes :
    (s pattern : List ℕ)
    → (j : ℕ) × (scan (suc (left s pattern scan_start)) s pattern scan_start ≡ some j)
unfolding star_after
scan_finishes s pattern =
    scan_done (suc (left s pattern scan_start)) s pattern scan_start
      (record {
        star_before = omega arith;
        in_pattern = omega arith;
        matched = omega arith;
        in_s = omega arith;
      })
      (omega arith)
