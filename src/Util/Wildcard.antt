-- ===== src/Util/Wildcard.antt =====
-- `bm_wildcard_match` of bm-wire/src/util.rs.
pub mod Termination
pub mod Prefixes
use bristlemouth_rs.Common.{
  ℕ, zero, suc, ◌+◌, ◌*◌, Bool, true, false, ◌&&◌, ◌||◌, Option, none, some, List, ltb, ◌==◌,
  if◌then◌else◌, length, get_or, drop, [], ◌∷◌, ◌-◌,
}

-- The loop's variables.
pub record Scan : Type 0 where
  pub star_idx : Option ℕ
  pub match_idx : ℕ
  pub i : ℕ
  pub j : ℕ

-- One turn of the first loop, on `i < s.len()`: none is the `break`.
unfoldable pub scan_step : List ℕ → List ℕ → Scan → Option Scan
scan_step s pattern c =
    let here = ltb c.j (length pattern) in
    if here && (get_or pattern c.j 0 == 0x3f || get_or s c.i 0 == get_or pattern c.j 0)
    then some (record c { i = c.i + 1; j = c.j + 1 })
    else if here && (get_or pattern c.j 0 == 0x2a)
    then some (record c { star_idx = some c.j; j = c.j + 1; match_idx = c.i })
    else elim c.star_idx [
      | none ↦ none
      | some star ↦
          some (record c { j = star + 1; match_idx = c.match_idx + 1; i = c.match_idx + 1 })
    ]

-- The first loop, on fuel: where it left `j`.
unfoldable pub scan : ℕ → List ℕ → List ℕ → Scan → Option ℕ
unfolding scan_step
scan zero s pattern c = none
scan (suc fuel) s pattern c =
    if ltb c.i (length s)
    then elim (scan_step s pattern c) [ none ↦ some c.j | some next ↦ scan fuel s pattern next ]
    else some c.j

-- `star_idx` counted from one, 0 for none.
unfoldable pub star_after : Option ℕ → ℕ
star_after none = 0
star_after (some star) = star + 1

-- What is left of the loop: a new star, else a restart behind the last one, else the next byte.
unfoldable pub left : List ℕ → List ℕ → Scan → ℕ
left s pattern c =
    let width = length s + 1 in
    ((length pattern - star_after c.star_idx) * width + (length s - c.match_idx)) * width
    + (length s - c.i)

abbrev pub scan_start : Scan
scan_start = record { star_idx = none; match_idx = 0; i = 0; j = 0 }

-- The second loop, on what it has left of the pattern.
unfoldable pub all_stars : List ℕ → Bool
all_stars [] = true
all_stars (b ∷ bs) = (b == 0x2a) && all_stars bs

unfoldable pub bm_wildcard_match : List ℕ → List ℕ → Bool
unfolding scan all_stars left
bm_wildcard_match s pattern = elim (scan (suc (left s pattern scan_start)) s pattern scan_start) [
  | none ↦ false
  | some j ↦ all_stars (drop j pattern)
]
