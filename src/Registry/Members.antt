-- ===== src/Registry/Members.antt =====
-- A request in the list of those that wait, under the sweep and under the removal of another.
use mathlib.Core.List.{Memᴰ}
use bristlemouth_rs.Common.{
  ℕ, zero, suc, ◌≡◌, ◌≢◌, refl, sym, subst, ap, ◌∙◌, Option, none, some, List, [], ◌∷◌, get_or,
  remove_at, All, All-map, Apart, KeysDiffer,
}
use bristlemouth_rs.Registry.{PendingRequest, Expiry, no_request}
use bristlemouth_rs.Registry.Sweep.{kept, reported, fate, and_then}
use bristlemouth_rs.Registry.Reachable.{All-kept, fate-kept}

-- A request that the sweep keeps is among those kept, as it is then.
pub Mem-kept :
    (now_ms : ℕ) (r r' : PendingRequest) (rs : List PendingRequest)
    → (fate now_ms r).0 ≡ some r'
    → Memᴰ r rs
    → Memᴰ r' (kept now_ms rs)
unfolding kept
Mem-kept now_ms r r' [] e m = elim m [ ]
Mem-kept now_ms r r' (x ∷ rs) e (Memᴰ.head same) = rw (← same, e) (Memᴰ.head refl)
Mem-kept now_ms r r' (x ∷ rs) e (Memᴰ.tail m) =
    behind (fate now_ms x).0 (Mem-kept now_ms r r' rs e m)
  where
    behind :
        (o : Option PendingRequest)
        → Memᴰ r' (kept now_ms rs)
        → Memᴰ r' (and_then o (kept now_ms rs))
    behind none m = m
    behind (some y) m = Memᴰ.tail m

-- What the sweep says of a request is among its reports.
pub Mem-reported :
    (now_ms : ℕ) (r : PendingRequest) (x : Expiry) (rs : List PendingRequest)
    → (fate now_ms r).1 ≡ some x
    → Memᴰ r rs
    → Memᴰ x (reported now_ms rs)
unfolding reported
Mem-reported now_ms r x [] e m = elim m [ ]
Mem-reported now_ms r x (y ∷ rs) e (Memᴰ.head same) = rw (← same, e) (Memᴰ.head refl)
Mem-reported now_ms r x (y ∷ rs) e (Memᴰ.tail m) =
    behind (fate now_ms y).1 (Mem-reported now_ms r x rs e m)
  where
    behind :
        (o : Option Expiry) → Memᴰ x (reported now_ms rs) → Memᴰ x (and_then o (reported now_ms rs))
    behind none m = m
    behind (some z) m = Memᴰ.tail m

-- Taking another request away leaves this one.
pub Mem-remove_at :
    (r : PendingRequest) (i : ℕ) (rs : List PendingRequest)
    → (get_or rs i no_request).seq_num ≢ r.seq_num
    → Memᴰ r rs
    → Memᴰ r (remove_at i rs)
unfolding remove_at
Mem-remove_at r i [] other m = elim m [ ]
Mem-remove_at r zero (x ∷ rs) other (Memᴰ.head same) =
    absurd (other (ap (λ y. y.seq_num) (sym same)))
Mem-remove_at r zero (x ∷ rs) other (Memᴰ.tail m) = m
Mem-remove_at r (suc i) (x ∷ rs) other (Memᴰ.head same) = Memᴰ.head same
Mem-remove_at r (suc i) (x ∷ rs) other (Memᴰ.tail m) = Memᴰ.tail (Mem-remove_at r i rs other m)

All-Mem :
    (P : PendingRequest → Type 0) (r : PendingRequest) (rs : List PendingRequest)
    → All P rs
    → Memᴰ r rs
    → P r
All-Mem P r [] a m = elim m [ ]
All-Mem P r (x ∷ rs) a (Memᴰ.head same) = subst P (sym same) a.0
All-Mem P r (x ∷ rs) a (Memᴰ.tail m) = All-Mem P r rs a.1 m

-- A request that the sweep gives up leaves none with its number.
abbrev pub Differs : ℕ → PendingRequest → Type 0
Differs seq_num x = x.seq_num ≢ seq_num

module _ (now_ms : ℕ) (seq_num : ℕ) where
  kept-Differs :
      (rs : List PendingRequest) → All (Differs seq_num) rs → All (Differs seq_num) (kept now_ms rs)
  kept-Differs rs a =
      All-kept (Differs seq_num) now_ms
        (λ x x' e n same. n (sym (fate-kept now_ms x x' e).0 ∙ same)) rs a

  cons-Differs :
      (x : PendingRequest) (rs : List PendingRequest)
      → Differs seq_num x
      → All (Differs seq_num) (kept now_ms rs)
      → All (Differs seq_num) (kept now_ms (x ∷ rs))
  unfolding kept
  cons-Differs x rs n a = after (fate now_ms x).0 (λ x' e. (fate-kept now_ms x x' e).0)
    where
      after :
          (o : Option PendingRequest)
          → ((x' : PendingRequest) → o ≡ some x' → x'.seq_num ≡ x.seq_num)
          → All (Differs seq_num) (and_then o (kept now_ms rs))
      after none f = a
      after (some x') f = (λ same. n (sym (f x' refl) ∙ same), a)

  pub given_up-Differs :
      (r : PendingRequest) (rs : List PendingRequest)
      → r.seq_num ≡ seq_num
      → (fate now_ms r).0 ≡ none
      → Apart (KeysDiffer (λ (x : PendingRequest). x.seq_num)) rs
      → Memᴰ r rs
      → All (Differs seq_num) (kept now_ms rs)
  unfolding kept
  given_up-Differs r [] same gone a m = elim m [ ]
  given_up-Differs r (x ∷ rs) same gone a (Memᴰ.head here) =
      rw (← here, gone)
        (kept-Differs rs (
          All-map (KeysDiffer (λ (y : PendingRequest). y.seq_num) x)
            (λ y n e. n (ap (λ z. z.seq_num) (sym here) ∙ same ∙ sym e)) rs a.0))
  given_up-Differs r (x ∷ rs) same gone a (Memᴰ.tail m) =
      cons-Differs x rs
        (λ e. All-Mem (KeysDiffer (λ (y : PendingRequest). y.seq_num) x) r rs a.0 m (e ∙ sym same))
        (given_up-Differs r rs same gone a.1 m)
