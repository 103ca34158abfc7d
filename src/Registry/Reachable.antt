-- ===== src/Registry/Reachable.antt =====
-- The registries that calls lead to.
use bristlemouth_rs.Common.{
  ℕ, ◌+◌, ◌^◌, ◌<◌, ◌≤◌, ◌≡◌, sym, ◌∙◌, inl, inr, Bool-cases, Option-cases, some, List, [], ◌∷◌,
  leb, arith, length, All, All-map, Apart, KeysDiffer, ok, subst,
}
use bristlemouth_rs.Registry.{
  PacketCfg, PendingRequest, Registry, resuming, Expiry, add, remove, on_serialize, on_received,
  sweep, on_tick, next_sweep,
}
use bristlemouth_rs.Util.Time.{wrapping_sub}
use bristlemouth_rs.Registry.Sweep.{kept, fate, sweep-fates}
use bristlemouth_rs.Registry.Invariant.{
  IsValid, resuming-IsValid, add-IsValid, remove-IsValid, on_serialize-IsValid, on_received-IsValid,
}

pub fate-kept :
    (now_ms : ℕ) (r r' : PendingRequest)
    → (fate now_ms r).0 ≡ some r'
    → (r'.seq_num ≡ r.seq_num) × (r.retries ≤ 3 → r'.retries ≤ 3)
unfolding fate
fate-kept now_ms r r' e = ground arith

module _ {κ} (P : PendingRequest → Type κ) (now_ms : ℕ) where
  pub All-kept :
      ((r r' : PendingRequest) → (fate now_ms r).0 ≡ some r' → P r → P r')
      → (rs : List PendingRequest) → All P rs
      → All P (kept now_ms rs)
  unfolding kept
  All-kept f [] a = tt
  All-kept f (r ∷ rs) a = elim (Option-cases (fate now_ms r).0) [
    | inl gone ↦ rw gone (All-kept f rs a.1)
    | inr (r', stays) ↦ rw stays (f r r' stays a.0, All-kept f rs a.1)
  ]

length-kept : (now_ms : ℕ) (rs : List PendingRequest) → length (kept now_ms rs) ≤ length rs
unfolding kept
length-kept now_ms [] = omega arith
length-kept now_ms (r ∷ rs) = elim (Option-cases (fate now_ms r).0) [
  | inl gone ↦ rw gone (omega (arith, length-kept now_ms rs))
  | inr (r', stays) ↦ rw stays (omega (arith, length-kept now_ms rs))
]

Apart-kept :
    (now_ms : ℕ) (rs : List PendingRequest)
    → Apart (KeysDiffer (λ (r : PendingRequest). r.seq_num)) rs
    → Apart (KeysDiffer (λ (r : PendingRequest). r.seq_num)) (kept now_ms rs)
unfolding kept
Apart-kept now_ms [] a = tt
Apart-kept now_ms (r ∷ rs) a = elim (Option-cases (fate now_ms r).0) [
  | inl gone ↦ rw gone (Apart-kept now_ms rs a.1)
  | inr (r', stays) ↦ rw stays (
    All-kept (KeysDiffer (λ (r : PendingRequest). r.seq_num) r') now_ms
        (λ x x' k n e. n (e ∙ (fate-kept now_ms x x' k).0)) rs
        (All-map (KeysDiffer (λ (r : PendingRequest). r.seq_num) r)
          (λ x n e. n (sym (fate-kept now_ms r r' stays).0 ∙ e)) rs a.0),
    Apart-kept now_ms rs a.1,
  )
]

sweep-IsValid : (g : Registry) (now_ms : ℕ) → IsValid g → IsValid (sweep g now_ms).0
sweep-IsValid g now_ms v =
    subst (λ (s : Registry × List Expiry). IsValid s.0) (sym (sweep-fates g now_ms))
      (record {
        types_fit = v.types_fit;
        pending_fit = omega (arith, v.pending_fit, length-kept now_ms g.pending);
        given =
            All-kept (λ r. r.seq_num < g.message_count) now_ms
              (λ r r' e p. omega (arith, (fate-kept now_ms r r' e).0, p)) g.pending v.given;
        distinct = Apart-kept now_ms g.pending v.distinct;
        retried =
            All-kept (λ r. r.retries ≤ 3) now_ms (λ r r' e p. (fate-kept now_ms r r' e).1 p)
              g.pending v.retried;
      })

on_tick-IsValid : (g : Registry) (now_ms : ℕ) → IsValid g → IsValid (on_tick g now_ms).0
unfolding on_tick
on_tick-IsValid g now_ms v =
    elim (Bool-cases (leb (2 ^ 31) (wrapping_sub now_ms g.next_sweep_ms))) [
      | inl early ↦ rw early v
      | inr due ↦ rw due (
          sweep-IsValid (record g { next_sweep_ms = next_sweep g now_ms }) now_ms
            (record {
              types_fit = v.types_fit;
              pending_fit = v.pending_fit;
              given = v.given;
              distinct = v.distinct;
              retried = v.retried;
            }))
    ]

-- A call of one of the methods that change a registry.
pub data Step : Registry → Registry → Type 0 where
  added :
      (g h : Registry) (message_type : ℕ) (c : PacketCfg) → add g message_type c ≡ ok h → Step g h
  removed : (g : Registry) (message_type : ℕ) → Step g (remove g message_type).0
  serialized :
      (g : Registry) (now_ms message_type reply_seq_num : ℕ)
      → g.message_count + 1 < 2 ^ 32
      → Step g (on_serialize g now_ms message_type reply_seq_num).0
  took : (g : Registry) (message_type seq_num : ℕ) → Step g (on_received g message_type seq_num).0
  ticked : (g : Registry) (now_ms : ℕ) → Step g (on_tick g now_ms).0

pub data Reachable : Registry → Type 0 where
  start : (t p count next : ℕ) → Reachable (resuming t p count next)
  step : (g h : Registry) → Reachable g → Step g h → Reachable h

pub Step-IsValid : (g h : Registry) → Step g h → IsValid g → IsValid h
Step-IsValid g h (added _ _ message_type c e) v = add-IsValid g h message_type c e v
Step-IsValid g h (removed _ message_type) v = remove-IsValid g message_type v
Step-IsValid g h (serialized _ now_ms message_type reply_seq_num few) v =
    on_serialize-IsValid g now_ms message_type reply_seq_num few v
Step-IsValid g h (took _ message_type seq_num) v = on_received-IsValid g message_type seq_num v
Step-IsValid g h (ticked _ now_ms) v = on_tick-IsValid g now_ms v

-- Every registry that calls lead to from an empty one, as long as the counter of the requests does not
-- wrap around, is valid: the tables fit, the requests that wait have different numbers, each given
-- before, and none has been sent again more than three times.
pub Reachable-IsValid : (g : Registry) → Reachable g → IsValid g
Reachable-IsValid g (start t p count next) = resuming-IsValid t p count next
Reachable-IsValid h (step g _ reached s) = Step-IsValid g h s (Reachable-IsValid g reached)
