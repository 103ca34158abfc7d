-- ===== src/Dfu/Core/Timers.antt =====
-- `fire_due` ends, fires every timer that is due and no other, and touches the queue and the timers
-- only.
use bristlemouth_rs.Common.{
  ℕ, zero, suc, ◌+◌, ◌≤◌, ◌≡◌, ◌∙◌, refl, subst, true, false, inl, inr, Bool, Option, none, some,
  List, [], ◌∷◌, arith, ltb, ltb→lt, ltb→le, if◌then◌else◌, Bool-cases, Option-cases, All, ◌⊎◌,
}
use mathlib.Core.Option.{some-injective}
use bristlemouth_rs.Dfu.Event.{Timer, chunk_timer, ack_timer, update_timer, all_timers}
use bristlemouth_rs.Dfu.Queue.Fifo.{IsRing, push-IsRing}
use bristlemouth_rs.Dfu.Core.{
  Core, PerTimer, of_timer, now, is_due, signed_key, keep_due, min_from, min_by_key, next_due, fire,
  fire_loop, fire_due,
}

-- Timer `x` of `c` is due.
abbrev pub due : Core → Timer → Bool
due c x = is_due (now c) (of_timer c.timers x)

min_from-All {ℓ} :
    (P : Timer → Type ℓ) (key : Timer → ℕ) (best : Timer) (xs : List Timer)
    → P best
    → All P xs
    → P (min_from key best xs)
unfolding min_from
min_from-All P key best [] h a = h
min_from-All P key best (x ∷ xs) h a = elim (Bool-cases (ltb (key x) (key best))) [
  | inl e ↦ rw e (min_from-All P key x xs a.0 a.1)
  | inr e ↦ rw e (min_from-All P key best xs h a.1)
]

keep_due-All :
    (t : ℕ) (a : PerTimer (Option ℕ)) (xs : List Timer)
    → All (λ x. is_due t (of_timer a x) ≡ true) (keep_due t a xs)
unfolding keep_due
keep_due-All t a [] = tt
keep_due-All t a (x ∷ xs) = elim (Bool-cases (is_due t (of_timer a x))) [
  | inl e ↦ rw e (e, keep_due-All t a xs)
  | inr e ↦ rw e (keep_due-All t a xs)
]

min_by_key-All {ℓ} :
    (P : Timer → Type ℓ) (key : Timer → ℕ) (xs : List Timer) (x : Timer)
    → All P xs
    → min_by_key key xs ≡ some x
    → P x
unfolding min_by_key
min_by_key-All P key [] x a e = cc
min_by_key-All P key (y ∷ ys) x a e =
    subst P (some-injective _ _ e) (min_from-All P key y ys a.0 a.1)

-- The timer that `next_due` picks is due.
next_due-due : (c : Core) (x : Timer) → next_due c ≡ some x → due c x ≡ true
unfolding next_due
next_due-due c x e =
    min_by_key-All (λ y. due c y ≡ true) _ (keep_due (now c) c.timers all_timers) x
      (keep_due-All (now c) c.timers all_timers) e

-- It finds none only if none is due.
next_due-none : (c : Core) (x : Timer) → next_due c ≡ none → due c x ≡ false
unfolding next_due keep_due min_by_key
next_due-none c chunk_timer e = ground arith
next_due-none c ack_timer e = ground arith
next_due-none c update_timer e = ground arith

-- `y` is in the list.
abbrev Has : Timer → List Timer → Type 0
Has y [] = ⊥
Has y (x ∷ xs) = (x ≡ y) ⊎ Has y xs

min_from-le_self :
    (key : Timer → ℕ) (best : Timer) (xs : List Timer) → key (min_from key best xs) ≤ key best
unfolding min_from
min_from-le_self key best [] = omega arith
min_from-le_self key best (x ∷ xs) = elim (Bool-cases (ltb (key x) (key best))) [
  | inl e ↦ rw e (omega (arith, min_from-le_self key x xs, ltb→lt _ _ e))
  | inr e ↦ rw e (min_from-le_self key best xs)
]

min_from-le :
    (key : Timer → ℕ) (best : Timer) (xs : List Timer) (y : Timer)
    → Has y xs
    → key (min_from key best xs) ≤ key y
unfolding min_from
min_from-le key best [] y h = absurd h
min_from-le key best (x ∷ xs) y (inl e) = elim (Bool-cases (ltb (key x) (key best))) [
  | inl f ↦ rw f (subst (λ z. key (min_from key x xs) ≤ key z) e (min_from-le_self key x xs))
  | inr f ↦ rw f (
      subst (λ z. key (min_from key best xs) ≤ key z) e
        (omega (arith, min_from-le_self key best xs, ltb→le _ _ f)))
]
min_from-le key best (x ∷ xs) y (inr h) =
    min_from-le key (if ltb (key x) (key best) then x else best) xs y h

min_by_key-le :
    (key : Timer → ℕ) (xs : List Timer) (x y : Timer)
    → Has y xs
    → min_by_key key xs ≡ some x
    → key x ≤ key y
unfolding min_by_key
min_by_key-le key [] x y h e = absurd h
min_by_key-le key (z ∷ zs) x y (inl f) e =
    subst (λ w. key w ≤ key y) (some-injective _ _ e)
      (subst (λ w. key (min_from key z zs) ≤ key w) f (min_from-le_self key z zs))
min_by_key-le key (z ∷ zs) x y (inr h) e =
    subst (λ w. key w ≤ key y) (some-injective _ _ e) (min_from-le key z zs y h)

keep_due-Has :
    (t : ℕ) (a : PerTimer (Option ℕ)) (y : Timer)
    → is_due t (of_timer a y) ≡ true
    → Has y (keep_due t a all_timers)
unfolding keep_due
keep_due-Has t a chunk_timer h = ground arith
keep_due-Has t a ack_timer h = ground arith
keep_due-Has t a update_timer h = ground arith

-- The timer that fires next has a deadline no later than that of any timer that is due.
pub next_due_earliest :
    (c : Core) (x y : Timer)
    → next_due c ≡ some x
    → due c y ≡ true
    → signed_key (now c) (of_timer c.timers x) ≤ signed_key (now c) (of_timer c.timers y)
unfolding next_due
next_due_earliest c x y e h =
    min_by_key-le (λ z. signed_key (now c) (of_timer c.timers z))
      (keep_due (now c) c.timers all_timers) x y (keep_due-Has (now c) c.timers y h) e

-- How many timers are due.
abbrev count_due : Core → ℕ
count_due c =
    (if due c chunk_timer then 1 else 0)
    + (if due c ack_timer then 1 else 0)
    + (if due c update_timer then 1 else 0)

fire-count_due : (c : Core) (x : Timer) → due c x ≡ true → suc (count_due (fire c x)) ≡ count_due c
unfolding fire now is_due of_timer
fire-count_due c chunk_timer h = rw h (omega arith)
fire-count_due c ack_timer h = rw h (omega arith)
fire-count_due c update_timer h = rw h (omega arith)

fire_loop-done :
    (fuel : ℕ) (c : Core) (x : Timer) → count_due c ≤ fuel → due (fire_loop fuel c) x ≡ false
unfolding fire_loop
fire_loop-done zero c chunk_timer h = ground arith
fire_loop-done zero c ack_timer h = ground arith
fire_loop-done zero c update_timer h = ground arith
fire_loop-done (suc fuel) c x h = elim (Option-cases (next_due c)) [
  | inl e ↦ rw (e, fire_loop) (next_due-none c x e)
  | inr (y, e) ↦
      rw (e, fire_loop)
        (fire_loop-done fuel (fire c y) x (omega (arith, fire-count_due c y (next_due-due c y e))))
]

-- What a round of `fire_due` leaves alone.
pub record Quiet (c d : Core) : Type 0 where
  pub state : d.state ≡ c.state
  pub current : d.current ≡ c.current
  pub pending : d.pending ≡ c.pending
  pub error : d.error ≡ c.error
  pub self_node_id : d.self_node_id ≡ c.self_node_id
  pub client_node_id : d.client_node_id ≡ c.client_node_id
  pub notify : d.notify ≡ c.notify
  pub internal : d.internal ≡ c.internal
  pub reboot_info : d.reboot_info ≡ c.reboot_info
  pub clock : d.clock ≡ c.clock
  pub periods : d.periods ≡ c.periods

fire_loop-Quiet : (fuel : ℕ) (c d : Core) → Quiet c d → Quiet c (fire_loop fuel d)
unfolding fire_loop fire
fire_loop-Quiet zero c d q = q
fire_loop-Quiet (suc fuel) c d q = elim (Option-cases (next_due d)) [
  | inl e ↦ rw (e, fire_loop) q
  | inr (y, e) ↦
      rw (e, fire_loop)
        (fire_loop-Quiet fuel c (fire d y) (record {
          state = q.state;
          current = q.current;
          pending = q.pending;
          error = q.error;
          self_node_id = q.self_node_id;
          client_node_id = q.client_node_id;
          notify = q.notify;
          internal = q.internal;
          reboot_info = q.reboot_info;
          clock = q.clock;
          periods = q.periods;
        }))
]

pub fire_due-Quiet : (c : Core) → Quiet c (fire_due c)
unfolding fire_due
fire_due-Quiet c = fire_loop-Quiet 3 c c (record {
  state = refl;
  current = refl;
  pending = refl;
  error = refl;
  self_node_id = refl;
  client_node_id = refl;
  notify = refl;
  internal = refl;
  reboot_info = refl;
  clock = refl;
  periods = refl;
})

fire_loop-IsRing : (fuel : ℕ) (c : Core) → IsRing c.queue → IsRing (fire_loop fuel c).queue
unfolding fire_loop fire
fire_loop-IsRing zero c r = r
fire_loop-IsRing (suc fuel) c r = elim (Option-cases (next_due c)) [
  | inl e ↦ rw (e, fire_loop) r
  | inr (y, e) ↦ rw (e, fire_loop) (fire_loop-IsRing fuel (fire c y) (push-IsRing c.queue _ r))
]

pub fire_due-IsRing : (c : Core) → IsRing c.queue → IsRing (fire_due c).queue
unfolding fire_due
fire_due-IsRing c r = fire_loop-IsRing 3 c r

-- The deadline of `x` after all that is due has fired.
abbrev deadline_after : Core → Timer → Option ℕ
deadline_after c x = if due c x then none else of_timer c.timers x

fire-deadline_after :
    (c : Core) (y x : Timer) → due c y ≡ true → deadline_after (fire c y) x ≡ deadline_after c x
unfolding fire now is_due of_timer
fire-deadline_after c chunk_timer chunk_timer h = rw h
fire-deadline_after c chunk_timer ack_timer h = refl
fire-deadline_after c chunk_timer update_timer h = refl
fire-deadline_after c ack_timer chunk_timer h = refl
fire-deadline_after c ack_timer ack_timer h = rw h
fire-deadline_after c ack_timer update_timer h = refl
fire-deadline_after c update_timer chunk_timer h = refl
fire-deadline_after c update_timer ack_timer h = refl
fire-deadline_after c update_timer update_timer h = rw h

fire_loop-timers :
    (fuel : ℕ) (c : Core) (x : Timer)
    → count_due c ≤ fuel
    → of_timer (fire_loop fuel c).timers x ≡ deadline_after c x
unfolding fire_loop
fire_loop-timers zero c x h = rw (fire_loop-done zero c x h)
fire_loop-timers (suc fuel) c x h = elim (Option-cases (next_due c)) [
  | inl e ↦ rw (e, fire_loop) (rw (next_due-none c x e))
  | inr (y, e) ↦
      let d = next_due-due c y e in
      rw (e, fire_loop)
        (fire_loop-timers fuel (fire c y) x (omega (arith, fire-count_due c y d))
          ∙ fire-deadline_after c y x d)
]

count_due-le : (c : Core) → count_due c ≤ 3
count_due-le c = ground arith

-- `fire_due` stops every timer that is due and leaves the deadline of every other as it was; the
-- three rounds are enough.
pub fire_due-timers :
    (c : Core) (x : Timer)
    → of_timer (fire_due c).timers x ≡ (if due c x then none else of_timer c.timers x)
unfolding fire_due
fire_due-timers c x = fire_loop-timers 3 c x (count_due-le c)

-- After `fire_due` no timer is due.
pub fire_due-done : (c : Core) (x : Timer) → due (fire_due c) x ≡ false
unfolding fire_due
fire_due-done c x = fire_loop-done 3 c x (count_due-le c)
