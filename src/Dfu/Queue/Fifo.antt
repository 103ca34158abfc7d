-- ===== src/Dfu/Queue/Fifo.antt =====
-- The ring is a bounded FIFO of the events that `iter` gives.
use bristlemouth_rs.Common.{
  ℕ, zero, suc, ◌+◌, ◌-◌, ◌%◌, ◌≤◌, ◌<◌, ◌≡◌, ◌≢◌, refl, sym, subst, ap, ◌∙◌, ◌⊎◌, true, false, inl,
  inr, none, some, List, [], ◌∷◌, ◌++◌, arith, ◌==◌, Bool-cases, length, get_or, set, length-set,
  get_or-set_self, get_or-set_ne,
}
use mathlib.Core.Path.{ap₂}
use bristlemouth_rs.Dfu.Event.{Event, none_event}
use bristlemouth_rs.Dfu.Queue.{EventQueue, event_queue_len, new_queue, push, pop, iter_from, iter}

pub record IsRing (q : EventQueue) : Type 0 where
  pub five : length q.slots ≡ event_queue_len
  pub head_in : q.head < event_queue_len
  pub len_in : q.len ≤ event_queue_len

pub new_queue-IsRing : IsRing new_queue
unfolding new_queue
new_queue-IsRing = record { five = refl; head_in = omega arith; len_in = omega arith }

pub push-IsRing : (q : EventQueue) (e : Event) → IsRing q → IsRing (push q e).0
unfolding push
push-IsRing q e r = ground (arith, length-set q.slots ((q.head + q.len) % 5) e)

pub pop-IsRing : (q : EventQueue) → IsRing q → IsRing (pop q).0
unfolding pop
pop-IsRing q r = ground (arith, length-set q.slots q.head none_event)

length-iter_from : (s : List Event) (h i n : ℕ) → length (iter_from s h i n) ≡ n
unfolding iter_from
length-iter_from s h i zero = refl
length-iter_from s h i (suc n) = ap suc (length-iter_from s h (i + 1) n)

pub length-iter : (q : EventQueue) → length (iter q) ≡ q.len
unfolding iter
length-iter q = length-iter_from q.slots q.head 0 q.len

-- The slot behind those read is the last one of a longer reading.
iter_from-suc :
    (s : List Event) (h i n : ℕ)
    → iter_from s h i (suc n) ≡ iter_from s h i n ++ (get_or s ((h + (i + n)) % 5) none_event ∷ [])
unfolding iter_from
iter_from-suc s h i zero = ap (λ k. get_or s ((h + k) % 5) none_event ∷ []) (omega arith)
iter_from-suc s h i (suc n) = ap (◌∷◌ (get_or s ((h + i) % 5) none_event)) (
    iter_from-suc s h (i + 1) n
    ∙ ap (λ k. iter_from s h (i + 1) n ++ (get_or s ((h + k) % 5) none_event ∷ [])) (omega arith))

-- A write to a slot that is not read changes nothing.
iter_from-set :
    (s : List Event) (h i n j : ℕ) (e : Event)
    → ((k : ℕ) → i ≤ k → k < i + n → (h + k) % 5 ≢ j)
    → iter_from (set s j e) h i n ≡ iter_from s h i n
unfolding iter_from
iter_from-set s h i zero j e f = refl
iter_from-set s h i (suc n) j e f =
    rw (get_or-set_ne s j ((h + i) % 5) e none_event (λ p. f i (omega arith) (omega arith) (sym p)))
      (ap (◌∷◌ (get_or s ((h + i) % 5) none_event))
        (iter_from-set s h (i + 1) n j e (λ k lo hi. f k (omega arith) (omega arith))))

-- Reading from the next slot on.
iter_from-next :
    (s : List Event) (h i n : ℕ) → iter_from s ((h + 1) % 5) i n ≡ iter_from s h (i + 1) n
unfolding iter_from
iter_from-next s h i zero = refl
iter_from-next s h i (suc n) =
    rw (iter_from-next s h (i + 1) n)
      (ap (λ k. get_or s k none_event ∷ iter_from s h (i + 1 + 1) n) (omega arith))

-- On a well-formed queue, `push` appends the event behind those that wait, and fails, changing
-- nothing, exactly when five wait.
pub iter-push :
    (q : EventQueue) (e : Event)
    → IsRing q
    → ((q.len ≡ 5) × (push q e ≡ (q, false)))
      ⊎ ((q.len < 5) × ((push q e).1 ≡ true) × (iter (push q e).0 ≡ iter q ++ (e ∷ [])))
unfolding push iter
iter-push q e r = elim (Bool-cases (q.len == 5)) [
  | inl full ↦ inl (ground arith, rw full)
  | inr room ↦ inr (
    ground (arith, r.len_in),
    rw room,
    rw room (
        ap (iter_from (set q.slots ((q.head + q.len) % 5) e) q.head 0) (omega arith)
        ∙ iter_from-suc (set q.slots ((q.head + q.len) % 5) e) q.head 0 q.len
        ∙ ap₂ (λ xs (x : Event). xs ++ (x ∷ []))
            (iter_from-set q.slots q.head 0 q.len ((q.head + q.len) % 5) e
              (λ k lo hi p. apart (q.head) k q.len hi (omega (arith, ne_five room, r.len_in)) p))
            (ap (λ k. get_or (set q.slots ((q.head + q.len) % 5) e) ((q.head + k) % 5) none_event)
                (omega arith)
              ∙ get_or-set_self q.slots ((q.head + q.len) % 5) e none_event
                  (omega (arith, r.five)))),
  )
]
  where
    ne_five : (q.len == 5) ≡ false → q.len ≢ 5
    ne_five h = ground arith

    apart : (h k n : ℕ) → k < 0 + n → n < 5 → (h + k) % 5 ≢ (h + n) % 5
    apart h k n hk hn = omega arith

-- On a well-formed queue, `pop` takes the oldest event and leaves the others in order, and finds
-- nothing exactly when nothing waits.
pub iter-pop :
    (q : EventQueue)
    → IsRing q
    → ((iter q ≡ []) × (pop q ≡ (q, none)))
      ⊎ ((e : Event) × ((pop q).1 ≡ some e) × (iter q ≡ e ∷ iter (pop q).0))
unfolding pop iter iter_from
iter-pop q r = elim (Bool-cases (q.len == 0)) [
  | inl none_left ↦ inl (
    subst (λ k. iter_from q.slots q.head 0 k ≡ []) (sym (zero_len q.len none_left)) refl,
    rw none_left,
  )
  | inr more ↦ inr (
    get_or q.slots q.head none_event,
    rw more,
    rw more (
        ap (iter_from q.slots q.head 0) (positive q.len (not_zero q.len more))
        ∙ ap₂ (λ k xs. get_or q.slots k none_event ∷ xs) (head_mod q.head r.head_in)
            (sym (
              iter_from-next (set q.slots q.head none_event) q.head 0 (q.len - 1)
              ∙ iter_from-set q.slots q.head 1 (q.len - 1) q.head none_event (λ k lo hi p.
                apart q.head k lo (omega (arith, hi, r.len_in, not_zero q.len more)) r.head_in
                  p)))),
  )
]
  where
    zero_len : (n : ℕ) → (n == 0) ≡ true → n ≡ 0
    zero_len n h = ground arith

    positive : (n : ℕ) → n ≢ 0 → n ≡ suc (n - 1)
    positive n h = omega arith

    not_zero : (n : ℕ) → (n == 0) ≡ false → n ≢ 0
    not_zero n h = ground arith

    head_mod : (h : ℕ) → h < 5 → (h + 0) % 5 ≡ h
    head_mod h lt = omega arith

    apart : (h k : ℕ) → 1 ≤ k → k < 5 → h < 5 → (h + k) % 5 ≢ h
    apart h k lo hi lt = omega arith
