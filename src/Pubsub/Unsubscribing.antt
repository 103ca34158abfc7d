-- ===== src/Pubsub/Unsubscribing.antt =====
-- What unsubscribing does to the callbacks of a topic.
use bristlemouth_rs.Common.{
  subst, ℕ, zero, suc, ◌≡◌, ◌≢◌, refl, sym, ap, ◌∙◌, inl, inr, ◌⊎◌, Bool, false, none, some, List,
  [], ◌∷◌, arith, length, get_or, ◌==◌, if◌then◌else◌, Bool-cases, Option-cases, bytes_eq,
  bytes_eq_iff, position, find, remove_at, position_found, find-All-false, All-map, Apart, Result,
  ok, err,
}
use mathlib.Core.Option
use bristlemouth_rs.Pubsub.{
  check_topic, SubscriptionSlot, Subscriptions, Subscriber, SubscriptionError, no_such_subscriber,
  not_subscribed, subscriber_eq, empty_slot, holds_topic, topic_position, callbacks_of,
  remove_callback, drop_callback, unsubscribe_as,
}
use bristlemouth_rs.Pubsub.Invariant.{IsValid, TopicsDiffer, check_topic_cases}
use bristlemouth_rs.Pubsub.Subscribing.{
  callbacks_of_fresh, callbacks_of-find, callbacks_of_held, find-set_callbacks,
}

find-remove_at_miss :
    (p : SubscriptionSlot → Bool) (es : List SubscriptionSlot) (i : ℕ)
    → p (get_or es i empty_slot) ≡ false
    → find p (remove_at i es) ≡ find p es
unfolding find remove_at
find-remove_at_miss p [] i h = refl
find-remove_at_miss p (x ∷ xs) zero h = rw h refl
find-remove_at_miss p (x ∷ xs) (suc i) h = rw (find-remove_at_miss p xs i h) refl

-- Once the slot of a topic is gone, no slot has the topic.
find-remove_topic :
    (topic : List ℕ) (es : List SubscriptionSlot) (i : ℕ)
    → Apart TopicsDiffer es
    → position (holds_topic topic) es ≡ some i
    → find (holds_topic topic) (remove_at i es) ≡ none
unfolding find remove_at position
find-remove_topic topic [] i a e = refl
find-remove_topic topic (x ∷ xs) zero a e = elim (Bool-cases (holds_topic topic x)) [
  | inl hit ↦ find-All-false (holds_topic topic) xs (
      All-map _ (λ y ne. ground (arith, bytes_eq_iff x.topic topic, bytes_eq_iff y.topic topic)) xs
        a.0)
  | inr miss ↦ absurd (ground (arith, Option-cases (position (holds_topic topic) xs)))
]
find-remove_topic topic (x ∷ xs) (suc i) a e =
    ground (arith, Option-cases (position (holds_topic topic) xs), find-remove_topic topic xs i a.1)

-- Why an unsubscription fails: the topic is empty or too long, is not subscribed, or is not subscribed
-- by this subscriber.
abbrev pub IsUnknown : Subscriptions → List ℕ → Subscriber → SubscriptionError → Type 0
IsUnknown t topic s e =
    (check_topic topic ≡ err e)
    ⊎ (((e ≡ not_subscribed) × (callbacks_of t topic ≡ none))
        ⊎ ((cs : List Subscriber) × (e ≡ no_such_subscriber)
            × (callbacks_of t topic ≡ some cs)
            × (position (λ held. subscriber_eq held s) cs ≡ none)))

-- What an unsubscription may do to the table: take out the subscriber's first callback, and the topic
-- with its last, or fail and change nothing.
abbrev pub Unsubscribes :
    Subscriptions
    → List ℕ
    → List ℕ
    → Subscriber
    → Subscriptions × Result SubscriptionError (Unit {0})
    → Type 0
Unsubscribes t topic other s r =
    ((cs : List Subscriber) × (at : ℕ) × (r.1 ≡ ok tt)
      × (callbacks_of t topic ≡ some cs)
      × (position (λ held. subscriber_eq held s) cs ≡ some at)
      × (callbacks_of r.0 topic
          ≡ (if length (remove_at at cs) == 0 then none else some (remove_at at cs)))
      × (other ≢ topic → callbacks_of r.0 other ≡ callbacks_of t other))
    ⊎ ((e : SubscriptionError) × (r.1 ≡ err e) × (r.0 ≡ t) × IsUnknown t topic s e)

drop_callback_cases :
    (t : Subscriptions) (topic other : List ℕ) (i : ℕ) (s : Subscriber)
    → IsValid t
    → topic_position t topic ≡ some i
    → Unsubscribes t topic other s (drop_callback t i s)
unfolding drop_callback remove_callback topic_position
drop_callback_cases t topic other i s v f =
    let e = get_or t.entries i empty_slot in
    elim (Option-cases (position (λ held. subscriber_eq held s) e.callbacks)) [
      | inl n ↦
          rw (n, drop_callback)
            (inr (
              no_such_subscriber,
              refl,
              refl,
              inr (inr (e.callbacks, refl, callbacks_of_held t topic i f, n)),
            ))
      | inr (at, g) ↦ elim (Bool-cases (length (remove_at at e.callbacks) == 0)) [
        | inl last ↦
            let t' = record t { entries = remove_at i t.entries } in
            let hit = (position_found (holds_topic topic) t.entries i empty_slot f).1 in
            let gone =
              callbacks_of-find t' topic
              ∙ ap (Option.map (λ (x : SubscriptionSlot). x.callbacks))
                  (find-remove_topic topic t.entries i v.distinct f) in
            rw (g, drop_callback, last)
              (inl (
                e.callbacks,
                at,
                refl,
                callbacks_of_held t topic i f,
                g,
                rw last gone,
                λ ne.
                    let miss : bytes_eq e.topic other ≡ false =
                      ground (arith, bytes_eq_iff e.topic topic, bytes_eq_iff e.topic other) in
                    callbacks_of-find t' other
                    ∙ ap (Option.map (λ (x : SubscriptionSlot). x.callbacks))
                        (find-remove_at_miss (holds_topic other) t.entries i miss)
                    ∙ sym (callbacks_of-find t other),
              ))
        | inr more ↦
            let (here, elsewhere) =
              find-set_callbacks t topic other i (remove_at at e.callbacks) f in
            rw (g, drop_callback, more)
              (inl
                (e.callbacks, at, refl, callbacks_of_held t topic i f, g, rw more here, elsewhere))
      ]
    ]

-- In a valid table, an unsubscription that succeeds takes the subscriber's first callback out of the
-- topic's, and the topic out of the table with its last, and leaves every other topic with its own.
-- One that fails changes nothing, and fails for a topic that is empty, too long or not subscribed by
-- this subscriber.
pub unsubscribe_as_cases :
    (t : Subscriptions) (topic other : List ℕ) (s : Subscriber)
    → IsValid t
    → Unsubscribes t topic other s (unsubscribe_as t topic s)
unfolding unsubscribe_as
unsubscribe_as_cases t topic other s v = elim (check_topic_cases topic) [
  | inl (e, h) ↦ rw (h, unsubscribe_as) (inr (e, refl, refl, inl refl))
  | inr (h, _, _) ↦ elim (Option-cases (topic_position t topic)) [
    | inl n ↦
        let same : unsubscribe_as t topic s ≡ (t, err not_subscribed) =
          rw (h, unsubscribe_as, n) refl in
        subst (Unsubscribes t topic other s) (sym same)
          (inr (not_subscribed, refl, refl, inr (inl (refl, callbacks_of_fresh t topic n))))
    | inr (i, f) ↦
        let same : unsubscribe_as t topic s ≡ drop_callback t i s =
          rw (h, unsubscribe_as, f) refl in
        subst (Unsubscribes t topic other s) (sym same) (drop_callback_cases t topic other i s v f)
  ]
]
