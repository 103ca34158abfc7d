-- ===== src/Pubsub/Subscribing.antt =====
-- What subscribing and unsubscribing do to the callbacks of a topic.
use bristlemouth_rs.Common.{
  subst, ==_iff, ◌<◌, ℕ, ◌≡◌, ◌≢◌, refl, sym, ap, ◌∙◌, inl, inr, ◌⊎◌, Bool, true, false, ◌||◌,
  Option, none, some, List, [], ◌∷◌, ◌++◌, arith, length, get_or, ltb, ◌==◌, if◌then◌else◌,
  Bool-cases, Option-cases, bytes_eq, bytes_eq_iff, set, position, find, position_found,
  position_none→find_none, position_some→find, get_or-position, find-set-position, find-set_ne,
  find-append, Result, ok, err,
}
use mathlib.Core.Option
use bristlemouth_rs.Pubsub.{
  check_topic, SubscriptionSlot, Subscriptions, Subscriber, application, SubscriptionError,
  subscriber_eq, empty_slot, max_callbacks, holds_topic, topic_position, callbacks_of, add_callback,
  add_topic, subscribe_as,
}
use bristlemouth_rs.Pubsub.Invariant.{check_topic_cases}

holds_topic_self :
    (cs : List Subscriber) (topic : List ℕ)
    → holds_topic topic (record { topic = topic; callbacks = cs }) ≡ true
holds_topic_self cs topic = (bytes_eq_iff topic topic).1 refl

-- The lookup by position is a search for the first slot of the topic.
pub callbacks_of-find :
    (t : Subscriptions) (topic : List ℕ)
    → callbacks_of t topic ≡ Option.map (λ e. e.callbacks) (find (holds_topic topic) t.entries)
unfolding callbacks_of topic_position
callbacks_of-find t topic = elim (Option-cases (position (holds_topic topic) t.entries)) [
  | inl n ↦ rw (n, callbacks_of, position_none→find_none (holds_topic topic) t.entries n) refl
  | inr (i, f) ↦ elim (Option-cases (find (holds_topic topic) t.entries)) [
    | inl n ↦ absurd (position_some→find (holds_topic topic) t.entries i f n)
    | inr (e, g) ↦
        rw (f, callbacks_of, g)
          (ap (λ (x : SubscriptionSlot). some x.callbacks)
            (get_or-position (holds_topic topic) t.entries i e empty_slot g f))
  ]
]

pub callbacks_of_fresh :
    (t : Subscriptions) (topic : List ℕ)
    → topic_position t topic ≡ none
    → callbacks_of t topic ≡ none
unfolding callbacks_of
callbacks_of_fresh t topic n = rw (n, callbacks_of) refl

pub callbacks_of_held :
    (t : Subscriptions) (topic : List ℕ) (i : ℕ)
    → topic_position t topic ≡ some i
    → callbacks_of t topic ≡ some (get_or t.entries i empty_slot).callbacks
unfolding callbacks_of
callbacks_of_held t topic i f = rw (f, callbacks_of) refl

-- The callbacks of a topic that `s` has subscribed to, given those before.
abbrev pub subscribed : Option (List Subscriber) → Subscriber → List Subscriber
subscribed none s = s ∷ []
subscribed (some cs) s = if subscriber_eq (get_or cs 0 application) s then cs else cs ++ (s ∷ [])

-- Replacing the callbacks of the slot that the topic is found at.
pub find-set_callbacks :
    (t : Subscriptions) (topic other : List ℕ) (i : ℕ) (cs : List Subscriber)
    → topic_position t topic ≡ some i
    → let e = get_or t.entries i empty_slot in
      let t' = record t { entries = set t.entries i (record e { callbacks = cs }) } in
      (callbacks_of t' topic ≡ some cs)
      × (other ≢ topic → callbacks_of t' other ≡ callbacks_of t other)
unfolding topic_position
find-set_callbacks t topic other i cs f =
    let e = get_or t.entries i empty_slot in
    let v : SubscriptionSlot = record e { callbacks = cs } in
    let t' = record t { entries = set t.entries i v } in
    let hit = (position_found (holds_topic topic) t.entries i empty_slot f).1 in
    (
      callbacks_of-find t' topic
          ∙ ap (Option.map (λ (x : SubscriptionSlot). x.callbacks))
              (find-set-position (holds_topic topic) t.entries i v f hit),
      λ ne.
          let miss : bytes_eq e.topic other ≡ false =
            ground (arith, bytes_eq_iff e.topic topic, bytes_eq_iff e.topic other) in
          callbacks_of-find t' other
          ∙ ap (Option.map (λ (x : SubscriptionSlot). x.callbacks))
              (find-set_ne (holds_topic other) t.entries i v empty_slot miss miss)
          ∙ sym (callbacks_of-find t other),
    )

-- A new slot at the end.
find-append_topic :
    (t : Subscriptions) (topic other : List ℕ) (cs : List Subscriber)
    → topic_position t topic ≡ none
    → let t' = record t {
      entries = t.entries ++ (record { topic = topic; callbacks = cs } ∷ []);
    } in
      (callbacks_of t' topic ≡ some cs)
      × (other ≢ topic → callbacks_of t' other ≡ callbacks_of t other)
unfolding topic_position find
find-append_topic t topic other cs n =
    let v : SubscriptionSlot = record { topic = topic; callbacks = cs } in
    let t' = record t { entries = t.entries ++ (v ∷ []) } in
    let hit : find (holds_topic topic) (v ∷ []) ≡ some v = rw (holds_topic_self cs topic) refl in
    (
      callbacks_of-find t' topic
          ∙ ap (Option.map (λ (x : SubscriptionSlot). x.callbacks)) (
              find-append (holds_topic topic) t.entries (v ∷ [])
                (position_none→find_none (holds_topic topic) t.entries n)
              ∙ hit),
      λ ne.
          let miss : bytes_eq topic other ≡ false = ground (arith, bytes_eq_iff topic other) in
          callbacks_of-find t' other
          ∙ ap (Option.map (λ (x : SubscriptionSlot). x.callbacks))
              (find-append_miss (holds_topic other) t.entries v miss)
          ∙ sym (callbacks_of-find t other),
    )
  where
    find-append_miss :
        (p : SubscriptionSlot → Bool) (es : List SubscriptionSlot) (v : SubscriptionSlot)
        → p v ≡ false
        → find p (es ++ (v ∷ [])) ≡ find p es
    find-append_miss p [] v h = rw h refl
    find-append_miss p (x ∷ xs) v h = rw (find-append_miss p xs v h) refl

-- Why a subscription fails: the topic is empty or too long, or there is no room for the topic, or none
-- for another callback of it.
abbrev pub IsRefused : Subscriptions → List ℕ → SubscriptionError → Type 0
IsRefused t topic e =
    (check_topic topic ≡ err e)
    ⊎ ((e ≡ SubscriptionError.full)
        × (((callbacks_of t topic ≡ none)
              × ((length t.entries ≡ t.capacity) ⊎ (t.topic_limit < length topic)))
            ⊎ ((cs : List Subscriber) × (callbacks_of t topic ≡ some cs)
                × (length cs ≡ max_callbacks))))

-- What a subscription may do to the table: succeed for the one topic, or fail and change nothing.
abbrev pub Subscribes :
    Subscriptions
    → List ℕ
    → List ℕ
    → Subscriber
    → Subscriptions × Result SubscriptionError (Unit {0})
    → Type 0
Subscribes t topic other s r =
    ((r.1 ≡ ok tt)
      × (callbacks_of r.0 topic ≡ some (subscribed (callbacks_of t topic) s))
      × (other ≢ topic → callbacks_of r.0 other ≡ callbacks_of t other))
    ⊎ ((e : SubscriptionError) × (r.1 ≡ err e) × (r.0 ≡ t) × IsRefused t topic e)

add_topic_cases :
    (t : Subscriptions) (topic other : List ℕ) (s : Subscriber)
    → topic_position t topic ≡ none
    → Subscribes t topic other s (add_topic t topic s)
unfolding add_topic
add_topic_cases t topic other s n =
    elim (Bool-cases ((length t.entries == t.capacity) || ltb t.topic_limit (length topic))) [
      | inl full ↦ rw full (
          inr (
            SubscriptionError.full,
            refl,
            refl,
            inr (refl, inl (callbacks_of_fresh t topic n, ground arith)),
          ))
      | inr room ↦
          let (here, elsewhere) = find-append_topic t topic other (s ∷ []) n in
          let fresh = callbacks_of_fresh t topic n in rw (room, fresh) (inl (refl, here, elsewhere))
    ]

add_callback_cases :
    (t : Subscriptions) (topic other : List ℕ) (i : ℕ) (s : Subscriber)
    → topic_position t topic ≡ some i
    → Subscribes t topic other s (add_callback t i s)
unfolding add_callback
add_callback_cases t topic other i s f =
    let cs = (get_or t.entries i empty_slot).callbacks in
    let before = callbacks_of_held t topic i f in
    elim (Bool-cases (subscriber_eq (get_or cs 0 application) s)) [
      | inl first ↦ rw (first, before) (inl (refl, rw first refl, λ ne. refl))
      | inr later ↦ elim (Bool-cases (length cs == max_callbacks)) [
        | inl full ↦
            rw (later, full)
              (inr (
                SubscriptionError.full,
                refl,
                refl,
                inr (refl, inr (cs, before, (==_iff _ _).0 full)),
              ))
        | inr room ↦
            let (here, elsewhere) = find-set_callbacks t topic other i (cs ++ (s ∷ [])) f in
            rw (later, room, before) (inl (refl, rw later here, elsewhere))
      ]
    ]

-- A subscription that succeeds leaves the topic with the callbacks that it had and the subscriber's
-- behind them, where that is not the first of them already, and every other topic with its own. One
-- that fails changes nothing, and fails for a topic that is empty or too long or for want of room.
pub subscribe_as_cases :
    (t : Subscriptions) (topic other : List ℕ) (s : Subscriber)
    → Subscribes t topic other s (subscribe_as t topic s)
unfolding subscribe_as
subscribe_as_cases t topic other s = elim (check_topic_cases topic) [
  | inl (e, h) ↦ rw (h, subscribe_as) (inr (e, refl, refl, inl refl))
  | inr (h, _, _) ↦ elim (Option-cases (topic_position t topic)) [
    | inl n ↦
        let same : subscribe_as t topic s ≡ add_topic t topic s = rw (h, subscribe_as, n) refl in
        subst (Subscribes t topic other s) (sym same) (add_topic_cases t topic other s n)
    | inr (i, f) ↦
        let same : subscribe_as t topic s ≡ add_callback t i s = rw (h, subscribe_as, f) refl in
        subst (Subscribes t topic other s) (sym same) (add_callback_cases t topic other i s f)
  ]
]
