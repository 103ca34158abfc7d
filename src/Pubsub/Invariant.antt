-- ===== src/Pubsub/Invariant.antt =====
-- The well-formedness of the table of subscriptions.
use bristlemouth_rs.Common.{
  ℕ, ◌≤◌, ◌<◌, ◌≡◌, ◌≢◌, inl, inr, ◌⊎◌, ◌||◌, none, List, [], ◌∷◌, ◌++◌, arith, length, get_or, ltb,
  ◌==◌, Bool-cases, Option-cases, bytes_eq_iff, set, position, remove_at, position_found,
  length-set, length-append, length-remove_at, All, All-set, All-append, All-get_or, All-remove_at,
  Apart, Apart-set, Apart-snoc, Apart-remove_at, ok, err,
}
use bristlemouth_rs.Pubsub.{
  SubscriptionSlot, Subscriptions, Subscriber, application, SubscriptionError, subscriber_eq,
  empty_slot, max_callbacks, topic_max_len, holds_topic, no_subscriptions, topic_position,
  check_topic, add_callback, add_topic, subscribe_as, remove_callback, drop_callback,
  unsubscribe_as,
}

abbrev pub TopicsDiffer : SubscriptionSlot → SubscriptionSlot → Type 0
TopicsDiffer x y = x.topic ≢ y.topic

-- A topic of a length that is allowed, with one to four callbacks.
pub record IsSlot (topic_limit : ℕ) (e : SubscriptionSlot) : Type 0 where
  pub some_topic : 0 < length e.topic
  pub short_topic : length e.topic < topic_max_len
  pub within : length e.topic ≤ topic_limit
  pub some_callback : 0 < length e.callbacks
  pub few_callbacks : length e.callbacks ≤ max_callbacks

pub record IsValid (t : Subscriptions) : Type 0 where
  pub distinct : Apart TopicsDiffer t.entries
  pub slots : All (IsSlot t.topic_limit) t.entries
  pub fits : length t.entries ≤ t.capacity

pub no_subscriptions-IsValid :
    (capacity topic_limit : ℕ) → IsValid (no_subscriptions capacity topic_limit)
unfolding no_subscriptions
no_subscriptions-IsValid n k = record { distinct = tt; slots = tt; fits = omega arith }

pub position-none-topics :
    (topic : List ℕ) (es : List SubscriptionSlot)
    → position (holds_topic topic) es ≡ none
    → All (λ e. e.topic ≢ topic) es
unfolding position
position-none-topics topic [] e = tt
position-none-topics topic (x ∷ xs) e = ground (
  arith,
  Option-cases (position (holds_topic topic) xs),
  position-none-topics topic xs,
  bytes_eq_iff x.topic topic,
)

-- A slot of the same topic, in the place of the old one.
set-IsValid :
    (t : Subscriptions) (i : ℕ) (cs : List Subscriber)
    → let e = get_or t.entries i empty_slot in
      IsSlot t.topic_limit (record e { callbacks = cs })
      → IsValid t
      → IsValid (record t { entries = set t.entries i (record e { callbacks = cs }) })
set-IsValid t i cs s v = record {
  distinct = Apart-set TopicsDiffer t.entries i _ empty_slot (λ y h. h) (λ y h. h) v.distinct;
  slots = All-set _ t.entries i _ s v.slots;
  fits = omega (
    arith,
    v.fits,
    length-set t.entries i (record (get_or t.entries i empty_slot) { callbacks = cs }),
  );
}

IsValid-IsSlot :
    (t : Subscriptions) (i : ℕ)
    → i < length t.entries
    → IsValid t
    → IsSlot t.topic_limit (get_or t.entries i empty_slot)
IsValid-IsSlot t i h v = All-get_or _ t.entries i empty_slot h v.slots

add_callback-IsValid :
    (t : Subscriptions) (i : ℕ) (s : Subscriber)
    → i < length t.entries
    → IsValid t
    → IsValid (add_callback t i s).0
unfolding add_callback
add_callback-IsValid t i s h v =
    let e = get_or t.entries i empty_slot in
    let k = IsValid-IsSlot t i h v in
    elim (Bool-cases (subscriber_eq (get_or e.callbacks 0 application) s)) [
      | inl same ↦ rw same v
      | inr other ↦ elim (Bool-cases (length e.callbacks == max_callbacks)) [
        | inl full ↦ rw (other, full) v
        | inr room ↦
            rw (other, room)
              (set-IsValid t i (e.callbacks ++ (s ∷ []))
                (record {
                  some_topic = k.some_topic;
                  short_topic = k.short_topic;
                  within = k.within;
                  some_callback = omega (arith, length-append e.callbacks (s ∷ []));
                  few_callbacks =
                      ground (arith, k.few_callbacks, length-append e.callbacks (s ∷ []));
                })
                v)
      ]
    ]

add_topic-IsValid :
    (t : Subscriptions) (topic : List ℕ) (s : Subscriber)
    → 0 < length topic
    → length topic < topic_max_len
    → position (holds_topic topic) t.entries ≡ none
    → IsValid t
    → IsValid (add_topic t topic s).0
unfolding add_topic
add_topic-IsValid t topic s lo hi e v =
    elim (Bool-cases ((length t.entries == t.capacity) || ltb t.topic_limit (length topic))) [
      | inl full ↦ rw full v
      | inr room ↦ rw room (record {
        distinct =
            Apart-snoc TopicsDiffer t.entries _ v.distinct (position-none-topics topic t.entries e);
        slots = All-append _ t.entries _ v.slots (
          record {
            some_topic = lo;
            short_topic = hi;
            within = ground arith;
            some_callback = omega arith;
            few_callbacks = omega arith;
          },
          tt,
        );
        fits = ground (
          arith,
          v.fits,
          length-append t.entries (record { topic = topic; callbacks = s ∷ [] } ∷ []),
        );
      })
    ]

pub check_topic_cases :
    (topic : List ℕ)
    → ((e : SubscriptionError) × (check_topic topic ≡ err e))
      ⊎ ((check_topic topic ≡ ok tt) × (0 < length topic) × (length topic < topic_max_len))
unfolding check_topic
check_topic_cases topic = ground arith

-- Subscribing keeps a valid table valid: distinct topics of allowed lengths, each with one to four
-- callbacks, and no more than the table has room for.
pub subscribe_as-IsValid :
    (t : Subscriptions) (topic : List ℕ) (s : Subscriber)
    → IsValid t
    → IsValid (subscribe_as t topic s).0
unfolding subscribe_as topic_position
subscribe_as-IsValid t topic s v = elim (check_topic_cases topic) [
  | inl (_, e) ↦ rw (e, subscribe_as) v
  | inr (e, lo, hi) ↦ elim (Option-cases (topic_position t topic)) [
    | inl n ↦ rw (e, subscribe_as, n) (add_topic-IsValid t topic s lo hi n v)
    | inr (i, f) ↦
        rw (e, subscribe_as, f)
          (add_callback-IsValid t i s (position_found _ t.entries i empty_slot f).0 v)
  ]
]

drop_callback-IsValid :
    (t : Subscriptions) (i : ℕ) (s : Subscriber)
    → i < length t.entries
    → IsValid t
    → IsValid (drop_callback t i s).0
unfolding drop_callback remove_callback
drop_callback-IsValid t i s h v =
    let e = get_or t.entries i empty_slot in
    let k = IsValid-IsSlot t i h v in
    elim (Option-cases (position (λ held. subscriber_eq held s) e.callbacks)) [
      | inl n ↦ rw (n, drop_callback) v
      | inr (at, f) ↦
          let inside = (position_found _ e.callbacks at application f).0 in
          elim (Bool-cases (length (remove_at at e.callbacks) == 0)) [
            | inl last ↦
                rw (f, drop_callback, last)
                  (record {
                    distinct = Apart-remove_at TopicsDiffer i t.entries v.distinct;
                    slots = All-remove_at _ i t.entries v.slots;
                    fits = omega (arith, v.fits, length-remove_at i t.entries h);
                  })
            | inr more ↦
                rw (f, drop_callback, more)
                  (set-IsValid t i (remove_at at e.callbacks)
                    (record {
                      some_topic = k.some_topic;
                      short_topic = k.short_topic;
                      within = k.within;
                      some_callback = ground arith;
                      few_callbacks =
                          omega (arith, k.few_callbacks, length-remove_at at e.callbacks inside);
                    })
                    v)
          ]
    ]

-- Unsubscribing keeps a valid table valid: no topic is left without a callback.
pub unsubscribe_as-IsValid :
    (t : Subscriptions) (topic : List ℕ) (s : Subscriber)
    → IsValid t
    → IsValid (unsubscribe_as t topic s).0
unfolding unsubscribe_as topic_position
unsubscribe_as-IsValid t topic s v = elim (check_topic_cases topic) [
  | inl (_, e) ↦ rw (e, unsubscribe_as) v
  | inr (e, _, _) ↦ elim (Option-cases (topic_position t topic)) [
    | inl n ↦ rw (e, unsubscribe_as, n) v
    | inr (i, f) ↦
        rw (e, unsubscribe_as, f)
          (drop_callback-IsValid t i s (position_found _ t.entries i empty_slot f).0 v)
  ]
]
