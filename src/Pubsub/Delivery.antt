-- ===== src/Pubsub/Delivery.antt =====
-- What a publication is delivered to.
use bristlemouth_rs.Common.{
  ℕ, ◌≡◌, sym, ap, ◌∙◌, inl, inr, Bool, true, some, List, [], ◌∷◌, arith, length, bytes_eq,
  bytes_eq_iff, find, Bool-cases, Option-cases, ◌==◌, not, map, subst,
}
use mathlib.Core.Option
use mathlib.Core.Option.{some-injective}
use bristlemouth_rs.Util.Wildcard.{bm_wildcard_match}
use bristlemouth_rs.Util.Wildcard.Prefixes.{bm_wildcard_match_self}
use bristlemouth_rs.Pubsub.{
  SubscriptionSlot, Subscriptions, Subscriber, holds_topic, callbacks_of, matching_in,
  matching_callbacks, matching, any_match,
}
use bristlemouth_rs.Pubsub.Subscribing.{callbacks_of-find}

abbrev pub is_delivery : List ℕ → List ℕ × List Subscriber → Bool
is_delivery topic m = bytes_eq m.0 topic

find-matching_in :
    (topic : List ℕ) (es : List SubscriptionSlot) (e : SubscriptionSlot)
    → find (holds_topic topic) es ≡ some e
    → find (is_delivery topic) (matching_in es topic) ≡ some (e.topic, e.callbacks)
unfolding find matching_in
find-matching_in topic [] e h = cc
find-matching_in topic (x ∷ xs) e h = elim (Bool-cases (bytes_eq x.topic topic)) [
  | inl hit ↦
      let same = (bytes_eq_iff x.topic topic).0 hit in
      let matched : bm_wildcard_match topic x.topic ≡ true =
        subst (λ w. bm_wildcard_match topic w ≡ true) (sym same) (bm_wildcard_match_self topic) in
      let here : some x ≡ some e = rw hit at h in
      rw matched (rw hit (ap (Option.map (λ (y : SubscriptionSlot). (y.topic, y.callbacks))) here))
  | inr miss ↦ elim (Bool-cases (bm_wildcard_match topic x.topic)) [
    | inl matched ↦ rw matched (rw miss (find-matching_in topic xs e (rw miss at h)))
    | inr other ↦ rw other (find-matching_in topic xs e (rw miss at h))
  ]
]

find-nonempty :
    (p : List ℕ × List Subscriber → Bool) (ms : List (List ℕ × List Subscriber))
    (m : List ℕ × List Subscriber)
    → find p ms ≡ some m
    → not (length (map (λ x. x.0) ms) == 0) ≡ true
unfolding find
find-nonempty p [] m h = cc
find-nonempty p (x ∷ xs) m h = ground arith

-- A publication on a topic that is subscribed is delivered: the callbacks of the topic are among
-- those called, and a local delivery is found to be due. A topic that holds wildcards is no exception.
pub any_match_subscribed :
    (t : Subscriptions) (topic : List ℕ) (cs : List Subscriber)
    → callbacks_of t topic ≡ some cs
    → ((m : List ℕ × List Subscriber) × (find (is_delivery topic) (matching_callbacks t topic)
          ≡ some m)
        × (m.1 ≡ cs))
      × (any_match t topic ≡ true)
unfolding matching_callbacks any_match matching
any_match_subscribed t topic cs h = elim (Option-cases (find (holds_topic topic) t.entries)) [
  | inl n ↦ absurd (cc (h, callbacks_of-find t topic, n))
  | inr (e, f) ↦
      let found = find-matching_in topic t.entries e f in
      (
        (
          (e.topic, e.callbacks),
          found,
          some-injective _ _ (rw f at (sym (callbacks_of-find t topic) ∙ h)),
        ),
        find-nonempty (is_delivery topic) _ _ found,
      )
]
