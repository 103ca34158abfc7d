-- ===== src/Pubsub.antt =====
-- bm-wire/src/pubsub.rs: publications and the table of subscriptions.
pub mod RoundTrip
pub mod Invariant
pub mod Subscribing
pub mod Unsubscribing
pub mod Delivery
use bristlemouth_rs.Common.{
  ℕ, ◌+◌, Bool, true, false, not, ◌||◌, Option, none, some, List, [], ◌∷◌, ◌++◌, map, ltb, leb,
  ◌==◌, if◌then◌else◌, length, get_or, set, take, drop, position, remove_at, bytes_eq, Result, ok,
  err, BmWireError, truncated, invalid, ◌>>=◌, ok_or, fill_prefix,
}
use bristlemouth_rs.Util.Wildcard.{bm_wildcard_match}

abbrev pub topic_max_len : ℕ
topic_max_len = 255

pub record Publication : Type 0 where
  pub header_type : ℕ
  pub flags : ℕ
  pub topic : List ℕ
  pub kind : ℕ
  pub version : ℕ
  pub content : List ℕ

-- The bytes that `encode` writes.
abbrev pub publication_bytes : List ℕ → ℕ → ℕ → List ℕ → List ℕ
publication_bytes topic kind version content =
    0 ∷ 0 ∷ length topic ∷ kind ∷ version ∷ (topic ++ content)

-- The length written and the buffer after it.
unfoldable pub encode : List ℕ → List ℕ → ℕ → ℕ → List ℕ → Result BmWireError (ℕ × List ℕ)
encode buf topic kind version content =
    if (length topic == 0) || leb topic_max_len (length topic) then err invalid else do
      out ← fill_prefix buf (publication_bytes topic kind version content)
      ok (5 + length topic + length content, out)

-- The end of `decode`, on what follows the header.
unfoldable pub split_rest : ℕ → ℕ → ℕ → ℕ → ℕ → List ℕ → Result BmWireError Publication
split_rest header_type flags topic_len kind version rest =
    if ltb (length rest) topic_len
    then err truncated
    else ok (record {
      header_type = header_type;
      flags = flags;
      topic = take topic_len rest;
      kind = kind;
      version = version;
      content = drop topic_len rest;
    })

unfoldable pub decode : List ℕ → Result BmWireError Publication
unfolding split_rest
decode (header_type ∷ flags ∷ topic_len ∷ kind ∷ version ∷ rest) =
    split_rest header_type flags topic_len kind version rest
decode _ = err truncated

pub data SubscriptionError : Type 0 where
  empty_topic topic_too_long full not_subscribed no_such_subscriber : SubscriptionError

pub data Subscriber : Type 0 where
  application service reply : Subscriber

unfoldable pub subscriber_eq : Subscriber → Subscriber → Bool
subscriber_eq application application = true
subscriber_eq service service = true
subscriber_eq reply reply = true
subscriber_eq _ _ = false

-- `CALLBACKS`.
abbrev pub max_callbacks : ℕ
max_callbacks = 4

-- A slot with the parts of its arrays that are in use.
pub record SubscriptionSlot : Type 0 where
  pub topic : List ℕ
  pub callbacks : List Subscriber

-- `SubscriptionSlot::EMPTY`.
abbrev pub empty_slot : SubscriptionSlot
empty_slot = record { topic = []; callbacks = [] }

-- `capacity` is `N` and `topic_limit` is `TOPIC`.
pub record Subscriptions : Type 0 where
  pub capacity : ℕ
  pub topic_limit : ℕ
  pub entries : List SubscriptionSlot

unfoldable pub no_subscriptions : ℕ → ℕ → Subscriptions
no_subscriptions capacity topic_limit = record {
  capacity = capacity;
  topic_limit = topic_limit;
  entries = [];
}

-- `Subscriptions::iter`.
abbrev pub topics : Subscriptions → List (List ℕ)
topics t = map (λ e. e.topic) t.entries

abbrev pub holds_topic : List ℕ → SubscriptionSlot → Bool
holds_topic topic e = bytes_eq e.topic topic

-- `Subscriptions::position`.
unfoldable pub topic_position : Subscriptions → List ℕ → Option ℕ
topic_position t topic = position (holds_topic topic) t.entries

unfoldable pub contains : Subscriptions → List ℕ → Bool
contains t topic = elim (topic_position t topic) [ none ↦ false | some _ ↦ true ]

unfoldable pub callbacks_of : Subscriptions → List ℕ → Option (List Subscriber)
callbacks_of t topic = elim (topic_position t topic) [
  | none ↦ none
  | some i ↦ some (get_or t.entries i empty_slot).callbacks
]

unfoldable pub check_topic : List ℕ → Result SubscriptionError (Unit {0})
check_topic topic =
    if length topic == 0
    then err empty_topic
    else if leb topic_max_len (length topic)
    then err topic_too_long
    else ok tt

-- A subscription to the topic at `index`. The first callback of an unused slot is the application.
unfoldable pub add_callback :
    Subscriptions → ℕ → Subscriber → Subscriptions × Result SubscriptionError (Unit {0})
add_callback t index subscriber =
    let e = get_or t.entries index empty_slot in
    if subscriber_eq (get_or e.callbacks 0 application) subscriber
    then (t, ok tt)
    else if length e.callbacks == max_callbacks
    then (t, err full)
    else (
      record t {
        entries = set t.entries index (record e { callbacks = e.callbacks ++ (subscriber ∷ []) });
      },
      ok tt,
    )

-- A subscription to a topic that is not held.
unfoldable pub add_topic :
    Subscriptions → List ℕ → Subscriber → Subscriptions × Result SubscriptionError (Unit {0})
add_topic t topic subscriber =
    if (length t.entries == t.capacity) || ltb t.topic_limit (length topic)
    then (t, err full)
    else (
      record t {
        entries = t.entries ++ (record { topic = topic; callbacks = subscriber ∷ [] } ∷ []);
      },
      ok tt,
    )

unfoldable pub subscribe_as :
    Subscriptions → List ℕ → Subscriber → Subscriptions × Result SubscriptionError (Unit {0})
unfolding add_callback add_topic
subscribe_as t topic subscriber = elim (check_topic topic) [
  | err e ↦ (t, err e)
  | ok _ ↦ elim (topic_position t topic) [
    | some index ↦ add_callback t index subscriber
    | none ↦ add_topic t topic subscriber
  ]
]

unfoldable pub subscribe :
    Subscriptions → List ℕ → Subscriptions × Result SubscriptionError (Unit {0})
subscribe t topic = subscribe_as t topic application

-- The callback at `at` of the topic at `index` goes, and the topic goes with its last.
unfoldable pub remove_callback : Subscriptions → ℕ → ℕ → Subscriptions
remove_callback t index at =
    let e = get_or t.entries index empty_slot in
    let left = remove_at at e.callbacks in
    if length left == 0
    then record t { entries = remove_at index t.entries }
    else record t { entries = set t.entries index (record e { callbacks = left }) }

-- The end of `unsubscribe_as`, on the topic at `index`.
unfoldable pub drop_callback :
    Subscriptions → ℕ → Subscriber → Subscriptions × Result SubscriptionError (Unit {0})
unfolding remove_callback
drop_callback t index subscriber =
    elim (position (λ held. subscriber_eq held subscriber)
      (get_or t.entries index empty_slot).callbacks) [
        | none ↦ (t, err no_such_subscriber)
        | some at ↦ (remove_callback t index at, ok tt)
      ]

unfoldable pub unsubscribe_as :
    Subscriptions → List ℕ → Subscriber → Subscriptions × Result SubscriptionError (Unit {0})
unfolding drop_callback
unsubscribe_as t topic subscriber = elim (check_topic topic) [
  | err e ↦ (t, err e)
  | ok _ ↦ elim (topic_position t topic) [
    | none ↦ (t, err not_subscribed)
    | some index ↦ drop_callback t index subscriber
  ]
]

unfoldable pub unsubscribe :
    Subscriptions → List ℕ → Subscriptions × Result SubscriptionError (Unit {0})
unsubscribe t topic = unsubscribe_as t topic application

-- `matching_callbacks`, on a slice of the entries.
unfoldable pub matching_in : List SubscriptionSlot → List ℕ → List (List ℕ × List Subscriber)
matching_in [] topic = []
matching_in (e ∷ es) topic =
    let rest = matching_in es topic in
    if bm_wildcard_match topic e.topic then (e.topic, e.callbacks) ∷ rest else rest

unfoldable pub matching_callbacks : Subscriptions → List ℕ → List (List ℕ × List Subscriber)
unfolding matching_in
matching_callbacks t topic = matching_in t.entries topic

unfoldable pub matching : Subscriptions → List ℕ → List (List ℕ)
matching t topic = map (λ m. m.0) (matching_callbacks t topic)

unfoldable pub any_match : Subscriptions → List ℕ → Bool
unfolding matching
any_match t topic = not (length (matching t topic) == 0)
