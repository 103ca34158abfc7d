-- ===== src/Tests/PubsubRuns.antt =====
-- A table with two topics, and publications on them.
use bristlemouth_rs.Common.{
  ℕ, ◌+◌, ◌<◌, ◌≤◌, ◌≡◌, ◌⊎◌, arith, List, [], ◌∷◌, length, drop, take, replicate, ok, err,
  truncated, invalid, suc,
}
use bristlemouth_rs.Util.Wildcard.{bm_wildcard_match}
use bristlemouth_rs.Util.Wildcard.Prefixes.{matches_prefix, bm_wildcard_match-matches_prefix}
use bristlemouth_rs.Pubsub.{
  Subscriptions, application, service, reply, topic_max_len, encode, decode, subscribe_as,
  unsubscribe_as,
}
use bristlemouth_rs.Pubsub.RoundTrip.{decode-encode_publication}
use bristlemouth_rs.Pubsub.Invariant.{IsValid}
use bristlemouth_rs.Pubsub.Subscribing.{Subscribes, subscribe_as_cases}
use bristlemouth_rs.Pubsub.Unsubscribing.{Unsubscribes, unsubscribe_as_cases}

-- `a/*` and `b?`.
abbrev a_all : List ℕ
a_all = 0x61 ∷ 0x2f ∷ 0x2a ∷ []

abbrev b_any : List ℕ
b_any = 0x62 ∷ 0x3f ∷ []

abbrev content : List ℕ
content = 7 ∷ []

abbrev two_topics : Subscriptions
two_topics = record {
  capacity = 3;
  topic_limit = 8;
  entries =
      record { topic = a_all; callbacks = service ∷ application ∷ [] }
      ∷ record { topic = b_any; callbacks = reply ∷ [] }
      ∷ [];
}

two_topics-IsValid : IsValid two_topics
two_topics-IsValid = record {
  distinct = ((λ e. cc, tt), (tt, tt));
  slots = (
    record {
      some_topic = omega arith;
      short_topic = omega arith;
      within = omega arith;
      some_callback = omega arith;
      few_callbacks = omega arith;
    },
    (
      record {
        some_topic = omega arith;
        short_topic = omega arith;
        within = omega arith;
        some_callback = omega arith;
        few_callbacks = omega arith;
      },
      tt,
    ),
  );
  fits = omega arith;
}

bm_wildcard_match-matches_prefix_example :
    bm_wildcard_match (0x62 ∷ 0x31 ∷ 0x32 ∷ []) b_any
    ≡ matches_prefix (0x62 ∷ 0x31 ∷ 0x32 ∷ []) b_any
bm_wildcard_match-matches_prefix_example =
    bm_wildcard_match-matches_prefix (0x62 ∷ 0x31 ∷ 0x32 ∷ []) b_any
      (ground arith, (ground arith, tt))

decode-encode_publication_example :
    let n = 5 + length b_any + length content in
    let buf = replicate 9 (suc 0) in
    (((length b_any ≡ 0) ⊎ (topic_max_len ≤ length b_any))
      × (encode buf b_any 1 2 content ≡ err invalid))
    ⊎ (((length buf < n) × (encode buf b_any 1 2 content ≡ err truncated))
        ⊎ ((out : List ℕ) × (encode buf b_any 1 2 content ≡ ok (n, out))
            × (decode (take n out)
                ≡ ok (record {
                  header_type = 0;
                  flags = 0;
                  topic = b_any;
                  kind = 1;
                  version = 2;
                  content = content;
                }))
            × (drop n out ≡ drop n buf)))
decode-encode_publication_example =
    decode-encode_publication (replicate 9 (suc 0)) b_any content 1 2

subscribe_as_cases_example :
    Subscribes two_topics a_all b_any application (subscribe_as two_topics a_all application)
subscribe_as_cases_example = subscribe_as_cases two_topics a_all b_any application

unsubscribe_as_cases_example :
    Unsubscribes two_topics b_any a_all reply (unsubscribe_as two_topics b_any reply)
unsubscribe_as_cases_example = unsubscribe_as_cases two_topics b_any a_all reply two_topics-IsValid
