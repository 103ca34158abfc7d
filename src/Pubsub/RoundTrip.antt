-- ===== src/Pubsub/RoundTrip.antt =====
-- Publications read back.
use bristlemouth_rs.Common.{
  ℕ, ◌+◌, ◌≤◌, ◌<◌, ◌≡◌, refl, ◌∙◌, ap, inl, inr, ◌⊎◌, ◌||◌, List, ◌++◌, arith, length, ltb, leb,
  ◌==◌, Bool-cases, take, drop, length-append, take-append, drop-append, ltb→lt, le→ltb, ok, err,
  truncated, invalid, fill_prefix,
}
use bristlemouth_rs.Pubsub.{topic_max_len, publication_bytes, encode, split_rest, decode}

split_rest-append :
    (topic content : List ℕ) (kind version : ℕ)
    → split_rest 0 0 (length topic) kind version (topic ++ content)
      ≡ ok (record {
        header_type = 0;
        flags = 0;
        topic = topic;
        kind = kind;
        version = version;
        content = content;
      })
unfolding split_rest
split_rest-append topic content kind version = rw (
  le→ltb (length (topic ++ content)) (length topic) (omega (arith, length-append topic content)),
  take-append topic content,
  drop-append topic content,
)

length-publication :
    (topic content : List ℕ) (kind version : ℕ)
    → length (publication_bytes topic kind version content) ≡ 5 + length topic + length content
length-publication topic content kind version = omega (arith, length-append topic content)

-- `encode` then `decode` of the bytes written. A topic that is empty or has 255 bytes or more is
-- refused as invalid, any other for a buffer that is too short; otherwise the buffer starts with the
-- publication, whose length is returned, and which reads back with its topic, kind, version and data.
pub decode-encode_publication :
    (buf topic content : List ℕ) (kind version : ℕ)
    → let n = 5 + length topic + length content in
      (((length topic ≡ 0) ⊎ (topic_max_len ≤ length topic))
        × (encode buf topic kind version content ≡ err invalid))
      ⊎ (((length buf < n) × (encode buf topic kind version content ≡ err truncated))
          ⊎ ((out : List ℕ) × (encode buf topic kind version content ≡ ok (n, out))
              × (decode (take n out)
                  ≡ ok (record {
                    header_type = 0;
                    flags = 0;
                    topic = topic;
                    kind = kind;
                    version = version;
                    content = content;
                  }))
              × (drop n out ≡ drop n buf)))
unfolding encode decode fill_prefix
decode-encode_publication buf topic content kind version =
    let bytes = publication_bytes topic kind version content in
    let len = length-publication topic content kind version in
    elim (Bool-cases ((length topic == 0) || leb topic_max_len (length topic))) [
      | inl bad ↦ inl (ground arith, rw bad refl)
      | inr good ↦ elim (Bool-cases (ltb (length buf) (length bytes))) [
        | inl short ↦ inr (inl (omega (arith, len, ltb→lt _ _ short), rw (good, short)))
        | inr room ↦ inr (
            inr (
              bytes ++ drop (length bytes) buf,
              rw (good, room),
              rw (← len) (
                  ap decode (take-append bytes (drop (length bytes) buf))
                  ∙ split_rest-append topic content kind version),
              rw (← len) (drop-append bytes (drop (length bytes) buf)),
            ))
      ]
    ]
