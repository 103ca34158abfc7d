-- ===== src/Service/Calls.antt =====
-- Which service a lookup calls.
use bristlemouth_rs.Common.{
  All, ℕ, suc, ◌+◌, ◌≡◌, refl, ap, ◌∙◌, inl, inr, ◌⊎◌, true, false, some, List, [], ◌∷◌, ◌++◌,
  arith, length, get_elem?, drop, ◌==◌, ==_iff, Bool-cases, Result, ok, err,
}
use bristlemouth_rs.Service.{
  RequestHeader, Service, ServiceTable, Lookup, no_service, over_read, short_request,
  length_mismatch, topic_mismatch, call, decode_request_header, request_suffix_len, strncmp_eq, hay,
  lookup_sized, lookup_named, lookup_from, lookup,
}

Result-cases : {E A : Type 0} (r : Result E A) → ((e : E) × (r ≡ err e)) ⊎ ((a : A) × (r ≡ ok a))
Result-cases (err e) = inl (e, refl)
Result-cases (ok a) = inr (a, refl)

module _ {H : Type 0} where
  -- What holds of a service that is called, the first whose name the topic starts with.
  pub record IsCalled (s : Service H) (topic content name : List ℕ) (handler : H)
      (header : RequestHeader) (body : List ℕ) : Type 0 where
    pub same_name : s.name ≡ name
    pub same_handler : s.handler ≡ handler
    pub matched : strncmp_eq s.name (length s.name) (hay topic content) ≡ ok true
    pub decoded : decode_request_header content ≡ ok header
    pub sized : length content ≡ 8 + header.data_size
    pub suffixed : length topic ≡ length s.name + request_suffix_len
    pub rest : body ≡ drop 8 content

  -- A call is of the service at its index in the list, which starts at `k`.
  abbrev pub IsSound : ℕ → List (Service H) → List ℕ → List ℕ → Lookup H → Type 0
  IsSound k ss topic content (call index name handler header body) =
      (i : ℕ) × (s : Service H) × (index ≡ k + i)
      × (get_elem? ss i ≡ some s)
      × IsCalled s topic content name handler header body
  IsSound k ss topic content _ = Unit {0}

  lookup_named-IsSound :
      (k : ℕ) (s : Service H) (ss : List (Service H)) (topic content : List ℕ)
      → strncmp_eq s.name (length s.name) (hay topic content) ≡ ok true
      → IsSound k (s ∷ ss) topic content (lookup_named k s topic content)
  unfolding lookup_named lookup_sized
  lookup_named-IsSound k s ss topic content m =
      elim (Result-cases (decode_request_header content)) [
        | inl (e, f) ↦ rw (f, lookup_named) tt
        | inr (header, f) ↦ elim (Bool-cases (length content == 8 + header.data_size)) [
          | inr bad ↦ rw (f, lookup_named, bad) tt
          | inl sized ↦ elim (Bool-cases (length topic == length s.name + request_suffix_len)) [
            | inr bad ↦ rw (f, lookup_named, sized, bad) tt
            | inl suffixed ↦
                rw (f, lookup_named, sized, suffixed)
                  (
                    0,
                    s,
                    omega arith,
                    refl,
                    record {
                      same_name = refl;
                      same_handler = refl;
                      matched = m;
                      decoded = f;
                      sized = (==_iff _ _).0 sized;
                      suffixed = (==_iff _ _).0 suffixed;
                      rest = refl;
                    },
                  )
          ]
        ]
      ]

  -- A call found behind the first service is one of the list.
  IsSound-cons :
      (k : ℕ) (s : Service H) (ss : List (Service H)) (topic content : List ℕ) (r : Lookup H)
      → IsSound (suc k) ss topic content r
      → IsSound k (s ∷ ss) topic content r
  IsSound-cons k s ss topic content no_service h = tt
  IsSound-cons k s ss topic content (over_read _) h = tt
  IsSound-cons k s ss topic content (short_request _) h = tt
  IsSound-cons k s ss topic content (length_mismatch _) h = tt
  IsSound-cons k s ss topic content (topic_mismatch _) h = tt
  IsSound-cons k s ss topic content (call index name handler header body) (i, x, e, f, c) =
      (suc i, x, omega arith, f, c)

  lookup_from-IsSound :
      (k : ℕ) (ss : List (Service H)) (topic content : List ℕ)
      → IsSound k ss topic content (lookup_from k ss topic content)
  unfolding lookup_from
  lookup_from-IsSound k [] topic content = tt
  lookup_from-IsSound k (s ∷ ss) topic content =
      elim (Result-cases (strncmp_eq s.name (length s.name) (hay topic content))) [
        | inl (e, f) ↦ rw (f, lookup_from) tt
        | inr (true, f) ↦ rw (f, lookup_from) (lookup_named-IsSound k s ss topic content f)
        | inr (false, f) ↦
            rw (f, lookup_from)
              (IsSound-cons k s ss topic content (lookup_from (suc k) ss topic content)
                (lookup_from-IsSound (suc k) ss topic content))
      ]

  -- A lookup calls only a service of the table, at the index that it gives and with that service's
  -- name and handler: one whose name the topic and the data start with, for a topic longer by the
  -- suffix, with a request whose header gives the length of the rest, which is what the handler gets.
  pub lookup-IsSound :
      (t : ServiceTable H) (topic content : List ℕ)
      → IsSound 0 t.services topic content (lookup t topic content)
  unfolding lookup
  lookup-IsSound t topic content = lookup_from-IsSound 0 t.services topic content

  -- No service before another is named by the topic.
  abbrev pub IsPassed : List ℕ → List ℕ → Service H → Type 0
  IsPassed topic content s = strncmp_eq s.name (length s.name) (hay topic content) ≡ ok false

  lookup_from_finds :
      (k : ℕ) (before after : List (Service H)) (s : Service H) (topic content body : List ℕ)
      (header : RequestHeader)
      → All (IsPassed topic content) before
      → IsCalled s topic content s.name s.handler header body
      → lookup_from k (before ++ (s ∷ after)) topic content
        ≡ call (k + length before) s.name s.handler header body
  unfolding lookup_from lookup_named lookup_sized
  lookup_from_finds k [] after s topic content body header a c =
      rw (c.matched, lookup_from, c.decoded, lookup_named)
        (rw
          (
            lookup_sized,
            (==_iff (length content) (8 + header.data_size)).1 c.sized,
            (==_iff (length topic) (length s.name + request_suffix_len)).1 c.suffixed,
            c.rest,
          )
          (ap (λ (n : ℕ). call n s.name s.handler header (drop 8 content)) (omega arith)))
  lookup_from_finds k (x ∷ xs) after s topic content body header a c =
      rw (a.0, lookup_from)
        (lookup_from_finds (suc k) xs after s topic content body header a.1 c
          ∙ ap (λ (n : ℕ). call n s.name s.handler header body) (omega arith))

  -- A request is delivered: where the topic passes by the services in front, a service that the topic
  -- names, for which the request is well formed, is the one called.
  pub lookup_finds :
      (t : ServiceTable H) (before after : List (Service H)) (s : Service H)
      (topic content body : List ℕ) (header : RequestHeader)
      → t.services ≡ before ++ (s ∷ after)
      → All (IsPassed topic content) before
      → IsCalled s topic content s.name s.handler header body
      → lookup t topic content ≡ call (length before) s.name s.handler header body
  unfolding lookup
  lookup_finds t before after s topic content body header e a c =
      ap (λ (ss : List (Service H)). lookup_from 0 ss topic content) e
      ∙ lookup_from_finds 0 before after s topic content body header a c
      ∙ ap (λ (n : ℕ). call n s.name s.handler header body) (omega arith)
