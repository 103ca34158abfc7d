-- ===== src/Registry/Replies.antt =====
-- A request and the reply to it.
use bristlemouth_rs.Common.{
  ℕ, ◌+◌, ◌%◌, ◌^◌, ◌<◌, ◌≡◌, refl, ap, ◌∙◌, true, false, none, some, List, [], ◌∷◌, ◌++◌, ltb,
  lt→ltb, ◌==◌, ==_iff, arith, length, get_or, remove_at, position, All, ok,
}
use mathlib.Core.Path.{ap₂}
use bristlemouth_rs.Registry.{
  serialize_as, receive_as, answer_at, PendingRequest, no_request, Registry, sequenced_reply,
  process, new_request, is_seq, cfg, allocate, on_serialize, answer, remove_pending, on_received,
}
use bristlemouth_rs.Registry.Invariant.{IsValid}

position-snoc :
    (n : ℕ) (rs : List PendingRequest) (r : PendingRequest)
    → All (λ x. x.seq_num < n) rs
    → r.seq_num ≡ n
    → position (is_seq n) (rs ++ r ∷ []) ≡ some (length rs)
unfolding position
position-snoc n [] r a e = let t : (r.seq_num == n) ≡ true = (==_iff _ _).1 e in rw t refl
position-snoc n (x ∷ rs) r a e =
    let f : (x.seq_num == n) ≡ false = ground arith in rw (f, position-snoc n rs r a.1 e) refl

position-absent :
    (n : ℕ) (rs : List PendingRequest) → All (λ x. x.seq_num < n) rs → position (is_seq n) rs ≡ none
unfolding position
position-absent n [] a = refl
position-absent n (x ∷ rs) a =
    let f : (x.seq_num == n) ≡ false = ground arith in rw (f, position-absent n rs a.1) refl

module _ {ℓ} {A : Type ℓ} where
  remove_at-last : (xs : List A) (x : A) → remove_at (length xs) (xs ++ x ∷ []) ≡ xs
  unfolding remove_at
  remove_at-last [] x = refl
  remove_at-last (y ∷ xs) x = ap (◌∷◌ y) (remove_at-last xs x)

  get_or-last : (xs : List A) (x d : A) → get_or (xs ++ x ∷ []) (length xs) d ≡ x
  get_or-last [] x d = refl
  get_or-last (y ∷ xs) x d = get_or-last xs x d

abbrev counted_up : Registry → Registry
counted_up g = record g { message_count = (g.message_count + 1) % 2 ^ 32 }

abbrev recorded : Registry → ℕ → ℕ → Registry
recorded g now_ms request = record (counted_up g) {
  pending = g.pending ++ new_request now_ms request g.message_count ∷ [];
}

sends :
    (g : Registry) (now_ms request echo : ℕ)
    → length g.pending < g.pending_slots
    → cfg g request ≡ some (record { sequenced_reply = false; sequenced_request = true })
    → on_serialize g now_ms request echo
      ≡ (recorded g now_ms request, ok (record { seq_num = g.message_count; tracked = true }))
unfolding on_serialize serialize_as allocate
sends g now_ms request echo room asks =
    let fits : ltb (length g.pending) g.pending_slots ≡ true = lt→ltb _ _ room in
    ap (λ c. serialize_as c g now_ms request echo) asks ∙ rw fits refl

replies :
    (g : Registry) (reply seq_num : ℕ)
    → cfg g reply ≡ some (record { sequenced_reply = true; sequenced_request = false })
    → on_received g reply seq_num ≡ answer_at (position (is_seq seq_num) g.pending) g
unfolding on_received receive_as answer
replies g reply seq_num answers = ap (λ c. receive_as c g seq_num) answers

found :
    (g : Registry) (now_ms request : ℕ)
    → IsValid g
    → answer_at
        (position (is_seq g.message_count) (recorded g now_ms request).pending)
        (recorded g now_ms request)
      ≡ (counted_up g, sequenced_reply (new_request now_ms request g.message_count))
unfolding remove_pending
found g now_ms request v =
    let new = new_request now_ms request g.message_count in
    ap (λ p. answer_at p (recorded g now_ms request))
      (position-snoc g.message_count g.pending new v.given refl)
    ∙ ap₂ (λ ps r. (record (counted_up g) { pending = ps }, sequenced_reply r))
        (remove_at-last g.pending new) (get_or-last g.pending new no_request)

-- A request that is sent while there is room gets the next number, and is recorded. The first reply
-- with that number, of whichever reply type, is given to the request, which then waits no more; a
-- second one is processed by itself. But for the count, the registry is then as it was.
pub request-reply :
    (g : Registry) (now_ms request reply echo : ℕ)
    → IsValid g
    → length g.pending < g.pending_slots
    → cfg g request ≡ some (record { sequenced_reply = false; sequenced_request = true })
    → cfg g reply ≡ some (record { sequenced_reply = true; sequenced_request = false })
    → let sent = (on_serialize g now_ms request echo).0 in
      let counted = record g { message_count = (g.message_count + 1) % 2 ^ 32 } in
      ((on_serialize g now_ms request echo).1
        ≡ ok (record { seq_num = g.message_count; tracked = true }))
      × (on_received sent reply g.message_count
          ≡ (counted, sequenced_reply (new_request now_ms request g.message_count)))
      × (on_received counted reply g.message_count ≡ (counted, process))
unfolding cfg
request-reply g now_ms request reply echo v room asks answers =
    let sent = sends g now_ms request echo room asks in
    (
      ap (λ s. s.1) sent,
      ap (λ s. on_received s.0 reply g.message_count) sent
          ∙ replies (recorded g now_ms request) reply g.message_count answers
          ∙ found g now_ms request v,
      replies (counted_up g) reply g.message_count answers
          ∙ ap (λ p. answer_at p (counted_up g))
              (position-absent g.message_count g.pending v.given),
    )
