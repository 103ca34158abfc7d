-- ===== src/Registry/Invariant.antt =====
-- What holds of a registry at all times, as long as the counter does not wrap around.
use bristlemouth_rs.Common.{
  ℕ, zero, suc, ◌+◌, ◌%◌, ◌^◌, ◌<◌, ◌≤◌, ◌≡◌, ◌≢◌, refl, inl, inr, Bool-cases, true, false, not,
  ◌&&◌, Option, none, some, List, [], ◌∷◌, ◌++◌, ltb, ◌==◌, arith, length, remove_at, position,
  length-append, All, All-append, All-remove_at, All-map, Apart, Apart-snoc, Apart-remove_at,
  KeysDiffer, Result, ok, err, ok-injective, subst, Bool, ltb→lt,
}
use bristlemouth_rs.Registry.{
  serialize_as, receive_as, answer_at, PacketCfg, PendingRequest, Registry, resuming, RegistryError,
  full, new_request, is_seq, is_type, add, remove, cfg, allocate, on_serialize, answer,
  remove_pending, on_received,
}

-- The tables fit their arrays; the requests that wait have different numbers, all of them given
-- before, and none is sent again more often than it may be.
pub record IsValid (g : Registry) : Type 0 where
  pub types_fit : length g.types ≤ g.type_slots
  pub pending_fit : length g.pending ≤ g.pending_slots
  pub given : All (λ r. r.seq_num < g.message_count) g.pending
  pub distinct : Apart (KeysDiffer (λ (r : PendingRequest). r.seq_num)) g.pending
  pub retried : All (λ r. r.retries ≤ 3) g.pending

pub resuming-IsValid : (t p count next : ℕ) → IsValid (resuming t p count next)
unfolding resuming
resuming-IsValid t p count next = record {
  types_fit = omega arith;
  pending_fit = omega arith;
  given = tt;
  distinct = tt;
  retried = tt;
}

length-remove_at_le_self {ℓ} :
    {A : Type ℓ} (i : ℕ) (xs : List A) → length (remove_at i xs) ≤ length xs
unfolding remove_at
length-remove_at_le_self i [] = omega arith
length-remove_at_le_self zero (x ∷ xs) = omega arith
length-remove_at_le_self (suc i) (x ∷ xs) = omega (arith, length-remove_at_le_self i xs)

pub add-IsValid :
    (g h : Registry) (message_type : ℕ) (c : PacketCfg)
    → add g message_type c ≡ ok h
    → IsValid g
    → IsValid h
unfolding add
add-IsValid g h message_type c e v = elim (Bool-cases (length g.types == g.type_slots)) [
  | inl taken ↦ absurd (refused (rw taken at e))
  | inr free ↦ added h (rw free at e) (ground arith)
]
  where
    refused : ◌≢◌ {A = Result RegistryError Registry} (err full) (ok h)
    refused p = cc

    added :
        (h : Registry)
        → ◌≡◌ {A = Result RegistryError Registry}
            (ok (record g { types = g.types ++ (message_type, c) ∷ [] }))
            (ok h)
        → length g.types ≢ g.type_slots
        → IsValid h
    added h p n = subst IsValid (ok-injective _ _ p) (record {
      types_fit = omega (arith, v.types_fit, length-append g.types ((message_type, c) ∷ []));
      pending_fit = v.pending_fit;
      given = v.given;
      distinct = v.distinct;
      retried = v.retried;
    })

pub remove-IsValid :
    (g : Registry) (message_type : ℕ) → IsValid g → IsValid (remove g message_type).0
unfolding remove
remove-IsValid g message_type v = at (position (is_type message_type) g.types) refl
  where
    at :
        (o : Option ℕ)
        → position (is_type message_type) g.types ≡ o
        → IsValid
            (elim o as (λ x. Registry × Bool) [
              | none ↦ (g, false)
              | some index ↦ (record g { types = remove_at index g.types }, true)
            ]).0
    at none e = v
    at (some i) e = record {
      types_fit = omega (arith, v.types_fit, length-remove_at_le_self i g.types);
      pending_fit = v.pending_fit;
      given = v.given;
      distinct = v.distinct;
      retried = v.retried;
    }

allocate-IsValid :
    (g : Registry) (now_ms message_type : ℕ)
    → g.message_count + 1 < 2 ^ 32
    → IsValid g
    → IsValid (allocate g now_ms message_type).0
unfolding allocate
allocate-IsValid g now_ms message_type h v =
    let up : (g.message_count + 1) % 2 ^ 32 ≡ g.message_count + 1 = omega arith in
    let older : All (λ (r : PendingRequest). r.seq_num < (g.message_count + 1) % 2 ^ 32) g.pending =
      All-map (λ (r : PendingRequest). r.seq_num < g.message_count) (λ r p. omega (arith, up, p))
        g.pending v.given in
    elim (Bool-cases (ltb (length g.pending) g.pending_slots)) [
      | inl room ↦ rw room (record {
        types_fit = v.types_fit;
        pending_fit = omega (
          arith,
          ltb→lt _ _ room,
          length-append g.pending (new_request now_ms message_type g.message_count ∷ []),
        );
        given = All-append _ g.pending _ older (omega (arith, up), tt);
        distinct = Apart-snoc _ g.pending _ v.distinct (
            All-map (λ (r : PendingRequest). r.seq_num < g.message_count) (λ r p e. omega arith)
              g.pending v.given);
        retried = All-append _ g.pending _ v.retried (omega arith, tt);
      })
      | inr none_left ↦ rw none_left (record {
        types_fit = v.types_fit;
        pending_fit = v.pending_fit;
        given = older;
        distinct = v.distinct;
        retried = v.retried;
      })
    ]

pub on_serialize-IsValid :
    (g : Registry) (now_ms message_type reply_seq_num : ℕ)
    → g.message_count + 1 < 2 ^ 32
    → IsValid g
    → IsValid (on_serialize g now_ms message_type reply_seq_num).0
unfolding on_serialize serialize_as
on_serialize-IsValid g now_ms message_type reply_seq_num h v = at (cfg g message_type)
  where
    at : (c : Option PacketCfg) → IsValid (serialize_as c g now_ms message_type reply_seq_num).0
    at none = v
    at (some c) = elim (Bool-cases c.sequenced_reply) [
      | inl reply ↦ rw reply v
      | inr no_reply ↦ elim (Bool-cases c.sequenced_request) [
        | inl request ↦ rw (no_reply, request) (allocate-IsValid g now_ms message_type h v)
        | inr plain ↦ rw (no_reply, plain) v
      ]
    ]

remove_pending-IsValid : (g : Registry) (i : ℕ) → IsValid g → IsValid (remove_pending g i)
unfolding remove_pending
remove_pending-IsValid g i v = record {
  types_fit = v.types_fit;
  pending_fit = omega (arith, v.pending_fit, length-remove_at_le_self i g.pending);
  given = All-remove_at _ i g.pending v.given;
  distinct = Apart-remove_at _ i g.pending v.distinct;
  retried = All-remove_at _ i g.pending v.retried;
}

pub on_received-IsValid :
    (g : Registry) (message_type seq_num : ℕ)
    → IsValid g
    → IsValid (on_received g message_type seq_num).0
unfolding on_received receive_as answer
on_received-IsValid g message_type seq_num v = at (cfg g message_type)
  where
    found : (o : Option ℕ) → IsValid (answer_at o g).0
    found none = v
    found (some i) = remove_pending-IsValid g i v

    at : (c : Option PacketCfg) → IsValid (receive_as c g seq_num).0
    at none = v
    at (some c) = elim (Bool-cases (c.sequenced_reply && not c.sequenced_request)) [
      | inl reply ↦ rw reply (found (position (is_seq seq_num) g.pending))
      | inr other ↦ rw other v
    ]
