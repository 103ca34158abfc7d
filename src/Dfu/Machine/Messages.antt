-- ===== src/Dfu/Machine/Messages.antt =====
-- What `on_message` and `initiate_update` take, and what they leave alone.
use bristlemouth_rs.Common.{
  ℕ, ◌≤◌, ◌≡◌, ◌≢◌, refl, inl, inr, ◌⊎◌, Bool, true, false, ◌&&◌, some, List, [], ◌∷◌, ◌++◌, arith,
  ltb, leb, ◌==◌, ==_iff, if◌then◌else◌, Bool-cases, Option-cases, length, ltb→le, ltb→lt, ◌<◌,
  Result, ok, err, BmWireError,
}
use bristlemouth_rs.Dfu.Message.{DfuAddress, ImgInfo, of_body}
use bristlemouth_rs.Dfu.Event.{
  idle, EventType, for_frame_type, Event, message_data, message_event, max_event_body_len, state_eq,
  err_in_progress,
}
use bristlemouth_rs.Dfu.Queue.{iter}
use bristlemouth_rs.Dfu.Queue.Fifo.{IsRing, iter-push}
use bristlemouth_rs.Dfu.Machine.{
  Dfu, Effects, Roles, Accepted, queued, queue_full, is_valid_peer, enqueue, accept_body,
  on_addressed, on_message, refuse, begin_event, initiate_update, dfu_max_chunk_size,
}

-- The machine with one more event at the end of its queue and nothing else changed.
pub record Queues {R F : Type 0} (d d' : Dfu R F) (e : Event) : Type 0 where
  pub waiting : iter d'.core.queue ≡ iter d.core.queue ++ (e ∷ [])
  pub rest : d' ≡ record d { core = record (d.core) { queue = d'.core.queue } }

abbrev pub body_event : EventType → List ℕ → Event
body_event kind body = record { kind = kind; content = message_data body }

module _ {R F : Type 0} (fx : Effects F) (roles : Roles R F) where
  enqueue_cases :
      (d : Dfu R F) (kind : EventType) (e : Event)
      → IsRing d.core.queue
      → (enqueue fx roles d kind e ≡ (d, queue_full))
        ⊎ ((d.core.queue.len < 5)
            × ((enqueue fx roles d kind e).1 ≡ queued kind)
            × Queues d (enqueue fx roles d kind e).0 e)
  unfolding enqueue
  enqueue_cases d kind e r = elim (iter-push d.core.queue e r) [
    | inl (_, full) ↦ inl (rw (full, enqueue))
    | inr (room, sent, more) ↦
        inr (room, rw (sent, enqueue), rw (sent, enqueue) (record { waiting = more; rest = refl }))
  ]

  -- What is true of a body, starting with `frame_type`, that was queued as an event of `kind`.
  pub record IsTaken (d d' : Dfu R F) (frame_type : ℕ) (body : List ℕ) (kind : EventType)
      : Type 0 where
    pub address : DfuAddress
    pub addressed : of_body body ≡ ok address
    pub for_us : address.dst_node_id ≡ d.core.self_node_id
    pub from_peer : is_valid_peer fx roles d address.src_node_id ≡ true
    pub known : for_frame_type frame_type ≡ some kind
    pub fits : length body ≤ max_event_body_len
    pub room : d.core.queue.len < 5
    pub queues : Queues d d' (body_event kind body)

  message_event_cases :
      (kind : EventType) (body : List ℕ)
      → (message_event kind body ≡ err BmWireError.invalid)
        ⊎ ((message_event kind body ≡ ok (body_event kind body))
            × (length body ≤ max_event_body_len))
  unfolding message_event
  message_event_cases kind body = elim (Bool-cases (ltb max_event_body_len (length body))) [
    | inl e ↦ inl (rw e)
    | inr e ↦ inr (rw e, ltb→le _ _ e)
  ]

  -- Refused: the machine is as it was, and the answer is no `queued`.
  abbrev pub Refuses : Dfu R F → Dfu R F × Accepted → Type 0
  Refuses d r = (r.0 ≡ d) × ((k : EventType) → r.1 ≢ queued k)

  accept_body_cases :
      (d : Dfu R F) (frame_type : ℕ) (body : List ℕ) (a : DfuAddress)
      → IsRing d.core.queue
      → of_body body ≡ ok a
      → a.dst_node_id ≡ d.core.self_node_id
      → is_valid_peer fx roles d a.src_node_id ≡ true
      → Refuses d (accept_body fx roles d frame_type body)
        ⊎ ((kind : EventType) × ((accept_body fx roles d frame_type body).1 ≡ queued kind)
            × IsTaken d (accept_body fx roles d frame_type body).0 frame_type body kind)
  unfolding accept_body
  accept_body_cases d t body a r ha hd hp = elim (Option-cases (for_frame_type t)) [
    | inl e ↦ inl (rw (e, accept_body) (refl, λ k x. cc))
    | inr (kind, e) ↦ elim (message_event_cases kind body) [
      | inl f ↦ inl (rw (e, f, accept_body) (refl, λ k x. cc))
      | inr (f, fits) ↦ elim (enqueue_cases d kind (body_event kind body) r) [
        | inl g ↦ inl (rw (e, f, g, accept_body) (refl, λ k x. cc))
        | inr (room, g, q) ↦ inr (
          kind,
          rw (e, f, accept_body) g,
          rw (e, f, accept_body)
              (record {
                address = a;
                addressed = ha;
                for_us = hd;
                from_peer = hp;
                known = e;
                fits = fits;
                room = room;
                queues = q;
              }),
        )
      ]
    ]
  ]

  on_addressed_cases :
      (d : Dfu R F) (frame_type : ℕ) (body : List ℕ) (a : DfuAddress)
      → IsRing d.core.queue
      → of_body body ≡ ok a
      → Refuses d (on_addressed fx roles d a frame_type body)
        ⊎ ((kind : EventType) × ((on_addressed fx roles d a frame_type body).1 ≡ queued kind)
            × IsTaken d (on_addressed fx roles d a frame_type body).0 frame_type body kind)
  unfolding on_addressed
  on_addressed_cases d t body a r ha = elim (Bool-cases (a.dst_node_id == d.core.self_node_id)) [
    | inr e ↦ inl (rw (e, on_addressed) (refl, λ k x. cc))
    | inl e ↦ elim (Bool-cases (is_valid_peer fx roles d a.src_node_id)) [
      | inr f ↦ inl (rw (e, f, on_addressed) (refl, λ k x. cc))
      | inl f ↦ rw (e, f, on_addressed) (accept_body_cases d t body a r ha ((==_iff _ _).0 e) f)
    ]
  ]

  of_body_cases {ℓ} :
      (P : Result BmWireError DfuAddress → Type ℓ) (x : Result BmWireError DfuAddress)
      → ((e : BmWireError) → x ≡ err e → P (err e))
      → ((a : DfuAddress) → x ≡ ok a → P (ok a))
      → P x
  of_body_cases P (err e) f g = f e refl
  of_body_cases P (ok a) f g = g a refl

  pub on_message_cases :
      (d : Dfu R F) (frame_type : ℕ) (rest : List ℕ)
      → IsRing d.core.queue
      → Refuses d (on_message fx roles d (frame_type ∷ rest))
        ⊎ ((kind : EventType) × ((on_message fx roles d (frame_type ∷ rest)).1 ≡ queued kind)
            × IsTaken d
                (on_message fx roles d (frame_type ∷ rest)).0
                frame_type
                (frame_type ∷ rest)
                kind)
  unfolding on_message
  on_message_cases d t rest r = of_body_split (of_body (t ∷ rest)) refl
    where
      of_body_split :
          (x : Result BmWireError DfuAddress)
          → of_body (t ∷ rest) ≡ x
          → Refuses d (on_message fx roles d (t ∷ rest))
            ⊎ ((kind : EventType) × ((on_message fx roles d (t ∷ rest)).1 ≡ queued kind)
                × IsTaken d (on_message fx roles d (t ∷ rest)).0 t (t ∷ rest) kind)
      of_body_split (err e) f = inl (rw (f, on_message) (refl, λ k x. cc))
      of_body_split (ok a) f = rw (f, on_message) (on_addressed_cases d t (t ∷ rest) a r f)

  refuse-false : (d : Dfu R F) (notify : Bool) (dst : ℕ) → (refuse fx roles d notify dst).1 ≡ false
  unfolding refuse
  refuse-false d true dst = refl
  refuse-false d false dst = refl

  refuse-effects :
      (d : Dfu R F) (notify : Bool) (dst : ℕ)
      → (refuse fx roles d notify dst).0 ≡ record d {
        effects =
            if notify then fx.update_finished false err_in_progress dst d.effects else d.effects;
      }
  unfolding refuse
  refuse-effects d true dst = refl
  refuse-effects d false dst = refl

  -- With a well-formed queue, `initiate_update` answers true for a chunk size within the limit, in the
  -- idle state and with fewer than five events waiting: then the request waits behind the other events
  -- and the machine is the same but for the queue and the flag. Otherwise, where the chunk size is over
  -- the limit, the state is another or five events wait, it answers false, the core is as it was, and
  -- the finish callback is told that an update is in progress, if one was given and the chunk size was
  -- within the limit.
  pub initiate_update_cases :
      (d : Dfu R F) (info : ImgInfo) (dst : ℕ) (notify : Bool) (timeout_ms : ℕ) (internal : Bool)
      → IsRing d.core.queue
      → let r = initiate_update fx roles d info dst notify timeout_ms internal in
        ((r.1 ≡ true)
          × (info.chunk_size ≤ dfu_max_chunk_size fx roles)
          × (state_eq d.core.state idle ≡ true)
          × (d.core.queue.len < 5)
          × (iter r.0.core.queue
              ≡ iter d.core.queue ++ (begin_event fx roles d.core info dst notify timeout_ms ∷ []))
          × (r.0 ≡ record d {
            core = record (d.core) { queue = r.0.core.queue; internal = internal };
          }))
        ⊎ ((r.1 ≡ false)
            × ((dfu_max_chunk_size fx roles < info.chunk_size)
                ⊎ (state_eq d.core.state idle ≡ false)
                ⊎ (d.core.queue.len ≡ 5))
            × (r.0 ≡ record d {
              effects =
                  if notify && leb info.chunk_size 1024
                  then fx.update_finished false err_in_progress dst d.effects
                  else d.effects;
            }))
  unfolding initiate_update
  initiate_update_cases d info dst notify timeout_ms internal r =
      elim (Bool-cases (ltb 1024 info.chunk_size)) [
        | inl big ↦ inr (rw big, inl (ltb→lt _ _ big), rw (big, le_false big notify))
        | inr fine ↦ elim (Bool-cases (state_eq d.core.state idle)) [
          | inr busy ↦ inr (
            rw (fine, busy) (refuse-false d notify dst),
            inr (inl busy),
            rw (fine, busy, le_true fine notify) (refuse-effects d notify dst),
          )
          | inl free ↦
              elim (iter-push d.core.queue (begin_event fx roles d.core info dst notify timeout_ms)
                r) [
                  | inl (five, full) ↦ inr (
                    rw (fine, free, full) (refuse-false d notify dst),
                    inr (inr five),
                    rw (fine, free, full, le_true fine notify) (refuse-effects d notify dst),
                  )
                  | inr (room, sent, more) ↦ inl (
                    rw (fine, free, sent),
                    ltb→le _ _ fine,
                    free,
                    room,
                    rw (fine, free, sent) more,
                    rw (fine, free, sent),
                  )
                ]
        ]
      ]
    where
      le_true : ltb 1024 info.chunk_size ≡ false → (n : Bool) → (n && leb info.chunk_size 1024) ≡ n
      le_true h true = ground arith
      le_true h false = refl

      le_false :
          ltb 1024 info.chunk_size ≡ true → (n : Bool) → (n && leb info.chunk_size 1024) ≡ false
      le_false h true = ground arith
      le_false h false = refl
