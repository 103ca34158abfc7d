-- ===== src/Dfu/Machine/Accepting.antt =====
-- When `on_message` of dfu_core.rs takes what it is given.
use bristlemouth_rs.Common.{
  ℕ, ◌<◌, ◌≤◌, ◌≡◌, refl, ◌⊎◌, inl, inr, arith, true, some, List, ◌∷◌, length, ==_iff, le→ltb, ok,
}
use bristlemouth_rs.Dfu.Message.{DfuAddress, of_body}
use bristlemouth_rs.Dfu.Event.{EventType, Event, message_event, for_frame_type, max_event_body_len}
use bristlemouth_rs.Dfu.Queue.Fifo.{IsRing, iter-push}
use bristlemouth_rs.Dfu.Machine.{
  Dfu, Effects, Roles, Accepted, queued, is_valid_peer, enqueue, accept_body, on_addressed,
  on_message,
}
use bristlemouth_rs.Dfu.Machine.Messages.{Queues, IsTaken, Refuses, body_event, on_message_cases}

module _ {R F : Type 0} (fx : Effects F) (roles : Roles R F) where
  -- What an event of `kind` is to be queued for: a body that starts with `frame_type`.
  pub record Admits (d : Dfu R F) (frame_type : ℕ) (body : List ℕ) (kind : EventType) : Type 0 where
    pub address : DfuAddress
    pub addressed : of_body body ≡ ok address
    pub for_us : address.dst_node_id ≡ d.core.self_node_id
    pub from_peer : is_valid_peer fx roles d address.src_node_id ≡ true
    pub known : for_frame_type frame_type ≡ some kind
    pub fits : length body ≤ max_event_body_len
    pub room : d.core.queue.len < 5

  -- The answer is `queued`, and the event waits behind the others.
  abbrev pub Takes : Dfu R F → Dfu R F × Accepted → EventType → Event → Type 0
  Takes d r kind e = (r.1 ≡ queued kind) × Queues d r.0 e

  enqueue_room :
      (d : Dfu R F) (kind : EventType) (e : Event)
      → IsRing d.core.queue
      → d.core.queue.len < 5
      → Takes d (enqueue fx roles d kind e) kind e
  unfolding enqueue
  enqueue_room d kind e r h = elim (iter-push d.core.queue e r) [
    | inl (five, _) ↦ absurd (omega arith)
    | inr (_, sent, more) ↦
        (rw (sent, enqueue), rw (sent, enqueue) (record { waiting = more; rest = refl }))
  ]

  accept_body_room :
      (d : Dfu R F) (frame_type : ℕ) (body : List ℕ) (kind : EventType)
      → IsRing d.core.queue
      → for_frame_type frame_type ≡ some kind
      → length body ≤ max_event_body_len
      → d.core.queue.len < 5
      → Takes d (accept_body fx roles d frame_type body) kind (body_event kind body)
  unfolding accept_body message_event
  accept_body_room d frame_type body kind r e fits room =
      rw (e, accept_body, le→ltb _ _ fits) (enqueue_room d kind (body_event kind body) r room)

  on_addressed_room :
      (d : Dfu R F) (a : DfuAddress) (frame_type : ℕ) (body : List ℕ)
      → a.dst_node_id ≡ d.core.self_node_id
      → is_valid_peer fx roles d a.src_node_id ≡ true
      → on_addressed fx roles d a frame_type body ≡ accept_body fx roles d frame_type body
  unfolding on_addressed
  on_addressed_room d a frame_type body us peer =
      rw ((==_iff a.dst_node_id d.core.self_node_id).1 us, peer) refl

  admitted_Takes :
      (d : Dfu R F) (frame_type : ℕ) (rest : List ℕ) (kind : EventType)
      → IsRing d.core.queue
      → Admits d frame_type (frame_type ∷ rest) kind
      → Takes d
          (on_message fx roles d (frame_type ∷ rest))
          kind
          (body_event kind (frame_type ∷ rest))
  unfolding on_message
  admitted_Takes d t rest kind r a =
      rw (a.addressed, on_message, on_addressed_room d a.address t (t ∷ rest) a.for_us a.from_peer)
        (accept_body_room d t (t ∷ rest) kind r a.known a.fits a.room)

  IsTaken-Admits :
      (d d' : Dfu R F) (t : ℕ) (body : List ℕ) (kind : EventType)
      → IsTaken fx roles d d' t body kind
      → Admits d t body kind
  IsTaken-Admits d d' t body kind k = record {
    address = k.address;
    addressed = k.addressed;
    for_us = k.for_us;
    from_peer = k.from_peer;
    known = k.known;
    fits = k.fits;
    room = k.room;
  }

  -- With a well-formed queue, one of the two holds of a body. It is addressed to this node, comes from
  -- the peer that the state accepts, starts with a DFU type and fits an event, and fewer than five events
  -- wait: then it is queued as the event of that type, behind those, with nothing else changed. Or this
  -- is not so: then `on_message` does not answer that it was queued, and nothing has changed.
  pub on_message_accepts :
      (d : Dfu R F) (frame_type : ℕ) (rest : List ℕ)
      → IsRing d.core.queue
      → ((kind : EventType) × Admits d frame_type (frame_type ∷ rest) kind
          × ((on_message fx roles d (frame_type ∷ rest)).1 ≡ queued kind)
          × Queues d
              (on_message fx roles d (frame_type ∷ rest)).0
              (body_event kind (frame_type ∷ rest)))
        ⊎ (((kind : EventType) → ¬ Admits d frame_type (frame_type ∷ rest) kind)
            × Refuses fx roles d (on_message fx roles d (frame_type ∷ rest)))
  on_message_accepts d t rest r = elim (on_message_cases fx roles d t rest r) [
    | inl refused ↦ inr (λ kind a. refused.1 kind (admitted_Takes d t rest kind r a).0, refused)
    | inr (kind, e, k) ↦ inl (kind, IsTaken-Admits d _ t (t ∷ rest) kind k, e, k.queues)
  ]
