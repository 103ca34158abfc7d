-- ===== src/Dfu/Client/Transfer/Steps.antt =====
-- What `receiving_run` does with each event, on the bytes received so far.
use bristlemouth_rs.Common.{
  ℕ, ◌^◌, ◌<◌, ◌≤◌, ◌≡◌, refl, sym, ap, ◌∙◌, subst, inl, inr, ◌⊎◌, Bool, true, false, some, List,
  [], ◌++◌, arith, ltb, ltb→lt, ==_iff, Bool-cases, length, take, length-append, append-nil,
}
use bristlemouth_rs.Crc.{crc16_ccitt}
use bristlemouth_rs.Crc.Chaining.{crc16-append}
use bristlemouth_rs.Dfu.Event.{error, client_validating, err_bm_frame}
use bristlemouth_rs.Dfu.Core.{Core, set_pending_state_change, set_error, start_timer, stop_timer}
use bristlemouth_rs.Dfu.Machine.{Dfu, Effects}
use bristlemouth_rs.Dfu.Client.{Client, client_to_error, ask_chunk}
use bristlemouth_rs.Dfu.Client.Receiving.{
  process_payload, gather, fill_page, page_written, process_end, end_written, close_slot,
  chunk_gathered, count_chunk, finish_transfer, next_or_end, receive_chunk, with_crc,
}
use bristlemouth_rs.Dfu.Client.Transfer.{StoresWrites, Holds}
use bristlemouth_rs.Dfu.Client.Transfer.Payload.{
  Gathers, SameTransfer, process_payload-Gathers, process_end-Gathers,
}

-- The rest of the client, and the core, as they were.
pub record Frame {F : Type 0} (d d' : Dfu Client F) : Type 0 where
  pub same : SameTransfer d.roles d'.roles
  pub core : d'.core ≡ d.core

-- The whole image is there: it is in the slot, or a page of it was lost.
pub record Complete {F : Type 0} (slot : F → List ℕ) (c : Client) (f : F) (bytes : List ℕ)
    : Type 0 where
  pub crc : c.running_crc16 ≡ crc16_ccitt 0 bytes
  pub stored :
      ((c.flash_offset ≡ length bytes) × (take (length bytes) (slot f) ≡ bytes))
      ⊎ (c.flash_offset < length bytes)

-- How the client can stand after an event, with `bytes` received: it waits for more, it asks for the
-- error state, or it asks for the validation of what it has.
pub data Outcome {F : Type 0} (slot : F → List ℕ) (d d' : Dfu Client F) (bytes : List ℕ)
    : Type 0 where
  waits :
      d'.core.pending ≡ d.core.pending
      → Holds slot d'.roles d'.effects bytes
      → Outcome slot d d' bytes
  fails : d'.core.pending ≡ some error → Outcome slot d d' bytes
  completes :
      d'.core.pending ≡ some client_validating
      → Complete slot d'.roles d'.effects bytes
      → Outcome slot d d' bytes

module _ {F : Type 0} (fx : Effects F) where
  pub process_end-Frame : (d : Dfu Client F) → Frame d (process_end fx d).0
  unfolding process_end end_written close_slot
  process_end-Frame d = ground arith

  gather-Frame : (d : Dfu Client F) (chunk : List ℕ) → Frame d (gather fx d chunk).0
  unfolding gather fill_page page_written
  gather-Frame d chunk = ground arith

  pub process_payload-Frame :
      (d : Dfu Client F) (chunk : List ℕ) → Frame d (process_payload fx d chunk).0
  unfolding process_payload
  process_payload-Frame d chunk = ground (arith, gather-Frame d chunk)

module _ {F : Type 0} {fx : Effects F} {slot : F → List ℕ} (law : StoresWrites fx slot) where
  finish_transfer-false :
      (r : Dfu Client F × Bool) → r.1 ≡ false → (finish_transfer r).core.pending ≡ some error
  unfolding finish_transfer client_to_error set_pending_state_change
  finish_transfer-false (d, true) e = cc
  finish_transfer-false (d, false) e = refl

  pub finish_transfer-true :
      (r : Dfu Client F × Bool)
      → r.1 ≡ true
      → ((finish_transfer r).core.pending ≡ some client_validating)
        × ((finish_transfer r).roles ≡ r.0.roles)
        × ((finish_transfer r).effects ≡ r.0.effects)
  unfolding finish_transfer set_pending_state_change
  finish_transfer-true (d, true) e = (refl, refl, refl)
  finish_transfer-true (d, false) e = cc

  -- The end of the transfer, where the client holds all of it.
  finish-Complete :
      (d : Dfu Client F) (bytes : List ℕ)
      → Gathers slot d.roles d.effects bytes
      → length bytes < 2 ^ 32
      → d.roles.running_crc16 ≡ crc16_ccitt 0 bytes
      → ((finish_transfer (process_end fx d)).core.pending ≡ some error)
        ⊎ (((finish_transfer (process_end fx d)).core.pending ≡ some client_validating)
            × Complete slot
                (finish_transfer (process_end fx d)).roles
                (finish_transfer (process_end fx d)).effects
                bytes)
  finish-Complete d bytes g small crc = elim (process_end-Gathers law d bytes g small) [
    | inl refused ↦ inl (finish_transfer-false _ refused)
    | inr (done, offset, image) ↦
        let (p, c, f) = finish_transfer-true (process_end fx d) done in
        inr (
          p,
          subst (λ x. Complete slot x (finish_transfer (process_end fx d)).effects bytes) (sym c)
              (subst (λ x. Complete slot (process_end fx d).0.roles x bytes) (sym f)
                (record {
                  crc = (process_end-Frame fx d).same.running_crc16 ∙ crc;
                  stored = inl (offset, image);
                })),
        )
  ]

  -- The same where the last page was lost.
  finish_lost :
      (d : Dfu Client F) (bytes : List ℕ)
      → d.roles.page_byte_counter ≡ 0
      → d.roles.flash_offset < length bytes
      → d.roles.running_crc16 ≡ crc16_ccitt 0 bytes
      → ((finish_transfer (process_end fx d)).core.pending ≡ some client_validating)
        × Complete slot
            (finish_transfer (process_end fx d)).roles
            (finish_transfer (process_end fx d)).effects
            bytes
  unfolding finish_transfer process_end close_slot set_pending_state_change
  finish_lost d bytes empty short crc =
      rw ((==_iff _ 0).1 empty) (refl, record { crc = crc; stored = inr short })

  -- Asking for the next chunk leaves the client and the slot alone.
  pub ask_chunk-Holds :
      (d : Dfu Client F) (bytes : List ℕ)
      → Holds slot d.roles d.effects bytes
      → Holds slot (ask_chunk fx d).roles (ask_chunk fx d).effects bytes
  unfolding ask_chunk
  ask_chunk-Holds d bytes h = record {
    page = h.page;
    room = h.room;
    stored =
        ap (λ s. take d.roles.flash_offset s ++ take d.roles.page_byte_counter d.roles.page_buf)
          (law.sent _ d.effects)
        ∙ h.stored;
    counted = h.counted;
    crc = h.crc;
    bounded = h.bounded;
    chunks = h.chunks;
    current = h.current;
  }

  next-Outcome :
      (d g : Dfu Client F) (bytes : List ℕ)
      → (ltb g.roles.current_chunk g.roles.num_chunks ≡ true
          → Outcome slot d (ask_chunk fx g) bytes)
      → (ltb g.roles.current_chunk g.roles.num_chunks ≡ false
          → Outcome slot d (finish_transfer (process_end fx g)) bytes)
      → Outcome slot d (next_or_end fx g) bytes
  unfolding next_or_end
  next-Outcome d g bytes more end =
      elim (Bool-cases (ltb g.roles.current_chunk g.roles.num_chunks)) [
        | inl e ↦ rw e (more e)
        | inr e ↦ rw e (end e)
      ]

  pub gathered_true : (r : Dfu Client F × Bool) → r.1 ≡ true → chunk_gathered r ≡ count_chunk r.0
  unfolding chunk_gathered
  gathered_true (d, true) e = refl
  gathered_true (d, false) e = cc

  gathered_false :
      (r : Dfu Client F × Bool)
      → r.1 ≡ false
      → chunk_gathered r ≡ count_chunk (client_to_error r.0 err_bm_frame)
  unfolding chunk_gathered
  gathered_false (d, true) e = cc
  gathered_false (d, false) e = refl

  Holds-Gathers :
      {c : Client} {f : F} {bytes : List ℕ} → Holds slot c f bytes → Gathers slot c f bytes
  Holds-Gathers h = record { page = h.page; room = h.room; stored = h.stored; counted = h.counted }

  module _ (d : Dfu Client F) (bytes chunk : List ℕ) (h : Holds slot d.roles d.effects bytes) where
    abbrev all : List ℕ
    all = bytes ++ chunk

    crc_all : (with_crc d chunk).roles.running_crc16 ≡ crc16_ccitt 0 all
    crc_all = ap (λ s. crc16_ccitt s chunk) h.crc ∙ sym (crc16-append bytes chunk 0)

    start : Gathers slot (with_crc d chunk).roles (with_crc d chunk).effects bytes
    start = record { page = h.page; room = h.room; stored = h.stored; counted = h.counted }

    module _ (fits : length chunk ≤ 1024) where
      -- The chunk was gathered.
      kept-Outcome :
          (p : Dfu Client F)
          → Frame (with_crc d chunk) p
          → Gathers slot p.roles p.effects all
          → Outcome slot d (next_or_end fx (count_chunk p)) all
      unfolding count_chunk ask_chunk start_timer stop_timer
      kept-Outcome p same g = next-Outcome d (count_chunk p) all more end
        where
          crc : p.roles.running_crc16 ≡ crc16_ccitt 0 all
          crc = same.same.running_crc16 ∙ crc_all

          more :
              ltb (count_chunk p).roles.current_chunk (count_chunk p).roles.num_chunks ≡ true
              → Outcome slot d (ask_chunk fx (count_chunk p)) all
          more e = waits (ap (λ (c : Core). c.pending) same.core) (
              ask_chunk-Holds (count_chunk p) all (record {
                page = g.page;
                room = g.room;
                stored = g.stored;
                counted = g.counted;
                crc = crc;
                bounded = omega (
                  arith,
                  h.bounded,
                  h.current,
                  same.same.current_chunk,
                  length-append bytes chunk,
                );
                chunks = omega (arith, h.chunks, same.same.num_chunks);
                current = omega (arith, ltb→lt _ _ e, h.chunks, same.same.num_chunks);
              }))

          end :
              ltb (count_chunk p).roles.current_chunk (count_chunk p).roles.num_chunks ≡ false
              → Outcome slot d (finish_transfer (process_end fx (count_chunk p))) all
          end e =
              elim (finish-Complete (count_chunk p) all
                (record { page = g.page; room = g.room; stored = g.stored; counted = g.counted })
                (omega (arith, length-append bytes chunk, h.bounded, h.current)) crc) [
                  | inl bad ↦ fails bad
                  | inr (pending, complete) ↦ completes pending complete
                ]

      -- A page was lost with the chunk, which is not empty.
      lost-Outcome :
          (p : Dfu Client F)
          → Frame (with_crc d chunk) p
          → p.roles.flash_offset ≡ d.roles.flash_offset
          → p.roles.page_byte_counter ≡ 0
          → 0 < length chunk
          → Outcome slot d (next_or_end fx (count_chunk (client_to_error p err_bm_frame))) all
      unfolding count_chunk client_to_error set_pending_state_change set_error ask_chunk start_timer
      lost-Outcome p same offset empty some_bytes =
          next-Outcome d (count_chunk (client_to_error p err_bm_frame)) all (λ e. fails refl)
            (λ e.
              let (pending, complete) =
                finish_lost (count_chunk (client_to_error p err_bm_frame)) all empty
                  (omega (arith, length-append bytes chunk, h.counted))
                  (same.same.running_crc16 ∙ crc_all) in
              completes pending complete)

      -- An empty chunk is an error, and the bytes are as they were.
      empty-Outcome :
          chunk ≡ []
          → Outcome slot d
              (next_or_end fx (count_chunk (client_to_error (with_crc d chunk) err_bm_frame)))
              all
      unfolding count_chunk client_to_error set_pending_state_change set_error ask_chunk start_timer
      empty-Outcome e =
          next-Outcome d (count_chunk (client_to_error (with_crc d chunk) err_bm_frame)) all
            (λ _. fails refl)
            (λ _.
              elim (finish-Complete (count_chunk (client_to_error (with_crc d chunk) err_bm_frame))
                all
                (record { page = g.page; room = g.room; stored = g.stored; counted = g.counted })
                (omega (arith, length-append bytes chunk, h.bounded, h.current)) crc_all) [
                  | inl bad ↦ fails bad
                  | inr (pending, complete) ↦ completes pending complete
                ])
        where
          g : Gathers slot (with_crc d chunk).roles (with_crc d chunk).effects all
          g =
              subst (Gathers slot (with_crc d chunk).roles (with_crc d chunk).effects)
                (sym (ap (λ x. bytes ++ x) e ∙ append-nil bytes)) start

      -- A chunk that a message can carry is received, or the client asks for the error state.
      pub receive_chunk-Outcome : Outcome slot d (receive_chunk fx d chunk) all
      unfolding receive_chunk
      receive_chunk-Outcome =
          elim (process_payload-Gathers law (with_crc d chunk) bytes chunk start
            (omega (arith, h.bounded, h.current)) (omega arith)) [
              | inl (empty, same) ↦
                  rw (same, gathered_false (with_crc d chunk, false) refl) (empty-Outcome empty)
              | inr (inl (some_bytes, lost)) ↦
                  rw (gathered_false (process_payload fx (with_crc d chunk) chunk) lost.refused) (
                    lost-Outcome _ (process_payload-Frame fx (with_crc d chunk) chunk) lost.offset
                      lost.emptied some_bytes)
              | inr (inr kept) ↦
                  rw (gathered_true (process_payload fx (with_crc d chunk) chunk) kept.done) (
                    kept-Outcome _ (process_payload-Frame fx (with_crc d chunk) chunk) kept.gathers)
            ]
