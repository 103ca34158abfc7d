-- ===== src/Dfu/Client/Transfer/Validation.antt =====
-- An event in the receiving state: what is received, and when an image is accepted.
use bristlemouth_rs.Common.{
  ℕ, ◌+◌, ◌%◌, ◌^◌, ◌<◌, ◌≤◌, ◌≡◌, ◌≢◌, refl, sym, ap, ◌∙◌, inl, inr, ◌⊎◌, Option, none, some, List,
  [], ◌++◌, arith, ◌==◌, ==_iff, leb, Bool-cases, Option-cases, length, take, drop, length-take,
  u16_at,
}
use bristlemouth_rs.Crc.{crc16_ccitt}
use bristlemouth_rs.Dfu.Event.{
  error, client_reboot_req, Event, EventType, EventData, image_chunk, received_update_request,
  chunk_timeout, body,
}
use bristlemouth_rs.Dfu.Core.{delay, set_pending_state_change, start_timer, stop_timer}
use bristlemouth_rs.Dfu.Core.Timers.{fire_due-Quiet}
use bristlemouth_rs.Dfu.Machine.{Dfu, Effects}
use bristlemouth_rs.Dfu.Client.{Client, ask_chunk, client_to_error}
use bristlemouth_rs.Dfu.Client.Receiving.{
  chunk_of, receive_body, retry, time_out, restart, restarting, restart_transfer, receiving_on,
}
use bristlemouth_rs.Dfu.Client.Confirming.{validating_entry, reject_image}
use bristlemouth_rs.Dfu.Client.Transfer.{StoresWrites, Holds}
use bristlemouth_rs.Dfu.Client.Transfer.Steps.{
  Outcome, waits, fails, Complete, receive_chunk-Outcome, ask_chunk-Holds,
}

-- The bytes that a body adds to those received.
unfoldable pub with_chunk : List ℕ → Option (List ℕ) → List ℕ
with_chunk bytes none = bytes
with_chunk bytes (some b) = elim (chunk_of b) [ none ↦ bytes | some chunk ↦ bytes ++ chunk ]

unfoldable pub received_on : EventType → List ℕ → EventData → List ℕ
received_on image_chunk bytes content = with_chunk bytes (body content)
received_on received_update_request bytes content = []
received_on _ bytes content = bytes

-- The bytes received after an event: a chunk adds its own, a second start request drops them all.
unfoldable pub received : List ℕ → Event → List ℕ
unfolding received_on
received bytes e = received_on e.kind bytes e.content

chunk_of-le : (b chunk : List ℕ) → chunk_of b ≡ some chunk → length chunk ≤ 1024
unfolding chunk_of
chunk_of-le b chunk e = ground (arith, length-take (u16_at b 17) (drop 19 b))

module _ {F : Type 0} {fx : Effects F} {slot : F → List ℕ} (law : StoresWrites fx slot) where
  receive_body-Outcome :
      (d : Dfu Client F) (bytes : List ℕ) (b : Option (List ℕ))
      → Holds slot d.roles d.effects bytes
      → Outcome slot d (receive_body fx d b) (with_chunk bytes b)
  unfolding receive_body with_chunk
  receive_body-Outcome d bytes none h = waits refl h
  receive_body-Outcome d bytes (some b) h = elim (Option-cases (chunk_of b)) [
    | inl e ↦ rw (e, with_chunk, receive_body) (waits refl h)
    | inr (chunk, e) ↦
        rw (e, with_chunk, receive_body)
          (receive_chunk-Outcome law d bytes chunk h (chunk_of-le b chunk e))
  ]

  abbrev counted : Dfu Client F → Dfu Client F
  counted d = record d {
    roles = record (d.roles) { chunk_retry_num = (d.roles.chunk_retry_num + 1) % 2 ^ 8 };
  }

  -- The timer runs out: the chunk is asked for again, or the client gives up.
  retry-Outcome :
      (d : Dfu Client F) (bytes : List ℕ)
      → Holds slot d.roles d.effects bytes
      → Outcome slot d (retry d (ask_chunk fx) (time_out fx)) bytes
  unfolding retry time_out client_to_error set_pending_state_change ask_chunk start_timer
  retry-Outcome d bytes h = elim (Bool-cases (leb 5 (counted d).roles.chunk_retry_num)) [
    | inl e ↦ rw e (fails refl)
    | inr e ↦ rw e (
        waits refl (
          ask_chunk-Holds law (counted d) bytes (record {
            page = h.page;
            room = h.room;
            stored = h.stored;
            counted = h.counted;
            crc = h.crc;
            bounded = h.bounded;
            chunks = h.chunks;
            current = h.current;
          })))
  ]

  -- The transfer starts over.
  restart-Holds :
      (c : Client) (f : F) (bytes : List ℕ)
      → Holds slot c f bytes
      → (f' : F) → Holds slot (restart_transfer c) f' []
  unfolding restart_transfer crc16_ccitt
  restart-Holds c f bytes h f' = record {
    page = h.page;
    room = omega arith;
    stored = refl;
    counted = omega arith;
    crc = refl;
    bounded = omega arith;
    chunks = h.chunks;
    current = omega arith;
  }

  restart-Outcome :
      (d : Dfu Client F) (bytes : List ℕ)
      → Holds slot d.roles d.effects bytes
      → Outcome slot d (restart fx d) []
  unfolding restart ask_chunk start_timer delay stop_timer
  restart-Outcome d bytes h =
      waits ((fire_due-Quiet _).pending)
        (ask_chunk-Holds law (restarting fx d) [] (restart-Holds d.roles d.effects bytes h _))

  -- Every event in the receiving state.
  -- With `bytes` received, an event in the receiving state leaves the client to wait for more, or to
  -- ask for the error state or for the validation, with the bytes that the event adds.
  pub receiving_on-Outcome :
      (k : EventType) (d : Dfu Client F) (bytes : List ℕ)
      → Holds slot d.roles d.effects bytes
      → Outcome slot d (receiving_on fx k d) (received_on k bytes d.core.current.content)
  unfolding receiving_on received_on start_timer
  receiving_on-Outcome image_chunk d bytes h = receive_body-Outcome d bytes _ h
  receiving_on-Outcome chunk_timeout d bytes h = retry-Outcome d bytes h
  receiving_on-Outcome received_update_request d bytes h = restart-Outcome d bytes h
  receiving_on-Outcome _ d bytes h = waits refl h

-- What the client has decided on an image of which `bytes` were received, in the validating state.
pub record Accepts {F : Type 0} (slot : F → List ℕ) (d : Dfu Client F) (bytes : List ℕ)
    : Type 0 where
  pub pending : d.core.pending ≡ some client_reboot_req
  pub checks : d.roles.crc16 ≡ crc16_ccitt 0 bytes
  pub image :
      ((length bytes ≡ d.roles.image_size) × (take d.roles.image_size (slot d.effects) ≡ bytes))
      ⊎ (d.roles.image_size < length bytes)

pub record Rejects {F : Type 0} (d : Dfu Client F) (bytes : List ℕ) : Type 0 where
  pub pending : d.core.pending ≡ some error
  pub wrong : (d.roles.image_size ≢ d.roles.flash_offset) ⊎ (d.roles.crc16 ≢ crc16_ccitt 0 bytes)

module _ {F : Type 0} (fx : Effects F) (slot : F → List ℕ) where
  pub validating_entry_cases :
      (d : Dfu Client F) (bytes : List ℕ)
      → Complete slot d.roles d.effects bytes
      → Accepts slot (validating_entry fx d) bytes ⊎ Rejects (validating_entry fx d) bytes
  unfolding validating_entry reject_image client_to_error set_pending_state_change
  validating_entry_cases d bytes c =
      elim (Bool-cases (d.roles.image_size == d.roles.flash_offset)) [
        | inr e ↦ inr (rw e (record { pending = refl; wrong = inl (λ same. ground arith) }))
        | inl e ↦ elim (Bool-cases (d.roles.crc16 == d.roles.running_crc16)) [
          | inr f ↦
              inr
                (rw (e, f) (record { pending = refl; wrong = inr (λ same. ground (arith, c.crc)) }))
          | inl f ↦ inl (
              rw (e, f)
                (record {
                  pending = refl;
                  checks = (==_iff _ _).0 f ∙ c.crc;
                  image = in_slot ((==_iff _ _).0 e) c.stored;
                }))
        ]
      ]
    where
      in_slot :
          d.roles.image_size ≡ d.roles.flash_offset
          → ((d.roles.flash_offset ≡ length bytes) × (take (length bytes) (slot d.effects) ≡ bytes))
            ⊎ (d.roles.flash_offset < length bytes)
          → ((length bytes ≡ d.roles.image_size)
              × (take d.roles.image_size (slot d.effects) ≡ bytes))
            ⊎ (d.roles.image_size < length bytes)
      in_slot same (inl (offset, image)) =
          inl (sym offset ∙ sym same, ap (λ n. take n (slot d.effects)) (same ∙ offset) ∙ image)
      in_slot same (inr short) = inr (omega arith)
