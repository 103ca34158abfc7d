-- ===== src/Dfu/Client/Transfer/Progress.antt =====
-- The whole machine with the client in the receiving state.
use bristlemouth_rs.Common.{
  ℕ, ◌^◌, ◌<◌, ◌≡◌, refl, sym, ap, ◌∙◌, subst, inl, inr, Option, none, some, List, [], arith,
  length,
}
use bristlemouth_rs.Crc.{crc16_ccitt}
use bristlemouth_rs.Dfu.Event.{
  State, error, client_receiving, client_validating, none_event, Event, state_eq, state_value,
}
use bristlemouth_rs.Dfu.Core.{set_pending_state_change, start_timer}
use bristlemouth_rs.Dfu.Machine.{
  Dfu, Effects, run_event, run_state, lib_sm_run, take_transition, in_state, enter_state,
  enter_error, exit_state, poll,
}
use bristlemouth_rs.Dfu.Machine.Transitions.{before_run, advance_to-Steady}
use bristlemouth_rs.Dfu.Client.{Client, img_page_len, ask_chunk}
use bristlemouth_rs.Dfu.Client.Receiving.{receiving_entry, restart_transfer, receiving_run}
use bristlemouth_rs.Dfu.Client.States.{client_roles, client_run, client_entry}
use bristlemouth_rs.Dfu.Client.Transfer.{StoresWrites, Holds}
use bristlemouth_rs.Dfu.Client.Transfer.Steps.{Outcome, waits, fails, completes}
use bristlemouth_rs.Dfu.Client.Encapsulation.{validating_entry-state, receiving_run-state}
use bristlemouth_rs.Dfu.Client.Transfer.Validation.{
  received, Accepts, Rejects, receiving_on-Outcome, validating_entry_cases,
}

-- The machine in the receiving state, with `bytes` received.
pub record IsReceiving {F : Type 0} (slot : F → List ℕ) (d : Dfu Client F) (bytes : List ℕ)
    : Type 0 where
  pub state : d.core.state ≡ client_receiving
  pub pending : d.core.pending ≡ none
  pub holds : Holds slot d.roles d.effects bytes

-- Where the machine is after an event in the receiving state.
pub data Progress {F : Type 0} (slot : F → List ℕ) (d : Dfu Client F) (bytes : List ℕ)
    : Type 0 where
  receiving : IsReceiving slot d bytes → Progress slot d bytes
  failed : d.core.state ≡ error → Progress slot d bytes
  accepted : d.core.state ≡ client_validating → Accepts slot d bytes → Progress slot d bytes
  rejected : d.core.state ≡ client_validating → Rejects d bytes → Progress slot d bytes

module _ {F : Type 0} {fx : Effects F} {slot : F → List ℕ} (law : StoresWrites fx slot) where
  -- The machine's part of a run, on what the client left pending.
  lib_sm_run-pending :
      (b : Dfu Client F) (next : Option State)
      → b.core.state ≡ client_receiving
      → (receiving_run fx b).core.pending ≡ next
      → lib_sm_run fx (client_roles fx) b
        ≡ take_transition fx (client_roles fx) client_receiving next (record (receiving_run fx b) {
          core = record ((receiving_run fx b).core) { pending = none };
        })
  unfolding lib_sm_run run_state client_roles client_run
  lib_sm_run-pending b next hs hp =
      (λ i.
        let ran = run_state fx (client_roles fx) (hs i) b in
        take_transition fx (client_roles fx) (hs i) ran.core.pending
          (record ran { core = record (ran.core) { pending = none } }))
      ∙ ap
          (λ p.
            take_transition fx (client_roles fx) client_receiving p (record (receiving_run fx b) {
              core = record ((receiving_run fx b).core) { pending = none };
            }))
          hp

  -- The client as the validating state is entered.
  abbrev validating : Dfu Client F → Dfu Client F
  validating b = record (receiving_run fx b) {
    core = record ((receiving_run fx b).core) { state = client_validating; pending = none };
  }

  lib_sm_run-Progress :
      (b : Dfu Client F) (bytes : List ℕ)
      → Outcome slot b (receiving_run fx b) bytes
      → b.core.state ≡ client_receiving
      → b.core.pending ≡ none
      → (receiving_run fx b).core.state ≡ b.core.state
      → Progress slot (lib_sm_run fx (client_roles fx) b) bytes
  unfolding take_transition enter_state exit_state enter_error client_roles client_entry state_eq
      state_value set_pending_state_change
  lib_sm_run-Progress b bytes (waits p h) hs hp ks =
      subst (λ x. Progress slot x bytes) (sym (lib_sm_run-pending b none hs (p ∙ hp)))
        (receiving (record { state = ks ∙ hs; pending = refl; holds = h }))
  lib_sm_run-Progress b bytes (fails p) hs hp ks =
      subst (λ x. Progress slot x bytes) (sym (lib_sm_run-pending b (some error) hs p))
        (failed (ground arith))
  lib_sm_run-Progress b bytes (completes p c) hs hp ks =
      subst (λ x. Progress slot x bytes) (sym (lib_sm_run-pending b (some client_validating) hs p))
        (elim (validating_entry_cases fx slot (validating b) bytes c) [
          | inl accepts ↦ accepted (validating_entry-state fx (validating b)) accepts
          | inr rejects ↦ rejected (validating_entry-state fx (validating b)) rejects
        ])

  -- `run_event` ends by taking the event away.
  idle_event :
      (d : Dfu Client F) (bytes : List ℕ)
      → Progress slot d bytes
      → Progress slot (record d { core = record (d.core) { current = none_event } }) bytes
  idle_event d bytes (receiving r) =
      receiving (record { state = r.state; pending = r.pending; holds = r.holds })
  idle_event d bytes (failed s) = failed s
  idle_event d bytes (accepted s a) =
      accepted s (record { pending = a.pending; checks = a.checks; image = a.image })
  idle_event d bytes (rejected s r) = rejected s (record { pending = r.pending; wrong = r.wrong })

  -- For a flash that stores what it says it has written: a machine in the receiving state, whose slot
  -- and page buffer hold `bytes`, is after any event still receiving, with the bytes that the event
  -- adds, or in the error state, or it has validated the image. It goes on to the reboot only if the
  -- CRC of the bytes received is the offered one, and the slot then holds exactly these bytes, as many
  -- as offered, unless more were received than offered. Otherwise it asks for the error state, and the
  -- length written or the CRC is not the offered one.
  pub run_event-Progress :
      (d : Dfu Client F) (bytes : List ℕ) (e : Event) (t : ℕ)
      → IsReceiving slot d bytes
      → Progress slot (run_event fx (client_roles fx) d e t) (received bytes e)
  unfolding run_event poll receiving_run received
  run_event-Progress d bytes e t r =
      let b = before_run fx (client_roles fx) d e t in
      let steady = advance_to-Steady d.core t in
      idle_event _ (received bytes e) (
        lib_sm_run-Progress b (received bytes e) (receiving_on-Outcome law e.kind b bytes r.holds)
          (steady.state ∙ r.state) (steady.pending ∙ r.pending) (receiving_run-state fx b))

  -- The transfer begins, with nothing received, when the receiving state is entered, whatever the
  -- client did before.
  pub begins_empty :
      (d : Dfu Client F)
      → d.core.pending ≡ none
      → length d.roles.page_buf ≡ img_page_len
      → d.roles.num_chunks < 2 ^ 16
      → IsReceiving slot
          (enter_state fx
            (client_roles fx)
            client_receiving
            (in_state fx (client_roles fx) client_receiving d))
          []
  unfolding enter_state client_roles client_entry receiving_entry ask_chunk start_timer
      restart_transfer crc16_ccitt
  begins_empty d hp page chunks = record {
    state = refl;
    pending = hp;
    holds = record {
      page = page;
      room = omega arith;
      stored = refl;
      counted = omega arith;
      crc = refl;
      bounded = omega arith;
      chunks = chunks;
      current = omega arith;
    };
  }
