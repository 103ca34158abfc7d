-- ===== src/Dfu/Machine/Stuck.antt =====
-- The error state that nothing leaves: a fatal error on entry (divergence #59 of docs/c-divergences.md).
use bristlemouth_rs.Common.{
  ℕ, ◌≡◌, refl, sym, subst, ◌∙◌, Bool, true, Option, none, some, List, [], ◌∷◌, arith,
}
use bristlemouth_rs.Dfu.Message.{ImgInfo}
use bristlemouth_rs.Dfu.Event.{error, Event, is_fatal}
use bristlemouth_rs.Dfu.Queue.{EventQueue}
use bristlemouth_rs.Dfu.Machine.{
  Dfu, Effects, Roles, on_message, on_addressed, accept_body, enqueue, initiate_update, poll, step,
  run_popped, run_event, lib_sm_run, take_transition, run_state, enter_state, in_state,
}
use bristlemouth_rs.Dfu.Machine.Transitions.{advance_to-Steady}

-- What a caller can do to the machine.
pub data Call : Type 0 where
  receive : List ℕ → Call
  initiate : ImgInfo → ℕ → Bool → ℕ → Bool → Call
  polled : ℕ → Call
  stepped : ℕ → Call
  forced : Event → ℕ → Call

pub record IsStuck {R F : Type 0} (d : Dfu R F) : Type 0 where
  pub in_error : d.core.state ≡ error
  pub no_change : d.core.pending ≡ none

module _ {R F : Type 0} (fx : Effects F) (roles : Roles R F) where
  unfoldable pub call : Dfu R F → Call → Dfu R F
  call d (receive body) = (on_message fx roles d body).0
  call d (initiate info dst notify timeout_ms internal) =
      (initiate_update fx roles d info dst notify timeout_ms internal).0
  call d (polled t) = poll fx roles d t
  call d (stepped t) = (step fx roles d t).0
  call d (forced e t) = run_event fx roles d e t

  unfoldable pub calls : Dfu R F → List Call → Dfu R F
  calls d [] = d
  calls d (c ∷ cs) = calls (call d c) cs

  poll-IsStuck : (d : Dfu R F) (t : ℕ) → IsStuck d → IsStuck (poll fx roles d t)
  unfolding poll
  poll-IsStuck d t s =
      let st = advance_to-Steady d.core t in
      record { in_error = st.state ∙ s.in_error; no_change = st.pending ∙ s.no_change }

  lib_sm_run-IsStuck : (d : Dfu R F) → IsStuck d → IsStuck (lib_sm_run fx roles d)
  unfolding lib_sm_run run_state take_transition
  lib_sm_run-IsStuck d s =
      subst
        (λ st.
          let ran = run_state fx roles st d in
          IsStuck (
            take_transition fx roles st ran.core.pending
              (record ran { core = record (ran.core) { pending = none } })))
        (sym s.in_error)
        (subst
          (λ p. IsStuck (
            take_transition fx roles error p
              (record d { core = record (d.core) { pending = none } })))
          (sym s.no_change) (record { in_error = s.in_error; no_change = refl }))

  run_event-IsStuck :
      (d : Dfu R F) (e : Event) (t : ℕ) → IsStuck d → IsStuck (run_event fx roles d e t)
  unfolding run_event
  run_event-IsStuck d e t s =
      let p = poll-IsStuck d t s in
      let ran =
        lib_sm_run-IsStuck
          (record (poll fx roles d t) { core = record ((poll fx roles d t).core) { current = e } })
          (record { in_error = p.in_error; no_change = p.no_change }) in
      record { in_error = ran.in_error; no_change = ran.no_change }

  run_popped-IsStuck :
      (d : Dfu R F) (q : EventQueue × Option Event) (t : ℕ)
      → IsStuck d
      → IsStuck (run_popped fx roles d q t).0
  unfolding run_popped
  run_popped-IsStuck d (q, none) t s = record { in_error = s.in_error; no_change = s.no_change }
  run_popped-IsStuck d (q, some e) t s =
      run_event-IsStuck (record d { core = record (d.core) { queue = q } }) e t
        (record { in_error = s.in_error; no_change = s.no_change })

  on_message-IsStuck :
      (d : Dfu R F) (body : List ℕ) → IsStuck d → IsStuck (on_message fx roles d body).0
  unfolding on_message on_addressed accept_body enqueue
  on_message-IsStuck d [] s = s
  on_message-IsStuck d (x ∷ xs) s = ground arith

  initiate_update-IsStuck :
      (d : Dfu R F) (info : ImgInfo) (dst : ℕ) (notify : Bool) (timeout_ms : ℕ) (internal : Bool)
      → IsStuck d
      → IsStuck (initiate_update fx roles d info dst notify timeout_ms internal).0
  unfolding initiate_update
  initiate_update-IsStuck d info dst notify timeout_ms internal s = ground arith

  call-IsStuck : (d : Dfu R F) (c : Call) → IsStuck d → IsStuck (call d c)
  unfolding call step
  call-IsStuck d (receive body) s = on_message-IsStuck d body s
  call-IsStuck d (initiate info dst notify timeout_ms internal) s =
      initiate_update-IsStuck d info dst notify timeout_ms internal s
  call-IsStuck d (polled t) s = poll-IsStuck d t s
  call-IsStuck d (stepped t) s = run_popped-IsStuck (poll fx roles d t) _ t (poll-IsStuck d t s)
  call-IsStuck d (forced e t) s = run_event-IsStuck d e t s

  calls-IsStuck : (d : Dfu R F) (cs : List Call) → IsStuck d → IsStuck (calls d cs)
  unfolding calls
  calls-IsStuck d [] s = s
  calls-IsStuck d (c ∷ cs) s = calls-IsStuck (call d c) cs (call-IsStuck d c s)

  -- The error state entered with a fatal error and no change pending is never left: no message,
  -- request, timer or event, in any order, takes the machine out of it.
  pub fatal_forever :
      (d : Dfu R F) (cs : List Call)
      → is_fatal d.core.error ≡ true
      → d.core.pending ≡ none
      → (calls (enter_state fx roles error (in_state fx roles error d)) cs).core.state ≡ error
  unfolding enter_state
  fatal_forever d cs fatal quiet =
      (calls-IsStuck _ cs (rw fatal (record { in_error = refl; no_change = quiet }))).in_error
