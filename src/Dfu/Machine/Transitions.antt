-- ===== src/Dfu/Machine/Transitions.antt =====
-- How the state changes: only by a pending change, taken after the run that left it.
use bristlemouth_rs.Common.{
  ℕ, ◌≡◌, refl, sym, ap, ◌∙◌, inl, inr, true, false, Option, none, some, arith, ◌==◌, ==_iff,
  if◌then◌else◌, Bool-cases, subst,
}
use mathlib.Core.Option.{some-injective}
use bristlemouth_rs.Dfu.Event.{
  State, init, idle, error, client_receiving, client_validating, client_reboot_req,
  client_reboot_done, client_activating, host_req_update, host_update, state_value, state_from_u8,
  state_eq, EventType, init_success, bare, Event, is_fatal,
}
use bristlemouth_rs.Dfu.Event.Reboot.{RebootInfo, no_reboot_info, dfu_reboot_magic}
use bristlemouth_rs.Dfu.Queue.{push, pop, new_queue}
use bristlemouth_rs.Dfu.Core.{
  Core, advance_to, is_ahead, fire_due, fire_loop, next_due, set_pending_state_change,
}
use bristlemouth_rs.Dfu.Core.Timers.{Quiet, fire_due-Quiet}
use bristlemouth_rs.Dfu.Machine.{
  Dfu, Effects, Roles, new_core, new_dfu, run_init, run_idle, run_state, enter_state, exit_state,
  in_state, take_transition, lib_sm_run, run_event, poll, step,
}

-- The byte of a state names that state and no other.
state_from_u8-state_value : (s : State) → state_from_u8 (state_value s) ≡ some s
unfolding state_from_u8 state_value
state_from_u8-state_value init = refl
state_from_u8-state_value idle = refl
state_from_u8-state_value error = refl
state_from_u8-state_value client_receiving = refl
state_from_u8-state_value client_validating = refl
state_from_u8-state_value client_reboot_req = refl
state_from_u8-state_value client_reboot_done = refl
state_from_u8-state_value client_activating = refl
state_from_u8-state_value host_req_update = refl
state_from_u8-state_value host_update = refl

pub state_eq→eq : (s t : State) → state_eq s t ≡ true → s ≡ t
unfolding state_eq
state_eq→eq s t h = some-injective _ _ (
    sym (state_from_u8-state_value s)
    ∙ ap state_from_u8 ((==_iff (state_value s) (state_value t)).0 h)
    ∙ state_from_u8-state_value t)

-- `advance_to` moves the clock, the timers and the queue, and nothing else.
pub record Steady (c d : Core) : Type 0 where
  pub state : d.state ≡ c.state
  pub pending : d.pending ≡ c.pending
  pub error : d.error ≡ c.error
  pub notify : d.notify ≡ c.notify
  pub client_node_id : d.client_node_id ≡ c.client_node_id
  pub self_node_id : d.self_node_id ≡ c.self_node_id
  pub reboot_info : d.reboot_info ≡ c.reboot_info

Quiet-Steady : {c d : Core} → Quiet c d → Steady c d
Quiet-Steady q = record {
  state = q.state;
  pending = q.pending;
  error = q.error;
  notify = q.notify;
  client_node_id = q.client_node_id;
  self_node_id = q.self_node_id;
  reboot_info = q.reboot_info;
}

pub advance_to-Steady : (c : Core) (t : ℕ) → Steady c (advance_to c t)
unfolding advance_to
advance_to-Steady c t = elim (Bool-cases (is_ahead c.clock t)) [
  | inl e ↦ rw e (Quiet-Steady (fire_due-Quiet c))
  | inr e ↦ rw e (moved (fire_due-Quiet (record c { clock = some t })))
]
  where
    moved : {d : Core} → Quiet (record c { clock = some t }) d → Steady c d
    moved q = record {
      state = q.state;
      pending = q.pending;
      error = q.error;
      notify = q.notify;
      client_node_id = q.client_node_id;
      self_node_id = q.self_node_id;
      reboot_info = q.reboot_info;
    }

-- The state that a pending change leads to.
abbrev pub target : State → Option State → State
target s none = s
target s (some next) = next

module _ {R F : Type 0} (fx : Effects F) (roles : Roles R F) where
  -- The fields of `Core` are private to dfu_core.rs: the client and the host can ask for a state
  -- change and cannot make one.
  pub record Encapsulated : Type 0 where
    pub entry_state : (s : State) (d : Dfu R F) → (roles.entry s d).core.state ≡ d.core.state
    pub run_state : (s : State) (d : Dfu R F) → (roles.run s d).core.state ≡ d.core.state
    pub exit_state : (s : State) (d : Dfu R F) → (roles.exit s d).core.state ≡ d.core.state
    pub request_state :
        (d : Dfu R F) → (roles.client_process_update_request d).core.state ≡ d.core.state

  enter_state-state :
      (s : State) (d : Dfu R F)
      → Encapsulated
      → (enter_state fx roles s d).core.state ≡ d.core.state
  unfolding enter_state set_pending_state_change
  enter_state-state init d h = refl
  enter_state-state idle d h = refl
  enter_state-state error d h = ground arith
  enter_state-state client_receiving d h = h.entry_state client_receiving d
  enter_state-state client_validating d h = h.entry_state client_validating d
  enter_state-state client_reboot_req d h = h.entry_state client_reboot_req d
  enter_state-state client_reboot_done d h = h.entry_state client_reboot_done d
  enter_state-state client_activating d h = h.entry_state client_activating d
  enter_state-state host_req_update d h = h.entry_state host_req_update d
  enter_state-state host_update d h = h.entry_state host_update d

  init_state : (d : Dfu R F) (k : EventType) → (run_init fx roles d k).core.state ≡ d.core.state
  unfolding run_init set_pending_state_change
  init_state d k = ground arith

  idle_state :
      (d : Dfu R F) (e : Event) → Encapsulated → (run_idle fx roles d e).core.state ≡ d.core.state
  unfolding run_idle set_pending_state_change
  idle_state d e h = ground (arith, h.request_state d)

  run_state-state :
      (s : State) (d : Dfu R F) → Encapsulated → (run_state fx roles s d).core.state ≡ d.core.state
  unfolding run_state
  run_state-state init d h = init_state d _
  run_state-state idle d h = idle_state d _ h
  run_state-state error d h = refl
  run_state-state client_receiving d h = h.run_state client_receiving d
  run_state-state client_validating d h = h.run_state client_validating d
  run_state-state client_reboot_req d h = h.run_state client_reboot_req d
  run_state-state client_reboot_done d h = h.run_state client_reboot_done d
  run_state-state client_activating d h = h.run_state client_activating d
  run_state-state host_req_update d h = h.run_state host_req_update d
  run_state-state host_update d h = h.run_state host_update d

  -- The machine as `lib_sm_run` finds it: polled, with the event current.
  abbrev pub before_run : Dfu R F → Event → ℕ → Dfu R F
  before_run d e t =
      let p = poll fx roles d t in record p { core = record (p.core) { current = e } }

  take_transition-state :
      (s : State) (next : Option State) (d : Dfu R F)
      → Encapsulated
      → d.core.state ≡ s
      → (take_transition fx roles s next d).core.state ≡ target s next
  unfolding take_transition
  take_transition-state s none d h e = e
  take_transition-state s (some n) d h e = elim (Bool-cases (state_eq n s)) [
    | inl same ↦ rw same (e ∙ sym (state_eq→eq n s same))
    | inr other ↦ rw other (enter_state-state n _ h)
  ]

  lib_sm_run-state :
      (b : Dfu R F)
      → Encapsulated
      → (lib_sm_run fx roles b).core.state
        ≡ target b.core.state (run_state fx roles b.core.state b).core.pending
  unfolding lib_sm_run
  lib_sm_run-state b h =
      take_transition-state b.core.state (run_state fx roles b.core.state b).core.pending _ h
        (run_state-state b.core.state b h)

  -- Where the roles do not write the state, the machine is after an event in the state that the run
  -- left pending, or, where it left none, in the state that it was in.
  pub run_event-state :
      (d : Dfu R F) (e : Event) (t : ℕ)
      → Encapsulated
      → (run_event fx roles d e t).core.state
        ≡ target d.core.state (run_state fx roles d.core.state (before_run d e t)).core.pending
  unfolding run_event poll
  run_event-state d e t h =
      subst
        (λ s.
          (lib_sm_run fx roles (before_run d e t)).core.state
          ≡ target s (run_state fx roles s (before_run d e t)).core.pending)
        (advance_to-Steady d.core t).state (lib_sm_run-state (before_run d e t) h)

  -- `enter_error` leaves a machine that the next event takes to idle, unless the error is fatal.
  run_pending_idle :
      (d : Dfu R F) (e : Event) (t : ℕ)
      → d.core.state ≡ error
      → d.core.pending ≡ some idle
      → ((run_event fx roles d e t).core.state ≡ idle)
        × ((run_event fx roles d e t).core.pending ≡ none)
        × ((run_event fx roles d e t).core.reboot_info ≡ no_reboot_info)
        × ((run_event fx roles d e t).effects ≡ fx.lpm_peripheral_inactive d.effects)
  unfolding run_event poll lib_sm_run run_state exit_state enter_state state_eq state_value
  run_pending_idle d e t hs hp =
      let st = advance_to-Steady d.core t in
      rw (st.state ∙ hs, lib_sm_run) (rw (st.pending ∙ hp) (refl, refl, refl, refl))

  -- The error state with an error that is not fatal: on entry the finish callback is told, if one was
  -- given, and the next event, whichever it is, takes the machine to idle with the reboot information
  -- erased.
  pub error_recovers :
      (d : Dfu R F) (e : Event) (t : ℕ)
      → is_fatal d.core.error ≡ false
      → let entered = enter_state fx roles error (in_state fx roles error d) in
        let ran = run_event fx roles entered e t in
        (entered.effects ≡ (
          if d.core.notify
          then fx.update_finished false d.core.error d.core.client_node_id
              (fx.lpm_peripheral_inactive d.effects)
          else fx.lpm_peripheral_inactive d.effects))
        × (ran.core.state ≡ idle)
        × (ran.core.pending ≡ none)
        × (ran.core.reboot_info ≡ no_reboot_info)
        × (ran.effects ≡ fx.lpm_peripheral_inactive entered.effects)
  unfolding enter_state set_pending_state_change
  error_recovers d e t h =
      let entered = enter_state fx roles error (in_state fx roles error d) in
      let (a, b, c, f) = run_pending_idle entered e t (rw h) (rw h) in (refl, a, b, c, f)

  run_init_success :
      (d : Dfu R F) (t : ℕ)
      → Encapsulated
      → d.core.state ≡ init
      → (run_event fx roles d (bare init_success) t).core.state
        ≡ (if d.core.reboot_info.magic == dfu_reboot_magic then client_reboot_done else idle)
  unfolding run_state run_init set_pending_state_change poll
  run_init_success d t h hs =
      run_event-state d (bare init_success) t h
      ∙ subst
          (λ s.
            target s (run_state fx roles s (before_run d (bare init_success) t)).core.pending
            ≡ (if d.core.reboot_info.magic == dfu_reboot_magic then client_reboot_done else idle))
          (sym hs)
          (ap (λ (i : RebootInfo). if i.magic == dfu_reboot_magic then client_reboot_done else idle)
            (advance_to-Steady d.core t).reboot_info)

  -- Where the roles do not write the state, the first step after a start runs the one event that is
  -- queued: it leads to the idle state, or, where a client left its mark before it rebooted, to the
  -- state that confirms the new image.
  pub step-new_dfu :
      (self_node_id : ℕ) (info : RebootInfo) (r : R) (f : F) (t : ℕ)
      → Encapsulated
      → let booted = step fx roles (new_dfu fx roles self_node_id info r f) t in
        (booted.0.core.state
          ≡ (if info.magic == dfu_reboot_magic then client_reboot_done else idle))
        × (booted.1 ≡ some init_success)
  unfolding step new_dfu new_core poll advance_to fire_due fire_loop next_due push pop new_queue
  step-new_dfu self_node_id info r f t h = (run_init_success _ t h refl, refl)
