-- ===== src/Dfu/Machine.antt =====
-- `Dfu` of bm-wire/src/bcmp/dfu_core.rs: the state machine over the client's and the host's states,
-- which the trait `Roles` supplies, and over what the machine does outside itself, the trait `Effects`.
pub mod Transitions
pub mod Messages
pub mod Accepting
pub mod Stuck
use bristlemouth_rs.Common.{
  ℕ, ◌+◌, ◌<◌, ◌≡◌, Bool, true, false, not, Option, none, some, List, [], ◌∷◌, ltb, ◌==◌,
  if◌then◌else◌, Result, ok, err,
}
use bristlemouth_rs.Dfu.Message.{DfuAddress, DfuMessage, DfuStart, ImgInfo, of_body}
use bristlemouth_rs.Dfu.Event.{
  State, init, idle, error, client_receiving, client_validating, client_reboot_req,
  client_reboot_done, client_activating, host_req_update, host_update, state_eq, is_client, is_host,
  EventType, nop, init_success, received_update_request, begin_host, for_frame_type, is_fatal,
  err_none, err_in_progress, period_ms, chunk_timer, ack_timer, update_timer, HostStart, EventData,
  no_data, message_data, host_start, Event, bare, none_event, message_event,
}
use bristlemouth_rs.Dfu.Event.Reboot.{RebootInfo, no_reboot_info, dfu_reboot_magic}
use bristlemouth_rs.Dfu.Queue.{EventQueue, new_queue, push, pop}
use bristlemouth_rs.Dfu.Core.{Core, PerTimer, set_pending_state_change, advance_to, address_to}

-- The machine, and the state of the effects that the calls are handed.
pub record Dfu (R F : Type 0) : Type 0 where
  pub core : Core
  pub roles : R
  pub effects : F

-- What the machine does outside itself. A call that answers gives the state it leaves and the answer;
-- a read into a buffer gives the buffer too. `config_uint` and `set_config_uint` are the accesses to a
-- key of the store's system partition, `none` where there is no store or no such number, and
-- `commit_config` is for that partition.
pub record Effects (F : Type 0) : Type 0 where
  pub send : DfuMessage → F → F
  pub lpm_peripheral_active : F → F
  pub lpm_peripheral_inactive : F → F
  pub update_finished : Bool → ℕ → ℕ → F → F
  pub flash_open : F → F × Bool
  pub flash_close : F → F × Bool
  pub flash_size : F → F × ℕ
  pub flash_erase : ℕ → ℕ → F → F × Bool
  pub flash_write : ℕ → List ℕ → F → F × Bool
  pub host_get_chunk : ℕ → List ℕ → F → F × List ℕ × Bool
  pub set_confirmed : F → F
  pub set_pending_and_reset : F → F
  pub fail_update_and_reset : F → F
  pub git_sha : F → ℕ
  pub config_uint : List ℕ → F → Option ℕ
  pub set_config_uint : List ℕ → ℕ → F → F × Bool
  pub commit_config : F → F × Bool

pub record Roles (R F : Type 0) : Type 0 where
  pub entry : State → Dfu R F → Dfu R F
  pub run : State → Dfu R F → Dfu R F
  pub exit : State → Dfu R F → Dfu R F
  pub client_process_update_request : Dfu R F → Dfu R F
  pub host_set_params : Bool → ℕ → R → R
  pub client_host_node_valid : R → ℕ → Bool
  pub host_client_node_valid : R → ℕ → Bool

unfoldable pub new_core : ℕ → RebootInfo → Core
new_core self_node_id reboot_info = record {
  state = init;
  current = none_event;
  pending = none;
  error = err_none;
  self_node_id = self_node_id;
  client_node_id = 0;
  notify = false;
  internal = false;
  queue = (push new_queue (bare init_success)).0;
  reboot_info = reboot_info;
  clock = none;
  timers = record { at_chunk = none; at_ack = none; at_update = none };
  periods = record {
    at_chunk = period_ms chunk_timer;
    at_ack = period_ms ack_timer;
    at_update = period_ms update_timer;
  };
}

pub data Accepted : Type 0 where
  queued : EventType → Accepted
  not_for_us wrong_peer unknown_type queue_full too_short too_long : Accepted

module _ {R F : Type 0} (fx : Effects F) (roles : Roles R F) where
  unfoldable pub new_dfu : ℕ → RebootInfo → R → F → Dfu R F
  new_dfu self_node_id reboot_info r f = record {
    core = new_core self_node_id reboot_info;
    roles = r;
    effects = f;
  }

  -- The peer that the state accepts messages from.
  unfoldable pub is_valid_peer : Dfu R F → ℕ → Bool
  is_valid_peer d src =
      if is_client d.core.state
      then roles.client_host_node_valid d.roles src
      else if is_host d.core.state
      then roles.host_client_node_valid d.roles src
      else true

  -- The last step of `on_message`, on an event made from the body.
  unfoldable pub enqueue : Dfu R F → EventType → Event → Dfu R F × Accepted
  enqueue d kind event =
      let (q, sent) = push d.core.queue event in
      if sent
      then (record d { core = record (d.core) { queue = q } }, queued kind)
      else (d, queue_full)

  unfoldable pub accept_body : Dfu R F → ℕ → List ℕ → Dfu R F × Accepted
  unfolding enqueue
  accept_body d frame_type body = elim (for_frame_type frame_type) [
    | none ↦ (d, unknown_type)
    | some kind ↦ elim (message_event kind body) [
      | err _ ↦ (d, too_long)
      | ok event ↦ enqueue d kind event
    ]
  ]

  unfoldable pub on_addressed : Dfu R F → DfuAddress → ℕ → List ℕ → Dfu R F × Accepted
  on_addressed d address frame_type body =
      if not (address.dst_node_id == d.core.self_node_id)
      then (d, not_for_us)
      else if not (is_valid_peer d address.src_node_id)
      then (d, wrong_peer)
      else accept_body d frame_type body

  -- `of_body` fails on an empty body, so that `body[0]` is read of another.
  unfoldable pub on_message : Dfu R F → List ℕ → Dfu R F × Accepted
  on_message d [] = (d, too_short)
  on_message d (frame_type ∷ rest) = elim (of_body (frame_type ∷ rest)) [
    | err _ ↦ (d, too_short)
    | ok address ↦ on_addressed d address frame_type (frame_type ∷ rest)
  ]

  -- The closure `refuse` of `initiate_update`.
  unfoldable pub refuse : Dfu R F → Bool → ℕ → Dfu R F × Bool
  refuse d notify dst =
      if notify
      then (record d { effects = fx.update_finished false err_in_progress dst d.effects }, false)
      else (d, false)

  abbrev pub dfu_max_chunk_size : ℕ
  dfu_max_chunk_size = 1024

  abbrev pub begin_event : Core → ImgInfo → ℕ → Bool → ℕ → Event
  begin_event c info dst notify timeout_ms = record {
    kind = begin_host;
    content = host_start (record {
      request = record { addresses = address_to c dst; img_info = info };
      notify = notify;
      timeout_ms = timeout_ms;
    });
  }

  unfoldable pub initiate_update : Dfu R F → ImgInfo → ℕ → Bool → ℕ → Bool → Dfu R F × Bool
  unfolding refuse
  initiate_update d info dst notify timeout_ms internal =
      if ltb dfu_max_chunk_size info.chunk_size
      then (d, false)
      else if not (state_eq d.core.state idle)
      then refuse d notify dst
      else let (q, sent) = push d.core.queue (begin_event d.core info dst notify timeout_ms) in
        if sent
        then (record d { core = record (d.core) { queue = q; internal = internal } }, true)
        else refuse d notify dst

  unfoldable pub poll : Dfu R F → ℕ → Dfu R F
  poll d now_ms = record d { core = advance_to d.core now_ms }

  -- `s_init_run`.
  unfoldable pub run_init : Dfu R F → EventType → Dfu R F
  run_init d init_success = record d {
    core =
        set_pending_state_change d.core
          (if d.core.reboot_info.magic == dfu_reboot_magic then client_reboot_done else idle);
  }
  run_init d _ = d

  -- A `begin_host` in the idle state, with its start request.
  unfoldable pub begin_update : Dfu R F → EventData → Dfu R F
  begin_update d (host_start h) = record d {
    core =
        set_pending_state_change
          (record (d.core) { notify = h.notify; client_node_id = h.request.addresses.dst_node_id })
          host_req_update;
    roles = roles.host_set_params h.notify h.timeout_ms d.roles;
  }
  begin_update d _ = d

  -- `s_idle_run`.
  unfoldable pub run_idle : Dfu R F → Event → Dfu R F
  unfolding begin_update
  run_idle d e = elim e.kind [
    | received_update_request ↦ roles.client_process_update_request d
    | begin_host ↦ begin_update d e.content
    | _ ↦ d
  ]

  unfoldable pub run_state : State → Dfu R F → Dfu R F
  run_state init d = run_init d d.core.current.kind
  run_state idle d = run_idle d d.core.current
  run_state error d = d
  run_state s d = roles.run s d

  -- `s_error_entry`.
  unfoldable pub enter_error : Dfu R F → Dfu R F
  enter_error d = record d {
    core = if is_fatal d.core.error then d.core else set_pending_state_change d.core idle;
    effects =
        if d.core.notify
        then fx.update_finished false d.core.error d.core.client_node_id
            (fx.lpm_peripheral_inactive d.effects)
        else fx.lpm_peripheral_inactive d.effects;
  }

  unfoldable pub enter_state : State → Dfu R F → Dfu R F
  unfolding enter_error
  enter_state init d = d
  enter_state idle d = record d {
    core = record (d.core) { reboot_info = no_reboot_info };
    effects = fx.lpm_peripheral_inactive d.effects;
  }
  enter_state error d = enter_error d
  enter_state s d = roles.entry s d

  unfoldable pub exit_state : State → Dfu R F → Dfu R F
  exit_state init d = d
  exit_state error d = d
  exit_state idle d = record d { effects = fx.lpm_peripheral_active d.effects }
  exit_state s d = roles.exit s d

  abbrev pub in_state : State → Dfu R F → Dfu R F
  in_state s d = record d { core = record (d.core) { state = s } }

  -- The part of `lib_sm_run` behind the run of `state`, on what `pending.take()` gave.
  unfoldable pub take_transition : State → Option State → Dfu R F → Dfu R F
  take_transition state none d = d
  take_transition state (some next) d =
      if state_eq next state then d else enter_state next (in_state next (exit_state state d))

  unfoldable pub lib_sm_run : Dfu R F → Dfu R F
  unfolding take_transition
  lib_sm_run d =
      let ran = run_state d.core.state d in
      take_transition d.core.state ran.core.pending
        (record ran { core = record (ran.core) { pending = none } })

  unfoldable pub run_event : Dfu R F → Event → ℕ → Dfu R F
  run_event d event now_ms =
      let polled = poll d now_ms in
      let ran = lib_sm_run (record polled { core = record (polled.core) { current = event } }) in
      record ran { core = record (ran.core) { current = none_event } }

  -- `pop` then `run_event`, on what the queue gave.
  unfoldable pub run_popped : Dfu R F → EventQueue × Option Event → ℕ → Dfu R F × Option EventType
  run_popped d (q, none) now_ms = (record d { core = record (d.core) { queue = q } }, none)
  run_popped d (q, some event) now_ms =
      (run_event (record d { core = record (d.core) { queue = q } }) event now_ms, some event.kind)

  unfoldable pub step : Dfu R F → ℕ → Dfu R F × Option EventType
  unfolding run_popped
  step d now_ms = let polled = poll d now_ms in run_popped polled (pop polled.core.queue) now_ms
