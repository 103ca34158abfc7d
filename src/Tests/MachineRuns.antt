-- ===== src/Tests/MachineRuns.antt =====
-- The state machine with a client and a host that ask for nothing, which note the peripheral's power
-- and the last update reported.
use bristlemouth_rs.Common.{
  arith, prefix, u64_at, from_le_bytes, ℕ, ◌<◌, ◌≤◌, ◌≡◌, refl, ◌⊎◌, Bool, true, false, Option,
  none, some, List, [], ◌∷◌, ◌++◌, leb, ◌&&◌, if◌then◌else◌,
}
use bristlemouth_rs.Dfu.Message.{of_body, decode_address, ImgInfo}
use bristlemouth_rs.Dfu.Event.{
  received_update_request, is_client, is_host, for_frame_type, State, idle, error, state_eq,
  EventType, nop, bare, none_event, is_fatal, err_in_progress, err_flash_access,
}
use bristlemouth_rs.Dfu.Event.Reboot.{RebootInfo, dfu_reboot_magic, no_reboot_info}
use bristlemouth_rs.Dfu.Queue.{new_queue, iter}
use bristlemouth_rs.Dfu.Queue.Fifo.{new_queue-IsRing}
use bristlemouth_rs.Dfu.Core.{Core}
use bristlemouth_rs.Dfu.Machine.{
  is_valid_peer, Dfu, Effects, Roles, queued, on_message, initiate_update, begin_event,
  dfu_max_chunk_size, in_state, enter_state,
}
use bristlemouth_rs.Dfu.Machine.Messages.{Queues, body_event, Refuses, initiate_update_cases}
use bristlemouth_rs.Dfu.Machine.Accepting.{Admits, on_message_accepts}
use bristlemouth_rs.Dfu.Machine.Transitions.{Encapsulated}
use bristlemouth_rs.Dfu.Machine.Stuck.{
  receive, initiate, polled, stepped, forced, calls, fatal_forever,
}

-- What the peripheral and the finish callback were told last.
pub record Log : Type 0 where
  pub powered : Bool
  pub finished : Option (Bool × (ℕ × ℕ))

abbrev quiet : Log
quiet = record { powered = false; finished = none }

abbrev fx : Effects Log
fx = record {
  lpm_peripheral_active = λ l. record l { powered = true };
  lpm_peripheral_inactive = λ l. record l { powered = false };
  update_finished = λ success code node l. record l { finished = some (success, (code, node)) };
  send = λ m l. l;
  flash_open = λ l. (l, true);
  flash_close = λ l. (l, true);
  flash_size = λ l. (l, 0);
  flash_erase = λ at n l. (l, true);
  flash_write = λ at bytes l. (l, true);
  host_get_chunk = λ at buf l. (l, buf, true);
  set_confirmed = λ l. l;
  set_pending_and_reset = λ l. l;
  fail_update_and_reset = λ l. l;
  git_sha = λ l. 0;
  config_uint = λ key l. none;
  set_config_uint = λ key v l. (l, false);
  commit_config = λ l. (l, false);
}

-- The roles hold the timeout of the host's last update.
abbrev roles : Roles ℕ Log
roles = record {
  entry = λ s d. d;
  run = λ s d. d;
  exit = λ s d. d;
  client_process_update_request = λ d. d;
  host_set_params = λ notify timeout_ms r. timeout_ms;
  client_host_node_valid = λ r src. true;
  host_client_node_valid = λ r src. true;
}

roles-Encapsulated : Encapsulated fx roles
roles-Encapsulated = record {
  entry_state = λ s d. refl;
  run_state = λ s d. refl;
  exit_state = λ s d. refl;
  request_state = λ d. refl;
}

abbrev core_in : State → ℕ → Core
core_in s code = record {
  state = s;
  current = none_event;
  pending = none;
  error = code;
  self_node_id = 7;
  client_node_id = 9;
  notify = true;
  internal = false;
  queue = new_queue;
  reboot_info = no_reboot_info;
  clock = some 100;
  timers = record { at_chunk = none; at_ack = some 90; at_update = none };
  periods = record { at_chunk = 2000; at_ack = 10000; at_update = 300000 };
}

abbrev dfu_in : State → ℕ → Dfu ℕ Log
dfu_in s code = record { core = core_in s code; roles = 0; effects = quiet }

abbrev image : ImgInfo
image = record {
  image_size = 4096;
  chunk_size = 512;
  crc16 = 1;
  major_ver = 1;
  minor_ver = 2;
  filter_key = 0;
  git_sha = 0;
}

abbrev rest_of_body : List ℕ
rest_of_body = 9 ∷ 0 ∷ 0 ∷ 0 ∷ 0 ∷ 0 ∷ 0 ∷ 0 ∷ 7 ∷ 0 ∷ 0 ∷ 0 ∷ 0 ∷ 0 ∷ 0 ∷ 0 ∷ 0 ∷ 0 ∷ []

initiate_update_cases_example :
    let d = dfu_in idle 0 in
    let r = initiate_update fx roles d image 9 true 60000 false in
    ((r.1 ≡ true)
      × (image.chunk_size ≤ dfu_max_chunk_size fx roles)
      × (state_eq d.core.state idle ≡ true)
      × (d.core.queue.len < 5)
      × (iter r.0.core.queue
          ≡ iter d.core.queue ++ (begin_event fx roles d.core image 9 true 60000 ∷ []))
      × (r.0 ≡ record d { core = record (d.core) { queue = r.0.core.queue; internal = false } }))
    ⊎ ((r.1 ≡ false)
        × ((dfu_max_chunk_size fx roles < image.chunk_size)
            ⊎ (state_eq d.core.state idle ≡ false)
            ⊎ (d.core.queue.len ≡ 5))
        × (r.0 ≡ record d {
          effects =
              if true && leb image.chunk_size 1024
              then fx.update_finished false err_in_progress 9 d.effects
              else d.effects;
        }))
initiate_update_cases_example =
    initiate_update_cases fx roles (dfu_in idle 0) image 9 true 60000 false new_queue-IsRing

abbrev left_behind : RebootInfo
left_behind = record {
  magic = dfu_reboot_magic;
  major = 1;
  minor = 2;
  host_node_id = 9;
  git_sha = 3;
}

fatal_forever_example :
    (calls fx roles
      (enter_state fx roles error (in_state fx roles error (dfu_in idle err_flash_access)))
      (receive (0xd0 ∷ rest_of_body)
        ∷ initiate image 9 true 60000 false
        ∷ polled 130
        ∷ stepped 140
        ∷ forced (bare nop) 150
        ∷ [])).core.state
    ≡ error
unfolding is_fatal
fatal_forever_example =
    fatal_forever fx roles (dfu_in idle err_flash_access)
      (receive (0xd0 ∷ rest_of_body)
        ∷ initiate image 9 true 60000 false
        ∷ polled 130
        ∷ stepped 140
        ∷ forced (bare nop) 150
        ∷ [])
      refl refl

on_message_accepts_example :
    ((kind : EventType) × Admits fx roles (dfu_in idle 0) 0xd0 (0xd0 ∷ rest_of_body) kind
      × ((on_message fx roles (dfu_in idle 0) (0xd0 ∷ rest_of_body)).1 ≡ queued kind)
      × Queues
          (dfu_in idle 0)
          (on_message fx roles (dfu_in idle 0) (0xd0 ∷ rest_of_body)).0
          (body_event kind (0xd0 ∷ rest_of_body)))
    ⊎ (((kind : EventType) → ¬ Admits fx roles (dfu_in idle 0) 0xd0 (0xd0 ∷ rest_of_body) kind)
        × Refuses fx roles
            (dfu_in idle 0)
            (on_message fx roles (dfu_in idle 0) (0xd0 ∷ rest_of_body)))
on_message_accepts_example =
    on_message_accepts fx roles (dfu_in idle 0) 0xd0 rest_of_body new_queue-IsRing

-- The request is admitted.
request_admitted :
    Admits fx roles (dfu_in idle 0) 0xd0 (0xd0 ∷ rest_of_body) received_update_request
unfolding of_body decode_address prefix u64_at from_le_bytes is_valid_peer is_client is_host
    for_frame_type new_queue
request_admitted = record {
  address = record { src_node_id = 9; dst_node_id = 7 };
  addressed = refl;
  for_us = refl;
  from_peer = refl;
  known = refl;
  fits = omega arith;
  room = omega arith;
}
