-- ===== src/Dfu/Event.antt =====
-- bm-wire/src/bcmp/dfu_core.rs: the states, the events, the errors, the timers and what survives a
-- reboot.
pub mod Reboot
use bristlemouth_rs.Common.{
  ℕ, ◌+◌, ◌-◌, Bool, true, false, Option, none, some, List, [], ◌∷◌, ltb, leb, ◌==◌, if◌then◌else◌,
  length, Result, ok, err, BmWireError, invalid, ok_or, get_elem?,
}
use bristlemouth_rs.Dfu.Message.{DfuStart, DfuMessage, decode}

pub data State : Type 0 where
  init idle error : State
  client_receiving client_validating client_reboot_req client_reboot_done client_activating : State
  host_req_update host_update : State

-- In the order of the C values 0 to 9.
abbrev pub all_states : List State
all_states =
    init ∷ idle ∷ error ∷ client_receiving ∷ client_validating ∷ client_reboot_req
    ∷ client_reboot_done ∷ client_activating ∷ host_req_update ∷ host_update ∷ []

unfoldable pub state_from_u8 : ℕ → Option State
state_from_u8 value = get_elem? all_states value

unfoldable pub state_value : State → ℕ
state_value init = 0
state_value idle = 1
state_value error = 2
state_value client_receiving = 3
state_value client_validating = 4
state_value client_reboot_req = 5
state_value client_reboot_done = 6
state_value client_activating = 7
state_value host_req_update = 8
state_value host_update = 9

unfoldable pub is_client : State → Bool
is_client client_receiving = true
is_client client_validating = true
is_client client_reboot_req = true
is_client client_reboot_done = true
is_client client_activating = true
is_client _ = false

unfoldable pub is_host : State → Bool
is_host host_req_update = true
is_host host_update = true
is_host _ = false

-- `==` on the enum.
unfoldable pub state_eq : State → State → Bool
unfolding state_value
state_eq s t = state_value s == state_value t

pub data EventType : Type 0 where
  nop init_success received_update_request chunk_request image_chunk update_ended : EventType
  ack_received ack_timeout chunk_timeout heartbeat_received aborted begin_host : EventType
  reboot_request reboot_received boot_completed : EventType

unfoldable pub for_frame_type : ℕ → Option EventType
for_frame_type frame_type =
    if frame_type == 0xD0
    then some received_update_request
    else if frame_type == 0xD2
    then some image_chunk
    else if frame_type == 0xD3
    then some update_ended
    else if frame_type == 0xD4
    then some ack_received
    else if frame_type == 0xD5
    then some aborted
    else if frame_type == 0xD6
    then some heartbeat_received
    else if frame_type == 0xD1
    then some chunk_request
    else if frame_type == 0xD7
    then some reboot_request
    else if frame_type == 0xD8
    then some reboot_received
    else if frame_type == 0xD9
    then some boot_completed
    else none

-- `DfuErr` is a byte.
abbrev pub err_none : ℕ
err_none = 0

abbrev pub err_too_large : ℕ
err_too_large = 1

abbrev pub err_same_ver : ℕ
err_same_ver = 2

abbrev pub err_mismatch_len : ℕ
err_mismatch_len = 3

abbrev pub err_bad_crc : ℕ
err_bad_crc = 4

abbrev pub err_timeout : ℕ
err_timeout = 6

abbrev pub err_bm_frame : ℕ
err_bm_frame = 7

abbrev pub err_aborted : ℕ
err_aborted = 8

abbrev pub err_wrong_ver : ℕ
err_wrong_ver = 9

abbrev pub err_in_progress : ℕ
err_in_progress = 10

abbrev pub err_chunk_size : ℕ
err_chunk_size = 11

abbrev pub err_confirmation_abort : ℕ
err_confirmation_abort = 13

abbrev pub err_flash_access : ℕ
err_flash_access = 14

unfoldable pub is_fatal : ℕ → Bool
is_fatal e = leb err_flash_access e

pub data Timer : Type 0 where
  chunk_timer ack_timer update_timer : Timer

abbrev pub all_timers : List Timer
all_timers = chunk_timer ∷ ack_timer ∷ update_timer ∷ []

unfoldable pub period_ms : Timer → ℕ
period_ms chunk_timer = 2000
period_ms ack_timer = 10000
period_ms update_timer = 300000

unfoldable pub timer_event : Timer → EventType
timer_event chunk_timer = chunk_timeout
timer_event ack_timer = ack_timeout
timer_event update_timer = aborted

pub record HostStart : Type 0 where
  pub request : DfuStart
  pub notify : Bool
  pub timeout_ms : ℕ

-- A message is the bytes in use; the rest of its array is never read.
pub data EventData : Type 0 where
  no_data : EventData
  message_data : List ℕ → EventData
  host_start : HostStart → EventData

unfoldable pub body : EventData → Option (List ℕ)
body no_data = none
body (message_data bytes) = some bytes
body (host_start h) = none

pub record Event : Type 0 where
  pub kind : EventType
  pub content : EventData

abbrev pub bare : EventType → Event
bare kind = record { kind = kind; content = no_data }

-- `Event::NONE`.
abbrev pub none_event : Event
none_event = bare nop

-- 1514, less the Ethernet, IPv6 and BCMP headers.
abbrev pub max_event_body_len : ℕ
max_event_body_len = 1514 - 54 - 13

unfoldable pub message_event : EventType → List ℕ → Result BmWireError Event
message_event kind bytes =
    if ltb max_event_body_len (length bytes)
    then err invalid
    else ok (record { kind = kind; content = message_data bytes })

unfoldable pub message_body : Event → Option DfuMessage
unfolding body
message_body e = elim (body e.content) [
  | none ↦ none
  | some bytes ↦ elim (decode bytes) [ ok m ↦ some m | err _ ↦ none ]
]
