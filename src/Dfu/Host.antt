-- ===== src/Dfu/Host.antt =====
-- bm-wire/src/bcmp/dfu_host.rs: the DFU host, and the node that is client and host. A method with the
-- core and the effects at hand works on the three together, as the client's do.
pub mod Combined
pub mod Sending
use Prim.Native.Nat.{min}
use bristlemouth_rs.Common.{
  ℕ, ◌+◌, ◌-◌, ◌%◌, ◌^◌, Bool, true, false, not, Option, none, some, List, [], ltb, leb, ◌==◌,
  if◌then◌else◌, length, replicate, get_elem?,
}
use bristlemouth_rs.Util.Time.{u32_mod}
use bristlemouth_rs.Dfu.Message.{DfuAddress, DfuMessage, ImgInfo, start, payload, reboot}
use bristlemouth_rs.Dfu.Event.{
  State, error, idle, host_req_update, host_update, state_eq, EventType, EventData, no_data,
  message_data, host_start, ack_received, ack_timeout, aborted, chunk_request, reboot_request,
  boot_completed, update_ended, body, ack_timer, update_timer, err_none, err_timeout, err_aborted,
  err_flash_access,
}
use bristlemouth_rs.Dfu.Core.{
  Core, set_pending_state_change, set_error, start_timer, change_period, stop_timer, address_to,
  update_end_message,
}
use bristlemouth_rs.Dfu.Machine.{Dfu, Effects}
use bristlemouth_rs.Dfu.Client.{request_of, dfu_max_chunk}
use bristlemouth_rs.Dfu.Stream.{StreamBuffer, new_stream, send, receive}

abbrev pub max_ack_retries : ℕ
max_ack_retries = 2

abbrev pub img_info_len : ℕ
img_info_len = 18

pub record Host : Type 0 where
  pub img_info : ImgInfo
  pub client_node_id : ℕ
  pub bytes_remaining : ℕ
  pub ack_retry_num : ℕ
  pub notify : Bool
  pub timeout_ms : ℕ
  pub stream : Option StreamBuffer

unfoldable pub new_host : Host
new_host = record {
  img_info = record {
    image_size = 0;
    chunk_size = 0;
    crc16 = 0;
    major_ver = 0;
    minor_ver = 0;
    filter_key = 0;
    git_sha = 0;
  };
  client_node_id = 0;
  bytes_remaining = 0;
  ack_retry_num = 0;
  notify = false;
  timeout_ms = 0;
  stream = none;
}

abbrev pub next_chunk_len : Host → ℕ
next_chunk_len h = min h.bytes_remaining h.img_info.chunk_size

unfoldable pub set_params : Bool → ℕ → Host → Host
set_params notify timeout_ms h = record h { notify = notify; timeout_ms = timeout_ms }

unfoldable pub client_node_valid : Host → ℕ → Bool
client_node_valid h node_id = h.client_node_id == node_id

unfoldable pub queue_data : Host → List ℕ → Host × Bool
queue_data h bytes = elim h.stream [
  | none ↦ (h, false)
  | some s ↦ let (s', sent) = send s bytes in (record h { stream = some s' }, sent)
]

unfoldable pub host_exit : State → Host → Host
host_exit state h = if state_eq state host_update then record h { stream = none } else h

-- The `success` and `err_code` bytes of an event's body.
unfoldable pub result_of : EventData → Option (ℕ × ℕ)
result_of content = elim (body content) [
  | none ↦ none
  | some bytes ↦ elim (get_elem? bytes 17) [
    | none ↦ none
    | some success ↦ elim (get_elem? bytes 18) [ none ↦ none | some code ↦ some (success, code) ]
  ]
]

unfoldable pub abort_error : EventData → Option ℕ
abort_error content = elim (body content) [
  | none ↦ some err_aborted
  | some bytes ↦ get_elem? bytes 18
]

-- The addresses and the image of the event that begins an update.
unfoldable pub request_in : EventData → Option (DfuAddress × ImgInfo)
request_in no_data = none
request_in (host_start h) = some (h.request.addresses, h.request.img_info)
request_in (message_data bytes) = request_of bytes

-- What `send_chunk` reads from the stream: the host and the buffer after it, and the bytes read.
unfoldable pub read_stream : Host → List ℕ → Host × List ℕ × Option ℕ
read_stream h buf = elim h.stream [
  | none ↦ (h, buf, none)
  | some s ↦ let (s', filled, read) = receive s buf in (record h { stream = some s' }, filled, read)
]

module _ {F : Type 0} where
  unfoldable pub host_to_error : Dfu Host F → ℕ → Dfu Host F
  host_to_error d e = record d {
    core =
        set_pending_state_change
          (set_error (stop_timer (stop_timer d.core update_timer) ack_timer) e) error;
  }

  -- The client's answer to the request.
  unfoldable pub acknowledged : Dfu Host F → Option (ℕ × ℕ) → Dfu Host F
  acknowledged d none = d
  acknowledged d (some (success, code)) =
      if success == 0
      then host_to_error d code
      else record d { core = set_pending_state_change d.core host_update }

  unfoldable pub host_aborted : Dfu Host F → Dfu Host F
  host_aborted d = elim (abort_error d.core.current.content) [
    | none ↦ d
    | some e ↦ host_to_error d e
  ]

  -- What a state does with a message, if the event carries one.
  unfoldable pub host_with_body : Dfu Host F → (Dfu Host F → Dfu Host F) → Dfu Host F
  host_with_body d act = elim (body d.core.current.content) [ none ↦ d | some bytes ↦ act d ]

module _ {F : Type 0} (fx : Effects F) where
  abbrev pub host_send : Dfu Host F → DfuMessage → Dfu Host F
  host_send d m = record d { effects = fx.send m d.effects }

  abbrev pub to_client : Dfu Host F → DfuAddress
  to_client d = address_to d.core d.roles.client_node_id

  abbrev pub req_update : Dfu Host F → Dfu Host F
  req_update d =
      host_send d (start (record { addresses = to_client d; img_info = d.roles.img_info }))

  -- `req_update_entry` with what it has read from the event.
  unfoldable pub request_update : Dfu Host F → DfuAddress → ImgInfo → Dfu Host F
  request_update d a info =
      let asked = req_update (record d {
        roles = record (d.roles) {
          img_info = info;
          bytes_remaining = info.image_size;
          client_node_id = a.dst_node_id;
          ack_retry_num = 0;
        };
      }) in
      record asked {
        core = start_timer asked.core ack_timer;
        roles =
            if not asked.core.internal
            then record (asked.roles) { stream = new_stream info.chunk_size }
            else asked.roles;
      }

  unfoldable pub req_update_entry : Dfu Host F → Dfu Host F
  req_update_entry d = elim (request_in d.core.current.content) [
    | none ↦ d
    | some (a, info) ↦ request_update d a info
  ]

  unfoldable pub host_entry : State → Dfu Host F → Dfu Host F
  host_entry host_req_update d = req_update_entry d
  host_entry host_update d = record d {
    core = change_period d.core update_timer d.roles.timeout_ms;
  }
  host_entry _ d = d

  unfoldable pub retry_request : Dfu Host F → Dfu Host F
  retry_request d =
      let counted = record d {
        roles = record (d.roles) { ack_retry_num = (d.roles.ack_retry_num + 1) % 2 ^ 8 };
      } in
      if leb max_ack_retries counted.roles.ack_retry_num
      then host_to_error counted err_timeout
      else let asked = req_update counted in
        record asked { core = start_timer asked.core ack_timer }

  unfoldable pub req_update_on : EventType → Dfu Host F → Dfu Host F
  req_update_on ack_received d =
      acknowledged (record d { core = stop_timer d.core ack_timer })
        (result_of d.core.current.content)
  req_update_on ack_timeout d = retry_request d
  req_update_on aborted d = host_aborted d
  req_update_on _ d = d

  unfoldable pub req_update_run : Dfu Host F → Dfu Host F
  req_update_run d = req_update_on d.core.current.kind d

  -- The end of `send_chunk`, on the bytes read into `buf`.
  unfoldable pub send_read : Dfu Host F → List ℕ → Option ℕ → Dfu Host F
  send_read d buf none = host_to_error d err_flash_access
  send_read d buf (some read) =
      let sent = host_send d (payload (record { addresses = to_client d; payload = buf })) in
      record sent {
        roles = record (sent.roles) { bytes_remaining = sent.roles.bytes_remaining - read };
      }

  -- From the node's own slot, which answers with a full buffer or not at all.
  unfoldable pub send_own : Dfu Host F → ℕ → List ℕ → Dfu Host F
  send_own d offset buf =
      let (f, filled, done) = fx.host_get_chunk offset buf d.effects in
      send_read (record d { effects = f }) filled (if done then some (length buf) else none)

  unfoldable pub send_streamed : Dfu Host F → List ℕ → Dfu Host F
  send_streamed d buf =
      let (h, filled, read) = read_stream d.roles buf in
      send_read (record d { roles = h }) filled read

  abbrev pub chunk_len : Host → ℕ
  chunk_len h = min (next_chunk_len h) dfu_max_chunk

  abbrev pub chunk_offset : Host → ℕ
  chunk_offset h = (img_info_len + h.img_info.image_size + (u32_mod - h.bytes_remaining)) % u32_mod

  unfoldable pub send_chunk : Dfu Host F → Dfu Host F
  send_chunk d =
      let buf = replicate (chunk_len d.roles) 0 in
      if d.core.internal then send_own d (chunk_offset d.roles) buf else send_streamed d buf

  -- The client is done with the image.
  unfoldable pub finish_update : Dfu Host F → Option (ℕ × ℕ) → Dfu Host F
  finish_update d none = d
  finish_update d (some (success, code)) = record d {
    core = set_pending_state_change d.core idle;
    effects =
        if d.roles.notify
        then fx.update_finished (not (success == 0)) code d.roles.client_node_id d.effects
        else d.effects;
  }

  abbrev pub confirm_update : Dfu Host F → Dfu Host F
  confirm_update d = host_send d (update_end_message d.core d.roles.client_node_id 1 err_none)

  unfoldable pub update_on : EventType → Dfu Host F → Dfu Host F
  update_on chunk_request d = host_with_body d send_chunk
  update_on reboot_request d = host_send d (reboot (to_client d))
  update_on boot_completed d = host_with_body d confirm_update
  update_on update_ended d =
      finish_update (record d { core = stop_timer d.core update_timer })
        (result_of d.core.current.content)
  update_on aborted d = host_aborted d
  update_on _ d = d

  unfoldable pub update_run : Dfu Host F → Dfu Host F
  update_run d = update_on d.core.current.kind d

  unfoldable pub host_run : State → Dfu Host F → Dfu Host F
  host_run host_req_update d = req_update_run d
  host_run host_update d = update_run d
  host_run _ d = d
