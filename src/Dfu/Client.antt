-- ===== src/Dfu/Client.antt =====
-- bm-wire/src/bcmp/dfu_client.rs: the DFU client. A method with the core and the effects at hand works
-- on the three together, which is the record `Dfu` of Dfu.Machine with the client for its roles.
pub mod Receiving
pub mod Confirming
pub mod States
pub mod Encapsulation
pub mod Requests
pub mod Retries
pub mod Transfer
use bristlemouth_rs.Common.{
  ℕ, ◌+◌, ◌-◌, ◌/◌, ◌%◌, ◌^◌, Bool, true, false, not, ◌&&◌, Option, none, some, List, [], ◌∷◌, ◌++◌,
  ltb, leb, ◌==◌, if◌then◌else◌, ok, err, length, take, drop, replicate, u16_at,
}
use bristlemouth_rs.Crc.{crc16_ccitt}
use bristlemouth_rs.Dfu.Message.{
  DfuMessage, DfuAddress, ImgInfo, abort, of_body, decode_info, min_len,
}
use bristlemouth_rs.Dfu.Event.{
  error, client_receiving, client_validating, image_chunk, chunk_timeout, received_update_request,
  heartbeat_received, body, chunk_timer, err_none, err_too_large, err_same_ver, err_timeout,
  err_bm_frame, err_aborted, err_chunk_size, err_flash_access,
}
use bristlemouth_rs.Dfu.Event.Reboot.{no_reboot_info, dfu_reboot_magic}
use bristlemouth_rs.Dfu.Core.{
  set_pending_state_change, set_error, start_timer, stop_timer, delay, address_to, ack_message,
  next_chunk_message,
}
use bristlemouth_rs.Dfu.Machine.{Dfu, Effects}

abbrev pub img_page_len : ℕ
img_page_len = 2048

abbrev pub max_chunk_retries : ℕ
max_chunk_retries = 5

abbrev pub dfu_max_chunk : ℕ
dfu_max_chunk = 1024

abbrev pub img_info_force_update : ℕ
img_info_force_update = 0x4CEDC0FE

-- "dfu_confirm".
abbrev pub dfu_confirm_key : List ℕ
dfu_confirm_key = b'd' ∷ b'f' ∷ b'u' ∷ b'_' ∷ b'c' ∷ b'o' ∷ b'n' ∷ b'f' ∷ b'i' ∷ b'r' ∷ b'm' ∷ []

pub record Client : Type 0 where
  pub image_size : ℕ
  pub num_chunks : ℕ
  pub crc16 : ℕ
  pub running_crc16 : ℕ
  pub page_byte_counter : ℕ
  pub flash_offset : ℕ
  pub page_buf : List ℕ
  pub chunk_retry_num : ℕ
  pub current_chunk : ℕ
  pub host_node_id : ℕ

unfoldable pub new_client : Client
new_client = record {
  image_size = 0;
  num_chunks = 0;
  crc16 = 0;
  running_crc16 = 0;
  page_byte_counter = 0;
  flash_offset = 0;
  page_buf = replicate img_page_len 0;
  chunk_retry_num = 0;
  current_chunk = 0;
  host_node_id = 0;
}

unfoldable pub host_node_valid : Client → ℕ → Bool
host_node_valid c node_id = c.host_node_id == node_id

-- The addresses and the image of a start request, `none` if the body is too short for either.
unfoldable pub request_of : List ℕ → Option (DfuAddress × ImgInfo)
request_of bytes = elim (of_body bytes) [
  | err _ ↦ none
  | ok a ↦
      if ltb (length bytes) min_len
      then none
      else elim (decode_info (drop min_len bytes)) [ err _ ↦ none | ok i ↦ some (a, i) ]
]

-- `num_chunks` of an image, with the quotient by zero that a Cortex-M gives.
unfoldable pub chunk_count : ℕ → ℕ → ℕ
chunk_count image_size chunk_size =
    let whole = if chunk_size == 0 then 0 else image_size / chunk_size in
    let rem = if chunk_size == 0 then image_size else image_size % chunk_size in
    (if rem == 0 then whole else whole + 1) % 2 ^ 16

module _ {F : Type 0} where
  unfoldable pub client_to_error : Dfu Client F → ℕ → Dfu Client F
  client_to_error d e = record d {
    core = set_pending_state_change (set_error (stop_timer d.core chunk_timer) e) error;
  }

  -- An `Effects` call in the middle of a function, and its answer.
  abbrev pub perform : {A : Type 0} → Dfu Client F → F × A → Dfu Client F × A
  perform d (f, a) = (record d { effects = f }, a)

module _ {F : Type 0} (fx : Effects F) where
  abbrev pub send_message : Dfu Client F → DfuMessage → Dfu Client F
  send_message d m = record d { effects = fx.send m d.effects }

  -- `core.send_ack` to the host.
  abbrev pub client_ack : Dfu Client F → ℕ → ℕ → Dfu Client F
  client_ack d success e = send_message d (ack_message d.core d.roles.host_node_id success e)

  -- `core.req_next_chunk` and the start of the timer that waits for the chunk.
  unfoldable pub ask_chunk : Dfu Client F → Dfu Client F
  ask_chunk d =
      let asked =
        send_message d (next_chunk_message d.core d.roles.host_node_id d.roles.current_chunk) in
      record asked { core = start_timer asked.core chunk_timer }

  abbrev pub client_abort : Dfu Client F → ℕ → Dfu Client F
  client_abort d e = send_message d (
      abort
        (record { addresses = address_to d.core d.roles.host_node_id; success = 0; err_code = e }))

  unfoldable pub fail_update_and_reboot : Dfu Client F → Dfu Client F
  fail_update_and_reboot d = record d {
    core = delay (record (d.core) { reboot_info = no_reboot_info }) 100;
    effects = fx.fail_update_and_reset d.effects;
  }

  -- The end of `process_update_request`, with the slot erased.
  unfoldable pub accept_image : Dfu Client F → ImgInfo → Dfu Client F
  accept_image d info =
      let acked = client_ack d 1 err_none in
      record acked {
        core =
            set_pending_state_change
              (delay
                (record (acked.core) {
                  reboot_info = record {
                    magic = dfu_reboot_magic;
                    major = info.major_ver;
                    minor = info.minor_ver;
                    host_node_id = acked.roles.host_node_id;
                    git_sha = info.git_sha;
                  };
                })
                10)
              client_receiving;
      }

  unfoldable pub flash_refused : Dfu Client F → Dfu Client F
  flash_refused d = client_to_error (client_ack d 0 err_flash_access) err_flash_access

  unfoldable pub erase_slot : Dfu Client F → ImgInfo → Dfu Client F
  erase_slot d info =
      let (sized, size) = perform d (fx.flash_size d.effects) in
      let (erased, done) = perform sized (fx.flash_erase 0 size sized.effects) in
      if done then accept_image erased info else flash_refused erased

  unfoldable pub open_slot : Dfu Client F → ImgInfo → Dfu Client F
  open_slot d info =
      let (opened, done) = perform d (fx.flash_open d.effects) in
      if not done
      then flash_refused opened
      else let (sized, size) = perform opened (fx.flash_size opened.effects) in
        if leb size info.image_size then client_ack sized 0 err_too_large else erase_slot sized info

  unfoldable pub consider_image : Dfu Client F → ImgInfo → Dfu Client F
  consider_image d info =
      if (info.git_sha == fx.git_sha d.effects) && not (info.filter_key == img_info_force_update)
      then client_ack d 0 err_same_ver
      else if ltb dfu_max_chunk info.chunk_size
      then client_to_error (client_abort d err_aborted) err_chunk_size
      else open_slot
          (record d {
            roles = record (d.roles) {
              image_size = info.image_size;
              num_chunks = chunk_count info.image_size info.chunk_size;
              crc16 = info.crc16;
            };
          })
          info

  unfoldable pub consider_body : Dfu Client F → List ℕ → Dfu Client F
  consider_body d bytes = elim (request_of bytes) [
    | none ↦ d
    | some (a, info) ↦
        consider_image (record d { roles = record (d.roles) { host_node_id = a.src_node_id } }) info
  ]

  unfoldable pub process_update_request : Dfu Client F → Dfu Client F
  process_update_request d = elim (body d.core.current.content) [
    | none ↦ d
    | some bytes ↦ consider_body d bytes
  ]
