-- ===== src/Tests/UpdateRuns.antt =====
-- The client and the host of an update on a board with a slot in memory and a list of what was sent.
use bristlemouth_rs.Common.{
  ℕ, ◌+◌, ◌<◌, ◌≡◌, refl, inl, inr, ◌⊎◌, Bool, true, false, none, some, List, [], ◌∷◌, ◌++◌, arith,
  leb, leb→le, Bool-cases, length, take, drop, replicate, to_le_bytes, from_le_bytes, u16_at,
  copy_at, take-copy_at, copy_at_end, take_past, length-append, length-take, ap, ◌∙◌, prefix,
  u64_at, u32_at,
}
use bristlemouth_rs.Crc.{crc16_ccitt, crc32_ieee}
use bristlemouth_rs.Crc.Reference.{spec_crc16, crc16_ccitt-spec_crc16}
use bristlemouth_rs.Dfu.Message.{
  DfuMessage, DfuAddress, ImgInfo, payload, encode_bytes, encode_address, encode_info, of_body,
  decode_address, decode_info,
}
use bristlemouth_rs.Dfu.Event.{
  State, idle, error, client_receiving, client_validating, client_reboot_req, Event, image_chunk,
  received_update_request, message_data, none_event, body, err_timeout,
}
use bristlemouth_rs.Dfu.Event.Reboot.{no_reboot_info}
use bristlemouth_rs.Dfu.Queue.{new_queue}
use bristlemouth_rs.Dfu.Core.{Core}
use bristlemouth_rs.Dfu.Machine.{Dfu, Effects, run_event, enter_state, in_state}
use bristlemouth_rs.Dfu.Client.{
  Client, new_client, process_update_request, request_of, img_page_len,
}
use bristlemouth_rs.Dfu.Client.Receiving.{process_payload, chunk_of, receive_chunk}
use bristlemouth_rs.Dfu.Client.Confirming.{validating_entry}
use bristlemouth_rs.Dfu.Client.Transfer.Completing.{WritesSucceed, last_chunk_accepted}
use bristlemouth_rs.Dfu.Client.States.{client_roles}
use bristlemouth_rs.Dfu.Client.Requests.{
  Refuses, AcceptsImage, from_host, process_update_request_cases,
}
use bristlemouth_rs.Dfu.Client.Retries.{timeouts, five_timeouts}
use bristlemouth_rs.Dfu.Client.Transfer.{StoresWrites, Holds}
use bristlemouth_rs.Dfu.Client.Transfer.Payload.{Gathers, Kept, Lost, process_payload-Gathers}
use bristlemouth_rs.Dfu.Client.Transfer.Validation.{received}
use bristlemouth_rs.Dfu.Client.Transfer.Progress.{
  IsReceiving, Progress, run_event-Progress, begins_empty,
}
use bristlemouth_rs.Dfu.Stream.{StreamBuffer, send, receive}
use bristlemouth_rs.Dfu.Stream.Fifo.{
  IsStream, waiting, spec_send, spec_receive, taken, send_refines, receive_refines,
}
use bristlemouth_rs.Dfu.Host.{Host, new_host, send_chunk, to_client}
use bristlemouth_rs.Dfu.Host.Sending.{ReadsSlot, chunk_of-encode_bytes, send_own_chunk}

pub record Board : Type 0 where
  pub slot : List ℕ
  pub outbox : List DfuMessage

write_slot : ℕ → List ℕ → Board → Board × Bool
write_slot at bytes b = (record b { slot = copy_at b.slot at bytes }, true)

abbrev board_fx : Effects Board
board_fx = record {
  send = λ m b. record b { outbox = m ∷ b.outbox };
  lpm_peripheral_active = λ b. b;
  lpm_peripheral_inactive = λ b. b;
  update_finished = λ success code node b. b;
  flash_open = λ b. (b, true);
  flash_close = λ b. (b, true);
  flash_size = λ b. (b, 4096);
  flash_erase = λ at n b. (b, true);
  flash_write = write_slot;
  host_get_chunk = λ at buf b. (b, take (length buf) (drop at b.slot), true);
  set_confirmed = λ b. b;
  set_pending_and_reset = λ b. b;
  fail_update_and_reset = λ b. b;
  git_sha = λ b. 77;
  config_uint = λ key b. none;
  set_config_uint = λ key v b. (b, false);
  commit_config = λ b. (b, false);
}

abbrev slot_of : Board → List ℕ
slot_of b = b.slot

write_slot_law :
    (at : ℕ) (bytes : List ℕ) (b : Board)
    → take (at + length bytes) (write_slot at bytes b).0.slot ≡ take at b.slot ++ bytes
unfolding write_slot
write_slot_law at bytes b = elim (Bool-cases (leb at (length b.slot))) [
  | inl inside ↦ take-copy_at b.slot at bytes (leb→le _ _ inside)
  | inr beyond ↦
      ap (take (at + length bytes)) (copy_at_end b.slot at bytes (ground arith))
      ∙ take_past (at + length bytes) (take at b.slot ++ bytes)
          (omega (arith, length-append (take at b.slot) bytes, length-take at b.slot))
]

board_law : StoresWrites board_fx slot_of
board_law = record {
  written = λ at bytes b h. write_slot_law at bytes b;
  sent = λ m b. refl;
  closed = λ b. refl;
}

board_works : WritesSucceed board_fx
unfolding write_slot
board_works at bytes b = refl

board_reads : ReadsSlot board_fx slot_of
board_reads = record { read = λ offset buf b h. refl }

abbrev core_at : State → Bool → Event → Core
core_at s internal e = record {
  state = s;
  current = e;
  pending = none;
  error = 0;
  self_node_id = 7;
  client_node_id = 0;
  notify = false;
  internal = internal;
  queue = new_queue;
  reboot_info = no_reboot_info;
  clock = some 100;
  timers = record { at_chunk = none; at_ack = none; at_update = none };
  periods = record { at_chunk = 2000; at_ack = 10000; at_update = 300000 };
}

abbrev blank : Board
blank = record { slot = 0 ∷ 0 ∷ 0 ∷ 0 ∷ []; outbox = [] }

abbrev some_bytes : List ℕ
some_bytes = 1 ∷ 2 ∷ 3 ∷ []

abbrev host_address : DfuAddress
host_address = record { src_node_id = 9; dst_node_id = 7 }

abbrev chunk_event : Event
chunk_event = record {
  kind = image_chunk;
  content =
      message_data
        (encode_bytes (payload (record { addresses = host_address; payload = some_bytes })));
}

abbrev offered : ImgInfo
offered = record {
  image_size = 3;
  chunk_size = 4;
  crc16 = 5;
  major_ver = 1;
  minor_ver = 2;
  filter_key = 0;
  git_sha = 78;
}

abbrev offer : List ℕ
offer = 0xd0 ∷ (encode_address host_address ++ encode_info offered)

abbrev offer_event : Event
offer_event = record { kind = received_update_request; content = message_data offer }

abbrev client_at : State → Event → Dfu Client Board
client_at s e = record { core = core_at s false e; roles = new_client; effects = blank }

-- The receiving state as it is entered from the idle state.
abbrev entered : Dfu Client Board
entered =
    enter_state board_fx (client_roles board_fx) client_receiving
      (in_state board_fx (client_roles board_fx) client_receiving (client_at idle none_event))

length-page : length new_client.page_buf ≡ img_page_len
unfolding new_client
length-page = refl

entered-IsReceiving : IsReceiving slot_of entered []
unfolding new_client
entered-IsReceiving =
    begins_empty board_law (client_at idle none_event) refl length-page (omega arith)

run_event-Progress_example :
    Progress slot_of
      (run_event board_fx (client_roles board_fx) entered chunk_event 150)
      (received [] chunk_event)
run_event-Progress_example =
    run_event-Progress board_law entered [] chunk_event 150 entered-IsReceiving

new_client-Gathers : Gathers slot_of new_client blank []
unfolding new_client
new_client-Gathers = record {
  page = length-page;
  room = omega arith;
  stored = refl;
  counted = omega arith;
}

process_payload-Gathers_example :
    ((some_bytes ≡ [])
      × (process_payload board_fx (client_at client_receiving none_event) some_bytes
          ≡ (client_at client_receiving none_event, false)))
    ⊎ ((0 < length some_bytes)
        × Lost board_fx
            (client_at client_receiving none_event)
            some_bytes
            (process_payload board_fx (client_at client_receiving none_event) some_bytes))
    ⊎ Kept slot_of
        (process_payload board_fx (client_at client_receiving none_event) some_bytes)
        some_bytes
process_payload-Gathers_example =
    process_payload-Gathers board_law (client_at client_receiving none_event) [] some_bytes
      new_client-Gathers (omega arith) (omega arith)

process_update_request_cases_example :
    Refuses board_fx
      (from_host board_fx (client_at idle offer_event) 9)
      (process_update_request board_fx (client_at idle offer_event))
    ⊎ AcceptsImage board_fx
        (from_host board_fx (client_at idle offer_event) 9)
        (process_update_request board_fx (client_at idle offer_event))
        offered
unfolding request_of of_body decode_address decode_info encode_address encode_info prefix u64_at
    u32_at u16_at from_le_bytes to_le_bytes body
process_update_request_cases_example =
    process_update_request_cases board_fx (client_at idle offer_event) offer host_address offered
      refl refl

abbrev listening : Dfu Client Board
listening = client_at client_receiving none_event

five_timeouts_example :
    ((timeouts board_fx 4 listening).core.pending ≡ none)
    × ((timeouts board_fx 4 listening).roles.chunk_retry_num ≡ 4)
    × ((timeouts board_fx 5 listening).core.pending ≡ some error)
    × ((timeouts board_fx 5 listening).core.error ≡ err_timeout)
unfolding new_client
five_timeouts_example = five_timeouts board_fx listening 4 refl (omega arith)

abbrev ring : StreamBuffer
ring = record { storage = 4 ∷ 0 ∷ 3 ∷ []; capacity = 3; head = 2; count = 2 }

ring-IsStream : IsStream ring
ring-IsStream = record { some_room = omega arith; in_storage = omega arith; count_in = omega arith }

send_refines_example :
    (waiting (send ring (5 ∷ [])).0, (send ring (5 ∷ [])).1) ≡ spec_send 3 (waiting ring) (5 ∷ [])
send_refines_example = send_refines ring (5 ∷ []) ring-IsStream

receive_refines_example :
    (
      waiting (receive ring (0 ∷ [])).0,
      taken ((receive ring (0 ∷ [])).1, (receive ring (0 ∷ [])).2),
    )
    ≡ spec_receive (waiting ring) 1
receive_refines_example = receive_refines ring (0 ∷ []) ring-IsStream

chunk_of-encode_bytes_example :
    chunk_of (encode_bytes (payload (record { addresses = host_address; payload = some_bytes })))
    ≡ some some_bytes
chunk_of-encode_bytes_example = chunk_of-encode_bytes host_address some_bytes (omega arith)

abbrev serving : Bool → Dfu Host Board
serving internal = record {
  core = core_at idle internal none_event;
  roles = record new_host {
    img_info = offered;
    bytes_remaining = 2;
    client_node_id = 9;
    stream = some ring;
  };
  effects = blank;
}

-- The image of three bytes in the slot behind its header, of which the first has been sent.
abbrev stocked : Board
stocked = record blank { slot = replicate 18 0 ++ (0xaa ∷ 0xbb ∷ 0xcc ∷ []) }

abbrev serving_own : Dfu Host Board
serving_own = record (serving true) { effects = stocked }

send_own_chunk_example :
    ((send_chunk board_fx serving_own).effects ≡ record stocked {
      outbox =
          payload
            (record { addresses = to_client board_fx serving_own; payload = 0xbb ∷ 0xcc ∷ [] })
          ∷ [];
    })
    × ((send_chunk board_fx serving_own).roles.bytes_remaining + 2 ≡ 2)
    × ((send_chunk board_fx serving_own).core ≡ serving_own.core)
send_own_chunk_example =
    send_own_chunk board_fx slot_of board_reads serving_own refl (omega arith) (omega arith) refl

crc16_ccitt-spec_crc16_example : crc16_ccitt 0 some_bytes ≡ spec_crc16 0 some_bytes
crc16_ccitt-spec_crc16_example =
    crc16_ccitt-spec_crc16 some_bytes 0 (omega arith, (omega arith, (omega arith, tt)))

-- The check value of CRC-16/KERMIT, for the digits 1 to 9.
kermit : crc16_ccitt 0 (0x31 ∷ 0x32 ∷ 0x33 ∷ 0x34 ∷ 0x35 ∷ 0x36 ∷ 0x37 ∷ 0x38 ∷ 0x39 ∷ []) ≡ 0x2189
unfolding crc16_ccitt
kermit = refl

-- The check value of CRC-32/IEEE for the same.
ieee : crc32_ieee (0x31 ∷ 0x32 ∷ 0x33 ∷ 0x34 ∷ 0x35 ∷ 0x36 ∷ 0x37 ∷ 0x38 ∷ 0x39 ∷ []) ≡ 0xCBF43926
unfolding crc32_ieee
ieee = refl

-- An offer of three bytes in one chunk has been accepted.
abbrev one_chunk : Client
one_chunk = record new_client { image_size = 3; num_chunks = 1; crc16 = crc16_ccitt 0 some_bytes }

abbrev expecting : Dfu Client Board
expecting = record {
  core = core_at client_receiving false none_event;
  roles = one_chunk;
  effects = blank;
}

one_chunk-Holds : Holds slot_of one_chunk blank []
unfolding new_client crc16_ccitt
one_chunk-Holds = record {
  page = length-page;
  room = omega arith;
  stored = refl;
  counted = omega arith;
  crc = refl;
  bounded = omega arith;
  chunks = omega arith;
  current = omega arith;
}

last_chunk_accepted_example :
    ((receive_chunk board_fx expecting some_bytes).core.pending ≡ some client_validating)
    × ((validating_entry board_fx (receive_chunk board_fx expecting some_bytes)).core.pending
        ≡ some client_reboot_req)
    × (take 3 (receive_chunk board_fx expecting some_bytes).effects.slot ≡ some_bytes)
unfolding new_client
last_chunk_accepted_example =
    last_chunk_accepted board_fx board_works board_law expecting [] some_bytes one_chunk-Holds
      (omega arith) (omega arith) (omega arith) (omega arith) refl
