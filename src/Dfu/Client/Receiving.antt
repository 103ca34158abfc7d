-- ===== src/Dfu/Client/Receiving.antt =====
-- The states of dfu_client.rs that receive the image: the page buffer, the chunks and the retries.
use bristlemouth_rs.Common.{
  copy_at, ℕ, ◌+◌, ◌-◌, ◌%◌, ◌^◌, Bool, true, false, Option, none, some, List, [], ◌∷◌, ltb, leb,
  ◌==◌, if◌then◌else◌, length, take, drop, u16_at,
}
use bristlemouth_rs.Crc.{crc16_ccitt}
use bristlemouth_rs.Dfu.Event.{
  client_validating, EventType, image_chunk, chunk_timeout, received_update_request,
  heartbeat_received, body, chunk_timer, err_none, err_timeout, err_bm_frame, err_aborted,
}
use bristlemouth_rs.Dfu.Core.{set_pending_state_change, start_timer, stop_timer, delay}
use bristlemouth_rs.Dfu.Machine.{Dfu, Effects}
use bristlemouth_rs.Dfu.Client.{
  Client, img_page_len, max_chunk_retries, dfu_max_chunk, client_ack, client_abort, client_to_error,
  ask_chunk, perform,
}

-- The length and the bytes of a chunk, `none` if the body is short or the length too large.
unfoldable pub chunk_of : List ℕ → Option (List ℕ)
chunk_of bytes =
    if ltb (length bytes) 19
    then none
    else let len = u16_at bytes 17 in
      if ltb dfu_max_chunk len
      then none
      else if ltb (length bytes) (19 + len)
      then none
      else some (take len (drop 19 bytes))

unfoldable pub restart_transfer : Client → Client
restart_transfer c = record c {
  current_chunk = 0;
  chunk_retry_num = 0;
  page_byte_counter = 0;
  flash_offset = 0;
  running_crc16 = 0;
}

module _ {F : Type 0} where
  -- A page that `head` fills, on what the flash answered.
  unfoldable pub page_written : Dfu Client F × Bool → List ℕ → Dfu Client F × Bool
  page_written (d, false) tail = (d, false)
  page_written (d, true) tail = (
    record d {
      roles = record (d.roles) {
        flash_offset = (d.roles.flash_offset + img_page_len) % 2 ^ 32;
        page_buf = copy_at d.roles.page_buf 0 tail;
        page_byte_counter = length tail % 2 ^ 16;
      };
    },
    true,
  )

  unfoldable pub count_chunk : Dfu Client F → Dfu Client F
  count_chunk d = record d {
    roles = record (d.roles) {
      current_chunk = (d.roles.current_chunk + 1) % 2 ^ 16;
      chunk_retry_num = 0;
    };
  }

  -- A timeout: one more retry, `again` or, when there are too many, `give_up`.
  unfoldable pub retry :
      Dfu Client F → (Dfu Client F → Dfu Client F) → (Dfu Client F → Dfu Client F) → Dfu Client F
  retry d again give_up =
      let counted = record d {
        roles = record (d.roles) { chunk_retry_num = (d.roles.chunk_retry_num + 1) % 2 ^ 8 };
      } in
      if leb max_chunk_retries counted.roles.chunk_retry_num then give_up counted else again counted

  -- What `receiving_run` does with a chunk once it has been gathered.
  unfoldable pub finish_transfer : Dfu Client F × Bool → Dfu Client F
  finish_transfer (d, true) = record d { core = set_pending_state_change d.core client_validating }
  finish_transfer (d, false) = client_to_error d err_bm_frame

  -- The chunk has come: the timer is stopped and the running CRC goes on.
  abbrev pub with_crc : Dfu Client F → List ℕ → Dfu Client F
  with_crc d chunk = record d {
    core = stop_timer d.core chunk_timer;
    roles = record (d.roles) { running_crc16 = crc16_ccitt d.roles.running_crc16 chunk };
  }

  unfoldable pub chunk_gathered : Dfu Client F × Bool → Dfu Client F
  chunk_gathered (d, true) = count_chunk d
  chunk_gathered (d, false) = count_chunk (client_to_error d err_bm_frame)

module _ {F : Type 0} (fx : Effects F) where
  unfoldable pub receiving_entry : Dfu Client F → Dfu Client F
  receiving_entry d = ask_chunk fx (record d { roles = restart_transfer d.roles })

  unfoldable pub fill_page : Dfu Client F → List ℕ → List ℕ → Dfu Client F × Bool
  fill_page d head tail =
      let filled = record (d.roles) {
        page_buf = copy_at d.roles.page_buf d.roles.page_byte_counter head;
        page_byte_counter = 0;
      } in
      page_written
        (perform (record d { roles = filled })
          (fx.flash_write filled.flash_offset filled.page_buf d.effects))
        tail

  -- `process_payload` of a chunk that is not empty.
  unfoldable pub gather : Dfu Client F → List ℕ → Dfu Client F × Bool
  gather d chunk =
      let counter = d.roles.page_byte_counter in
      if ltb (counter + length chunk) img_page_len
      then (
        record d {
          roles = record (d.roles) {
            page_buf = copy_at d.roles.page_buf counter chunk;
            page_byte_counter = counter + length chunk;
          };
        },
        true,
      )
      else fill_page d (take (img_page_len - counter) chunk) (drop (img_page_len - counter) chunk)

  unfoldable pub process_payload : Dfu Client F → List ℕ → Dfu Client F × Bool
  process_payload d [] = (d, false)
  process_payload d (b ∷ bs) = gather d (b ∷ bs)

  -- `flash_close`, whose answer is ignored.
  unfoldable pub close_slot : Dfu Client F → Dfu Client F
  close_slot d = record d { effects = (fx.flash_close d.effects).0 }

  -- The partial page, on what the flash answered.
  unfoldable pub end_written : Dfu Client F × Bool → Dfu Client F × Bool
  end_written (d, false) = (close_slot d, false)
  end_written (d, true) = (
    close_slot (record d {
      roles = record (d.roles) {
        flash_offset = (d.roles.flash_offset + d.roles.page_byte_counter) % 2 ^ 32;
      };
    }),
    true,
  )

  unfoldable pub process_end : Dfu Client F → Dfu Client F × Bool
  process_end d =
      if d.roles.page_byte_counter == 0
      then (close_slot d, true)
      else end_written (
          perform d (
            fx.flash_write d.roles.flash_offset (take d.roles.page_byte_counter d.roles.page_buf)
              d.effects))

  unfoldable pub next_or_end : Dfu Client F → Dfu Client F
  next_or_end d =
      if ltb d.roles.current_chunk d.roles.num_chunks
      then ask_chunk fx d
      else finish_transfer (process_end d)

  unfoldable pub receive_chunk : Dfu Client F → List ℕ → Dfu Client F
  receive_chunk d chunk = next_or_end (chunk_gathered (process_payload (with_crc d chunk) chunk))

  unfoldable pub time_out : Dfu Client F → Dfu Client F
  time_out d = client_to_error (client_abort fx d err_aborted) err_timeout

  -- A second start request: "the host dropped our previous ack".
  abbrev pub restarting : Dfu Client F → Dfu Client F
  restarting d =
      let acked = client_ack fx (record d { core = stop_timer d.core chunk_timer }) 1 err_none in
      record acked { core = delay acked.core 100; roles = restart_transfer acked.roles }

  unfoldable pub restart : Dfu Client F → Dfu Client F
  restart d = ask_chunk fx (restarting d)

  unfoldable pub receive_body : Dfu Client F → Option (List ℕ) → Dfu Client F
  receive_body d none = d
  receive_body d (some bytes) = elim (chunk_of bytes) [
    | none ↦ d
    | some chunk ↦ receive_chunk d chunk
  ]

  unfoldable pub receiving_on : EventType → Dfu Client F → Dfu Client F
  receiving_on image_chunk d = receive_body d (body d.core.current.content)
  receiving_on chunk_timeout d = retry d (ask_chunk fx) time_out
  receiving_on received_update_request d = restart d
  receiving_on heartbeat_received d = record d { core = start_timer d.core chunk_timer }
  receiving_on _ d = d

  unfoldable pub receiving_run : Dfu Client F → Dfu Client F
  unfolding receiving_on
  receiving_run d = receiving_on d.core.current.kind d
