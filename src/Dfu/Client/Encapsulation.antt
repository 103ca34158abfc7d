-- ===== src/Dfu/Client/Encapsulation.antt =====
-- The client asks for state changes and makes none.
use bristlemouth_rs.Common.{
  ℕ, ◌≡◌, refl, ◌∙◌, Bool, true, false, Option, none, some, List, [], ◌∷◌, arith,
}
use bristlemouth_rs.Dfu.Message.{ImgInfo}
use bristlemouth_rs.Dfu.Event.{
  State, EventType, client_receiving, client_validating, client_reboot_req, client_reboot_done,
  client_activating, image_chunk, chunk_timeout, received_update_request, chunk_timer, err_bm_frame,
}
use bristlemouth_rs.Dfu.Core.{
  Core, delay, set_pending_state_change, set_error, start_timer, stop_timer,
}
use bristlemouth_rs.Dfu.Core.Timers.{fire_due-Quiet}
use bristlemouth_rs.Dfu.Machine.{Dfu, Effects}
use bristlemouth_rs.Dfu.Machine.Transitions.{Encapsulated}
use bristlemouth_rs.Dfu.Client.{
  Client, client_to_error, ask_chunk, fail_update_and_reboot, accept_image, flash_refused,
  erase_slot, open_slot, consider_image, consider_body, process_update_request,
}
use bristlemouth_rs.Dfu.Client.Receiving.{
  with_crc, count_chunk, retry, time_out, restart, receiving_entry, receiving_run, receiving_on,
  receive_body, receive_chunk, process_payload, gather, fill_page, page_written, chunk_gathered,
  next_or_end, process_end, end_written, close_slot, finish_transfer,
}
use bristlemouth_rs.Dfu.Client.Confirming.{
  validating_entry, reject_image, reboot_req_entry, reboot_req_run, with_body, activate, ask_reboot,
  update_done_entry, update_done_run, announce_boot, confirm_alone, confirm, abandon,
}
use bristlemouth_rs.Dfu.Client.States.{client_entry, client_run, client_roles, activating_entry}

delay-state : (c : Core) (ms : ℕ) → (delay c ms).state ≡ c.state
unfolding delay
delay-state c ms = (fire_due-Quiet _).state

-- A function on the client, the core and the effects that does not change the state.
abbrev Keeps : {F : Type 0} → Dfu Client F → Dfu Client F → Type 0
Keeps d d' = d'.core.state ≡ d.core.state

module _ {F : Type 0} where
  to_error-state : (d : Dfu Client F) (e : ℕ) → Keeps d (client_to_error d e)
  unfolding client_to_error set_pending_state_change set_error stop_timer
  to_error-state d e = refl

  retry-state :
      (d : Dfu Client F) (again give_up : Dfu Client F → Dfu Client F)
      → ((x : Dfu Client F) → Keeps x (again x))
      → ((x : Dfu Client F) → Keeps x (give_up x))
      → Keeps d (retry d again give_up)
  unfolding retry
  retry-state d again give_up p q = grind (arith, p, q)

module _ {F : Type 0} (fx : Effects F) where
  accept_image-state : (d : Dfu Client F) (info : ImgInfo) → Keeps d (accept_image fx d info)
  unfolding accept_image set_pending_state_change
  accept_image-state d info = delay-state _ 10

  flash_refused-state : (d : Dfu Client F) → Keeps d (flash_refused fx d)
  unfolding flash_refused
  flash_refused-state d = grind (arith, to_error-state)

  erase_slot-state : (d : Dfu Client F) (info : ImgInfo) → Keeps d (erase_slot fx d info)
  unfolding erase_slot
  erase_slot-state d info = grind (arith, accept_image-state, flash_refused-state)

  open_slot-state : (d : Dfu Client F) (info : ImgInfo) → Keeps d (open_slot fx d info)
  unfolding open_slot
  open_slot-state d info = grind (arith, erase_slot-state, flash_refused-state)

  consider_image-state : (d : Dfu Client F) (info : ImgInfo) → Keeps d (consider_image fx d info)
  unfolding consider_image
  consider_image-state d info = grind (arith, open_slot-state, to_error-state)

  consider_body-state : (d : Dfu Client F) (bytes : List ℕ) → Keeps d (consider_body fx d bytes)
  unfolding consider_body
  consider_body-state d bytes = grind (arith, consider_image-state)

  pub request-state : (d : Dfu Client F) → Keeps d (process_update_request fx d)
  unfolding process_update_request
  request-state d = grind (arith, consider_body-state)

  ask_chunk-state : (d : Dfu Client F) → Keeps d (ask_chunk fx d)
  unfolding ask_chunk start_timer
  ask_chunk-state d = refl

  restart-state : (d : Dfu Client F) → Keeps d (restart fx d)
  unfolding restart start_timer stop_timer
  restart-state d = ask_chunk-state _ ∙ delay-state (stop_timer d.core chunk_timer) 100

  fail-state : (d : Dfu Client F) → Keeps d (fail_update_and_reboot fx d)
  unfolding fail_update_and_reboot
  fail-state d = delay-state _ 100

  page_written-state :
      (d : Dfu Client F) (b : Bool) (tail : List ℕ) → Keeps d (page_written (d, b) tail).0
  unfolding page_written
  page_written-state d true tail = refl
  page_written-state d false tail = refl

  gather-state : (d : Dfu Client F) (chunk : List ℕ) → Keeps d (gather fx d chunk).0
  unfolding gather fill_page
  gather-state d chunk = grind (arith, page_written-state)

  process_payload-state :
      (d : Dfu Client F) (chunk : List ℕ) → Keeps d (process_payload fx d chunk).0
  unfolding process_payload
  process_payload-state d [] = refl
  process_payload-state d (b ∷ bs) = gather-state d (b ∷ bs)

  chunk_gathered-state : (r : Dfu Client F × Bool) → Keeps r.0 (chunk_gathered r)
  unfolding chunk_gathered count_chunk client_to_error
  chunk_gathered-state (d, true) = refl
  chunk_gathered-state (d, false) = to_error-state d err_bm_frame

  end_written-state : (d : Dfu Client F) (b : Bool) → Keeps d (end_written fx (d, b)).0
  unfolding end_written close_slot
  end_written-state d true = refl
  end_written-state d false = refl

  process_end-state : (d : Dfu Client F) → Keeps d (process_end fx d).0
  unfolding process_end close_slot
  process_end-state d = grind (arith, end_written-state)

  finish_transfer-state : (r : Dfu Client F × Bool) → Keeps r.0 (finish_transfer r)
  unfolding finish_transfer set_pending_state_change
  finish_transfer-state (d, true) = refl
  finish_transfer-state (d, false) = to_error-state d err_bm_frame

  next_or_end-state : (d : Dfu Client F) → Keeps d (next_or_end fx d)
  unfolding next_or_end
  next_or_end-state d = grind (arith, ask_chunk-state d, finish_transfer-state, process_end-state d)

  receive_chunk-state : (d : Dfu Client F) (chunk : List ℕ) → Keeps d (receive_chunk fx d chunk)
  unfolding receive_chunk stop_timer
  receive_chunk-state d chunk =
      next_or_end-state _
      ∙ chunk_gathered-state (process_payload fx (with_crc d chunk) chunk)
      ∙ process_payload-state (with_crc d chunk) chunk

  receive_body-state : (d : Dfu Client F) (b : Option (List ℕ)) → Keeps d (receive_body fx d b)
  unfolding receive_body
  receive_body-state d none = refl
  receive_body-state d (some bytes) = grind (arith, receive_chunk-state)

  time_out-state : (d : Dfu Client F) → Keeps d (time_out fx d)
  unfolding time_out
  time_out-state d = grind (arith, to_error-state)

  receiving_on-state : (k : EventType) (d : Dfu Client F) → Keeps d (receiving_on fx k d)
  unfolding receiving_on start_timer
  receiving_on-state image_chunk d = receive_body-state d _
  receiving_on-state chunk_timeout d =
      retry-state d (ask_chunk fx) (time_out fx) ask_chunk-state time_out-state
  receiving_on-state received_update_request d = restart-state d
  receiving_on-state _ d = refl

  pub receiving_run-state : (d : Dfu Client F) → Keeps d (receiving_run fx d)
  unfolding receiving_run
  receiving_run-state d = receiving_on-state d.core.current.kind d

  pub validating_entry-state : (d : Dfu Client F) → Keeps d (validating_entry fx d)
  unfolding validating_entry set_pending_state_change reject_image
  validating_entry-state d = grind (arith, to_error-state)

  ask_reboot-state : (d : Dfu Client F) → Keeps d (ask_reboot fx d)
  unfolding ask_reboot start_timer
  ask_reboot-state d = refl

  with_body-state :
      (d : Dfu Client F) (act : Dfu Client F → Dfu Client F)
      → Keeps d (act d)
      → Keeps d (with_body d act)
  unfolding with_body
  with_body-state d act p = grind (arith, p)

  activate-state : (d : Dfu Client F) → Keeps d (activate d)
  unfolding activate set_pending_state_change stop_timer
  activate-state d = refl

  reboot_req_run-state : (d : Dfu Client F) → Keeps d (reboot_req_run fx d)
  unfolding reboot_req_run
  reboot_req_run-state d = grind (
    arith,
    with_body-state d activate (activate-state d),
    retry-state d (ask_reboot fx) (time_out fx) ask_reboot-state time_out-state,
  )

  announce_boot-state : (d : Dfu Client F) → Keeps d (announce_boot fx d)
  unfolding announce_boot start_timer
  announce_boot-state d = refl

  update_done_entry-state : (d : Dfu Client F) → Keeps d (update_done_entry fx d)
  unfolding update_done_entry confirm_alone
  update_done_entry-state d = grind (arith, fail-state, announce_boot-state)

  abandon-state : (d : Dfu Client F) → Keeps d (abandon fx d)
  unfolding abandon
  abandon-state d = grind (arith, fail-state)

  confirm-state : (d : Dfu Client F) → Keeps d (confirm fx d)
  unfolding confirm set_pending_state_change stop_timer
  confirm-state d = refl

  update_done_run-state : (d : Dfu Client F) → Keeps d (update_done_run fx d)
  unfolding update_done_run
  update_done_run-state d = grind (
    arith,
    with_body-state d (confirm fx) (confirm-state d),
    retry-state d (announce_boot fx) (abandon fx) announce_boot-state abandon-state,
  )

  pub client_entry-state : (s : State) (d : Dfu Client F) → Keeps d (client_entry fx s d)
  unfolding client_entry reboot_req_entry receiving_entry activating_entry
  client_entry-state client_receiving d = ask_chunk-state _
  client_entry-state client_validating d = validating_entry-state d
  client_entry-state client_reboot_req d = ask_reboot-state _
  client_entry-state client_reboot_done d = update_done_entry-state d
  client_entry-state client_activating d = delay-state d.core 10
  client_entry-state _ d = refl

  pub client_run-state : (s : State) (d : Dfu Client F) → Keeps d (client_run fx s d)
  unfolding client_run
  client_run-state client_receiving d = receiving_run-state d
  client_run-state client_reboot_req d = reboot_req_run-state d
  client_run-state client_reboot_done d = update_done_run-state d
  client_run-state _ d = refl

  -- The client as the machine's roles writes nowhere the state of the core.
  pub client_roles-Encapsulated : Encapsulated fx (client_roles fx)
  unfolding client_roles
  client_roles-Encapsulated = record {
    entry_state = client_entry-state;
    run_state = client_run-state;
    exit_state = λ s d. refl;
    request_state = request-state;
  }
