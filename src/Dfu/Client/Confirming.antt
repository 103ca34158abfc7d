-- ===== src/Dfu/Client/Confirming.antt =====
-- The states of dfu_client.rs behind the transfer: the check of the image, the reboot and the
-- confirmation of the new image.
use bristlemouth_rs.Common.{ℕ, Bool, true, none, some, not, ◌==◌, if◌then◌else◌}
use bristlemouth_rs.Dfu.Message.{reboot_req, boot_complete}
use bristlemouth_rs.Dfu.Event.{
  idle, client_reboot_req, client_activating, chunk_timeout, reboot_received, update_ended, body,
  chunk_timer, err_none, err_mismatch_len, err_bad_crc, err_wrong_ver, err_confirmation_abort,
}
use bristlemouth_rs.Dfu.Event.Reboot.{no_reboot_info}
use bristlemouth_rs.Dfu.Core.{
  set_pending_state_change, start_timer, stop_timer, address_to, update_end_message,
}
use bristlemouth_rs.Dfu.Machine.{Dfu, Effects}
use bristlemouth_rs.Dfu.Client.{
  Client, dfu_confirm_key, client_abort, client_to_error, fail_update_and_reboot, send_message,
}
use bristlemouth_rs.Dfu.Client.Receiving.{retry, time_out}

module _ {F : Type 0} where
  -- What a state does with a message, if the event carries one.
  unfoldable pub with_body : Dfu Client F → (Dfu Client F → Dfu Client F) → Dfu Client F
  with_body d act = elim (body d.core.current.content) [ none ↦ d | some bytes ↦ act d ]

  unfoldable pub activate : Dfu Client F → Dfu Client F
  activate d = record d {
    core = set_pending_state_change (stop_timer d.core chunk_timer) client_activating;
  }

module _ {F : Type 0} (fx : Effects F) where
  -- `core.update_end`.
  abbrev pub end_update : Dfu Client F → ℕ → ℕ → ℕ → Dfu Client F
  end_update d host success e = send_message fx d (update_end_message d.core host success e)

  unfoldable pub reject_image : Dfu Client F → ℕ → Dfu Client F
  reject_image d e = client_to_error (end_update d d.roles.host_node_id 0 e) e

  unfoldable pub validating_entry : Dfu Client F → Dfu Client F
  validating_entry d =
      if not (d.roles.image_size == d.roles.flash_offset)
      then reject_image d err_mismatch_len
      else if d.roles.crc16 == d.roles.running_crc16
      then record d { core = set_pending_state_change d.core client_reboot_req }
      else reject_image d err_bad_crc

  unfoldable pub ask_reboot : Dfu Client F → Dfu Client F
  ask_reboot d =
      let asked = send_message fx d (reboot_req (address_to d.core d.roles.host_node_id)) in
      record asked { core = start_timer asked.core chunk_timer }

  unfoldable pub reboot_req_entry : Dfu Client F → Dfu Client F
  reboot_req_entry d = ask_reboot (record d { roles = record (d.roles) { chunk_retry_num = 0 } })

  unfoldable pub reboot_req_run : Dfu Client F → Dfu Client F
  reboot_req_run d = elim d.core.current.kind [
    | reboot_received ↦ with_body d activate
    | chunk_timeout ↦ retry d ask_reboot (time_out fx)
    | _ ↦ d
  ]

  -- Anything but 1 switches the host's confirmation off; a number that cannot be read does not.
  unfoldable pub confirm_is_enabled : F → Bool
  confirm_is_enabled f = elim (fx.config_uint dfu_confirm_key f) [
    | none ↦ true
    | some value ↦ value == 1
  ]

  unfoldable pub confirm_enable : F → Bool → F
  confirm_enable f enable =
      (fx.commit_config (fx.set_config_uint dfu_confirm_key (if enable then 1 else 0) f).0).0

  unfoldable pub announce_boot : Dfu Client F → Dfu Client F
  announce_boot d =
      let asked =
        send_message fx d (boot_complete (address_to d.core d.core.reboot_info.host_node_id)) in
      record asked { core = start_timer asked.core chunk_timer }

  -- Confirmed without the host.
  unfoldable pub confirm_alone : Dfu Client F → Dfu Client F
  confirm_alone d = record d {
    core = record (d.core) { reboot_info = no_reboot_info };
    effects = confirm_enable (fx.set_confirmed d.effects) true;
  }

  unfoldable pub update_done_entry : Dfu Client F → Dfu Client F
  update_done_entry d =
      let info = d.core.reboot_info in
      let entered = record d {
        roles = record (d.roles) { host_node_id = info.host_node_id; chunk_retry_num = 0 };
      } in
      if not (fx.git_sha entered.effects == info.git_sha)
      then fail_update_and_reboot fx (end_update entered info.host_node_id 0 err_wrong_ver)
      else if confirm_is_enabled entered.effects
      then announce_boot entered
      else confirm_alone entered

  -- The host's answer to the announcement.
  unfoldable pub confirm : Dfu Client F → Dfu Client F
  confirm d =
      let confirmed = record d {
        core = stop_timer d.core chunk_timer;
        effects = fx.set_confirmed d.effects;
      } in
      let told = end_update confirmed confirmed.core.reboot_info.host_node_id 1 err_none in
      record told { core = set_pending_state_change told.core idle }

  unfoldable pub abandon : Dfu Client F → Dfu Client F
  abandon d = fail_update_and_reboot fx (client_abort fx d err_confirmation_abort)

  unfoldable pub update_done_run : Dfu Client F → Dfu Client F
  update_done_run d = elim d.core.current.kind [
    | update_ended ↦ with_body d confirm
    | chunk_timeout ↦ retry d announce_boot abandon
    | _ ↦ d
  ]
