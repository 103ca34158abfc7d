-- ===== src/Dfu/Client/States.antt =====
-- The client by state: `Client::entry`, `Client::run` and its implementation of the trait `Roles`.
use bristlemouth_rs.Common.{false}
use bristlemouth_rs.Dfu.Event.{
  State, client_receiving, client_validating, client_reboot_req, client_reboot_done,
  client_activating,
}
use bristlemouth_rs.Dfu.Core.{delay}
use bristlemouth_rs.Dfu.Machine.{Dfu, Effects, Roles}
use bristlemouth_rs.Dfu.Client.{Client, host_node_valid, process_update_request}
use bristlemouth_rs.Dfu.Client.Receiving.{receiving_entry, receiving_run}
use bristlemouth_rs.Dfu.Client.Confirming.{
  validating_entry, reboot_req_entry, reboot_req_run, update_done_entry, update_done_run,
}

module _ {F : Type 0} (fx : Effects F) where
  -- "so DFU_END can get out" first.
  unfoldable pub activating_entry : Dfu Client F → Dfu Client F
  activating_entry d = record d {
    core = delay d.core 10;
    effects = fx.set_pending_and_reset d.effects;
  }

  unfoldable pub client_entry : State → Dfu Client F → Dfu Client F
  client_entry client_receiving d = receiving_entry fx d
  client_entry client_validating d = validating_entry fx d
  client_entry client_reboot_req d = reboot_req_entry fx d
  client_entry client_reboot_done d = update_done_entry fx d
  client_entry client_activating d = activating_entry d
  client_entry _ d = d

  unfoldable pub client_run : State → Dfu Client F → Dfu Client F
  client_run client_receiving d = receiving_run fx d
  client_run client_reboot_req d = reboot_req_run fx d
  client_run client_reboot_done d = update_done_run fx d
  client_run _ d = d

  -- A node that is a client only.
  unfoldable pub client_roles : Roles Client F
  client_roles = record {
    entry = client_entry;
    run = client_run;
    exit = λ s d. d;
    client_process_update_request = process_update_request fx;
    host_set_params = λ notify timeout_ms c. c;
    client_host_node_valid = host_node_valid;
    host_client_node_valid = λ c node_id. false;
  }
