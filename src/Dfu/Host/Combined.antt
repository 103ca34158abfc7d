-- ===== src/Dfu/Host/Combined.antt =====
-- `ClientHost` of dfu_host.rs: a node that is both, by the state that the machine is in.
use bristlemouth_rs.Common.{ℕ, ◌≡◌, refl, if◌then◌else◌, arith}
use bristlemouth_rs.Dfu.Event.{
  State, host_req_update, host_update, is_client, EventType, ack_received, ack_timeout, aborted,
  chunk_request, boot_completed, update_ended,
}
use bristlemouth_rs.Dfu.Core.{
  set_pending_state_change, set_error, start_timer, stop_timer, change_period,
}
use bristlemouth_rs.Dfu.Machine.{Dfu, Effects, Roles}
use bristlemouth_rs.Dfu.Machine.Transitions.{Encapsulated}
use bristlemouth_rs.Dfu.Client.{Client, host_node_valid, process_update_request, new_client}
use bristlemouth_rs.Dfu.Client.States.{client_entry, client_run}
use bristlemouth_rs.Dfu.Client.Encapsulation.{client_entry-state, client_run-state, request-state}
use bristlemouth_rs.Dfu.Host.{
  Host, new_host, set_params, client_node_valid, host_exit, host_to_error, request_update,
  req_update_entry, host_entry, acknowledged, retry_request, host_aborted, req_update_on,
  req_update_run, send_read, send_own, send_streamed, send_chunk, finish_update, host_with_body,
  update_on, update_run, host_run,
}

pub record ClientHost : Type 0 where
  pub client : Client
  pub host : Host

unfoldable pub new_client_host : ClientHost
new_client_host = record { client = new_client; host = new_host }

module _ {F : Type 0} where
  -- A call of one of the two with the core and the effects.
  unfoldable pub as_client : (Dfu Client F → Dfu Client F) → Dfu ClientHost F → Dfu ClientHost F
  as_client f d =
      let r = f (record { core = d.core; roles = d.roles.client; effects = d.effects }) in
      record { core = r.core; roles = record (d.roles) { client = r.roles }; effects = r.effects }

  unfoldable pub as_host : (Dfu Host F → Dfu Host F) → Dfu ClientHost F → Dfu ClientHost F
  as_host f d =
      let r = f (record { core = d.core; roles = d.roles.host; effects = d.effects }) in
      record { core = r.core; roles = record (d.roles) { host = r.roles }; effects = r.effects }

module _ {F : Type 0} (fx : Effects F) where
  unfoldable pub both_entry : State → Dfu ClientHost F → Dfu ClientHost F
  both_entry state d =
      if is_client state
      then as_client (client_entry fx state) d
      else as_host (host_entry fx state) d

  unfoldable pub both_run : State → Dfu ClientHost F → Dfu ClientHost F
  both_run state d =
      if is_client state then as_client (client_run fx state) d else as_host (host_run fx state) d

  unfoldable pub both_roles : Roles ClientHost F
  both_roles = record {
    entry = both_entry;
    run = both_run;
    exit = λ s d. record d { roles = record (d.roles) { host = host_exit s d.roles.host } };
    client_process_update_request = as_client (process_update_request fx);
    host_set_params =
        λ notify timeout_ms r. record r { host = set_params notify timeout_ms r.host };
    client_host_node_valid = λ r node_id. host_node_valid r.client node_id;
    host_client_node_valid = λ r node_id. client_node_valid r.host node_id;
  }

  -- A function on the host, the core and the effects that does not change the state.
  abbrev Keeps : Dfu Host F → Dfu Host F → Type 0
  Keeps d d' = d'.core.state ≡ d.core.state

  to_error-state : (d : Dfu Host F) (e : ℕ) → Keeps d (host_to_error d e)
  unfolding host_to_error set_pending_state_change set_error stop_timer
  to_error-state d e = refl

  host_entry-state : (s : State) (d : Dfu Host F) → Keeps d (host_entry fx s d)
  unfolding host_entry req_update_entry request_update start_timer change_period
  host_entry-state host_req_update d = ground arith
  host_entry-state host_update d = refl
  host_entry-state _ d = refl

  aborted-state : (d : Dfu Host F) → Keeps d (host_aborted d)
  unfolding host_aborted
  aborted-state d = grind (arith, to_error-state)

  retry-state : (d : Dfu Host F) → Keeps d (retry_request fx d)
  unfolding retry_request start_timer
  retry-state d = grind (arith, to_error-state)

  req_update_on-state : (k : EventType) (d : Dfu Host F) → Keeps d (req_update_on fx k d)
  unfolding req_update_on acknowledged set_pending_state_change stop_timer
  req_update_on-state ack_received d = grind (arith, to_error-state)
  req_update_on-state ack_timeout d = retry-state d
  req_update_on-state aborted d = aborted-state d
  req_update_on-state _ d = refl

  send_chunk-state : (d : Dfu Host F) → Keeps d (send_chunk fx d)
  unfolding send_chunk send_own send_streamed send_read
  send_chunk-state d = grind (arith, to_error-state)

  update_on-state : (k : EventType) (d : Dfu Host F) → Keeps d (update_on fx k d)
  unfolding update_on host_with_body finish_update set_pending_state_change stop_timer
  update_on-state chunk_request d = grind (arith, send_chunk-state)
  update_on-state boot_completed d = ground arith
  update_on-state update_ended d = ground arith
  update_on-state aborted d = aborted-state d
  update_on-state _ d = refl

  host_run-state : (s : State) (d : Dfu Host F) → Keeps d (host_run fx s d)
  unfolding host_run req_update_run update_run
  host_run-state host_req_update d = req_update_on-state d.core.current.kind d
  host_run-state host_update d = update_on-state d.core.current.kind d
  host_run-state _ d = refl

  both_entry-state : (s : State) (d : Dfu ClientHost F) → (both_entry s d).core.state ≡ d.core.state
  unfolding both_entry as_client as_host
  both_entry-state s d = grind (arith, client_entry-state fx s, host_entry-state s)

  both_run-state : (s : State) (d : Dfu ClientHost F) → (both_run s d).core.state ≡ d.core.state
  unfolding both_run as_client as_host
  both_run-state s d = grind (arith, client_run-state fx s, host_run-state s)

  -- The client and the host as the machine's roles write nowhere the state of the core.
  pub both_roles-Encapsulated : Encapsulated fx both_roles
  unfolding both_roles as_client
  both_roles-Encapsulated = record {
    entry_state = both_entry-state;
    run_state = both_run-state;
    exit_state = λ s d. refl;
    request_state = λ d. request-state fx _;
  }
