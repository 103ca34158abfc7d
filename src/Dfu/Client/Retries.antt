-- ===== src/Dfu/Client/Retries.antt =====
-- How long a client waits for a host that has gone.
use bristlemouth_rs.Common.{ℕ, zero, suc, ◌+◌, ◌<◌, ◌≡◌, refl, ◌∙◌, some, arith}
use bristlemouth_rs.Dfu.Event.{error, chunk_timeout, err_timeout}
use bristlemouth_rs.Dfu.Core.{set_pending_state_change, set_error, start_timer}
use bristlemouth_rs.Dfu.Machine.{Dfu, Effects}
use bristlemouth_rs.Dfu.Client.{Client, ask_chunk, client_to_error}
use bristlemouth_rs.Dfu.Client.Receiving.{receiving_on, retry, time_out}

module _ {F : Type 0} (fx : Effects F) where
  -- Chunk timeouts with nothing between them.
  abbrev pub timeouts : ℕ → Dfu Client F → Dfu Client F
  timeouts zero d = d
  timeouts (suc n) d = receiving_on fx chunk_timeout (timeouts n d)

  again_lem :
      (d : Dfu Client F) (k : ℕ)
      → d.roles.chunk_retry_num ≡ k
      → k < 4
      → ((receiving_on fx chunk_timeout d).core.pending ≡ d.core.pending)
        × ((receiving_on fx chunk_timeout d).roles.chunk_retry_num ≡ k + 1)
  unfolding receiving_on retry ask_chunk start_timer
  again_lem d k e h = ground arith

  give_up_lem :
      (d : Dfu Client F)
      → d.roles.chunk_retry_num ≡ 4
      → ((receiving_on fx chunk_timeout d).core.pending ≡ some error)
        × ((receiving_on fx chunk_timeout d).core.error ≡ err_timeout)
  unfolding receiving_on retry time_out client_to_error set_pending_state_change set_error
  give_up_lem d e = ground arith

  timeouts_lem :
      (d : Dfu Client F) (n : ℕ)
      → d.roles.chunk_retry_num ≡ 0
      → n < 5
      → ((timeouts n d).core.pending ≡ d.core.pending) × ((timeouts n d).roles.chunk_retry_num ≡ n)
  timeouts_lem d zero e h = (refl, e)
  timeouts_lem d (suc n) e h =
      let (p, q) = timeouts_lem d n e (omega arith) in
      let (p', q') = again_lem (timeouts n d) n q (omega arith) in
      let f : n + 1 ≡ suc n = omega arith in (p' ∙ p, q' ∙ f)

  -- A client that has had no timeout since the last chunk waits through up to four in a row, with the retry
  -- counter at their number; the fifth takes it to the error state, with the timeout's code.
  pub five_timeouts :
      (d : Dfu Client F) (n : ℕ)
      → d.roles.chunk_retry_num ≡ 0
      → n < 5
      → ((timeouts n d).core.pending ≡ d.core.pending)
        × ((timeouts n d).roles.chunk_retry_num ≡ n)
        × ((timeouts 5 d).core.pending ≡ some error)
        × ((timeouts 5 d).core.error ≡ err_timeout)
  five_timeouts d n e h =
      let (p, q) = timeouts_lem d n e h in
      let (r, s) = give_up_lem (timeouts 4 d) (timeouts_lem d 4 e (omega arith)).1 in (p, q, r, s)
