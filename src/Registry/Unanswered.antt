-- ===== src/Registry/Unanswered.antt =====
-- What becomes of one request among others when no reply to it comes.
use mathlib.Core.List.{Memᴰ}
use mathlib.Core.List.Memᴰ
use bristlemouth_rs.Common.{ℕ, ◌^◌, ◌<◌, ◌≤◌, ◌≡◌, ◌≢◌, ◌⊎◌, false, List}
use bristlemouth_rs.Util.Time.{wrapping_sub}
use bristlemouth_rs.Registry.{PendingRequest, Registry, expired_at, new_request}
use bristlemouth_rs.Registry.Reachable.{Step, added, removed, serialized, took, ticked}

-- A call that leaves the request as it is: a reply has another number, and a tick comes before the sweep
-- is due or before the request expires.
abbrev pub Leaves : PendingRequest → (g h : Registry) → Step g h → Type 0
Leaves r g h (added _ _ _ _ _) = Unit
Leaves r g h (removed _ _) = Unit
Leaves r g h (serialized _ _ _ _ _) = Unit
Leaves r g h (took _ _ seq_num) = seq_num ≢ r.seq_num
Leaves r g h (ticked _ now_ms) =
    (2 ^ 31 ≤ wrapping_sub now_ms g.next_sweep_ms) ⊎ (expired_at r now_ms ≡ false)

-- Calls that leave a request as it is.
pub data Quiet (r : PendingRequest) (g : Registry) : Registry → Type 0 where
  none_yet : Quiet r g g
  then : (h i : Registry) → Quiet r g h → (s : Step h i) → Leaves r h i s → Quiet r g i

-- The sweep is due at a time when the request has expired.
pub record IsSwept (r : PendingRequest) (g : Registry) (now_ms : ℕ) : Type 0 where
  pub due : wrapping_sub now_ms g.next_sweep_ms < 2 ^ 31
  pub old : r.timeout_ms ≤ wrapping_sub now_ms r.timestamp_ms

-- The request of a type and number, sent first at a time, when it has been sent again `retries` times,
-- the last time at another.
abbrev pub again : ℕ → ℕ → ℕ → ℕ → PendingRequest
again message_type seq_num retries time = record (new_request time message_type seq_num) {
  retries = retries;
}
