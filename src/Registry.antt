-- ===== src/Registry.antt =====
-- bm-wire/src/bcmp/registry.rs: the message types that a node handles and the requests that it waits
-- for. The two arrays are the lists of their used elements, and their lengths are fields.
pub mod Sweep
pub mod Tick
pub mod Replies
pub mod Invariant
pub mod Reachable
pub mod Members
pub mod Unanswered
use bristlemouth_rs.Common.{
  ℕ, zero, suc, ◌+◌, ◌*◌, ◌/◌, ◌%◌, ◌^◌, Bool, true, false, not, ◌&&◌, Option, none, some, List, [],
  ◌∷◌, ◌++◌, ltb, leb, ◌==◌, if◌then◌else◌, length, get_or, set, find, position, remove_at, Result,
  ok, err,
}
use mathlib.Core.Option
use bristlemouth_rs.Util.Time.{wrapping_sub}

abbrev pub default_message_timeout_ms : ℕ
default_message_timeout_ms = 24

abbrev pub message_timer_expiry_period_ms : ℕ
message_timer_expiry_period_ms = 150

abbrev pub packet_retry_count : ℕ
packet_retry_count = 3

pub record PacketCfg : Type 0 where
  pub sequenced_reply : Bool
  pub sequenced_request : Bool

pub record PendingRequest : Type 0 where
  pub message_type : ℕ
  pub seq_num : ℕ
  pub timestamp_ms : ℕ
  pub timeout_ms : ℕ
  pub retries : ℕ

-- What an array holds behind its used elements.
abbrev pub no_request : PendingRequest
no_request = record { message_type = 0; seq_num = 0; timestamp_ms = 0; timeout_ms = 0; retries = 0 }

unfoldable pub expired_at : PendingRequest → ℕ → Bool
expired_at r now_ms = leb r.timeout_ms (wrapping_sub now_ms r.timestamp_ms)

pub data Expiry : Type 0 where
  retry timed_out : PendingRequest → Expiry

pub data RegistryError : Type 0 where
  unknown_type full : RegistryError

pub record Outgoing : Type 0 where
  pub seq_num : ℕ
  pub tracked : Bool

pub data Delivery : Type 0 where
  unregistered : Delivery
  sequenced_reply : PendingRequest → Delivery
  process : Delivery

-- `type_slots` and `pending_slots` are TYPES and PENDING.
pub record Registry : Type 0 where
  pub type_slots : ℕ
  pub pending_slots : ℕ
  pub types : List (ℕ × PacketCfg)
  pub pending : List PendingRequest
  pub message_count : ℕ
  pub next_sweep_ms : ℕ

unfoldable pub resuming : ℕ → ℕ → ℕ → ℕ → Registry
resuming type_slots pending_slots sequence_count next_sweep_ms = record {
  type_slots = type_slots;
  pending_slots = pending_slots;
  types = [];
  pending = [];
  message_count = sequence_count;
  next_sweep_ms = next_sweep_ms;
}

unfoldable pub started_at : ℕ → ℕ → ℕ → Registry
unfolding resuming
started_at type_slots pending_slots now_ms =
    resuming type_slots pending_slots 0 ((now_ms + message_timer_expiry_period_ms) % 2 ^ 32)

unfoldable pub add : Registry → ℕ → PacketCfg → Result RegistryError Registry
add g message_type cfg =
    if length g.types == g.type_slots
    then err full
    else ok (record g { types = g.types ++ ((message_type, cfg) ∷ []) })

abbrev pub is_type : ℕ → ℕ × PacketCfg → Bool
is_type message_type entry = entry.0 == message_type

unfoldable pub remove : Registry → ℕ → Registry × Bool
remove g message_type = elim (position (is_type message_type) g.types) [
  | none ↦ (g, false)
  | some index ↦ (record g { types = remove_at index g.types }, true)
]

unfoldable pub cfg : Registry → ℕ → Option PacketCfg
cfg g message_type = Option.map (λ e. e.1) (find (is_type message_type) g.types)

-- The request that a message starts, if it is recorded.
abbrev pub new_request : ℕ → ℕ → ℕ → PendingRequest
new_request now_ms message_type seq_num = record {
  message_type = message_type;
  seq_num = seq_num;
  timestamp_ms = now_ms;
  timeout_ms = default_message_timeout_ms;
  retries = 0;
}

-- A request takes the next number, recorded or not.
unfoldable pub allocate : Registry → ℕ → ℕ → Registry × Outgoing
allocate g now_ms message_type =
    let counted = record g { message_count = (g.message_count + 1) % 2 ^ 32 } in
    if ltb (length g.pending) g.pending_slots
    then (
      record counted {
        pending = g.pending ++ (new_request now_ms message_type g.message_count ∷ []);
      },
      record { seq_num = g.message_count; tracked = true },
    )
    else (counted, record { seq_num = g.message_count; tracked = false })

-- `on_serialize` with the configuration that it found.
unfoldable pub serialize_as :
    Option PacketCfg → Registry → ℕ → ℕ → ℕ → Registry × Result RegistryError Outgoing
unfolding allocate
serialize_as none g now_ms message_type reply_seq_num = (g, err unknown_type)
serialize_as (some c) g now_ms message_type reply_seq_num =
    if c.sequenced_reply
    then (g, ok (record { seq_num = reply_seq_num; tracked = false }))
    else if c.sequenced_request
    then ((allocate g now_ms message_type).0, ok (allocate g now_ms message_type).1)
    else (g, ok (record { seq_num = 0; tracked = false }))

unfoldable pub on_serialize : Registry → ℕ → ℕ → ℕ → Registry × Result RegistryError Outgoing
unfolding serialize_as
on_serialize g now_ms message_type reply_seq_num =
    serialize_as (cfg g message_type) g now_ms message_type reply_seq_num

abbrev pub is_seq : ℕ → PendingRequest → Bool
is_seq seq_num r = r.seq_num == seq_num

unfoldable pub remove_pending : Registry → ℕ → Registry
remove_pending g index = record g { pending = remove_at index g.pending }

-- With the place of the request that has the number, if there is one.
abbrev pub answer_at : Option ℕ → Registry → Registry × Delivery
answer_at none g = (g, process)
answer_at (some index) g =
    (remove_pending g index, sequenced_reply (get_or g.pending index no_request))

unfoldable pub answer : Registry → ℕ → Registry × Delivery
unfolding remove_pending
answer g seq_num = answer_at (position (is_seq seq_num) g.pending) g

unfoldable pub receive_as : Option PacketCfg → Registry → ℕ → Registry × Delivery
unfolding answer
receive_as none g seq_num = (g, unregistered)
receive_as (some c) g seq_num =
    if c.sequenced_reply && not c.sequenced_request then answer g seq_num else (g, process)

unfoldable pub on_received : Registry → ℕ → ℕ → Registry × Delivery
unfolding receive_as
on_received g message_type seq_num = receive_as (cfg g message_type) g seq_num

-- The request sent again.
abbrev pub resent : ℕ → PendingRequest → PendingRequest
resent now_ms r = record r { retries = r.retries + 1; timestamp_ms = now_ms }

-- One round of the loop of `sweep`: the index, the requests and the reports so far.
unfoldable pub sweep_round :
    ℕ → ℕ → List PendingRequest → List Expiry → ℕ × List PendingRequest × List Expiry
unfolding expired_at
sweep_round now_ms index pending reports =
    let r = get_or pending index no_request in
    if expired_at r now_ms
    then if ltb r.retries packet_retry_count
      then (
        index + 1,
        set pending index (resent now_ms r),
        reports ++ (retry (resent now_ms r) ∷ []),
      )
      else (index, remove_at index pending, reports ++ (timed_out r ∷ []))
    else (index + 1, pending, reports)

unfoldable pub sweep_loop :
    ℕ → ℕ → ℕ → List PendingRequest → List Expiry → List PendingRequest × List Expiry
unfolding sweep_round
sweep_loop zero now_ms index pending reports = (pending, reports)
sweep_loop (suc fuel) now_ms index pending reports =
    let next = sweep_round now_ms index pending reports in
    let rest = sweep_loop fuel now_ms next.0 next.1 next.2 in
    if ltb index (length pending) then rest else (pending, reports)

-- Each round passes a request or removes one, so there are as many as requests.
unfoldable pub sweep : Registry → ℕ → Registry × List Expiry
unfolding sweep_loop
sweep g now_ms =
    let (pending, reports) = sweep_loop (length g.pending) now_ms 0 g.pending [] in
    (record g { pending = pending }, reports)

-- The sweep after `now_ms`, by whole periods.
unfoldable pub next_sweep : Registry → ℕ → ℕ
next_sweep g now_ms =
    let missed = wrapping_sub now_ms g.next_sweep_ms / message_timer_expiry_period_ms in
    (g.next_sweep_ms + message_timer_expiry_period_ms * ((missed + 1) % 2 ^ 32) % 2 ^ 32) % 2 ^ 32

-- The reports are those that the closure is called with.
unfoldable pub on_tick : Registry → ℕ → Registry × List Expiry
unfolding sweep next_sweep
on_tick g now_ms =
    if leb (2 ^ 31) (wrapping_sub now_ms g.next_sweep_ms)
    then (g, [])
    else sweep (record g { next_sweep_ms = next_sweep g now_ms }) now_ms
