-- ===== src/Dfu/Queue.antt =====
-- `EventQueue` of bm-wire/src/bcmp/dfu_core.rs: a ring of five slots.
pub mod Fifo
use bristlemouth_rs.Common.{
  ℕ, zero, suc, ◌+◌, ◌-◌, ◌%◌, Bool, true, false, Option, none, some, List, [], ◌∷◌, ◌==◌,
  if◌then◌else◌, get_or, set, replicate,
}
use bristlemouth_rs.Dfu.Event.{Event, none_event}

abbrev pub event_queue_len : ℕ
event_queue_len = 5

pub record EventQueue : Type 0 where
  pub slots : List Event
  pub head : ℕ
  pub len : ℕ

unfoldable pub new_queue : EventQueue
new_queue = record { slots = replicate event_queue_len none_event; head = 0; len = 0 }

unfoldable pub push : EventQueue → Event → EventQueue × Bool
push q event = if q.len == event_queue_len then (q, false) else (
  record q { slots = set q.slots ((q.head + q.len) % event_queue_len) event; len = q.len + 1 },
  true,
)

unfoldable pub pop : EventQueue → EventQueue × Option Event
pop q = if q.len == 0 then (q, none) else (
  record {
    slots = set q.slots q.head none_event;
    head = (q.head + 1) % event_queue_len;
    len = q.len - 1;
  },
  some (get_or q.slots q.head none_event),
)

-- `count` events from the `from`-th waiting one on.
unfoldable pub iter_from : List Event → ℕ → ℕ → ℕ → List Event
iter_from slots head from zero = []
iter_from slots head from (suc count) =
    get_or slots ((head + from) % event_queue_len) none_event
    ∷ iter_from slots head (from + 1) count

-- The waiting events, oldest first.
unfoldable pub iter : EventQueue → List Event
iter q = iter_from q.slots q.head 0 q.len
