-- ===== src/Neighbor.antt =====
-- bm-wire/src/neighbor.rs: the neighbour table. The first `len` entries of the array are a list,
-- in table order; the rest of the array is never read.
pub mod Lookup
pub mod Invariant
pub mod Capacity
pub mod Liveness
use bristlemouth_rs.Common.{
  ℕ, suc, ◌+◌, ◌*◌, ◌%◌, ◌<◌, Bool, true, false, not, ◌&&◌, ◌||◌, Option, none, some, List, [], ◌∷◌,
  ◌++◌, ltb, ◌==◌, if◌then◌else◌, length, get_or, set, position, find, remove_at,
}
use bristlemouth_rs.Util.Time.{u32_mod, time_remaining}

-- bm-wire/src/bcmp/heartbeat.rs.
pub record Heartbeat : Type 0 where
  pub time_since_boot_us : ℕ
  pub liveliness_lease_dur_s : ℕ

pub record Neighbor : Type 0 where
  pub node_id : ℕ
  pub port : ℕ
  pub last_heartbeat_ms : ℕ
  pub last_time_since_boot_us : ℕ
  pub heartbeat_period_s : ℕ
  pub online : Bool

-- `Neighbor::default()`, with the node and the port of a new entry.
abbrev pub new_neighbor : ℕ → ℕ → Neighbor
new_neighbor node_id port = record {
  node_id = node_id;
  port = port;
  last_heartbeat_ms = 0;
  last_time_since_boot_us = 0;
  heartbeat_period_s = 0;
  online = false;
}

unfoldable pub lease_ms : Neighbor → ℕ
lease_ms n = (n.heartbeat_period_s * 2 % u32_mod) * 1000 % u32_mod

pub record HeartbeatOutcome : Type 0 where
  pub added : Bool
  pub evicted : Option ℕ
  pub discovery_callbacks : ℕ
  pub reset : Bool
  pub request_info : Bool
  pub table_full : Bool

abbrev pub no_outcome : HeartbeatOutcome
no_outcome = record {
  added = false;
  evicted = none;
  discovery_callbacks = 0;
  reset = false;
  request_info = false;
  table_full = false;
}

-- `capacity` is the array's length.
pub record NeighborTable : Type 0 where
  pub capacity : ℕ
  pub entries : List Neighbor

unfoldable pub empty : ℕ → NeighborTable
empty capacity = record { capacity = capacity; entries = [] }

abbrev pub has_id : ℕ → Neighbor → Bool
has_id node_id n = n.node_id == node_id

abbrev pub has_port : ℕ → Neighbor → Bool
has_port port n = n.port == port

-- A node id of 0 never matches.
unfoldable pub find_neighbor : NeighborTable → ℕ → Option Neighbor
find_neighbor t node_id = if node_id == 0 then none else find (has_id node_id) t.entries

unfoldable pub position_of : NeighborTable → ℕ → Option ℕ
position_of t node_id = if node_id == 0 then none else position (has_id node_id) t.entries

unfoldable pub remove : NeighborTable → ℕ → NeighborTable
remove t index = record t { entries = remove_at index t.entries }

-- The occupant of the ingress port goes.
unfoldable pub evict : NeighborTable → ℕ → NeighborTable × Option ℕ
evict t ingress_port = elim (position (has_port ingress_port) t.entries) [
  | none ↦ (t, none)
  | some occupant ↦ (remove t occupant, some (get_or t.entries occupant (new_neighbor 0 0)).node_id)
]

-- The entry after a heartbeat.
unfoldable pub heard : Neighbor → ℕ → Heartbeat → Neighbor
heard n now_ms hb = record n {
  last_time_since_boot_us = hb.time_since_boot_us;
  heartbeat_period_s = hb.liveliness_lease_dur_s;
  last_heartbeat_ms = now_ms;
  online = true;
}

-- The uptime went backwards.
abbrev pub restarted : Neighbor → Heartbeat → Bool
restarted n hb = ltb hb.time_since_boot_us n.last_time_since_boot_us

-- The part of `on_heartbeat` behind the `match`, on the entry at `index`.
unfoldable pub refresh :
    NeighborTable → ℕ → HeartbeatOutcome → ℕ → Heartbeat → NeighborTable × HeartbeatOutcome
unfolding heard
refresh t index o now_ms hb =
    let n = get_or t.entries index (new_neighbor 0 0) in
    let reset = restarted n hb in
    (
      record t { entries = set t.entries index (heard n now_ms hb) },
      record o {
        reset = reset;
        discovery_callbacks =
            if not n.online || reset then o.discovery_callbacks + 1 else o.discovery_callbacks;
        request_info = if reset then true else o.request_info;
      },
    )

-- The `None` arm of the `match`: room is made, and a new entry goes behind the others.
unfoldable pub admit :
    NeighborTable → Option ℕ → ℕ → ℕ → ℕ → Heartbeat → NeighborTable × HeartbeatOutcome
admit t evicted now_ms node_id ingress_port hb =
    if length t.entries == t.capacity
    then (t, record no_outcome { evicted = evicted; table_full = true })
    else refresh (record t { entries = t.entries ++ (new_neighbor node_id ingress_port ∷ []) })
        (length t.entries)
        (record no_outcome {
          evicted = evicted;
          added = true;
          discovery_callbacks = 1;
          request_info = true;
        })
        now_ms hb

unfoldable pub on_heartbeat :
    NeighborTable → ℕ → ℕ → ℕ → Heartbeat → NeighborTable × HeartbeatOutcome
on_heartbeat t now_ms node_id ingress_port hb = elim (position_of t node_id) [
  | some index ↦ refresh t index no_outcome now_ms hb
  | none ↦
      let (t', evicted) = evict t ingress_port in admit t' evicted now_ms node_id ingress_port hb
]

-- The test of `check` on one entry.
unfoldable pub is_lapsed : ℕ → Neighbor → Bool
is_lapsed now_ms n = n.online && time_remaining n.last_heartbeat_ms now_ms (lease_ms n) == 0

-- The entries after `check`, and those that `went_offline` was called with, in order.
unfoldable pub check_entries : ℕ → List Neighbor → List Neighbor × List Neighbor
check_entries now_ms [] = ([], [])
check_entries now_ms (n ∷ ns) =
    let (rest, gone) = check_entries now_ms ns in
    let off = record n { online = false } in
    if is_lapsed now_ms n then (off ∷ rest, off ∷ gone) else (n ∷ rest, gone)

unfoldable pub check : NeighborTable → ℕ → NeighborTable × List Neighbor
check t now_ms =
    let (entries, gone) = check_entries now_ms t.entries in (record t { entries = entries }, gone)

unfoldable pub heartbeat_for : ℕ → ℕ → Heartbeat
heartbeat_for uptime_ms lease_duration_s = record {
  time_since_boot_us = uptime_ms * 1000;
  liveliness_lease_dur_s = lease_duration_s;
}
