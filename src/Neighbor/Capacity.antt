-- ===== src/Neighbor/Capacity.antt =====
-- A table with an entry for each port of the device is never full.
use bristlemouth_rs.Common.{
  ℕ, ◌+◌, ◌≤◌, ◌<◌, ◌≡◌, ◌≢◌, false, List, [], ◌∷◌, ◌++◌, arith, length, All, All-append,
  Apart-snoc, Apart, KeysDiffer, length-le-keys, length-append,
}
use bristlemouth_rs.Neighbor.{
  Neighbor, NeighborTable, Heartbeat, new_neighbor, remove, evict, refresh, admit, on_heartbeat,
}
use bristlemouth_rs.Neighbor.Invariant.{IsValid, port_of, evict-IsValid, All-evict}

-- Every entry's port is one of the device's ports, 1 to `num_ports`.
abbrev pub IsPort : ℕ → ℕ → Type 0
IsPort num_ports p = (1 ≤ p) × (p < 1 + num_ports)

abbrev pub HasPorts : ℕ → NeighborTable → Type 0
HasPorts num_ports t = All (λ n. IsPort num_ports n.port) t.entries

-- Entries on distinct ports, with one port to spare.
length-lt-ports :
    (num_ports p : ℕ) (ns : List Neighbor)
    → IsPort num_ports p
    → All (λ n. IsPort num_ports n.port) ns
    → Apart (KeysDiffer port_of) ns
    → All (λ n. n.port ≢ p) ns
    → length ns < num_ports
length-lt-ports num_ports p ns h all a free = omega (
  arith,
  length-append ns (new_neighbor 0 p ∷ []),
  length-le-keys port_of 1 num_ports (ns ++ (new_neighbor 0 p ∷ []))
      (Apart-snoc (KeysDiffer port_of) ns (new_neighbor 0 p) a free)
      (All-append _ ns (new_neighbor 0 p ∷ []) all (h, tt)),
)

evict-capacity : (t : NeighborTable) (p : ℕ) → (evict t p).0.capacity ≡ t.capacity
unfolding evict remove
evict-capacity t p = ground arith

-- A valid table whose entries all have ports of the device, and which holds at least as many
-- entries as the device has ports, is not reported full: a heartbeat on any of the ports finds
-- room, since eviction frees its port first.
pub on_heartbeat_room :
    (t : NeighborTable) (num_ports now id p : ℕ) (hb : Heartbeat)
    → IsValid t
    → HasPorts num_ports t
    → IsPort num_ports p
    → num_ports ≤ t.capacity
    → (on_heartbeat t now id p hb).1.table_full ≡ false
unfolding on_heartbeat refresh admit
on_heartbeat_room t num_ports now id p hb v ports h cap =
    let (v', free) = evict-IsValid t p v in
    ground (
      arith,
      evict-capacity t p,
      length-lt-ports num_ports p (evict t p).0.entries h (All-evict _ t p ports) v'.ports free,
    )
