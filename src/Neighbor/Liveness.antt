-- ===== src/Neighbor/Liveness.antt =====
-- Who goes offline, and what heartbeats announce.
use bristlemouth_rs.Common.{
  ℕ, ◌+◌, ◌*◌, ◌%◌, ◌^◌, ◌≤◌, ◌<◌, ◌≡◌, refl, inl, inr, true, false, Option, none, some, List, [],
  ◌∷◌, arith, get_or, Option-cases, not, ◌||◌, find, position_none→find_none, position_some→find,
  get_or-position, ltb, if◌then◌else◌, get_or-append_length,
}
use mathlib.Core.Option
use bristlemouth_rs.Util.Time.{u32_mod, time_remaining_elapsed}
use bristlemouth_rs.Neighbor.{
  Neighbor, NeighborTable, Heartbeat, new_neighbor, has_id, find_neighbor, position_of, evict,
  refresh, admit, on_heartbeat, lease_ms, is_lapsed, check_entries, check, restarted,
}

position_of-ne-none :
    (t : NeighborTable) (id i : ℕ) → find_neighbor t id ≡ none → position_of t id ≡ some i → ⊥
unfolding find_neighbor position_of
position_of-ne-none t id i e f = ground (arith, position_some→find (has_id id) t.entries i)

position_of-none-ne-some :
    (t : NeighborTable) (id : ℕ) (n : Neighbor)
    → position_of t id ≡ none
    → find_neighbor t id ≡ some n
    → ⊥
unfolding find_neighbor position_of
position_of-none-ne-some t id n f e = ground (arith, position_none→find_none (has_id id) t.entries)

position_of-get_or :
    (t : NeighborTable) (id i : ℕ) (n : Neighbor)
    → find_neighbor t id ≡ some n
    → position_of t id ≡ some i
    → get_or t.entries i (new_neighbor 0 0) ≡ n
unfolding find_neighbor position_of
position_of-get_or t id i n e f =
    ground (arith, get_or-position (has_id id) t.entries i n (new_neighbor 0 0))

-- The entry that `check` leaves for `n`.
abbrev pub checked : ℕ → Neighbor → Neighbor
checked now n = if is_lapsed now n then record n { online = false } else n

find-check_entries :
    (now id : ℕ) (ns : List Neighbor)
    → find (has_id id) (check_entries now ns).0 ≡ Option.map (checked now) (find (has_id id) ns)
unfolding check_entries find
find-check_entries now id [] = refl
find-check_entries now id (n ∷ ns) = ground (arith, find-check_entries now id ns)

-- A lookup after `check` finds the entry that it found before, taken offline if its lease ran out
-- and unchanged if not: no entry is removed.
pub find_neighbor-check :
    (t : NeighborTable) (now id : ℕ)
    → find_neighbor (check t now).0 id ≡ Option.map (checked now) (find_neighbor t id)
unfolding check find_neighbor
find_neighbor-check t now id = ground (arith, find-check_entries now id t.entries)

-- A second check at the same time reports nobody.
lapsed-checked :
    (now : ℕ) (ns : List Neighbor) → (check_entries now (check_entries now ns).0).1 ≡ []
unfolding check_entries is_lapsed
lapsed-checked now [] = refl
lapsed-checked now (n ∷ ns) = ground (arith, lapsed-checked now ns)

-- A neighbour is reported lost once: a second `check` at the same time calls nobody.
pub check-check : (t : NeighborTable) (now : ℕ) → (check (check t now).0 now).1 ≡ []
unfolding check
check-check t now = lapsed-checked now t.entries

-- An online neighbour whose doubled lease in milliseconds is below 2 ^ 31 stays online while less
-- than two lease periods have passed since its last heartbeat, and lapses from then on, on a clock
-- that wraps, up to 2 ^ 31 milliseconds after it.
pub is_lapsed_elapsed :
    (n : Neighbor) (elapsed : ℕ)
    → n.online ≡ true
    → n.last_heartbeat_ms < u32_mod
    → elapsed ≤ 2 ^ 31
    → n.heartbeat_period_s * 2000 < 2 ^ 31
    → is_lapsed ((n.last_heartbeat_ms + elapsed) % u32_mod) n
      ≡ not (ltb elapsed (n.heartbeat_period_s * 2000))
unfolding is_lapsed lease_ms
is_lapsed_elapsed n elapsed on hs he hp =
    ground (arith, time_remaining_elapsed n.last_heartbeat_ms elapsed (n.heartbeat_period_s * 2000))

admit_announces :
    (t : NeighborTable) (evicted : Option ℕ) (now id p : ℕ) (hb : Heartbeat)
    → (admit t evicted now id p hb).1.table_full ≡ false
    → ((admit t evicted now id p hb).1.discovery_callbacks ≡ 2)
      × ((admit t evicted now id p hb).1.request_info ≡ true)
      × ((admit t evicted now id p hb).1.added ≡ true)
unfolding admit refresh
admit_announces t evicted now id p hb h =
    ground (arith, get_or-append_length t.entries (new_neighbor id p) (new_neighbor 0 0))

-- A sender that the table does not know, and for which there is room, is added, announced twice and
-- asked for its info. A sender with the id 0 is unknown every time.
pub on_heartbeat_unknown :
    (t : NeighborTable) (now id p : ℕ) (hb : Heartbeat)
    → find_neighbor t id ≡ none
    → (on_heartbeat t now id p hb).1.table_full ≡ false
    → ((on_heartbeat t now id p hb).1.discovery_callbacks ≡ 2)
      × ((on_heartbeat t now id p hb).1.request_info ≡ true)
      × ((on_heartbeat t now id p hb).1.added ≡ true)
unfolding on_heartbeat
on_heartbeat_unknown t now id p hb e room = elim (Option-cases (position_of t id)) [
  | inl f ↦
      rw (f, on_heartbeat)
        (admit_announces (evict t p).0 (evict t p).1 now id p hb (rw (f, on_heartbeat) at room))
  | inr (i, f) ↦ absurd (known i f)
]
  where
    known : (i : ℕ) → position_of t id ≡ some i → ⊥
    known i f = position_of-ne-none t id i e f

-- A known sender is announced once if it was offline or restarted, and asked for its info if it
-- restarted, which an uptime below the last one shows. Nothing is added or evicted.
pub on_heartbeat_known :
    (t : NeighborTable) (now id p : ℕ) (hb : Heartbeat) (n : Neighbor)
    → find_neighbor t id ≡ some n
    → (on_heartbeat t now id p hb).1 ≡ record {
      added = false;
      evicted = none;
      discovery_callbacks = if not n.online || restarted n hb then 1 else 0;
      reset = restarted n hb;
      request_info = restarted n hb;
      table_full = false;
    }
unfolding on_heartbeat refresh
on_heartbeat_known t now id p hb n e = elim (Option-cases (position_of t id)) [
  | inl f ↦ absurd (position_of-none-ne-some t id n f e)
  | inr (i, f) ↦ rw (f, on_heartbeat) (rw (position_of-get_or t id i n e f) (ground arith))
]
