-- ===== src/Neighbor/Lookup.antt =====
-- What a lookup finds after a heartbeat.
use bristlemouth_rs.Common.{
  ℕ, ◌≡◌, ◌≢◌, ◌∙◌, refl, inl, inr, true, false, Option, none, some, [], ◌∷◌, arith, length, get_or,
  set, ◌==◌, ==_iff, Bool-cases, Option-cases, All-map, position, find, find-set-position,
  find-set_ne, find-append, find-append_some, find-remove_at, position_found, set-append_length,
  get_or-append_length, find-All-false, position-none-All,
}
use bristlemouth_rs.Neighbor.{
  Neighbor, NeighborTable, Heartbeat, HeartbeatOutcome, new_neighbor, has_id, has_port,
  find_neighbor, position_of, remove, evict, heard, refresh, admit, on_heartbeat,
}
use bristlemouth_rs.Neighbor.Invariant.{All-evict}

-- The entry of node `id` as a heartbeat `hb` at `now` leaves it.
pub record IsHeard (id now : ℕ) (hb : Heartbeat) (n : Neighbor) : Type 0 where
  pub node : n.node_id ≡ id
  pub alive : n.online ≡ true
  pub at : n.last_heartbeat_ms ≡ now
  pub boot : n.last_time_since_boot_us ≡ hb.time_since_boot_us
  pub lease : n.heartbeat_period_s ≡ hb.liveliness_lease_dur_s

heard-IsHeard :
    (n : Neighbor) (id now : ℕ) (hb : Heartbeat)
    → n.node_id ≡ id
    → IsHeard id now hb (heard n now hb)
unfolding heard
heard-IsHeard n id now hb e = record {
  node = e;
  alive = refl;
  at = refl;
  boot = refl;
  lease = refl;
}

-- `refresh` at the index of the node.
refresh_found :
    (t : NeighborTable) (index : ℕ) (o : HeartbeatOutcome) (now id : ℕ) (hb : Heartbeat)
    → id ≢ 0
    → position (has_id id) t.entries ≡ some index
    → (n : Neighbor) × (find_neighbor (refresh t index o now hb).0 id ≡ some n)
      × IsHeard id now hb n
unfolding refresh find_neighbor
refresh_found t index o now id hb nz e =
    let n = get_or t.entries index (new_neighbor 0 0) in
    let same : n.node_id ≡ id =
      (==_iff n.node_id id).0 (position_found (has_id id) t.entries index (new_neighbor 0 0) e).1 in
    (heard n now hb, ground (arith, find_set n index e same), heard-IsHeard n id now hb same)
  where
    find_set :
        (n : Neighbor) (i : ℕ)
        → position (has_id id) t.entries ≡ some i
        → n.node_id ≡ id
        → find (has_id id) (set t.entries i (heard n now hb)) ≡ some (heard n now hb)
    find_set n i e same =
        find-set-position (has_id id) t.entries i (heard n now hb) e
          ((==_iff (heard n now hb).node_id id).1 (heard-IsHeard n id now hb same).node)

admit_found :
    (t : NeighborTable) (evicted : Option ℕ) (now id p : ℕ) (hb : Heartbeat)
    → id ≢ 0
    → find (has_id id) t.entries ≡ none
    → (admit t evicted now id p hb).1.table_full ≡ false
    → (n : Neighbor) × (find_neighbor (admit t evicted now id p hb).0 id ≡ some n)
      × IsHeard id now hb n
      × (n.port ≡ p)
unfolding admit refresh find_neighbor find heard
admit_found t evicted now id p hb nz fresh room =
    let n = heard (new_neighbor id p) now hb in
    elim (Bool-cases (length t.entries == t.capacity)) [
      | inl full ↦ cc (rw full at room)
      | inr free ↦ rw free (
        n,
        rw
            (
              get_or-append_length t.entries (new_neighbor id p) (new_neighbor 0 0),
              set-append_length t.entries (new_neighbor id p) n,
            )
            (ground (arith, find-append (has_id id) t.entries (n ∷ []))),
        heard-IsHeard (new_neighbor id p) id now hb refl,
        refl,
      )
    ]

-- The lookup of `on_heartbeat` failing, no entry that eviction leaves has the node's id.
evict-find-none :
    (t : NeighborTable) (id p : ℕ)
    → id ≢ 0
    → position_of t id ≡ none
    → find (has_id id) (evict t p).0.entries ≡ none
unfolding position_of
evict-find-none t id p nz e = find-All-false (has_id id) (evict t p).0.entries (
    All-evict (λ n. has_id id n ≡ false) t p
      (All-map (λ n. n.node_id ≢ id) (λ n h. ground arith) t.entries
        (position-none-All (λ n. n.node_id) id t.entries (ground arith))))

position_of-position :
    (t : NeighborTable) (id i : ℕ)
    → position_of t id ≡ some i
    → position (has_id id) t.entries ≡ some i
unfolding position_of
position_of-position t id i e = ground arith

-- After a heartbeat that the table had room for, the sender is found by its id, online, with the
-- time, the uptime and the lease of that heartbeat. The id 0 is the exception.
pub on_heartbeat_found :
    (t : NeighborTable) (now id p : ℕ) (hb : Heartbeat)
    → id ≢ 0
    → (on_heartbeat t now id p hb).1.table_full ≡ false
    → (n : Neighbor) × (find_neighbor (on_heartbeat t now id p hb).0 id ≡ some n)
      × IsHeard id now hb n
unfolding on_heartbeat
on_heartbeat_found t now id p hb nz room = elim (Option-cases (position_of t id)) [
  | inr (i, e) ↦
      rw (e, on_heartbeat) (refresh_found t i _ now id hb nz (position_of-position t id i e))
  | inl e ↦
      let (n, found, h, _) =
        admit_found (evict t p).0 (evict t p).1 now id p hb nz (evict-find-none t id p nz e)
          (rw (e, on_heartbeat) at room) in
      rw (e, on_heartbeat) (n, found, h)
]

refresh_other :
    (t : NeighborTable) (index : ℕ) (o : HeartbeatOutcome) (now id other : ℕ) (hb : Heartbeat)
    → other ≢ id
    → position (has_id id) t.entries ≡ some index
    → find_neighbor (refresh t index o now hb).0 other ≡ find_neighbor t other
unfolding refresh find_neighbor heard
refresh_other t index o now id other hb ne e = ground (
  arith,
  find-set_ne (has_id other) t.entries index
      (heard (get_or t.entries index (new_neighbor 0 0)) now hb) (new_neighbor 0 0),
  position_found (has_id id) t.entries index (new_neighbor 0 0) e,
)

admit_other :
    (t : NeighborTable) (evicted : Option ℕ) (now id p other : ℕ) (hb : Heartbeat) (n : Neighbor)
    → other ≢ id
    → find_neighbor t other ≡ some n
    → find_neighbor (admit t evicted now id p hb).0 other ≡ some n
unfolding admit refresh find_neighbor heard
admit_other t evicted now id p other hb n ne e =
    elim (Bool-cases (length t.entries == t.capacity)) [
      | inl full ↦ rw full e
      | inr free ↦ rw free (
          rw
            (
              get_or-append_length t.entries (new_neighbor id p) (new_neighbor 0 0),
              set-append_length t.entries (new_neighbor id p) (heard (new_neighbor id p) now hb),
            )
            (ground (
              arith,
              find-append_some (has_id other) t.entries (heard (new_neighbor id p) now hb ∷ []) n,
            )))
    ]

evict_other :
    (t : NeighborTable) (p other : ℕ) (n : Neighbor)
    → n.port ≢ p
    → find_neighbor t other ≡ some n
    → find_neighbor (evict t p).0 other ≡ some n
unfolding evict remove find_neighbor
evict_other t p other n ne e = elim (Option-cases (position (has_port p) t.entries)) [
  | inl f ↦ rw (f, evict) e
  | inr (i, f) ↦
      rw (f, evict) (ground (arith, find-remove_at (has_id other) (has_port p) t.entries i n))
]

-- A heartbeat leaves every other node's entry as it was, unless that entry holds the port that the
-- heartbeat came in on.
pub on_heartbeat_other :
    (t : NeighborTable) (now id p other : ℕ) (hb : Heartbeat) (n : Neighbor)
    → other ≢ id
    → n.port ≢ p
    → find_neighbor t other ≡ some n
    → find_neighbor (on_heartbeat t now id p hb).0 other ≡ some n
unfolding on_heartbeat
on_heartbeat_other t now id p other hb n ne port e = elim (Option-cases (position_of t id)) [
  | inr (i, f) ↦
      rw (f, on_heartbeat)
        (refresh_other t i _ now id other hb ne (position_of-position t id i f) ∙ e)
  | inl f ↦
      rw (f, on_heartbeat)
        (admit_other (evict t p).0 (evict t p).1 now id p other hb n ne
          (evict_other t p other n port e))
]
