-- ===== src/Neighbor/Invariant.antt =====
-- The well-formedness of the neighbour table: one entry for a port, one for a node, and no more
-- entries than the array holds.
use bristlemouth_rs.Common.{
  ℕ, ◌≤◌, ◌≡◌, ◌≢◌, refl, inl, inr, false, Option, none, List, [], ◌∷◌, arith, length, ◌==◌,
  Bool-cases, Option-cases, length-set, length-append, All, All-map, All-remove_at, position, Apart,
  Apart-set, Apart-snoc, Apart-remove_at, KeysDiffer, position-none-All, position_found,
  remove_at-position, length-remove_at,
}
use bristlemouth_rs.Neighbor.{
  Neighbor, NeighborTable, Heartbeat, HeartbeatOutcome, new_neighbor, has_port, empty, position_of,
  remove, evict, refresh, admit, on_heartbeat, is_lapsed, check_entries, check,
}

abbrev pub port_of : Neighbor → ℕ
port_of n = n.port

-- Two entries with one node id have the id 0, which a lookup never finds.
abbrev pub IdsDiffer : Neighbor → Neighbor → Type 0
IdsDiffer x y = x.node_id ≡ y.node_id → x.node_id ≡ 0

pub record IsValid (t : NeighborTable) : Type 0 where
  pub ports : Apart (KeysDiffer port_of) t.entries
  pub ids : Apart IdsDiffer t.entries
  pub fits : length t.entries ≤ t.capacity

pub empty-IsValid : (capacity : ℕ) → IsValid (empty capacity)
unfolding empty
empty-IsValid capacity = record { ports = tt; ids = tt; fits = omega arith }

-- What eviction leaves: a valid table with the ingress port free.
pub evict-IsValid :
    (t : NeighborTable) (p : ℕ)
    → IsValid t
    → IsValid (evict t p).0 × All (λ n. n.port ≢ p) (evict t p).0.entries
unfolding evict remove
evict-IsValid t p v = elim (Option-cases (position (has_port p) t.entries)) [
  | inl e ↦ rw (e, evict) (v, position-none-All port_of p t.entries e)
  | inr (i, e) ↦
      rw (e, evict)
        (
          record {
            ports = Apart-remove_at (KeysDiffer port_of) i t.entries v.ports;
            ids = Apart-remove_at IdsDiffer i t.entries v.ids;
            fits = omega (
              arith,
              v.fits,
              length-remove_at i t.entries,
              position_found (has_port p) t.entries i (new_neighbor 0 0) e,
            );
          },
          remove_at-position port_of p i t.entries v.ports e,
        )
]

-- Eviction keeps what holds of every entry.
pub All-evict {ℓ} :
    (P : Neighbor → Type ℓ) (t : NeighborTable) (p : ℕ)
    → All P t.entries
    → All P (evict t p).0.entries
unfolding evict remove
All-evict P t p a = elim (Option-cases (position (has_port p) t.entries)) [
  | inl e ↦ rw (e, evict) a
  | inr (i, e) ↦ rw (e, evict) (All-remove_at P i t.entries a)
]

refresh-IsValid :
    (t : NeighborTable) (index : ℕ) (o : HeartbeatOutcome) (now : ℕ) (hb : Heartbeat)
    → IsValid t
    → IsValid (refresh t index o now hb).0
unfolding refresh
refresh-IsValid t index o now hb v = record {
  ports =
      Apart-set (KeysDiffer port_of) t.entries index _ (new_neighbor 0 0) (λ y h. h) (λ y h. h)
        v.ports;
  ids = Apart-set IdsDiffer t.entries index _ (new_neighbor 0 0) (λ y h. h) (λ y h. h) v.ids;
  fits = omega (arith, v.fits, length-set t.entries index);
}

admit-IsValid :
    (t : NeighborTable) (evicted : Option ℕ) (now id p : ℕ) (hb : Heartbeat)
    → IsValid t
    → All (λ n. n.port ≢ p) t.entries
    → All (λ n. IdsDiffer n (new_neighbor id p)) t.entries
    → IsValid (admit t evicted now id p hb).0
unfolding admit
admit-IsValid t evicted now id p hb v ports ids =
    elim (Bool-cases (length t.entries == t.capacity)) [
      | inl full ↦ rw full v
      | inr room ↦ rw room (
          refresh-IsValid _ _ _ now hb (record {
            ports = Apart-snoc (KeysDiffer port_of) t.entries (new_neighbor id p) v.ports ports;
            ids = Apart-snoc IdsDiffer t.entries (new_neighbor id p) v.ids ids;
            fits = ground (arith, v.fits, length-append t.entries (new_neighbor id p ∷ []));
          }))
    ]

-- A node that the lookup does not find has an id that no entry has, or the id 0.
pub position_of-none :
    (t : NeighborTable) (id p : ℕ)
    → position_of t id ≡ none
    → All (λ n. IdsDiffer n (new_neighbor id p)) t.entries
unfolding position_of
position_of-none t id p e = elim (Bool-cases (id == 0)) [
  | inl z ↦ zero_lem t.entries (ground arith)
  | inr nz ↦
      All-map (λ n. n.node_id ≢ id) (λ n h k. absurd (h k)) t.entries
        (position-none-All (λ n. n.node_id) id t.entries (rw nz at e))
]
  where
    zero_lem : (ns : List Neighbor) → id ≡ 0 → All (λ n. IdsDiffer n (new_neighbor id p)) ns
    zero_lem [] z = tt
    zero_lem (n ∷ ns) z = (λ k. omega arith, zero_lem ns z)

-- A heartbeat keeps a valid table valid, whoever sent it and on whatever port: one entry for a
-- port, one for a node other than 0, and no more than the table has room for.
pub on_heartbeat-IsValid :
    (t : NeighborTable) (now id p : ℕ) (hb : Heartbeat)
    → IsValid t
    → IsValid (on_heartbeat t now id p hb).0
unfolding on_heartbeat
on_heartbeat-IsValid t now id p hb v = elim (Option-cases (position_of t id)) [
  | inr (i, e) ↦ rw (e, on_heartbeat) (refresh-IsValid t i _ now hb v)
  | inl e ↦
      let (v', free) = evict-IsValid t p v in
      rw (e, on_heartbeat)
        (admit-IsValid (evict t p).0 (evict t p).1 now id p hb v' free
          (All-evict _ t p (position_of-none t id p e)))
]

-- `check` changes no entry's node or port.
All-check_entries {ℓ} :
    (P : Neighbor → Type ℓ) (now : ℕ) (ns : List Neighbor)
    → ((n : Neighbor) → P n → P (record n { online = false }))
    → All P ns
    → All P (check_entries now ns).0
unfolding check_entries
All-check_entries P now [] f a = tt
All-check_entries P now (n ∷ ns) f a = elim (Bool-cases (is_lapsed now n)) [
  | inl y ↦ rw (y, check_entries) (f n a.0, All-check_entries P now ns f a.1)
  | inr y ↦ rw (y, check_entries) (a.0, All-check_entries P now ns f a.1)
]

Apart-check_entries {ℓ} :
    (R : Neighbor → Neighbor → Type ℓ) (now : ℕ) (ns : List Neighbor)
    → ((n m : Neighbor) → R n m → R n (record m { online = false }))
    → ((n m : Neighbor) → R n m → R (record n { online = false }) m)
    → Apart R ns
    → Apart R (check_entries now ns).0
unfolding check_entries
Apart-check_entries R now [] f g a = tt
Apart-check_entries R now (n ∷ ns) f g a = elim (Bool-cases (is_lapsed now n)) [
  | inl y ↦
      rw (y, check_entries)
        (
          All-map (R n) (g n) _ (All-check_entries (R n) now ns (f n) a.0),
          Apart-check_entries R now ns f g a.1,
        )
  | inr y ↦
      rw (y, check_entries)
        (All-check_entries (R n) now ns (f n) a.0, Apart-check_entries R now ns f g a.1)
]

pub length-check_entries :
    (now : ℕ) (ns : List Neighbor) → length (check_entries now ns).0 ≡ length ns
unfolding check_entries
length-check_entries now [] = refl
length-check_entries now (n ∷ ns) = ground (arith, length-check_entries now ns)

-- Taking entries offline keeps a valid table valid.
pub check-IsValid : (t : NeighborTable) (now : ℕ) → IsValid t → IsValid (check t now).0
unfolding check
check-IsValid t now v = record {
  ports = Apart-check_entries (KeysDiffer port_of) now t.entries (λ n m h. h) (λ n m h. h) v.ports;
  ids = Apart-check_entries IdsDiffer now t.entries (λ n m h. h) (λ n m h. h) v.ids;
  fits = omega (arith, v.fits, length-check_entries now t.entries);
}
