-- ===== src/Tests/NeighborRuns.antt =====
-- The neighbour table on a device with two neighbours.
use bristlemouth_rs.Common.{◌≡◌, refl, arith, true, false, [], ◌∷◌, position}
use bristlemouth_rs.Util.Time.{time_remaining}
use bristlemouth_rs.Neighbor.{
  Heartbeat, Neighbor, NeighborTable, on_heartbeat, is_lapsed, check, position_of, evict, admit,
  check_entries, lease_ms,
}
use bristlemouth_rs.Neighbor.Invariant.{IsValid, on_heartbeat-IsValid}

abbrev seven : Neighbor
seven = record {
  node_id = 7;
  port = 1;
  last_heartbeat_ms = 4294967000;
  last_time_since_boot_us = 5000000;
  heartbeat_period_s = 10;
  online = true;
}

abbrev nine : Neighbor
nine = record {
  node_id = 9;
  port = 2;
  last_heartbeat_ms = 1000;
  last_time_since_boot_us = 8000;
  heartbeat_period_s = 10;
  online = false;
}

abbrev pair : NeighborTable
pair = record { capacity = 2; entries = seven ∷ nine ∷ [] }

abbrev beat : Heartbeat
beat = record { time_since_boot_us = 4000; liveliness_lease_dur_s = 20 }

pair-IsValid : IsValid pair
pair-IsValid = record {
  ports = ((ground arith, tt), (tt, tt));
  ids = ((λ e. absurd (ground arith), tt), (tt, tt));
  fits = omega arith;
}

-- The third node takes the place of the one on its port.
on_heartbeat-IsValid_example : IsValid (on_heartbeat pair 2000 11 1 beat).0
on_heartbeat-IsValid_example = on_heartbeat-IsValid pair 2000 11 1 beat pair-IsValid

full_check : (on_heartbeat pair 2000 11 3 beat).1.table_full ≡ true
unfolding on_heartbeat position_of evict admit position
full_check = refl

-- The lease that `seven` advertised ends twenty seconds after its heartbeat, behind the wrap.
seven_lapses : (check pair 19703).1 ≡ []
unfolding check check_entries is_lapsed time_remaining lease_ms
seven_lapses = refl
