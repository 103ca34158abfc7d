-- ===== src/Tests/RegistryRuns.antt =====
-- A registry with a request, a reply and a heartbeat, as the code's tests have it.
use bristlemouth_rs.Common.{
  ◌+◌, ◌%◌, ◌^◌, ◌<◌, ◌≤◌, ◌≡◌, ◌⊎◌, refl, arith, true, false, [], ◌∷◌, ok, find,
}
use bristlemouth_rs.Util.Time.{wrapping_sub}
use bristlemouth_rs.Registry.{
  PacketCfg, Registry, sequenced_reply, process, new_request, resuming, add, cfg, on_serialize,
  on_received, next_sweep, on_tick,
}
use bristlemouth_rs.Registry.Sweep.{kept, reported}
use bristlemouth_rs.Registry.Tick.{on_tick_cases}
use bristlemouth_rs.Registry.Invariant.{IsValid}
use bristlemouth_rs.Registry.Reachable.{
  Reachable, Reachable-IsValid, start, step, added, serialized,
}
use bristlemouth_rs.Registry.Replies.{request-reply}

abbrev asking : PacketCfg
asking = record { sequenced_reply = false; sequenced_request = true }

abbrev answering : PacketCfg
answering = record { sequenced_reply = true; sequenced_request = false }

abbrev two_types : Registry
two_types = record {
  type_slots = 8;
  pending_slots = 8;
  types = (12, asking) ∷ (13, answering) ∷ [];
  pending = [];
  message_count = 5;
  next_sweep_ms = 150;
}

abbrev waiting : Registry
waiting = record two_types { pending = new_request 100 12 5 ∷ []; message_count = 6 }

set_up :
    (add (resuming 8 8 5 150) 12 asking ≡ ok (record two_types { types = (12, asking) ∷ [] }))
    × (add (record two_types { types = (12, asking) ∷ [] }) 13 answering ≡ ok two_types)
unfolding resuming add
set_up = (refl, refl)

two_types-Reachable : Reachable two_types
two_types-Reachable =
    step (record two_types { types = (12, asking) ∷ [] }) two_types
      (step (resuming 8 8 5 150) (record two_types { types = (12, asking) ∷ [] }) (start 8 8 5 150)
        (added (resuming 8 8 5 150) _ 12 asking set_up.0))
      (added _ two_types 13 answering set_up.1)

Reachable-IsValid_example : IsValid (on_serialize two_types 100 12 0).0
Reachable-IsValid_example = Reachable-IsValid (on_serialize two_types 100 12 0).0 (
    step two_types (on_serialize two_types 100 12 0).0 two_types-Reachable
      (serialized two_types 100 12 0 (omega arith)))

request-reply_example :
    ((on_serialize two_types 100 12 0).1 ≡ ok (record { seq_num = 5; tracked = true }))
    × (on_received (on_serialize two_types 100 12 0).0 13 5 ≡ (
      record two_types { message_count = (5 + 1) % 2 ^ 32 },
      sequenced_reply (new_request 100 12 5),
    ))
    × (on_received (record two_types { message_count = (5 + 1) % 2 ^ 32 }) 13 5
        ≡ (record two_types { message_count = (5 + 1) % 2 ^ 32 }, process))
unfolding cfg find
request-reply_example =
    request-reply two_types 100 12 13 0 (Reachable-IsValid two_types two_types-Reachable)
      (omega arith) refl refl

on_tick_cases_example :
    ((2 ^ 31 ≤ wrapping_sub 300 150) × (on_tick waiting 300 ≡ (waiting, [])))
    ⊎ ((wrapping_sub 300 150 < 2 ^ 31)
        × (on_tick waiting 300 ≡ (
          record waiting {
            pending = kept 300 waiting.pending;
            next_sweep_ms = next_sweep waiting 300;
          },
          reported 300 waiting.pending,
        ))
        × (1 ≤ wrapping_sub (next_sweep waiting 300) 300)
        × (wrapping_sub (next_sweep waiting 300) 300 ≤ 150))
on_tick_cases_example = on_tick_cases waiting 300 (omega arith) (omega arith)

-- The request 5 waits beside 6, which is answered before the sweeps at 150, 300, 450 and 600 ms.
abbrev both_wait : Registry
both_wait = (on_serialize waiting 110 12 0).0

abbrev one_waits : Registry
one_waits = (on_received both_wait 13 6).0

abbrev swept_once : Registry
swept_once = (on_tick one_waits 150).0

abbrev swept_twice : Registry
swept_twice = (on_tick swept_once 300).0

abbrev swept_thrice : Registry
swept_thrice = (on_tick swept_twice 450).0
