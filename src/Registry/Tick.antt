-- ===== src/Registry/Tick.antt =====
-- When a sweep runs, and what it does.
use bristlemouth_rs.Common.{ℕ, ◌^◌, ◌<◌, ◌≤◌, ◌≡◌, ◌⊎◌, refl, inl, inr, Bool-cases, [], leb, arith}
use bristlemouth_rs.Util.Time.{wrapping_sub}
use bristlemouth_rs.Registry.{Registry, next_sweep, on_tick}
use bristlemouth_rs.Registry.Sweep.{kept, reported, sweep-fates}

next_sweep-ahead :
    (g : Registry) (now_ms : ℕ)
    → now_ms < 2 ^ 32
    → g.next_sweep_ms < 2 ^ 32
    → wrapping_sub now_ms g.next_sweep_ms < 2 ^ 31
    → (next_sweep g now_ms < 2 ^ 32)
      × (1 ≤ wrapping_sub (next_sweep g now_ms) now_ms)
      × (wrapping_sub (next_sweep g now_ms) now_ms ≤ 150)
unfolding next_sweep wrapping_sub
next_sweep-ahead g now_ms h k d = omega arith

-- Between sweeps nothing happens. When a sweep is due, each request that waits is kept, sent again or
-- given up by its own age and retries, in order, and the next sweep is due within the period after
-- the time of the call.
pub on_tick_cases :
    (g : Registry) (now_ms : ℕ)
    → now_ms < 2 ^ 32
    → g.next_sweep_ms < 2 ^ 32
    → ((2 ^ 31 ≤ wrapping_sub now_ms g.next_sweep_ms) × (on_tick g now_ms ≡ (g, [])))
      ⊎ ((wrapping_sub now_ms g.next_sweep_ms < 2 ^ 31)
          × (on_tick g now_ms ≡ (
            record g { pending = kept now_ms g.pending; next_sweep_ms = next_sweep g now_ms },
            reported now_ms g.pending,
          ))
          × (1 ≤ wrapping_sub (next_sweep g now_ms) now_ms)
          × (wrapping_sub (next_sweep g now_ms) now_ms ≤ 150))
unfolding on_tick
on_tick_cases g now_ms h k =
    elim (Bool-cases (leb (2 ^ 31) (wrapping_sub now_ms g.next_sweep_ms))) [
      | inl early ↦ inl (ground arith, rw early refl)
      | inr due ↦
          let d : wrapping_sub now_ms g.next_sweep_ms < 2 ^ 31 = ground arith in
          let a = next_sweep-ahead g now_ms h k d in
          inr (
            d,
            rw due (sweep-fates (record g { next_sweep_ms = next_sweep g now_ms }) now_ms),
            a.1,
            a.2,
          )
    ]
