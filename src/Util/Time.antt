-- ===== src/Util/Time.antt =====
-- bm-wire/src/util.rs, `time_remaining`: what is left of a timeout on a wrapping `u32` clock.
use bristlemouth_rs.Common.{ℕ, ◌+◌, ◌-◌, ◌%◌, ◌^◌, ◌≤◌, ◌<◌, ◌≡◌, arith}
use bristlemouth_rs.Common.{ltb, if◌then◌else◌}

abbrev pub u32_mod : ℕ
u32_mod = 2 ^ 32

-- `a.wrapping_sub(b)`.
unfoldable pub wrapping_sub : ℕ → ℕ → ℕ
wrapping_sub a b = (a + u32_mod - b) % u32_mod

-- The cast to `i32` is negative from 2 ^ 31 on.
unfoldable pub time_remaining : ℕ → ℕ → ℕ → ℕ
unfolding wrapping_sub
time_remaining start current timeout =
    let remaining = wrapping_sub ((start + timeout) % u32_mod) current in
    if ltb remaining (2 ^ 31) then remaining else 0

-- On a clock that shows `elapsed` milliseconds after `start`, wrapped around or not, the answer is
-- the timeout less the time elapsed, stopping at 0, for at most 2 ^ 31 milliseconds elapsed and a
-- timeout below that.
pub time_remaining_elapsed :
    (start elapsed timeout : ℕ)
    → start < u32_mod
    → elapsed ≤ 2 ^ 31
    → timeout < 2 ^ 31
    → time_remaining start ((start + elapsed) % u32_mod) timeout ≡ timeout - elapsed
unfolding time_remaining
time_remaining_elapsed start elapsed timeout hs he ht = ground arith
