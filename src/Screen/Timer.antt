-- ===== src/Screen/Timer.antt =====
-- src/slint_plat.rs: `timer_freq`, `init_global_timer` and `get_ms_since_start`, on the values of the time
-- stamp counter. A `u64` wraps, as in a build without checks.
pub mod Elapsed
use webuiboot.Base.{ℕ, ◌+◌, ◌-◌, ◌*◌, ◌/◌, ◌%◌, ◌^◌, if◌then◌else◌, ◌==◌}
use webuiboot.Base.Int.{wrapping_sub}

-- the counter before and after the stall of a millisecond
unfoldable pub timer_freq : ℕ → ℕ → ℕ
timer_freq start end = wrapping_sub end start * 1000 % 2 ^ 64

pub record GlobalTimer : Type 0 where
  pub start : ℕ
  pub freq : ℕ

-- before `init_global_timer`
abbrev pub no_timer : GlobalTimer
no_timer = record { start = 0; freq = 0 }

-- The counter is read once for the start, and twice around the stall.
unfoldable pub init_global_timer : ℕ → ℕ → ℕ → GlobalTimer
unfolding timer_freq
init_global_timer start before after = record { start = start; freq = timer_freq before after }

unfoldable pub get_ms_since_start : GlobalTimer → ℕ → ℕ
get_ms_since_start t tick =
    if t.freq == 0 then 0 else wrapping_sub tick t.start * 1000 % 2 ^ 64 / t.freq
