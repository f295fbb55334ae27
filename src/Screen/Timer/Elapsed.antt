-- ===== src/Screen/Timer/Elapsed.antt =====
-- What the milliseconds are, and for how long.
use native.Mathlib.Nat.{mul-div-mul_right, div-eq_of_lt}
use webuiboot.Base.{ℕ, ◌+◌, ◌*◌, ◌/◌, ◌%◌, ◌^◌, ◌≤◌, ◌<◌, ◌≡◌, arith, false, ◌==◌}
use webuiboot.Base.Int.{wrapping_sub}
use webuiboot.Screen.Timer.{timer_freq, init_global_timer, get_ms_since_start}

wrapping_sub_cancel : (a d : ℕ) → d < 2 ^ 64 → wrapping_sub (a + d) a ≡ d
wrapping_sub_cancel a d h = omega arith

-- Where the counter ran `rate` ticks in the millisecond of the stall, the time is the number of whole
-- milliseconds since the start, as long as the ticks since the start are at most 2 ^ 64 / 1000, and no
-- counter wraps. One tick later the multiplication wraps, and the time is 0 again.
pub elapsed_lem :
    (start before rate elapsed : ℕ)
    → 0 < rate
    → rate ≤ 2 ^ 64 / 1000
    → (elapsed ≤ 2 ^ 64 / 1000
        → get_ms_since_start (init_global_timer start before (before + rate)) (start + elapsed)
          ≡ elapsed / rate)
      × (get_ms_since_start
            (init_global_timer start before (before + rate))
            (start + (2 ^ 64 / 1000 + 1))
          ≡ 0)
unfolding get_ms_since_start init_global_timer timer_freq
elapsed_lem start before rate elapsed h k =
    let wide : rate * 1000 % 2 ^ 64 ≡ rate * 1000 = omega arith in
    let positive : (rate * 1000 == 0) ≡ false = ground arith in
    let last = 2 ^ 64 / 1000 + 1 in
    (
      λ e.
          let fits : elapsed * 1000 % 2 ^ 64 ≡ elapsed * 1000 = omega arith in
          rw
            (
              wrapping_sub_cancel before rate (omega arith),
              wrapping_sub_cancel start elapsed (omega arith),
              wide,
              fits,
              positive,
            )
            (mul-div-mul_right elapsed rate (omega arith)),
      rw
          (
            wrapping_sub_cancel before rate (omega arith),
            wrapping_sub_cancel start last (omega arith),
            wide,
            positive,
          )
          (div-eq_of_lt (omega arith)),
    )
