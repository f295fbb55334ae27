-- ===== src/Futures/Stuck.antt =====
-- A sleep of src/futures.rs that starts no timer, in the executor of src/executor.rs.
use webuiboot.Base.{ℕ, zero, suc, ◌≡◌, refl, none}
use webuiboot.Executor
use webuiboot.Executor.{
  TaskId, Polled, State, spawn, drain, run_once, run_list, run_task, poll_task, apply_all,
}
use webuiboot.Executor.Loop.{Firmware, run, round}
use webuiboot.Executor.Stalled.{IsStalled, run-IsStalled}
use webuiboot.Futures
use webuiboot.Futures.{Timers, Sleep, ticks, start_positive, sleeping, poll_timer_sleep}

abbrev pub only_sleeper : {W : Type 0} → ℕ → W → State Sleep W
only_sleeper duration w = spawn (webuiboot.Futures.new duration) (webuiboot.Executor.new w)

module _ {W : Type 0} (fw : Timers W) (firmware : Firmware W) where
  round_sleeper :
      (duration : ℕ) (w : W)
      → (start_positive fw (ticks duration) w).0 ≡ none
      → IsStalled (round (poll_timer_sleep fw) firmware (only_sleeper duration w))
  unfolding round run_once drain run_list run_task poll_task apply_all poll_timer_sleep spawn
  round_sleeper duration w h =
      rw h
        record { some_task = refl; none_queued = refl; none_woken = refl; none_registered = refl }

  -- A `TimerSleepFuture` that starts no timer, since its duration is below 100 nanoseconds or since
  -- no event can be created, and that is the only task, is never finished: `run` does not end.
  pub timer_sleep-stalls :
      (duration : ℕ) (w : W)
      → (start_positive fw (ticks duration) w).0 ≡ none
      → (fuel : ℕ) → run (poll_timer_sleep fw) firmware fuel (only_sleeper duration w) ≡ none
  unfolding run spawn
  timer_sleep-stalls duration w h zero = refl
  timer_sleep-stalls duration w h (suc fuel) =
      run-IsStalled (poll_timer_sleep fw) firmware fuel _ (round_sleeper duration w h)
