-- ===== src/Executor/Stalled.antt =====
-- A task of src/executor.rs that waits and has nothing to wake it.
use webuiboot.Base.{ℕ, zero, suc, ◌≡◌, refl, false, [], none, is_empty}
use webuiboot.Executor.{TaskId, Polled, State, drain, run_once}
use webuiboot.Executor.Loop.{Firmware, distinct_events, wait_for_events, round, run}

-- Tasks are left, and none is queued, woken or registered.
pub record IsStalled {F W : Type 0} (s : State F W) : Type 0 where
  pub some_task : is_empty s.tasks ≡ false
  pub none_queued : s.run_queue ≡ []
  pub none_woken : s.awake_tasks ≡ []
  pub none_registered : s.event_registry ≡ []

module _ {F W : Type 0} (poll : TaskId → F → W → Polled F W) (fw : Firmware W) where
  round_stalled :
      (s : State F W)
      → IsStalled s
      → round poll fw s ≡ record s { run_queue = []; awake_tasks = []; world = fw.stall 5 s.world }
  unfolding round run_once drain wait_for_events distinct_events
  round_stalled s h = rw (h.none_queued, h.none_woken, h.none_registered, h.some_task)

  -- A stalled executor never polls again: whatever the fuel, `run` does not end.
  pub run-IsStalled : (fuel : ℕ) (s : State F W) → IsStalled s → run poll fw fuel s ≡ none
  unfolding run
  run-IsStalled zero s h = refl
  run-IsStalled (suc fuel) s h =
      rw (h.some_task, run, round_stalled s h)
        (run-IsStalled fuel _ (record {
          some_task = h.some_task;
          none_queued = refl;
          none_woken = refl;
          none_registered = h.none_registered;
        }))
