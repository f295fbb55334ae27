-- ===== src/Executor/Tests.antt =====
-- Runs of src/executor.rs with small futures.
use webuiboot.Base.{
  ℕ, zero, suc, ◌+◌, ◌≡◌, refl, true, false, List, [], ◌∷◌, none, some, arith, is_empty, contains,
  if◌then◌else◌, ◌&&◌, ◌||◌, ◌==◌, get_elem?,
}
use webuiboot.Executor.{
  TaskId, Event, Registry, ready, pending, register, Polled, State, new, spawn, drain, get,
  poll_task, queued, run_once, is_registered,
}
use webuiboot.Executor.Invariant.{IsValid}
use webuiboot.Executor.Preserved.{new-IsValid, spawn-IsValid, here, ran_once, waited, Reach-IsValid}
use webuiboot.Executor.Loop.{Firmware, distinct_events, wait_for_events, run}
use webuiboot.Executor.Rounds.{poll_each, state_after, run_once-poll_each, run_once-state_after}
use webuiboot.Executor.Events.{waits, registers, is_registered-poll_task, wait_for_events_wakes}
use webuiboot.Executor.Progress.{Arranged, Covered}
use webuiboot.Executor.Budget.{Falls}
use webuiboot.Executor.Liveness.{Assumptions, run_ends}

-- A future that waits for the event of its own number as often as its state says.
abbrev countdown : TaskId → ℕ → ℕ → Polled ℕ ℕ
countdown id zero w = record { effects = []; outcome = ready; world = w }
countdown id (suc n) w = record { effects = register id ∷ []; outcome = pending n; world = w + 1 }

abbrev board : Firmware ℕ
board = record { stall = λ n w. n + w; wait_for_event = λ es w. (some 0, w) }

countdown-Assumptions : Assumptions countdown board (λ n. n)
countdown-Assumptions = record { falls = falls; arranged = arranged; signals = signals }
  where
    falls : (id : TaskId) (f : ℕ) (w : ℕ) → Falls (λ n. n) f (countdown id f w).outcome
    falls id zero w = tt
    falls id (suc n) w = omega arith

    arranged :
        (id : TaskId) (f : ℕ) (w : ℕ)
        → Arranged id (countdown id f w).outcome (countdown id f w).effects
    arranged id zero w = λ h. cc
    arranged id (suc n) w = λ h. refl

    signals :
        (es : List Event) (w : ℕ)
        → is_empty es ≡ false
        → (index : ℕ) × (e : Event) × (some 0 ≡ some index) × (get_elem? es index ≡ some e)
    signals [] w n = cc
    signals (e ∷ es) w n = (0, e, refl, refl)

abbrev two : State ℕ ℕ
two = spawn 2 (spawn 1 (new 0))

two-IsValid : IsValid two
two-IsValid = spawn-IsValid 2 (spawn 1 (new 0)) (spawn-IsValid 1 (new 0) (new-IsValid 0))

two-Covered : Covered two.run_queue two
unfolding spawn
two-Covered id h = ground arith

run_ends_example :
    (t : State ℕ ℕ) × (run countdown board 12 two ≡ some t) × (is_empty t.tasks ≡ true)
unfolding spawn drain
run_ends_example =
    run_ends countdown board (λ n. n) countdown-Assumptions 12 two two-IsValid two-Covered
      (omega arith)

Reach-IsValid_example : IsValid (wait_for_events board (run_once countdown two).0)
Reach-IsValid_example =
    Reach-IsValid countdown board {start = two}
      {s = wait_for_events board (run_once countdown two).0} two-IsValid (waited (ran_once here))

run_once-poll_each_example :
    (run_once countdown two).0.world ≡ poll_each countdown (queued two) two.tasks two.world
run_once-poll_each_example = run_once-poll_each countdown two two-IsValid

run_once-state_after_example : get 1 (run_once countdown two).0.tasks ≡ (
    if contains (queued two) 1
    then state_after countdown 1 (queued two) two.tasks two.world
    else get 1 two.tasks)
run_once-state_after_example = run_once-state_after countdown two 1 two-IsValid

is_registered-poll_task_example : is_registered 1 1 (poll_task countdown 1 2 two).event_registry ≡ (
    if 1 == 1
    then waits (countdown 1 2 two.world).outcome && registers (countdown 1 2 two.world).effects 1
    else is_registered 1 1 two.event_registry)
is_registered-poll_task_example = is_registered-poll_task countdown 1 1 2 two 1 two-IsValid

abbrev some_events : Registry
some_events = (7, 0) ∷ (8, 1) ∷ (7, 2) ∷ []

abbrev sleeping : State ℕ ℕ
sleeping = record {
  tasks = (0, 1) ∷ (1, 2) ∷ (2, 1) ∷ [];
  run_queue = [];
  event_registry = some_events;
  awake_tasks = [];
  current_task = none;
  global_registry = [];
  next_id = 3;
  world = 0;
}

wait_for_events_wakes_example :
    contains (wait_for_events board sleeping).run_queue 2
    ≡ (contains sleeping.run_queue 2 || is_registered 7 2 sleeping.event_registry)
unfolding distinct_events
wait_for_events_wakes_example = wait_for_events_wakes board sleeping 0 7 2 refl refl refl refl
