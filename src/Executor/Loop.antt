-- ===== src/Executor/Loop.antt =====
-- src/executor.rs: `wait_for_events` and `run`. The firmware's `stall` and `wait_for_event` are
-- parameters; a failed wait is `none`.
use webuiboot.Base.{
  ℕ, zero, suc, true, false, List, [], ◌∷◌, ◌++◌, Option, none, some, ◌==◌, if◌then◌else◌, contains,
  is_empty, get_elem?,
}
use webuiboot.Executor.{TaskId, Event, Registry, State, Polled, push_new, run_once}

pub record Firmware (W : Type 0) : Type 0 where
  pub stall : ℕ → W → W
  pub wait_for_event : List Event → W → Option ℕ × W

-- the events to wait for, each once, in the order of the registry
unfoldable pub distinct_events : Registry → List Event → List Event
distinct_events [] events = events
distinct_events ((e, id) ∷ r) events =
    distinct_events r (if contains events e then events else events ++ e ∷ [])

-- the loop over the registry at a signal
unfoldable pub wake_registered : Event → Registry → List TaskId → List TaskId
wake_registered signaled [] q = q
wake_registered signaled ((e, id) ∷ r) q =
    wake_registered signaled r (if e == signaled then push_new id q else q)

-- `if index < events.len()`, and the loop
abbrev pub signaled_queue : Option Event → Registry → List TaskId → List TaskId
signaled_queue none r q = q
signaled_queue (some e) r q = wake_registered e r q

module _ {F W : Type 0} (fw : Firmware W) where
  unfoldable pub wait_signal : List Event → State F W → State F W
  wait_signal events s =
      let (result, w) = fw.wait_for_event events s.world in
      elim result [
        | none ↦ record s { world = w }
        | some index ↦ record s {
          run_queue = signaled_queue (get_elem? events index) s.event_registry s.run_queue;
          world = w;
        }
      ]

  unfoldable pub wait_for_events : State F W → State F W
  unfolding wait_signal distinct_events
  wait_for_events s =
      let events = distinct_events s.event_registry [] in
      if is_empty s.tasks
      then s
      else if is_empty s.awake_tasks
      then (if is_empty events
          then record s { world = fw.stall 5 s.world }
          else wait_signal events s)
      else s

module _ {F W : Type 0} (poll : TaskId → F → W → Polled F W) (fw : Firmware W) where
  -- one round of the loop of `run`
  unfoldable pub round : State F W → State F W
  round s = let (s', ran_any) = run_once poll s in if ran_any then s' else wait_for_events fw s'

  -- `none` means that the fuel ran out: the loop has not ended.
  unfoldable pub run : ℕ → State F W → Option (State F W)
  run zero s = none
  run (suc fuel) s = elim (is_empty s.tasks) [ true ↦ some s | false ↦ run fuel (round s) ]
