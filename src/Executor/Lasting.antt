-- ===== src/Executor/Lasting.antt =====
-- Tasks of src/executor.rs that never finish.
use webuiboot.Base.{
  ℕ, zero, suc, ◌+◌, ◌*◌, ◌≤◌, ◌≡◌, refl, ap, ◌∙◌, true, false, List, [], ◌∷◌, none, some, arith,
  ==_iff, if◌then◌else◌, is_empty, Option-cases, Bool-cases, List-cases, inl, inr, get_elem?,
}
use webuiboot.Executor.{
  TaskId, Event, Poll, ready, pending, Polled, State, get, contains_key, apply_all, enter, leave,
  poll_task, run_task, run_list, queued, run_once,
}
use webuiboot.Executor.Events.{waits}
use webuiboot.Executor.Maps.{is_some, contains_key-get, contains_key-insert}
use webuiboot.Executor.Invariant.{IsValid, Framed-apply_all}
use webuiboot.Executor.Loop.{Firmware, wait_for_events, distinct_events, round, run}
use webuiboot.Executor.Progress.{Arranged, Covered}
use webuiboot.Executor.Waiting.{tasks-wait_signal}
use webuiboot.Executor.Awake.{idle_round, round-IsValid, round-Covered}

not_empty :
    {F : Type 0} (id : TaskId) (ts : List (TaskId × F))
    → contains_key id ts ≡ true
    → is_empty ts ≡ false
not_empty id [] k = absurd cc
not_empty id (t ∷ ts) k = refl

module _ {F W : Type 0} where
  -- The same tasks are there.
  abbrev pub SameTasks : State F W → State F W → Type 0
  SameTasks s t = (id : TaskId) → contains_key id t.tasks ≡ contains_key id s.tasks

  leave-SameTasks :
      (id : TaskId) (outcome : Poll F) (s : State F W)
      → waits outcome ≡ true
      → contains_key id s.tasks ≡ true
      → SameTasks s (leave id outcome s)
  leave-SameTasks id ready s w k j = absurd cc
  leave-SameTasks id (pending f) s w k j =
      ground (arith, contains_key-insert id j f s.tasks, ==_iff id j)

module _ {F W : Type 0} (poll : TaskId → F → W → Polled F W)
    (lasts : (id : TaskId) (f : F) (w : W) → waits (poll id f w).outcome ≡ true) where
  run_task-SameTasks : (id : TaskId) (s : State F W) → SameTasks s (run_task poll id s)
  unfolding run_task poll_task
  run_task-SameTasks id s j = elim (Option-cases (get id s.tasks)) [
    | inl e ↦ rw (run_task, e) refl
    | inr (f, e) ↦
        let polled = poll id f s.world in
        let inside = apply_all polled.effects (enter id s) in
        let same = (Framed-apply_all polled.effects (enter id s)).tasks in
        let known : contains_key id inside.tasks ≡ true =
          ap (contains_key id) same ∙ (contains_key-get id s.tasks ∙ ap is_some e) in
        rw (run_task, e)
          (leave-SameTasks id polled.outcome (record inside { world = polled.world })
              (lasts id f s.world) known j
            ∙ ap (contains_key j) same)
  ]

  run_list-SameTasks : (ids : List TaskId) (s : State F W) → SameTasks s (run_list poll ids s)
  unfolding run_list
  run_list-SameTasks [] s j = refl
  run_list-SameTasks (id ∷ ids) s j =
      run_list-SameTasks ids (run_task poll id s) j ∙ run_task-SameTasks id s j

  run_once-SameTasks : (s : State F W) → SameTasks s (run_once poll s).0
  unfolding run_once
  run_once-SameTasks s j = elim (Bool-cases (is_empty (queued s))) [
    | inl e ↦ rw (run_once, e) refl
    | inr e ↦
        rw (run_once, e)
          (run_list-SameTasks (queued s) (record s { awake_tasks = []; run_queue = [] }) j)
  ]

module _ {F W : Type 0} (fw : Firmware W) where
  wait_for_events-tasks : (s : State F W) → (wait_for_events fw s).tasks ≡ s.tasks
  unfolding wait_for_events
  wait_for_events-tasks s =
      ground (arith, tasks-wait_signal fw (distinct_events s.event_registry []) s)

module _ {F W : Type 0} (poll : TaskId → F → W → Polled F W) (fw : Firmware W) where
  round-SameTasks :
      ((id : TaskId) (f : F) (w : W) → waits (poll id f w).outcome ≡ true)
      → (s : State F W) → SameTasks s (round poll fw s)
  unfolding round
  round-SameTasks lasts s j = elim (Bool-cases (run_once poll s).1) [
    | inl ran ↦ rw (round, ran) (run_once-SameTasks poll lasts s j)
    | inr idle ↦
        rw (round, idle)
          (ap (contains_key j) (wait_for_events-tasks fw (run_once poll s).0)
            ∙ run_once-SameTasks poll lasts s j)
  ]

  -- The state behind so many rounds, and how many of them ran some task.
  unfoldable pub rounds : ℕ → State F W → State F W
  rounds zero s = s
  rounds (suc n) s = rounds n (round poll fw s)

  unfoldable pub busy : ℕ → State F W → ℕ
  busy zero s = 0
  busy (suc n) s = (if is_empty (queued s) then 0 else 1) + busy n (round poll fw s)

-- A wait for some events ends at one of them.
abbrev pub Signals : {W : Type 0} → Firmware W → Type 0
Signals fw =
    (es : List Event) (w : _)
    → is_empty es ≡ false
    → (index : ℕ) × (e : Event) × ((fw.wait_for_event es w).0 ≡ some index)
      × (get_elem? es index ≡ some e)

-- What an executor rests on whose tasks last: each poll waits, and has called its waker or registered
-- an event; and waits are signalled.
pub record Lasts {F W : Type 0} (poll : TaskId → F → W → Polled F W) (fw : Firmware W)
    : Type 0 where
  pub lasts : (id : TaskId) (f : F) (w : W) → waits (poll id f w).outcome ≡ true
  pub arranged :
      (id : TaskId) (f : F) (w : W) → Arranged id (poll id f w).outcome (poll id f w).effects
  pub signals : Signals fw

module _ {F W : Type 0} (poll : TaskId → F → W → Polled F W) (fw : Firmware W)
    (a : Lasts poll fw) where
  -- Of two rounds one runs a task, at least, and each task that is there goes on to be queued, woken or
  -- registered for an event.
  pub rounds_lem :
      (n : ℕ) (s : State F W) (id : TaskId)
      → IsValid s
      → Covered s.run_queue s
      → contains_key id s.tasks ≡ true
      → SameTasks s (rounds poll fw n s)
        × (n ≤ 2 * busy poll fw n s + (if is_empty (queued s) then 1 else 0))
        × IsValid (rounds poll fw n s)
        × Covered (rounds poll fw n s).run_queue (rounds poll fw n s)
  unfolding rounds busy
  rounds_lem zero s id v c k = (λ j. refl, omega arith, v, c)
  rounds_lem (suc n) s id v c k =
      let s' = round poll fw s in
      let same = round-SameTasks poll fw a.lasts s in
      let (same', many, v', c') =
        rounds_lem n s' id (round-IsValid poll fw a.arranged a.signals s v)
          (round-Covered poll fw a.arranged a.signals s v c) (same id ∙ k) in
      (
        λ j. same' j ∙ same j,
        elim (List-cases (queued s)) [
          | inl e ↦
              let (kept, next) =
                idle_round poll fw a.arranged a.signals s c e (not_empty id s.tasks k) in
              ground (arith, many, next, e)
          | inr (i, is, e) ↦ ground (arith, many, e)
        ],
        v',
        c',
      )

  -- The loop of an executor with a task does not end.
  pub run_never_ends :
      (fuel : ℕ) (s : State F W) (id : TaskId)
      → contains_key id s.tasks ≡ true
      → run poll fw fuel s ≡ none
  unfolding run
  run_never_ends zero s id k = refl
  run_never_ends (suc fuel) s id k =
      rw (run, not_empty id s.tasks k)
        (run_never_ends fuel (round poll fw s) id (round-SameTasks poll fw a.lasts s id ∙ k))
