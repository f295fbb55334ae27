-- ===== src/Executor/Awake.antt =====
-- A round of src/executor.rs that has nothing to run comes to a wait, and the wait to a task to run.
use webuiboot.Base.{
  ℕ, ◌≡◌, refl, true, false, List, [], some, arith, ==_refl, is_empty, List-cases, Bool-cases, inl,
  inr, ◌∙◌, get_elem?, sym,
}
use webuiboot.Executor.{TaskId, Event, Polled, State, queued, run_once}
use webuiboot.Executor.Maps.{has_entry}
use webuiboot.Executor.Invariant.{IsValid}
use webuiboot.Executor.Loop.{Firmware, distinct_events, wait_signal, wait_for_events, round}
use webuiboot.Executor.Rounds.{contains-queued}
use webuiboot.Executor.Events.{
  distinct_events_lem, wait_for_events-wait_signal, contains-wait_signal,
}
use webuiboot.Executor.Preserved.{run_once-IsValid, wait_for_events-IsValid}
use webuiboot.Executor.Progress.{Arranged, Covered, Covered-run_once, Covered-queued}
use webuiboot.Executor.Waiting.{
  get_elem?-contains, has_event-is_registered, is_empty_of_contains, is_empty-distinct_events,
  tasks-wait_signal, Covered-wait_for_events,
}

module _ {F W : Type 0} (poll : TaskId → F → W → Polled F W) (fw : Firmware W)
    (arranged : (id : TaskId) (f : F) (w : W)
      → Arranged id (poll id f w).outcome (poll id f w).effects)
    (signals : (es : List Event) (w : W)
      → is_empty es ≡ false
      → (index : ℕ) × (e : Event) × ((fw.wait_for_event es w).0 ≡ some index)
        × (get_elem? es index ≡ some e)) where
  waited_queue :
      (s : State F W) (es : List Event)
      → es ≡ distinct_events s.event_registry []
      → is_empty es ≡ false
      → is_empty (queued (wait_signal fw es s)) ≡ false
  waited_queue s es d n =
      let (index, e, w, g) = signals es s.world n in
      let listed = get_elem?-contains es index e g in
      let (id, registered) =
        has_event-is_registered e s.event_registry
          (sym ((distinct_events_lem s.event_registry).1 e) ∙ rw d at listed) in
      let queue = contains-wait_signal fw es s index e id w g in
      is_empty_of_contains (queued (wait_signal fw es s)) id
        (ground (arith, queue, registered, contains-queued poll (wait_signal fw es s) id))

  idle_wait :
      (s : State F W) (id : TaskId)
      → s.awake_tasks ≡ []
      → is_empty s.tasks ≡ false
      → has_entry id s.event_registry ≡ true
      → ((wait_for_events fw s).tasks ≡ s.tasks)
        × (is_empty (queued (wait_for_events fw s)) ≡ false)
  idle_wait s id w t h =
      let some_event = is_empty-distinct_events id s.event_registry h in
      rw (wait_for_events-wait_signal fw s t w some_event) (
        tasks-wait_signal fw (distinct_events s.event_registry []) s,
        waited_queue s _ refl some_event,
      )

  -- With nothing to run the round comes to a wait, and the wait to a task to run.
  pub idle_round :
      (s : State F W)
      → Covered s.run_queue s
      → queued s ≡ []
      → is_empty s.tasks ≡ false
      → ((round poll fw s).tasks ≡ s.tasks) × (is_empty (queued (round poll fw s)) ≡ false)
  unfolding round run_once
  idle_round s c e t = elim (List-cases s.tasks) [
    | inl nothing ↦ cc
    | inr ((id, f), ts, live) ↦
        let start = record s { awake_tasks = []; run_queue = [] } in
        let covered = Covered-queued poll arranged s c id (rw live (ground (arith, ==_refl id))) in
        rw e (idle_wait start id refl t (rw e at covered))
  ]

  pub round-IsValid : (s : State F W) → IsValid s → IsValid (round poll fw s)
  unfolding round
  round-IsValid s v = elim (Bool-cases (run_once poll s).1) [
    | inl ran ↦ rw ran (run_once-IsValid poll s v)
    | inr idle ↦ rw idle (wait_for_events-IsValid fw _ (run_once-IsValid poll s v))
  ]

  pub round-Covered :
      (s : State F W)
      → IsValid s
      → Covered s.run_queue s
      → Covered (round poll fw s).run_queue (round poll fw s)
  unfolding round
  round-Covered s v c = elim (Bool-cases (run_once poll s).1) [
    | inl ran ↦ rw ran (Covered-run_once poll arranged s v c)
    | inr idle ↦ rw idle (Covered-wait_for_events fw _ (Covered-run_once poll arranged s v c))
  ]
