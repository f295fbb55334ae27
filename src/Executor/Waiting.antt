-- ===== src/Executor/Waiting.antt =====
-- What a wait of src/executor.rs leaves queued and covered.
use webuiboot.Base.{
  ℕ, zero, suc, ◌≡◌, refl, true, false, List, [], ◌∷◌, Option, none, some, arith, ◌==◌, ==_refl,
  ==_iff, contains, is_empty, Bool-cases, Option-cases, inl, inr, get_elem?,
}
use webuiboot.Executor.{TaskId, Event, Registry, State, is_registered}
use webuiboot.Executor.Maps.{has_entry}
use webuiboot.Executor.Loop.{
  Firmware, distinct_events, signaled_queue, wait_signal, wait_for_events,
}
use mathlib.Core.Bool.{false≢true}
use webuiboot.Executor.Events.{has_event, distinct_events_lem, contains-wake_registered}
use webuiboot.Executor.Progress.{Covered}

pub get_elem?-contains :
    (es : List Event) (i : ℕ) (e : Event) → get_elem? es i ≡ some e → contains es e ≡ true
get_elem?-contains [] i e h = cc
get_elem?-contains (x ∷ es) zero e h = ground (arith, ==_iff x e)
get_elem?-contains (x ∷ es) (suc i) e h = ground (arith, get_elem?-contains es i e h)

pub has_event-is_registered :
    (e : Event) (r : Registry)
    → has_event e r ≡ true
    → (id : TaskId) × (is_registered e id r ≡ true)
has_event-is_registered e [] h = elim (false≢true h) [ ]
has_event-is_registered e ((e', id) ∷ r) h = elim (Bool-cases (e' == e)) [
  | inl same ↦ (id, ground (arith, ==_refl id))
  | inr other ↦
      let (j, registered) = has_event-is_registered e r (ground arith) in (j, ground arith)
]

pub is_empty_of_contains : (q : List ℕ) (j : ℕ) → contains q j ≡ true → is_empty q ≡ false
is_empty_of_contains [] j h = cc
is_empty_of_contains (x ∷ q) j h = refl

pub is_empty-distinct_events :
    (id : TaskId) (r : Registry) → has_entry id r ≡ true → is_empty (distinct_events r []) ≡ false
is_empty-distinct_events id [] h = cc
is_empty-distinct_events id ((e, j) ∷ r) h =
    is_empty_of_contains (distinct_events ((e, j) ∷ r) []) e
      (ground (arith, (distinct_events_lem ((e, j) ∷ r)).1 e, ==_refl e))

contains-signaled_queue :
    (o : Option Event) (r : Registry) (q : List TaskId) (j : TaskId)
    → contains q j ≡ true
    → contains (signaled_queue o r q) j ≡ true
contains-signaled_queue none r q j h = h
contains-signaled_queue (some e) r q j h = ground (arith, contains-wake_registered e r q j)

module _ {F W : Type 0} (fw : Firmware W) where
  pub tasks-wait_signal : (es : List Event) (s : State F W) → (wait_signal fw es s).tasks ≡ s.tasks
  unfolding wait_signal
  tasks-wait_signal es s = ground arith

  pub Covered-wait_signal :
      (es : List Event) (s : State F W)
      → Covered s.run_queue s
      → Covered (wait_signal fw es s).run_queue (wait_signal fw es s)
  unfolding wait_signal
  Covered-wait_signal es s c j k = elim (Option-cases (fw.wait_for_event es s.world).0) [
    | inl e ↦ rw (e, wait_signal) (c j (rw (e, wait_signal) at k))
    | inr (i, e) ↦
        let queue = contains-signaled_queue (get_elem? es i) s.event_registry s.run_queue j in
        rw (e, wait_signal) (ground (arith, c j (rw tasks-wait_signal at k), queue))
  ]

  pub Covered-wait_for_events :
      (s : State F W)
      → Covered s.run_queue s
      → Covered (wait_for_events fw s).run_queue (wait_for_events fw s)
  unfolding wait_for_events
  Covered-wait_for_events s c j k =
      ground (arith, c j, Covered-wait_signal (distinct_events s.event_registry []) s c j)
