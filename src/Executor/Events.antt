-- ===== src/Executor/Events.antt =====
-- Which events wake which tasks of src/executor.rs.
use webuiboot.Base.{
  ℕ, ◌≡◌, refl, Bool, true, false, not, ◌&&◌, ◌||◌, List, [], ◌∷◌, ◌++◌, some, arith, ◌==◌, ==_refl,
  ==_iff, if◌then◌else◌, contains, contains-append, IsDistinct, IsDistinct-concat, is_empty, ◌∙◌,
  get_elem?,
}
use webuiboot.Executor.{
  TaskId, Event, Registry, Poll, ready, pending, Effect, wake, register, Polled, State,
  retain_others, entries_of, is_registered, push_new, apply, apply_all, enter, leave, poll_task,
}
use webuiboot.Executor.Invariant.{IsValid, Framed-apply_all}
use webuiboot.Executor.Loop.{
  Firmware, distinct_events, wake_registered, wait_signal, wait_for_events,
}

abbrev pub waits : {F : Type 0} → Poll F → Bool
waits ready = false
waits (pending f) = true

abbrev pub registers : List Effect → Event → Bool
registers [] e = false
registers (wake id ∷ es) e = registers es e
registers (register e' ∷ es) e = e' == e || registers es e

is_registered-append :
    (e : Event) (id : TaskId) (r q : Registry)
    → is_registered e id (r ++ q) ≡ (is_registered e id r || is_registered e id q)
is_registered-append e id [] q = refl
is_registered-append e id ((e', tid) ∷ r) q = ground (arith, is_registered-append e id r q)

is_registered-retain_others :
    (e : Event) (id j : TaskId) (r : Registry)
    → is_registered e j (retain_others id r) ≡ (not (id == j) && is_registered e j r)
is_registered-retain_others e id j [] = ground arith
is_registered-retain_others e id j ((e', tid) ∷ r) =
    ground (arith, is_registered-retain_others e id j r)

is_registered-entries_of :
    (e : Event) (id j : TaskId) (r : Registry)
    → is_registered e j (entries_of id r) ≡ (id == j && is_registered e id r)
is_registered-entries_of e id j [] = ground arith
is_registered-entries_of e id j ((e', tid) ∷ r) = ground (arith, is_registered-entries_of e id j r)

module _ {F W : Type 0} where
  is_registered-apply_all :
      (e : Event) (id : TaskId) (es : List Effect) (s : State F W)
      → s.current_task ≡ some id
      → is_registered e id (apply_all es s).global_registry
        ≡ (is_registered e id s.global_registry || registers es e)
  unfolding apply_all apply
  is_registered-apply_all e id [] s c = ground arith
  is_registered-apply_all e id (wake j ∷ es) s c =
      is_registered-apply_all e id es (apply (wake j) s) c
  is_registered-apply_all e id (register e' ∷ es) s c =
      is_registered-apply_all e id es (apply (register e') s) (ground arith)
      ∙ ground (
        arith,
        is_registered-append e id s.global_registry ((e', id) ∷ []),
        ==_iff e' e,
        ==_refl id,
      )

  is_registered-leave :
      (e : Event) (id j : TaskId) (outcome : Poll F) (t : State F W)
      → is_registered e j (leave id outcome t).event_registry ≡ elim outcome [
        | ready ↦ not (id == j) && is_registered e j t.event_registry
        | pending f ↦
            is_registered e j t.event_registry || (id == j && is_registered e id t.global_registry)
      ]
  is_registered-leave e id j ready t =
      is_registered-retain_others e id j (t.event_registry ++ [])
      ∙ ground (arith, is_registered-append e j t.event_registry [])
  is_registered-leave e id j (pending f) t =
      is_registered-append e j t.event_registry (entries_of id t.global_registry)
      ∙ ground (arith, is_registered-entries_of e id j t.global_registry)

module _ {F W : Type 0} (poll : TaskId → F → W → Polled F W) where
  -- In a well-formed state: behind the poll of a task the events that wake it are those that the
  -- poll registered, and none when the task is finished; the events of every other task are as they
  -- were.
  pub is_registered-poll_task :
      (id j : TaskId) (f : F) (s : State F W) (e : Event)
      → IsValid s
      → is_registered e j (poll_task poll id f s).event_registry ≡ (
          if id == j
          then waits (poll id f s.world).outcome && registers (poll id f s.world).effects e
          else is_registered e j s.event_registry)
  unfolding poll_task
  is_registered-poll_task id j f s e v =
      let polled = poll id f s.world in
      let inside = apply_all polled.effects (enter id s) in
      let frame = Framed-apply_all polled.effects (enter id s) in
      is_registered-leave e id j polled.outcome (record inside { world = polled.world })
      ∙ ground (
        arith,
        frame.event_registry,
        v.nothing_unclaimed,
        is_registered-retain_others e id j s.event_registry,
        is_registered-apply_all e id polled.effects (enter id s) refl,
      )

pub contains-wake_registered :
    (e : Event) (r : Registry) (q : List TaskId) (j : TaskId)
    → contains (wake_registered e r q) j ≡ (contains q j || is_registered e j r)
unfolding wake_registered
contains-wake_registered e [] q j = ground arith
contains-wake_registered e ((e', id) ∷ r) q j = ground (
  arith,
  contains-wake_registered e r q j,
  contains-wake_registered e r (push_new id q) j,
  contains-append q (id ∷ []) j,
  ==_iff id j,
)

-- some task waits for the event
abbrev pub has_event : Event → Registry → Bool
has_event e [] = false
has_event e ((e', id) ∷ r) = e' == e || has_event e r

contains-distinct_events :
    (e : Event) (r : Registry) (es : List Event)
    → contains (distinct_events r es) e ≡ (contains es e || has_event e r)
unfolding distinct_events
contains-distinct_events e [] es = ground arith
contains-distinct_events e ((e', id) ∷ r) es = ground (
  arith,
  contains-distinct_events e r es,
  contains-distinct_events e r (es ++ e' ∷ []),
  contains-append es (e' ∷ []) e,
  ==_iff e' e,
)

distinct_events-IsDistinct :
    (r : Registry) (es : List Event) → IsDistinct es → IsDistinct (distinct_events r es)
unfolding distinct_events
distinct_events-IsDistinct [] es d = d
distinct_events-IsDistinct ((e, id) ∷ r) es d =
    distinct_events-IsDistinct r _ (ground (arith, IsDistinct-concat es e d))

-- The firmware is asked to wait for exactly the registered events, each listed once.
pub distinct_events_lem :
    (r : Registry)
    → IsDistinct (distinct_events r [])
      × ((e : Event) → contains (distinct_events r []) e ≡ has_event e r)
distinct_events_lem r = (distinct_events-IsDistinct r [] tt, λ e. contains-distinct_events e r [])

module _ {F W : Type 0} (fw : Firmware W) where
  pub contains-wait_signal :
      (es : List Event) (s : State F W) (index : ℕ) (e : Event) (id : TaskId)
      → (fw.wait_for_event es s.world).0 ≡ some index
      → get_elem? es index ≡ some e
      → contains (wait_signal fw es s).run_queue id
        ≡ (contains s.run_queue id || is_registered e id s.event_registry)
  unfolding wait_signal
  contains-wait_signal es s index e id w g =
      rw (w, wait_signal, g) (contains-wake_registered e s.event_registry s.run_queue id)

  -- What the wait does, where it comes to one.
  pub wait_for_events-wait_signal :
      (s : State F W)
      → is_empty s.tasks ≡ false
      → s.awake_tasks ≡ []
      → is_empty (distinct_events s.event_registry []) ≡ false
      → wait_for_events fw s ≡ wait_signal fw (distinct_events s.event_registry []) s
  unfolding wait_for_events
  wait_for_events-wait_signal s t a n = ground arith

  -- When tasks are left, no waker was called, and the firmware's wait ends with the index of the
  -- event `e` in the list that it was given, the tasks that are queued behind
  -- `wait_for_events` are those that were queued and those registered for `e`.
  pub wait_for_events_wakes :
      (s : State F W) (index : ℕ) (e : Event) (id : TaskId)
      → is_empty s.tasks ≡ false
      → s.awake_tasks ≡ []
      → (fw.wait_for_event (distinct_events s.event_registry []) s.world).0 ≡ some index
      → get_elem? (distinct_events s.event_registry []) index ≡ some e
      → contains (wait_for_events fw s).run_queue id
        ≡ (contains s.run_queue id || is_registered e id s.event_registry)
  wait_for_events_wakes s index e id t a w g =
      rw (wait_for_events-wait_signal s t a (ground arith))
        (contains-wait_signal (distinct_events s.event_registry []) s index e id w g)
