-- ===== src/Executor/Preserved.antt =====
-- Every operation of src/executor.rs keeps its state well formed.
use webuiboot.Base.{
  ◌≡◌, refl, true, List, [], ◌∷◌, Option, none, some, arith, ==_refl, ==_iff, contains,
  contains-append, IsDistinct, IsDistinct-concat, is_empty, Bool-cases, Option-cases, inl, inr, ap,
  ◌∙◌, get_elem?,
}
use webuiboot.Executor.{
  TaskId, Event, Registry, Polled, State, get, contains_key, new, spawn, apply_all, drain, enter,
  poll_task, run_task, run_list, queued, run_once,
}
use webuiboot.Executor.Maps.{contains_key-insert, contains_key-get, has_entry, is_some}
use webuiboot.Executor.Invariant.{
  IsValid, Framed-apply_all, apply_all-only, apply_all-awake, leave-IsValid, push_new-IsDistinct,
}
use webuiboot.Executor.Loop.{
  Firmware, distinct_events, wake_registered, signaled_queue, wait_signal, wait_for_events,
}

module _ {F W : Type 0} (poll : TaskId → F → W → Polled F W) where
  poll_task-IsValid :
      (id : TaskId) (f : F) (s : State F W)
      → IsValid s
      → s.run_queue ≡ []
      → get id s.tasks ≡ some f
      → IsValid (poll_task poll id f s) × ((poll_task poll id f s).run_queue ≡ [])
  unfolding poll_task
  poll_task-IsValid id f s v q e =
      let polled = poll id f s.world in
      let inside = apply_all polled.effects (enter id s) in
      let frame = Framed-apply_all polled.effects (enter id s) in
      let only = apply_all-only id polled.effects (enter id s) refl (rw v.nothing_unclaimed refl) in
      let awake = apply_all-awake polled.effects (enter id s) v.awake_distinct in
      (
        leave-IsValid id polled.outcome s (record inside { world = polled.world }) v q
            (contains_key-get id s.tasks ∙ ap is_some e) frame.tasks (frame.run_queue ∙ q)
            frame.event_registry frame.next_id only awake,
        ground (arith, frame.run_queue),
      )

  pub run_task-IsValid :
      (id : TaskId) (s : State F W)
      → IsValid s
      → s.run_queue ≡ []
      → IsValid (run_task poll id s) × ((run_task poll id s).run_queue ≡ [])
  unfolding run_task
  run_task-IsValid id s v q = elim (Option-cases (get id s.tasks)) [
    | inl e ↦ rw (e, run_task) (v, q)
    | inr (f, e) ↦ rw (e, run_task) (poll_task-IsValid id f s v q e)
  ]

  pub run_list-IsValid :
      (ids : List TaskId) (s : State F W)
      → IsValid s
      → s.run_queue ≡ []
      → IsValid (run_list poll ids s)
  unfolding run_list
  run_list-IsValid [] s v q = v
  run_list-IsValid (id ∷ ids) s v q =
      let (v', q') = run_task-IsValid id s v q in run_list-IsValid ids (run_task poll id s) v' q'

module _ {F : Type 0} where
  abbrev pub QueueLive : List TaskId → List (TaskId × F) → Type 0
  QueueLive q tasks = (id : TaskId) → contains q id ≡ true → contains_key id tasks ≡ true

  pub drain-IsDistinct :
      (ids : List TaskId) (tasks : List (TaskId × F)) (q : List TaskId)
      → IsDistinct q
      → IsDistinct (drain ids tasks q)
  unfolding drain
  drain-IsDistinct [] tasks q d = d
  drain-IsDistinct (id ∷ ids) tasks q d =
      drain-IsDistinct ids tasks _ (ground (arith, IsDistinct-concat q id d))

  pub drain-QueueLive :
      (ids : List TaskId) (tasks : List (TaskId × F)) (q : List TaskId)
      → QueueLive q tasks
      → QueueLive (drain ids tasks q) tasks
  unfolding drain
  drain-QueueLive [] tasks q l = l
  drain-QueueLive (id ∷ ids) tasks q l =
      drain-QueueLive ids tasks _
        (λ j h. ground (arith, contains-append q (id ∷ []) j, l j, ==_iff id j))

module _ {F W : Type 0} where
  -- with both queues taken
  pub taken-IsValid :
      (s : State F W) → IsValid s → IsValid (record s { awake_tasks = []; run_queue = [] })
  taken-IsValid s v = record {
    queue_distinct = tt;
    queue_live = λ j h. cc;
    registry_live = v.registry_live;
    awake_distinct = tt;
    none_current = v.none_current;
    nothing_unclaimed = v.nothing_unclaimed;
    ids_below = v.ids_below;
  }

module _ {F W : Type 0} (poll : TaskId → F → W → Polled F W) where
  -- A round keeps the state well formed, whatever the futures do.
  pub run_once-IsValid : (s : State F W) → IsValid s → IsValid (run_once poll s).0
  unfolding run_once
  run_once-IsValid s v =
      let q = queued s in
      let distinct = drain-IsDistinct s.awake_tasks s.tasks s.run_queue v.queue_distinct in
      let live = drain-QueueLive s.awake_tasks s.tasks s.run_queue v.queue_live in
      elim (Bool-cases (is_empty q)) [
        | inl e ↦ rw e (record {
          queue_distinct = distinct;
          queue_live = live;
          registry_live = v.registry_live;
          awake_distinct = tt;
          none_current = v.none_current;
          nothing_unclaimed = v.nothing_unclaimed;
          ids_below = v.ids_below;
        })
        | inr e ↦ rw e (
            run_list-IsValid poll q (record s { awake_tasks = []; run_queue = [] })
              (taken-IsValid s v) refl)
      ]

wake_registered-IsDistinct :
    (e : Event) (r : Registry) (q : List TaskId) → IsDistinct q → IsDistinct (wake_registered e r q)
unfolding wake_registered
wake_registered-IsDistinct e [] q d = d
wake_registered-IsDistinct e ((e', id) ∷ r) q d =
    wake_registered-IsDistinct e r _ (ground (arith, push_new-IsDistinct id q d))

module _ {F : Type 0} where
  wake_registered-QueueLive :
      (e : Event) (r : Registry) (q : List TaskId) (tasks : List (TaskId × F))
      → ((id : TaskId) → has_entry id r ≡ true → contains_key id tasks ≡ true)
      → QueueLive q tasks
      → QueueLive (wake_registered e r q) tasks
  unfolding wake_registered
  wake_registered-QueueLive e [] q tasks k l = l
  wake_registered-QueueLive e ((e', id) ∷ r) q tasks k l =
      wake_registered-QueueLive e r _ tasks (λ j h. k j (ground arith))
        (λ j h. ground (arith, contains-append q (id ∷ []) j, l j, k id, ==_iff id j, ==_refl id))

module _ {F W : Type 0} where
  pub spawn-IsValid : (f : F) (s : State F W) → IsValid s → IsValid (spawn f s)
  unfolding spawn
  spawn-IsValid f s v = record {
    queue_distinct =
        IsDistinct-concat s.run_queue s.next_id v.queue_distinct
          (ground (arith, v.queue_live s.next_id, v.ids_below s.next_id));
    queue_live = λ j h. ground (
      arith,
      contains-append s.run_queue (s.next_id ∷ []) j,
      contains_key-insert s.next_id j f s.tasks,
      v.queue_live j,
    );
    registry_live =
        λ j h. ground (arith, contains_key-insert s.next_id j f s.tasks, v.registry_live j);
    awake_distinct = v.awake_distinct;
    none_current = v.none_current;
    nothing_unclaimed = v.nothing_unclaimed;
    ids_below = λ j h. ground (arith, contains_key-insert s.next_id j f s.tasks, v.ids_below j);
  }

module _ {F W : Type 0} (fw : Firmware W) where
  signaled-IsValid :
      (e : Option Event) (s : State F W) (w : W)
      → IsValid s
      → IsValid (record s { run_queue = signaled_queue e s.event_registry s.run_queue; world = w })
  signaled-IsValid none s w v = ground arith
  signaled-IsValid (some e) s w v = record {
    queue_distinct = wake_registered-IsDistinct e s.event_registry s.run_queue v.queue_distinct;
    queue_live =
        wake_registered-QueueLive e s.event_registry s.run_queue s.tasks v.registry_live
          v.queue_live;
    registry_live = v.registry_live;
    awake_distinct = v.awake_distinct;
    none_current = v.none_current;
    nothing_unclaimed = v.nothing_unclaimed;
    ids_below = v.ids_below;
  }

  wait_signal-IsValid :
      (es : List Event) (s : State F W) → IsValid s → IsValid (wait_signal fw es s)
  unfolding wait_signal
  wait_signal-IsValid es s v = elim (Option-cases (fw.wait_for_event es s.world).0) [
    | inl e ↦ rw (e, wait_signal) (ground arith)
    | inr (i, e) ↦
        rw (e, wait_signal) (signaled-IsValid (get_elem? es i) s (fw.wait_for_event es s.world).1 v)
  ]

  pub wait_for_events-IsValid : (s : State F W) → IsValid s → IsValid (wait_for_events fw s)
  unfolding wait_for_events
  wait_for_events-IsValid s v =
      ground (arith, wait_signal-IsValid (distinct_events s.event_registry []) s v)

pub new-IsValid : {F W : Type 0} (w : W) → IsValid (new {F = F} w)
new-IsValid w = record {
  queue_distinct = tt;
  queue_live = λ id h. cc;
  registry_live = λ id h. cc;
  awake_distinct = tt;
  none_current = refl;
  nothing_unclaimed = refl;
  ids_below = λ id h. cc;
}

-- What can happen to an executor.
module _ {F W : Type 0} (poll : TaskId → F → W → Polled F W) (fw : Firmware W) where
  pub data Reach (start : State F W) : State F W → Type 0 where
    here : Reach start start
    spawned : {s : State F W} → Reach start s → (f : F) → Reach start (spawn f s)
    ran_once : {s : State F W} → Reach start s → Reach start (run_once poll s).0
    waited : {s : State F W} → Reach start s → Reach start (wait_for_events fw s)

  -- From a well-formed state, spawns, rounds and waits, in any order and with any futures, lead to
  -- well-formed states: the queue and the woken tasks are without duplicates, all that is queued or
  -- registered is a live task, no task is current and no registration unclaimed between polls, and
  -- every id is below the next one.
  pub Reach-IsValid : {start s : State F W} → IsValid start → Reach start s → IsValid s
  Reach-IsValid v here = v
  Reach-IsValid v (spawned r f) = spawn-IsValid f _ (Reach-IsValid v r)
  Reach-IsValid v (ran_once r) = run_once-IsValid poll _ (Reach-IsValid v r)
  Reach-IsValid v (waited r) = wait_for_events-IsValid fw _ (Reach-IsValid v r)
