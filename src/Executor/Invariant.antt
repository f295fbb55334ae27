-- ===== src/Executor/Invariant.antt =====
-- The well-formedness of src/executor.rs's state, and that each operation keeps it.
use webuiboot.Base.{
  ◌<◌, ◌≡◌, refl, true, List, [], ◌∷◌, ◌++◌, none, some, arith, contains, IsDistinct,
  IsDistinct-concat,
}
use webuiboot.Executor.{
  TaskId, Poll, ready, pending, Effect, wake, register, State, contains_key, retain_others,
  entries_of, push_new, apply, apply_all, leave,
}
use webuiboot.Executor.Maps.{
  contains_key-insert, contains_key-remove, has_entry, has_entry-retain_others,
  has_entry-entries_of, has_entry-append, retain_others-append,
}

pub push_new-IsDistinct :
    (id : TaskId) (q : List TaskId) → IsDistinct q → IsDistinct (push_new id q)
push_new-IsDistinct id q d = ground (arith, IsDistinct-concat q id d)

module _ {F W : Type 0} where
  pub record IsValid (s : State F W) : Type 0 where
    pub queue_distinct : IsDistinct s.run_queue
    pub queue_live : (id : TaskId) → contains s.run_queue id ≡ true → contains_key id s.tasks ≡ true
    pub registry_live :
        (id : TaskId) → has_entry id s.event_registry ≡ true → contains_key id s.tasks ≡ true
    pub awake_distinct : IsDistinct s.awake_tasks
    pub none_current : s.current_task ≡ none
    pub nothing_unclaimed : s.global_registry ≡ []
    pub ids_below : (id : TaskId) → contains_key id s.tasks ≡ true → id < s.next_id

  -- What the calls made during a poll leave alone.
  pub record Framed (s t : State F W) : Type 0 where
    pub tasks : t.tasks ≡ s.tasks
    pub run_queue : t.run_queue ≡ s.run_queue
    pub event_registry : t.event_registry ≡ s.event_registry
    pub current_task : t.current_task ≡ s.current_task
    pub next_id : t.next_id ≡ s.next_id
    pub world : t.world ≡ s.world

  Framed-apply : (e : Effect) (s : State F W) → Framed s (apply e s)
  unfolding apply
  Framed-apply (wake id) s = ground arith
  Framed-apply (register event) s = ground arith

  pub Framed-apply_all : (es : List Effect) (s : State F W) → Framed s (apply_all es s)
  unfolding apply_all
  Framed-apply_all [] s = ground arith
  Framed-apply_all (e ∷ es) s = ground (arith, Framed-apply e s, Framed-apply_all es (apply e s))

  -- During the poll of `id` only its own entries come into the global registry.
  pub apply_all-only :
      (id : TaskId) (es : List Effect) (s : State F W)
      → s.current_task ≡ some id
      → retain_others id s.global_registry ≡ []
      → retain_others id (apply_all es s).global_registry ≡ []
  unfolding apply_all apply
  apply_all-only id [] s c h = h
  apply_all-only id (wake j ∷ es) s c h = apply_all-only id es (apply (wake j) s) c h
  apply_all-only id (register e ∷ es) s c h =
      apply_all-only id es (apply (register e) s) (ground arith)
        (ground (arith, retain_others-append id s.global_registry ((e, id) ∷ [])))

  pub apply_all-awake :
      (es : List Effect) (s : State F W)
      → IsDistinct s.awake_tasks
      → IsDistinct (apply_all es s).awake_tasks
  unfolding apply_all apply
  apply_all-awake [] s d = d
  apply_all-awake (wake j ∷ es) s d =
      apply_all-awake es (apply (wake j) s) (push_new-IsDistinct j s.awake_tasks d)
  apply_all-awake (register e ∷ es) s d = apply_all-awake es (apply (register e) s) (ground arith)

  -- Behind its poll a task's entries are the executor's or gone, and a finished task is removed.
  pub leave-IsValid :
      (id : TaskId) (outcome : Poll F) (s t : State F W)
      → IsValid s
      → s.run_queue ≡ []
      → contains_key id s.tasks ≡ true
      → t.tasks ≡ s.tasks
      → t.run_queue ≡ []
      → t.event_registry ≡ retain_others id s.event_registry
      → t.next_id ≡ s.next_id
      → retain_others id t.global_registry ≡ []
      → IsDistinct t.awake_tasks
      → IsValid (leave id outcome t)
  leave-IsValid id ready s t v q k et eq ee en eg ea = record {
    queue_distinct = rw eq tt;
    queue_live = λ j h. ground arith;
    registry_live = λ j h. ground (
      arith,
      has_entry-retain_others id j (t.event_registry ++ []),
      has_entry-append j t.event_registry [],
      has_entry-retain_others id j s.event_registry,
      contains_key-remove id j t.tasks,
      v.registry_live j,
    );
    awake_distinct = ea;
    none_current = refl;
    nothing_unclaimed = eg;
    ids_below = λ j h. ground (arith, contains_key-remove id j t.tasks, v.ids_below j);
  }
  leave-IsValid id (pending f) s t v q k et eq ee en eg ea = record {
    queue_distinct = rw eq tt;
    queue_live = λ j h. ground arith;
    registry_live = λ j h. ground (
      arith,
      has_entry-append j t.event_registry (entries_of id t.global_registry),
      has_entry-retain_others id j s.event_registry,
      has_entry-entries_of id j t.global_registry,
      contains_key-insert id j f t.tasks,
      v.registry_live j,
    );
    awake_distinct = ea;
    none_current = refl;
    nothing_unclaimed = eg;
    ids_below = λ j h. ground (arith, contains_key-insert id j f t.tasks, v.ids_below j);
  }
