-- ===== src/Executor/Progress.antt =====
-- No wake-up of src/executor.rs is lost: every live task is queued, woken, or registered.
use webuiboot.Base.{
  ◌≡◌, refl, Bool, true, false, ◌||◌, List, [], ◌∷◌, ◌++◌, some, arith, ◌==◌, ==_refl, ==_iff,
  contains, contains-append, is_empty, Bool-cases, Option-cases, inl, inr, ◌∙◌,
}
use webuiboot.Executor.{
  TaskId, Event, Registry, Poll, ready, pending, Effect, wake, register, Polled, State, get,
  contains_key, retain_others, entries_of, is_registered, push_new, apply, apply_all, enter, leave,
  poll_task, run_task, run_list, queued, run_once,
}
use webuiboot.Executor.Maps.{has_entry}
use webuiboot.Executor.Invariant.{IsValid, Framed-apply_all}
use webuiboot.Executor.Events.{waits}
use webuiboot.Executor.Rounds.{contains-queued}
use webuiboot.Executor.Preserved.{run_task-IsValid, taken-IsValid}
use webuiboot.Executor.Maps.{
  contains_key-insert, contains_key-remove, contains_key-get, has_entry-retain_others,
  has_entry-entries_of, has_entry-append,
}

-- The poll of the task `id` called its own waker, or registered an event.
abbrev pub arranges : TaskId → List Effect → Bool
arranges id [] = false
arranges id (wake j ∷ es) = j == id || arranges id es
arranges id (register e ∷ es) = true

abbrev pub wakes : TaskId → List Effect → Bool
wakes id [] = false
wakes id (wake j ∷ es) = j == id || wakes id es
wakes id (register e ∷ es) = wakes id es

abbrev pub registers_any : List Effect → Bool
registers_any [] = false
registers_any (wake j ∷ es) = registers_any es
registers_any (register e ∷ es) = true

arranges_lem : (id : TaskId) (es : List Effect) → arranges id es ≡ (wakes id es || registers_any es)
arranges_lem id [] = refl
arranges_lem id (wake j ∷ es) = ground (arith, arranges_lem id es)
arranges_lem id (register e ∷ es) = ground arith

contains-push_new :
    (id j : TaskId) (q : List TaskId) → contains (push_new id q) j ≡ (contains q j || id == j)
contains-push_new id j q = ground (arith, contains-append q (id ∷ []) j, ==_iff id j)

is_registered→has_entry :
    (e : Event) (id : TaskId) (r : Registry) → is_registered e id r ≡ true → has_entry id r ≡ true
is_registered→has_entry e id [] h = h
is_registered→has_entry e id ((e', j) ∷ r) h = ground (arith, is_registered→has_entry e id r)

-- A poll that is not ready has arranged to be made again.
abbrev pub Arranged : {F : Type 0} → TaskId → Poll F → List Effect → Type 0
Arranged id outcome es = waits outcome ≡ true → arranges id es ≡ true

module _ {F W : Type 0} where
  contains-apply_all :
      (j : TaskId) (es : List Effect) (s : State F W)
      → contains (apply_all es s).awake_tasks j ≡ (contains s.awake_tasks j || wakes j es)
  unfolding apply_all apply
  contains-apply_all j [] s = ground arith
  contains-apply_all j (wake i ∷ es) s =
      contains-apply_all j es (apply (wake i) s)
      ∙ ground (arith, contains-push_new i j s.awake_tasks)
  contains-apply_all j (register e ∷ es) s =
      contains-apply_all j es (apply (register e) s) ∙ ground arith

  has_entry-apply_all :
      (id : TaskId) (es : List Effect) (s : State F W)
      → s.current_task ≡ some id
      → has_entry id (apply_all es s).global_registry
        ≡ (has_entry id s.global_registry || registers_any es)
  unfolding apply_all apply
  has_entry-apply_all id [] s c = ground arith
  has_entry-apply_all id (wake j ∷ es) s c = has_entry-apply_all id es (apply (wake j) s) c
  has_entry-apply_all id (register e ∷ es) s c =
      has_entry-apply_all id es (apply (register e) s) (ground arith)
      ∙ ground (
        arith,
        has_entry-append id s.global_registry ((e, id) ∷ []),
        is_registered→has_entry e id s.global_registry,
        ==_refl id,
      )

  -- Behind a round's turn: `rest` is what the round has still to poll.
  abbrev pub Covered : List TaskId → State F W → Type 0
  Covered rest s =
      (id : TaskId)
      → contains_key id s.tasks ≡ true
      → (contains rest id || (contains s.awake_tasks id || has_entry id s.event_registry)) ≡ true

  Covered-leave :
      (id : TaskId) (rest : List TaskId) (outcome : Poll F) (es : List Effect) (s t : State F W)
      → Arranged id outcome es
      → Covered (id ∷ rest) s
      → t.tasks ≡ s.tasks
      → t.event_registry ≡ retain_others id s.event_registry
      → ((j : TaskId) → contains t.awake_tasks j ≡ (contains s.awake_tasks j || wakes j es))
      → has_entry id t.global_registry ≡ registers_any es
      → Covered rest (leave id outcome t)
  Covered-leave id rest ready es s t a c et ee ea eg j k = ground (
    arith,
    c j,
    ea j,
    contains_key-remove id j t.tasks,
    has_entry-retain_others id j (t.event_registry ++ []),
    has_entry-append j t.event_registry [],
    has_entry-retain_others id j s.event_registry,
  )
  Covered-leave id rest (pending f) es s t a c et ee ea eg j k = ground (
    arith,
    a refl,
    c j,
    ea j,
    arranges_lem id es,
    contains_key-insert id j f t.tasks,
    has_entry-append j t.event_registry (entries_of id t.global_registry),
    has_entry-retain_others id j s.event_registry,
    has_entry-entries_of id j t.global_registry,
    ==_iff id j,
  )

module _ {F W : Type 0} (poll : TaskId → F → W → Polled F W)
    (arranged : (id : TaskId) (f : F) (w : W)
      → Arranged id (poll id f w).outcome (poll id f w).effects) where
  Covered-poll_task :
      (id : TaskId) (rest : List TaskId) (f : F) (s : State F W)
      → IsValid s
      → Covered (id ∷ rest) s
      → Covered rest (poll_task poll id f s)
  unfolding poll_task
  Covered-poll_task id rest f s v c =
      let polled = poll id f s.world in
      let inside = apply_all polled.effects (enter id s) in
      let frame = Framed-apply_all polled.effects (enter id s) in
      Covered-leave id rest polled.outcome polled.effects s (record inside { world = polled.world })
        (arranged id f s.world) c frame.tasks frame.event_registry
        (λ j. contains-apply_all j polled.effects (enter id s))
        (has_entry-apply_all id polled.effects (enter id s) refl ∙ rw v.nothing_unclaimed refl)

  pub Covered-run_task :
      (id : TaskId) (rest : List TaskId) (s : State F W)
      → IsValid s
      → Covered (id ∷ rest) s
      → Covered rest (run_task poll id s)
  unfolding run_task
  Covered-run_task id rest s v c = elim (Option-cases (get id s.tasks)) [
    | inl e ↦
        rw (e, run_task) (λ j k. ground (arith, c j k, contains_key-get j s.tasks, ==_iff id j))
    | inr (f, e) ↦ rw (e, run_task) (Covered-poll_task id rest f s v c)
  ]

  pub Covered-run_list :
      (ids : List TaskId) (s : State F W)
      → IsValid s
      → s.run_queue ≡ []
      → Covered ids s
      → Covered [] (run_list poll ids s)
  unfolding run_list
  Covered-run_list [] s v q c = c
  Covered-run_list (id ∷ ids) s v q c =
      let (v', q') = run_task-IsValid poll id s v q in
      Covered-run_list ids (run_task poll id s) v' q' (Covered-run_task id ids s v c)

  pub Covered-queued :
      (s : State F W)
      → Covered s.run_queue s
      → Covered (queued s) (record s { awake_tasks = []; run_queue = [] })
  Covered-queued s c j k = ground (arith, c j k, contains-queued poll s j)

  -- A round loses no wake-up.
  pub Covered-run_once :
      (s : State F W)
      → IsValid s
      → Covered s.run_queue s
      → Covered (run_once poll s).0.run_queue (run_once poll s).0
  unfolding run_once
  Covered-run_once s v c =
      let q = queued s in
      let start = record s { awake_tasks = []; run_queue = [] } in
      elim (Bool-cases (is_empty q)) [
        | inl e ↦ rw e (λ j k. Covered-queued s c j k)
        | inr e ↦ rw e (λ j k. ground (
          arith,
          Covered-run_list q start (taken-IsValid s v) refl (λ i h. Covered-queued s c i h) j k,
        ))
      ]
