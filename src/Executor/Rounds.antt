-- ===== src/Executor/Rounds.antt =====
-- What one round of src/executor.rs polls, and in which order.
use webuiboot.Base.{
  ◌≡◌, refl, Bool, true, false, ◌&&◌, ◌||◌, List, [], ◌∷◌, ◌++◌, Option, none, some, arith, ◌==◌,
  ==_refl, ==_iff, if◌then◌else◌, contains, contains-append, IsDistinct, is_empty, List-cases,
  Option-cases, inl, inr, ◌∙◌,
}
use webuiboot.Executor.{
  TaskId, Poll, ready, pending, Polled, State, get, contains_key, apply_all, drain, enter, leave,
  poll_task, run_task, run_list, queued, run_once,
}
use webuiboot.Executor.Maps.{get-insert, get-remove}
use webuiboot.Executor.Invariant.{IsValid, Framed-apply_all}
use webuiboot.Executor.Preserved.{drain-IsDistinct}

module _ {F : Type 0} where
  contains-drain :
      (ids : List TaskId) (tasks : List (TaskId × F)) (q : List TaskId) (j : TaskId)
      → contains (drain ids tasks q) j ≡ (contains q j || (contains ids j && contains_key j tasks))
  unfolding drain
  contains-drain [] tasks q j = ground arith
  contains-drain (id ∷ ids) tasks q j = ground (
    arith,
    contains-drain ids tasks (q ++ id ∷ []) j,
    contains-drain ids tasks q j,
    contains-append q (id ∷ []) j,
    ==_iff id j,
  )

  abbrev pub after : Poll F → Option F
  after ready = none
  after (pending f) = some f

-- the case split of `run_list-state_after`
join :
    {A : Type 0} (here there : Bool) (o x z : A) {y : A}
    → y ≡ (if here then o else z)
    → (here ≡ true → there ≡ false)
    → (if there then x else y) ≡ (if here || there then (if here then o else x) else z)
join true there o x z e h = rw (h refl) e
join false there o x z e h = rw e

module _ {F W : Type 0} where
  get-leave :
      (id j : TaskId) (outcome : Poll F) (t : State F W)
      → get j (leave id outcome t).tasks ≡ (if id == j then after outcome else get j t.tasks)
  get-leave id j ready t = get-remove id j t.tasks
  get-leave id j (pending f) t = get-insert id j f t.tasks

module _ {F W : Type 0} (poll : TaskId → F → W → Polled F W) where
  -- A round polls exactly the queued tasks and the live ones that were woken.
  pub contains-queued :
      (s : State F W) (id : TaskId)
      → contains (queued s) id
        ≡ (contains s.run_queue id || (contains s.awake_tasks id && contains_key id s.tasks))
  contains-queued s id = contains-drain s.awake_tasks s.tasks s.run_queue id

  -- The world after polling each listed task once, in order, from its state in `tasks`.
  pub poll_each : List TaskId → List (TaskId × F) → W → W
  poll_each [] tasks w = w
  poll_each (id ∷ ids) tasks w = elim (get id tasks) [
    | none ↦ poll_each ids tasks w
    | some f ↦ poll_each ids tasks (poll id f w).world
  ]

  -- What one such pass leaves of the task `j`: nothing, where its poll was ready.
  pub state_after : TaskId → List TaskId → List (TaskId × F) → W → Option F
  state_after j [] tasks w = get j tasks
  state_after j (id ∷ ids) tasks w = elim (get id tasks) [
    | none ↦ state_after j ids tasks w
    | some f ↦
        if id == j then after (poll id f w).outcome else state_after j ids tasks (poll id f w).world
  ]

  world-poll_task :
      (id : TaskId) (f : F) (s : State F W)
      → (poll_task poll id f s).world ≡ (poll id f s.world).world
  unfolding poll_task
  world-poll_task id f s = ground arith

  get-poll_task :
      (id j : TaskId) (f : F) (s : State F W)
      → get j (poll_task poll id f s).tasks
        ≡ (if id == j then after (poll id f s.world).outcome else get j s.tasks)
  unfolding poll_task
  get-poll_task id j f s =
      let polled = poll id f s.world in
      let frame = Framed-apply_all polled.effects (enter id s) in
      get-leave id j polled.outcome
        (record (apply_all polled.effects (enter id s)) { world = polled.world })
      ∙ rw frame.tasks

  -- A round over distinct tasks, each as it stands in `ts`, polls them all from there.
  run_list-poll_each :
      (ids : List TaskId) (ts : List (TaskId × F)) (s : State F W)
      → IsDistinct ids
      → ((k : TaskId) → contains ids k ≡ true → get k s.tasks ≡ get k ts)
      → (run_list poll ids s).world ≡ poll_each ids ts s.world
  unfolding run_list poll_each run_task
  run_list-poll_each [] ts s d h = refl
  run_list-poll_each (id ∷ ids) ts s d h = elim (Option-cases (get id s.tasks)) [
    | inl e ↦
        let e' : get id ts ≡ none = cc (h id (ground (arith, ==_refl id))) in
        rw (e, run_list, run_task, e', poll_each)
          (run_list-poll_each ids ts s d.1 (λ k m. h k (ground arith)))
    | inr (f, e) ↦
        let e' : get id ts ≡ some f = cc (h id (ground (arith, ==_refl id))) in
        rw (e, run_list, run_task, e', poll_each, ← world-poll_task id f s)
          (run_list-poll_each ids ts (poll_task poll id f s) d.1
            (λ k m. ground (arith, h k, get-poll_task id k f s, ==_iff id k)))
  ]

  state_after_absent :
      (j : TaskId) (ids : List TaskId) (ts : List (TaskId × F)) (w : W)
      → contains ids j ≡ false
      → state_after j ids ts w ≡ get j ts
  unfolding state_after
  state_after_absent j [] ts w h = refl
  state_after_absent j (id ∷ ids) ts w h = elim (Option-cases (get id ts)) [
    | inl e ↦ rw (e, state_after) (state_after_absent j ids ts w (ground arith))
    | inr (f, e) ↦
        rw (e, state_after) (ground (arith, state_after_absent j ids ts (poll id f w).world))
  ]

  run_list-state_after :
      (j : TaskId) (ids : List TaskId) (ts : List (TaskId × F)) (s : State F W)
      → IsDistinct ids
      → ((k : TaskId) → contains ids k ≡ true → get k s.tasks ≡ get k ts)
      → get j (run_list poll ids s).tasks
        ≡ (if contains ids j then state_after j ids ts s.world else get j s.tasks)
  unfolding run_list state_after run_task
  run_list-state_after j [] ts s d h = refl
  run_list-state_after j (id ∷ ids) ts s d h = elim (Option-cases (get id s.tasks)) [
    | inl e ↦
        let e' : get id ts ≡ none = cc (h id (ground (arith, ==_refl id))) in
        rw (e, run_list, run_task, e', state_after)
          (run_list-state_after j ids ts s d.1 (λ k m. h k (ground arith))
            ∙ ground (arith, state_after_absent j ids ts s.world, ==_iff id j, h j, h id))
    | inr (f, e) ↦
        let e' : get id ts ≡ some f = cc (h id (ground (arith, ==_refl id))) in
        let s' = poll_task poll id f s in
        let ih =
          run_list-state_after j ids ts s' d.1
            (λ k m. ground (arith, h k, get-poll_task id k f s, ==_iff id k)) in
        rw (e, run_list, run_task, e', state_after, ← world-poll_task id f s)
          (ih
            ∙ join (id == j) (contains ids j) _ _ _ (get-poll_task id j f s)
                (λ same. ground (arith, ==_iff id j)))
  ]

  -- From a well-formed state, a round leaves the world that is left when each task of the queue is
  -- polled exactly once, in the order of the queue, from the state in which it was when the round
  -- began.
  pub run_once-poll_each :
      (s : State F W) → IsValid s → (run_once poll s).0.world ≡ poll_each (queued s) s.tasks s.world
  unfolding run_once poll_each
  run_once-poll_each s v =
      let q = queued s in
      let distinct = drain-IsDistinct s.awake_tasks s.tasks s.run_queue v.queue_distinct in
      let start = record s { awake_tasks = []; run_queue = [] } in
      elim (List-cases q) [
        | inl e ↦ rw (e, poll_each)
        | inr (id, ids, e) ↦
            rw (e, is_empty, if◌then◌else◌)
              (run_list-poll_each (id ∷ ids) s.tasks start (rw e at distinct) (λ k m. refl))
      ]

  -- From a well-formed state: behind a round a queued task is gone if its poll was ready and waits
  -- in the state that the poll left otherwise; every other task is as it was.
  pub run_once-state_after :
      (s : State F W) (id : TaskId)
      → IsValid s
      → get id (run_once poll s).0.tasks ≡ (
          if contains (queued s) id
          then state_after id (queued s) s.tasks s.world
          else get id s.tasks)
  unfolding run_once
  run_once-state_after s j v =
      let q = queued s in
      let distinct = drain-IsDistinct s.awake_tasks s.tasks s.run_queue v.queue_distinct in
      let start = record s { awake_tasks = []; run_queue = [] } in
      elim (List-cases q) [
        | inl e ↦ rw e
        | inr (id, ids, e) ↦
            rw e (run_list-state_after j (id ∷ ids) s.tasks start (rw e at distinct) (λ k m. refl))
      ]
