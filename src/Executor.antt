-- ===== src/Executor.antt =====
-- src/executor.rs: the single-threaded executor, with its statics. A future is a parameter: `poll`,
-- which gets its task's waker (the id), gives what one poll calls (wakers, `register_event_for_current_task`), whether it is ready, and
-- the world that it leaves. Events are the handles that the firmware gives, as numbers.
pub mod Maps
pub mod Loop
pub mod Invariant
pub mod Preserved
pub mod Rounds
pub mod Events
pub mod Progress
pub mod Budget
mod Waiting
pub mod Awake
pub mod Lasting
pub mod Liveness
pub mod Stalled
mod Tests
use webuiboot.Base.{
  ℕ, ◌+◌, Bool, true, false, not, ◌&&◌, ◌||◌, List, [], ◌∷◌, ◌++◌, Option, none, some, ◌==◌,
  if◌then◌else◌, contains, is_empty,
}

abbrev pub TaskId : Type 0
TaskId = ℕ

abbrev pub Event : Type 0
Event = ℕ

abbrev pub Registry : Type 0
Registry = List (Event × TaskId)

pub data Poll (F : Type 0) : Type 0 where
  ready : Poll F
  -- with the state in which the future waits
  pending : F → Poll F

-- A call that a future makes while it is polled.
pub data Effect : Type 0 where
  wake : TaskId → Effect
  register : Event → Effect

pub record Polled (F W : Type 0) : Type 0 where
  pub effects : List Effect
  pub outcome : Poll F
  pub world : W

-- The executor's fields, the statics of the module, and the world outside.
pub record State (F W : Type 0) : Type 0 where
  pub tasks : List (TaskId × F)
  pub run_queue : List TaskId
  pub event_registry : Registry
  pub awake_tasks : List TaskId
  pub current_task : Option TaskId
  pub global_registry : Registry
  pub next_id : ℕ
  pub world : W

-- The `BTreeMap` of tasks.
module _ {F : Type 0} where
  abbrev pub get : TaskId → List (TaskId × F) → Option F
  get id [] = none
  get id ((j, f) ∷ ts) = if j == id then some f else get id ts

  abbrev pub contains_key : TaskId → List (TaskId × F) → Bool
  contains_key id [] = false
  contains_key id ((j, f) ∷ ts) = j == id || contains_key id ts

  abbrev pub insert : TaskId → F → List (TaskId × F) → List (TaskId × F)
  insert id f [] = (id, f) ∷ []
  insert id f ((j, g) ∷ ts) = if j == id then (id, f) ∷ ts else (j, g) ∷ insert id f ts

  abbrev pub remove : TaskId → List (TaskId × F) → List (TaskId × F)
  remove id [] = []
  remove id ((j, g) ∷ ts) = if j == id then remove id ts else (j, g) ∷ remove id ts

-- `retain(|(_, tid)| *tid != id)`
abbrev pub retain_others : TaskId → Registry → Registry
retain_others id [] = []
retain_others id ((e, tid) ∷ r) =
    if tid == id then retain_others id r else (e, tid) ∷ retain_others id r

-- the entries of one task, under its own id
abbrev pub entries_of : TaskId → Registry → Registry
entries_of id [] = []
entries_of id ((e, tid) ∷ r) = if tid == id then (e, id) ∷ entries_of id r else entries_of id r

-- `any(|(e, tid)| *e == *event && *tid == id)`
abbrev pub is_registered : Event → TaskId → Registry → Bool
is_registered event id [] = false
is_registered event id ((e, tid) ∷ r) = (e == event && tid == id) || is_registered event id r

abbrev pub push_new : TaskId → List TaskId → List TaskId
push_new id q = if contains q id then q else q ++ id ∷ []

module _ {F : Type 0} where
  -- what moves from the global registry to the executor's after a poll
  abbrev pub claimed : TaskId → Poll F → Registry → Registry
  claimed id ready r = []
  claimed id (pending f) r = entries_of id r

  -- `drain(..)` of the awake tasks into the run queue
  unfoldable pub drain : List TaskId → List (TaskId × F) → List TaskId → List TaskId
  drain [] tasks q = q
  drain (id ∷ ids) tasks q =
      drain ids tasks (if contains_key id tasks && not (contains q id) then q ++ id ∷ [] else q)

module _ {F W : Type 0} where
  abbrev pub new : W → State F W
  new w = record {
    tasks = [];
    run_queue = [];
    event_registry = [];
    awake_tasks = [];
    current_task = none;
    global_registry = [];
    next_id = 0;
    world = w;
  }

  unfoldable pub spawn : F → State F W → State F W
  spawn future s = record s {
    next_id = s.next_id + 1;
    tasks = insert s.next_id future s.tasks;
    run_queue = s.run_queue ++ s.next_id ∷ [];
  }

  pub wake_waker : TaskId → State F W → State F W
  wake_waker id s = record s { awake_tasks = push_new id s.awake_tasks }

  pub register_event_for_current_task : Event → State F W → State F W
  register_event_for_current_task event s = elim s.current_task [
    | none ↦ s
    | some id ↦
        if is_registered event id s.global_registry
        then s
        else record s { global_registry = s.global_registry ++ (event, id) ∷ [] }
  ]

  pub apply : Effect → State F W → State F W
  unfolding wake_waker register_event_for_current_task
  apply (wake id) s = wake_waker id s
  apply (register event) s = register_event_for_current_task event s

  unfoldable pub apply_all : List Effect → State F W → State F W
  apply_all [] s = s
  apply_all (e ∷ es) s = apply_all es (apply e s)

  abbrev pub settle : TaskId → Poll F → State F W → State F W
  settle id ready s = record s {
    tasks = remove id s.tasks;
    event_registry = retain_others id s.event_registry;
  }
  settle id (pending f) s = record s { tasks = insert id f s.tasks }

  -- the statements before the poll
  abbrev pub enter : TaskId → State F W → State F W
  enter id s = record s {
    current_task = some id;
    event_registry = retain_others id s.event_registry;
  }

  -- the statements behind the poll
  abbrev pub leave : TaskId → Poll F → State F W → State F W
  leave id outcome s = settle id outcome (record s {
    current_task = none;
    event_registry = s.event_registry ++ claimed id outcome s.global_registry;
    global_registry = retain_others id s.global_registry;
  })

  -- the run queue after the drain
  abbrev pub queued : State F W → List TaskId
  queued s = drain s.awake_tasks s.tasks s.run_queue

module _ {F W : Type 0} (poll : TaskId → F → W → Polled F W) where
  unfoldable pub poll_task : TaskId → F → State F W → State F W
  poll_task id future s =
      let polled = poll id future s.world in
      leave id polled.outcome
        (record (apply_all polled.effects (enter id s)) { world = polled.world })

  -- the body of the loop over the run list
  unfoldable pub run_task : TaskId → State F W → State F W
  run_task id s = elim (get id s.tasks) [ none ↦ s | some future ↦ poll_task id future s ]

  unfoldable pub run_list : List TaskId → State F W → State F W
  run_list [] s = s
  run_list (id ∷ ids) s = run_list ids (run_task id s)

  unfoldable pub run_once : State F W → State F W × Bool
  run_once s =
      let s' = record s { awake_tasks = []; run_queue = queued s } in
      if is_empty (queued s)
      then (s', false)
      else (run_list (queued s) (record s' { run_queue = [] }), true)
