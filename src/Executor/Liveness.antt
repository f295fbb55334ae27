-- ===== src/Executor/Liveness.antt =====
-- The loop of src/executor.rs ends, where every future finishes after so many polls and arranges
-- for each next one.
use webuiboot.Base.{
  ℕ, zero, suc, ◌+◌, ◌<◌, ◌≤◌, ◌*◌, ◌≡◌, true, false, List, [], ◌∷◌, some, arith, ==_refl,
  if◌then◌else◌, is_empty, List-cases, Bool-cases, Option-cases, inl, inr, ap, ◌∙◌, get_elem?,
  subst,
}
use webuiboot.Executor.{
  TaskId, Event, Polled, State, get, apply_all, enter, leave, poll_task, run_task, run_list, queued,
  run_once,
}
use webuiboot.Executor.Invariant.{IsValid, Framed-apply_all}
use webuiboot.Executor.Loop.{Firmware, round, run}
use webuiboot.Executor.Maps.{is_some, contains_key-get}
use webuiboot.Executor.Preserved.{drain-QueueLive}
use webuiboot.Executor.Progress.{Arranged, Covered}
use webuiboot.Executor.Budget.{total, Falls, total-leave-lt}
use webuiboot.Executor.Awake.{idle_round, round-IsValid, round-Covered}

-- What the loop rests on: each poll leaves fewer, and one that is not ready has called its waker or
-- registered an event; a wait for some events ends at one of them.
pub record Assumptions {F W : Type 0} (poll : TaskId → F → W → Polled F W) (fw : Firmware W)
    (rank : F → ℕ) : Type 0 where
  pub falls : (id : TaskId) (f : F) (w : W) → Falls rank f (poll id f w).outcome
  pub arranged :
      (id : TaskId) (f : F) (w : W) → Arranged id (poll id f w).outcome (poll id f w).effects
  pub signals :
      (es : List Event) (w : W)
      → is_empty es ≡ false
      → (index : ℕ) × (e : Event) × ((fw.wait_for_event es w).0 ≡ some index)
        × (get_elem? es index ≡ some e)

module _ {F W : Type 0} (poll : TaskId → F → W → Polled F W) (fw : Firmware W) (rank : F → ℕ)
    (a : Assumptions poll fw rank) where
  total-poll_task-lt :
      (id : TaskId) (f : F) (s : State F W)
      → get id s.tasks ≡ some f
      → total rank (poll_task poll id f s).tasks < total rank s.tasks
  unfolding poll_task
  total-poll_task-lt id f s e =
      let polled = poll id f s.world in
      let inside = apply_all polled.effects (enter id s) in
      let frame = Framed-apply_all polled.effects (enter id s) in
      subst
        (λ ts.
          total rank (leave id polled.outcome (record inside { world = polled.world })).tasks
          < total rank ts)
        frame.tasks
        (total-leave-lt rank id f polled.outcome (record inside { world = polled.world })
          (ap (get id) frame.tasks ∙ e) (a.falls id f s.world))

  total-run_task-le :
      (id : TaskId) (s : State F W) → total rank (run_task poll id s).tasks ≤ total rank s.tasks
  unfolding run_task
  total-run_task-le id s = elim (Option-cases (get id s.tasks)) [
    | inl e ↦ rw (e, run_task) (omega arith)
    | inr (f, e) ↦ rw (e, run_task) (omega (arith, total-poll_task-lt id f s e))
  ]

  total-run_list-le :
      (ids : List TaskId) (s : State F W)
      → total rank (run_list poll ids s).tasks ≤ total rank s.tasks
  unfolding run_list
  total-run_list-le [] s = omega arith
  total-run_list-le (id ∷ ids) s =
      omega (arith, total-run_task-le id s, total-run_list-le ids (run_task poll id s))

  -- A list that begins with a live task uses up a poll.
  total-run_list-lt :
      (id : TaskId) (ids : List TaskId) (s : State F W) (f : F)
      → get id s.tasks ≡ some f
      → total rank (run_list poll (id ∷ ids) s).tasks < total rank s.tasks
  unfolding run_list run_task
  total-run_list-lt id ids s f e =
      rw (e, run_list, run_task)
        (omega (arith, total-poll_task-lt id f s e, total-run_list-le ids (poll_task poll id f s)))

  busy_round :
      (s : State F W) (id : TaskId) (ids : List TaskId)
      → IsValid s
      → queued s ≡ id ∷ ids
      → total rank (round poll fw s).tasks < total rank s.tasks
  unfolding round run_once
  busy_round s id ids v e =
      let start = record s { awake_tasks = []; run_queue = [] } in
      let live = drain-QueueLive s.awake_tasks s.tasks s.run_queue v.queue_live id in
      let known = live (rw e (ground (arith, ==_refl id))) in
      elim (Option-cases (get id s.tasks)) [
        | inl missing ↦ cc (known, contains_key-get id s.tasks, ap is_some missing)
        | inr (f, found) ↦ rw e (total-run_list-lt id ids start f found)
      ]

  -- How many rounds are left at most: each polls, or waits and makes the next one poll.
  abbrev pub rounds_left : State F W → ℕ
  rounds_left s = 2 * total rank s.tasks + (if is_empty (queued s) then 1 else 0)

  round-lt :
      (s : State F W)
      → IsValid s
      → Covered s.run_queue s
      → is_empty s.tasks ≡ false
      → rounds_left (round poll fw s) < rounds_left s
  round-lt s v c t = elim (List-cases (queued s)) [
    | inl e ↦ let (same, busy) = idle_round poll fw a.arranged a.signals s c e t in ground arith
    | inr (id, ids, e) ↦ ground (arith, busy_round s id ids v e)
  ]

  -- Where every poll ends its task or lowers its rank, every poll that is not ready has called its
  -- waker or registered an event, and every wait for some events ends at one of them: from a
  -- well-formed state in which every task is queued, woken or registered, and with fuel for the rounds
  -- that are left, `run` ends, and no task is left.
  pub run_ends :
      (fuel : ℕ) (s : State F W)
      → IsValid s
      → Covered s.run_queue s
      → rounds_left s < fuel
      → (t : State F W) × (run poll fw fuel s ≡ some t) × (is_empty t.tasks ≡ true)
  unfolding run
  run_ends zero s v c h = absurd (omega arith)
  run_ends (suc fuel) s v c h = elim (Bool-cases (is_empty s.tasks)) [
    | inl done ↦ (s, rw (done, run), done)
    | inr more ↦
        let (t, ends, empty) =
          run_ends fuel (round poll fw s) (round-IsValid poll fw a.arranged a.signals s v)
            (round-Covered poll fw a.arranged a.signals s v c)
            (omega (arith, round-lt s v c more)) in
        (t, rw (more, run) ends, empty)
  ]
