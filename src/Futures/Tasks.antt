-- ===== src/Futures/Tasks.antt =====
-- Tasks of the executor of src/executor.rs that run the network's sleep of src/futures.rs.
use webuiboot.Base.{
  ℕ, zero, suc, ◌+◌, ◌*◌, ◌≤◌, ◌≡◌, refl, true, false, List, [], ◌∷◌, ◌++◌, none, some,
  if◌then◌else◌, arith, is_empty, Bool-cases, inl, inr, get_elem?, ==_iff, contains-append,
}
use webuiboot.Executor.{
  TaskId, Event, Poll, ready, pending, Effect, wake, register, Polled, State, spawn, insert,
  contains_key,
}
use webuiboot.Executor
use webuiboot.Executor.Maps.{contains_key-insert}
use webuiboot.Executor.Invariant.{IsValid}
use webuiboot.Executor.Preserved.{new-IsValid, spawn-IsValid}
use webuiboot.Executor.Loop.{Firmware, run}
use webuiboot.Executor.Progress.{Arranged, arranges, Covered}
use webuiboot.Executor.Budget.{Falls, total}
use webuiboot.Executor.Liveness.{Assumptions, run_ends}
use webuiboot.Futures.{Timers, Sleep, registered, poll_network_sleep, set_created, start_timer}

-- the polls before the last
abbrev pub rank : Sleep → ℕ
rank s = if s.is_started then 0 else 1

pub arranges-registered :
    (id : TaskId) (es : List Effect) (e : Event) → arranges id (es ++ registered (some e)) ≡ true
arranges-registered id [] e = refl
arranges-registered id (wake j ∷ es) e = ground (arith, arranges-registered id es e)
arranges-registered id (register d ∷ es) e = refl

module _ {W : Type 0} (fw : Timers W) where
  -- A timer can always be created.
  abbrev pub HasTimers : Type 0
  HasTimers = (w : W) → (e : Event) × ((fw.create_event w).0 ≡ some e)

  network_sleep-Falls :
      (id : TaskId) (s : Sleep) (w : W) → Falls rank s (poll_network_sleep fw id s w).outcome
  unfolding poll_network_sleep
  network_sleep-Falls id s w = elim (Bool-cases s.is_started) [
    | inl h ↦ rw h tt
    | inr h ↦ rw h (omega arith)
  ]

  pub start_timer-some : (h : HasTimers) (n : ℕ) (w : W) → (start_timer fw n w).0 ≡ some (h w).0
  start_timer-some h n w = rw ((h w).1, set_created) refl

  pub network_sleep-Arranged :
      HasTimers
      → (id : TaskId) (s : Sleep) (w : W)
      → Arranged id (poll_network_sleep fw id s w).outcome (poll_network_sleep fw id s w).effects
  unfolding poll_network_sleep
  network_sleep-Arranged h id s w = elim (Bool-cases s.is_started) [
    | inl e ↦ rw e (λ waiting. cc)
    | inr e ↦
        let w1 = (fw.packet_wait_event w).1 in
        rw (e, start_timer-some h 100000 w1)
          (λ waiting. arranges-registered id (registered (fw.packet_wait_event w).0) (h w1).0)
  ]

abbrev pub new_sleep : Sleep
new_sleep = record { timer_event = none; is_started = false; duration = 0 }

-- An executor with so many tasks, each of which sleeps once.
unfoldable pub sleepers : {W : Type 0} → ℕ → W → State Sleep W
sleepers zero w = webuiboot.Executor.new w
sleepers (suc n) w = spawn new_sleep (sleepers n w)

total-insert-le :
    (id : TaskId) (f : Sleep) (ts : List (TaskId × Sleep))
    → total rank (insert id f ts) ≤ suc (rank f) + total rank ts
total-insert-le id f [] = omega arith
total-insert-le id f ((j, g) ∷ ts) = ground (arith, total-insert-le id f ts)

module _ {W : Type 0} where
  sleepers-IsValid : (n : ℕ) (w : W) → IsValid (sleepers n w)
  unfolding sleepers
  sleepers-IsValid zero w = new-IsValid w
  sleepers-IsValid (suc n) w = spawn-IsValid new_sleep (sleepers n w) (sleepers-IsValid n w)

  sleepers-Covered : (n : ℕ) (w : W) → Covered (sleepers n w).run_queue (sleepers n w)
  unfolding sleepers spawn
  sleepers-Covered zero w = λ id h. cc
  sleepers-Covered (suc n) w =
      let s = sleepers n w in
      λ id h. ground (
        arith,
        contains-append s.run_queue (s.next_id ∷ []) id,
        contains_key-insert s.next_id id new_sleep s.tasks,
        sleepers-Covered n w id,
        ==_iff s.next_id id,
      )

  total-sleepers-le : (n : ℕ) (w : W) → total rank (sleepers n w).tasks ≤ 2 * n
  unfolding sleepers spawn
  total-sleepers-le zero w = omega arith
  total-sleepers-le (suc n) w =
      let s = sleepers n w in
      omega (arith, total-insert-le s.next_id new_sleep s.tasks, total-sleepers-le n w)

-- Where timers can be created and a wait for some events ends at one of them, an executor with `n`
-- tasks that sleep in `NetworkSleepFuture` ends after at most `4 * n + 1` rounds, with no task left.
pub sleepers_end :
    {W : Type 0} (fw : Timers W) (firmware : Firmware W)
    → HasTimers fw
    → ((es : List Event) (w : W)
        → is_empty es ≡ false
        → (index : ℕ) × (e : Event) × ((firmware.wait_for_event es w).0 ≡ some index)
          × (get_elem? es index ≡ some e))
    → (n : ℕ) (w : W)
    → (t : State Sleep W) × (run (poll_network_sleep fw) firmware (4 * n + 2) (sleepers n w)
        ≡ some t)
      × (is_empty t.tasks ≡ true)
sleepers_end fw firmware timers signals n w =
    let a : Assumptions (poll_network_sleep fw) firmware rank = record {
      falls = network_sleep-Falls fw;
      arranged = network_sleep-Arranged fw timers;
      signals = signals;
    } in
    run_ends (poll_network_sleep fw) firmware rank a (4 * n + 2) (sleepers n w)
      (sleepers-IsValid n w) (sleepers-Covered n w) (ground (arith, total-sleepers-le n w))
