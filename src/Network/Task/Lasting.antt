-- ===== src/Network/Task/Lasting.antt =====
-- The network's task in the executor.
use webuiboot.Base.{
  ℕ, ◌*◌, ◌≤◌, ◌≡◌, refl, true, false, List, [], ◌∷◌, ◌++◌, none, arith, is_empty, Bool-cases, inl,
  inr, ◌∙◌, ◌⊎◌, ◌||◌, contains,
}
use webuiboot.Text.{Str}
use webuiboot.Executor.{
  TaskId, Event, Poll, ready, pending, Effect, wake, register, Polled, State, spawn, contains_key,
  queued, drain,
}
use webuiboot.Executor
use webuiboot.Executor.Loop.{Firmware, run}
use webuiboot.Executor.Events.{waits}
use webuiboot.Executor.Preserved.{new-IsValid, spawn-IsValid}
use webuiboot.Executor.Progress.{Arranged, arranges, Covered}
use webuiboot.Executor.Maps.{has_entry}
use webuiboot.Executor.Lasting.{Signals, Lasts, rounds, busy, rounds_lem, run_never_ends}
use webuiboot.Futures
use webuiboot.Futures.{
  Timers, Sleep, poll_timer_sleep, poll_network_sleep, start_timer, start_positive, registered,
}
use webuiboot.Futures.Tasks.{
  HasTimers, network_sleep-Arranged, start_timer-some, arranges-registered,
}
use webuiboot.Network.{Net, Waiting, network_round}
use webuiboot.Network.Task.{RunTask, starting, networking, start_task, round_and_sleep, poll_run}
use webuiboot.Web.{Parse}

arranges-append :
    (id : TaskId) (es es' : List Effect) → arranges id es' ≡ true → arranges id (es ++ es') ≡ true
arranges-append id [] es' h = h
arranges-append id (wake j ∷ es) es' h = ground (arith, arranges-append id es es' h)
arranges-append id (register e ∷ es) es' h = refl

abbrev pub map_outcome : {F H : Type 0} → (F → H) → Poll F → Poll H
map_outcome g ready = ready
map_outcome g (pending f) = pending (g f)

-- a poll of a future as one of a larger type
abbrev pub map_polled : {F H W : Type 0} → (F → H) → Polled F W → Polled H W
map_polled g p = record { effects = p.effects; outcome = map_outcome g p.outcome; world = p.world }

waits-map_outcome : {F H : Type 0} (g : F → H) (o : Poll F) → waits (map_outcome g o) ≡ waits o
waits-map_outcome g ready = refl
waits-map_outcome g (pending f) = refl

module _ {W : Type 0} (fw : Timers W) (net : Net W) (parse : Parse) (html_ui : Str) where
  poll_run-waits :
      (id : TaskId) (t : RunTask) (w : W)
      → waits (poll_run fw net parse html_ui id t w).outcome ≡ true
  unfolding poll_run poll_timer_sleep poll_network_sleep
  poll_run-waits id (starting e true) w = refl
  poll_run-waits id (starting e false) w = refl
  poll_run-waits id (networking s p) w = elim (Bool-cases s.is_started) [
    | inl e ↦ rw (poll_run, e) refl
    | inr e ↦ rw (poll_run, e) refl
  ]

  round_and_sleep-arranges :
      HasTimers fw
      → (id : TaskId) (es : List Effect) (p : Waiting) (w : W)
      → arranges id (round_and_sleep fw net parse html_ui id es p w).effects ≡ true
  unfolding poll_network_sleep
  round_and_sleep-arranges h id es p w =
      let w' = (network_round net parse html_ui w p).0 in
      arranges-append id es (poll_network_sleep fw id (Futures.new 0) w').effects
        (network_sleep-Arranged fw h id (Futures.new 0) w' refl)

  poll_run-Arranged :
      HasTimers fw
      → (id : TaskId) (t : RunTask) (w : W)
      → Arranged id
          (poll_run fw net parse html_ui id t w).outcome
          (poll_run fw net parse html_ui id t w).effects
  unfolding poll_run poll_timer_sleep poll_network_sleep
  poll_run-Arranged h id (starting e true) w k = round_and_sleep-arranges h id [] _ w
  poll_run-Arranged h id (starting e false) w k =
      rw (start_timer-some fw h 1000000 w) (arranges-registered id [] (h w).0)
  poll_run-Arranged h id (networking s p) w k = elim (Bool-cases s.is_started) [
    | inl e ↦ rw (poll_run, e) (round_and_sleep-arranges h id [] p w)
    | inr e ↦
        let w1 = (fw.packet_wait_event w).1 in
        rw (poll_run, e, start_timer-some fw h 100000 w1)
          (arranges-registered id (registered (fw.packet_wait_event w).0) (h w1).0)
  ]

  -- the two tasks' futures
  abbrev pub poll_either :
      {G : Type 0}
      → (TaskId → G → W → Polled G W)
      → TaskId
      → RunTask ⊎ G
      → W
      → Polled (RunTask ⊎ G) W
  poll_either other id (inl t) w = map_polled inl (poll_run fw net parse html_ui id t w)
  poll_either other id (inr f) w = map_polled inr (other id f w)

  -- The executor of `run_event_loop`, with the network's task and the other one.
  abbrev pub both : {G : Type 0} → G → W → State (RunTask ⊎ G) W
  both f w = spawn (inr f) (spawn (inl start_task) (Executor.new w))

  -- Every poll of the other task waits, and has arranged to be polled again.
  pub record LastsToo {G : Type 0} (other : TaskId → G → W → Polled G W) : Type 0 where
    pub lasts : (id : TaskId) (f : G) (w : W) → waits (other id f w).outcome ≡ true
    pub arranged :
        (id : TaskId) (f : G) (w : W) → Arranged id (other id f w).outcome (other id f w).effects

  poll_either-Lasts :
      {G : Type 0} (other : TaskId → G → W → Polled G W) (exec : Firmware W)
      → HasTimers fw
      → Signals exec
      → LastsToo other
      → Lasts (poll_either other) exec
  poll_either-Lasts {G} other exec timers signals too = record {
    lasts = lasts;
    arranged = arranged;
    signals = signals;
  }
    where
      lasts :
          (id : TaskId) (f : RunTask ⊎ G) (w : W) → waits (poll_either other id f w).outcome ≡ true
      lasts id (inl t) w = waits-map_outcome inl _ ∙ poll_run-waits id t w
      lasts id (inr f) w = waits-map_outcome inr _ ∙ too.lasts id f w

      arranged :
          (id : TaskId) (f : RunTask ⊎ G) (w : W)
          → Arranged id (poll_either other id f w).outcome (poll_either other id f w).effects
      arranged id (inl t) w k = poll_run-Arranged timers id t w (poll_run-waits id t w)
      arranged id (inr f) w k = too.arranged id f w (too.lasts id f w)

  both-Covered : {G : Type 0} (f : G) (w : W) → Covered (both f w).run_queue (both f w)
  unfolding spawn
  both-Covered f w j k = ground (arith, k)

  -- the state behind so many rounds
  abbrev pub behind :
      {G : Type 0} → (TaskId → G → W → Polled G W) → Firmware W → ℕ → G → W → State (RunTask ⊎ G) W
  behind other exec n f w = rounds (poll_either other) exec n (both f w)

  -- What it is that the network's task lasts.
  abbrev pub NetworkLasts :
      {G : Type 0} → (TaskId → G → W → Polled G W) → Firmware W → ℕ → G → W → Type 0
  NetworkLasts other exec n f w =
      let s = behind other exec n f w in
      (contains_key 0 s.tasks ≡ true)
      × (contains_key 1 s.tasks ≡ true)
      × ((contains s.run_queue 0 || (contains s.awake_tasks 0 || has_entry 0 s.event_registry))
          ≡ true)
      × (n ≤ 2 * busy (poll_either other) exec n (both f w))
      × (run (poll_either other) exec n (both f w) ≡ none)

  -- Where a timer can always be created and a wait for some events ends at one of them, an executor
  -- that has the network's task, spawned first, and any second task whose polls all wait and arrange to
  -- be polled again, goes on: behind any number of rounds both tasks are there, and the network's is
  -- queued, woken or registered for an event; of every two rounds at least one polls a task; and the
  -- executor's loop does not end.
  pub network_lasts :
      {G : Type 0} (other : TaskId → G → W → Polled G W) (exec : Firmware W) (n : ℕ) (f : G) (w : W)
      → HasTimers fw
      → Signals exec
      → LastsToo other
      → NetworkLasts other exec n f w
  unfolding spawn drain
  network_lasts other exec n f w timers signals too =
      let lasts = poll_either-Lasts other exec timers signals too in
      let valid =
        spawn-IsValid (inr f) (spawn (inl start_task) (Executor.new w))
          (spawn-IsValid (inl start_task) (Executor.new w) (new-IsValid w)) in
      let (same, many, valid', covered) =
        rounds_lem (poll_either other) exec lasts n (both f w) 0 valid (both-Covered f w) refl in
      let start : is_empty (queued (both f w)) ≡ false = refl in
      let half = rw start at many in
      (
        same 0,
        same 1,
        covered 0 (same 0),
        omega (arith, half),
        run_never_ends (poll_either other) exec lasts n (both f w) 0 refl,
      )
