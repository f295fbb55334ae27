-- ===== src/Network/Task.antt =====
-- src/main.rs: `run` and the loop of `run_network`, as a task of the executor: it sleeps for 100
-- milliseconds, and then goes through a round, sleeps, and so on. What it waits for and its variables
-- are its state between two polls.
pub mod Lasting
use webuiboot.Base.{Bool, false, List, ◌++◌, Option, none}
use webuiboot.Text.{Str}
use webuiboot.Executor.{TaskId, Event, Poll, ready, pending, Effect, Polled}
use webuiboot.Futures
use webuiboot.Futures.{Timers, Sleep, new_network_sleep, poll_timer_sleep, poll_network_sleep}
use webuiboot.Network.{Net, Waiting, nothing_pending, network_round}
use webuiboot.Web.{Parse}

pub data RunTask : Type 0 where
  -- at the first `await`: the fields of its sleep that change
  starting : Option Event → Bool → RunTask
  -- at the `await` of the loop
  networking : Sleep → Waiting → RunTask

-- `Duration::from_millis(100)`
abbrev pub start_sleep : Option Event → Bool → Sleep
start_sleep timer_event is_started = record (Futures.new 100000000) {
  timer_event = timer_event;
  is_started = is_started;
}

abbrev pub start_task : RunTask
start_task = starting none false

module _ {W : Type 0} (fw : Timers W) (net : Net W) (parse : Parse) (html_ui : Str) where
  -- A sleep that is `Pending` makes the task so. A new sleep is: it is never `Ready` at its first poll.
  abbrev pub sleeps : Waiting → Poll Sleep → Poll RunTask
  sleeps p ready = ready
  sleeps p (pending s) = pending (networking s p)

  -- a round, and the first poll of the next sleep
  abbrev pub round_and_sleep : TaskId → List Effect → Waiting → W → Polled RunTask W
  round_and_sleep id effects p w =
      let (w', p', boot_sel) = network_round net parse html_ui w p in
      let polled = poll_network_sleep fw id new_network_sleep w' in
      record {
        effects = effects ++ polled.effects;
        outcome = sleeps p' polled.outcome;
        world = polled.world;
      }

  -- behind the poll of the sleep that the task is at
  abbrev pub resume : TaskId → (Sleep → RunTask) → Waiting → Polled Sleep W → Polled RunTask W
  resume id waiting p polled = elim polled.outcome [
    | pending s ↦ record {
      effects = polled.effects;
      outcome = pending (waiting s);
      world = polled.world;
    }
    | ready ↦ round_and_sleep id polled.effects p polled.world
  ]

  unfoldable pub poll_run : TaskId → RunTask → W → Polled RunTask W
  poll_run id (starting timer_event is_started) w =
      resume id (λ s. starting s.timer_event s.is_started) nothing_pending
        (poll_timer_sleep fw id (start_sleep timer_event is_started) w)
  poll_run id (networking s p) w =
      resume id (λ s'. networking s' p) p (poll_network_sleep fw id s w)
