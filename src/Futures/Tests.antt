-- ===== src/Futures/Tests.antt =====
-- The sleeps of src/futures.rs on a small machine.
use webuiboot.Base.{ℕ, ◌+◌, ◌≡◌, refl, true, false, List, [], ◌∷◌, none, some, is_empty, get_elem?}
use webuiboot.Executor.{TaskId, Event, ready, pending, State}
use webuiboot.Executor.Events.{registers}
use webuiboot.Executor.Loop.{Firmware, run}
use webuiboot.Futures
use webuiboot.Futures.{Timers, Sleep, poll_timer_sleep, poll_network_sleep, poll_slint_sleep}
use webuiboot.Futures.Polls.{listed, asked, slint_sleep_lem}
use webuiboot.Futures.Tasks.{HasTimers, sleepers, sleepers_end}
use webuiboot.Futures.Stuck.{only_sleeper, timer_sleep-stalls}

-- Events are numbered as they are made; the world is the next number.
abbrev clock : Timers ℕ
clock = record {
  create_event = λ w. (some w, w + 1);
  set_timer = λ e n w. w;
  packet_wait_event = λ w. (some 1, w);
  key_event = λ w. (some 2, w);
  input_events = λ w. (some 3 ∷ none ∷ some 4 ∷ [], w);
}

abbrev board : Firmware ℕ
board = record { stall = λ n w. w; wait_for_event = λ es w. (some 0, w) }

clock-HasTimers : HasTimers clock
clock-HasTimers w = (w, refl)

first_signal :
    (es : List Event) (w : ℕ)
    → is_empty es ≡ false
    → (index : ℕ) × (e : Event) × ((board.wait_for_event es w).0 ≡ some index)
      × (get_elem? es index ≡ some e)
first_signal [] w n = cc
first_signal (e ∷ es) w n = (0, e, refl, refl)

sleepers_end_example :
    (t : State Sleep ℕ) × (run (poll_network_sleep clock) board 14 (sleepers 3 10) ≡ some t)
    × (is_empty t.tasks ≡ true)
sleepers_end_example = sleepers_end clock board clock-HasTimers first_signal 3 10

slint_sleep_lem_example :
    (s : Sleep) × ((poll_slint_sleep clock 0 (webuiboot.Futures.new 500000) 10).outcome ≡ pending s)
    × ((e : Event)
        → registers (poll_slint_sleep clock 0 (webuiboot.Futures.new 500000) 10).effects e
          ≡ listed (asked clock 0 500000 10) e)
    × ((id' : TaskId) (w' : ℕ) → (poll_slint_sleep clock id' s w').outcome ≡ ready)
slint_sleep_lem_example = slint_sleep_lem clock 0 500000 10

timer_sleep-stalls_example : run (poll_timer_sleep clock) board 100 (only_sleeper 99 10) ≡ none
timer_sleep-stalls_example = timer_sleep-stalls clock board 99 10 refl 100
