-- ===== src/Network/Tests.antt =====
-- Rounds of the network task of src/main.rs on a small machine, whose world is its clock.
use webuiboot.Base.{ℕ, arith, ◌+◌, ◌<◌, ◌≡◌, refl, true, false, [], ◌∷◌, none, some, ◌==◌}
use webuiboot.Text.{codes}
use webuiboot.Executor.{TaskId, Polled, wake, pending}
use webuiboot.Executor.Loop.{Firmware}
use webuiboot.Executor.Lasting.{Signals}
use webuiboot.Futures.{Timers}
use webuiboot.Network.Task.Lasting.{LastsToo, NetworkLasts, network_lasts}
use webuiboot.Web.{linux, Parse}
use webuiboot.Network.{Net, nothing_pending, elapsed, network_round, receive, serve}
use webuiboot.Network.Pending.{latest, selected, Released, network_round-Released}
use webuiboot.Network.Deadline.{pending_since, network_round-in_time, boots, boots_by_deadline}

-- A request comes at the time 0, and the response stays in the queue.
abbrev slow_peer : Net ℕ
slow_peer = record {
  has_net = λ w. true;
  get_ms_since_start = λ w. w;
  poll_interface = λ ms w. w;
  poll_dhcp = λ w. (none, w);
  is_open = λ w. true;
  listen = λ w. w;
  can_recv = λ w. w == 0;
  recv_slice = λ w. (some (1 ∷ []), w);
  send_slice = λ bytes w. w;
  close = λ w. w;
  is_closed = λ w. false;
  is_time_wait = λ w. false;
  send_queue = λ w. 1;
  update_slint_ip = λ ip w. w;
  boot_windows = λ w. w;
  boot_linux_direct = λ w. w;
}

abbrev to_linux : Parse
to_linux request = some (some (codes "/boot/linux"), some (codes "POST"))

network_round-Released_example :
    Released slow_peer to_linux []
      (latest (selected slow_peer to_linux [] 0) nothing_pending.pending_boot)
      (network_round slow_peer to_linux [] 0 nothing_pending).2
      (network_round slow_peer to_linux [] 0 nothing_pending).1.pending_boot
network_round-Released_example = network_round-Released slow_peer to_linux [] 0 nothing_pending refl

network_round-in_time_example :
    elapsed
      (slow_peer.get_ms_since_start 300)
      (network_round slow_peer to_linux [] 300 (pending_since linux 100)).1.pending_boot_time
    < 500
unfolding network_round receive serve
network_round-in_time_example =
    network_round-in_time slow_peer to_linux [] 300 (pending_since linux 100) linux refl refl

boots_by_deadline_example :
    boots slow_peer to_linux [] (λ w. w + 300) 2 300 (pending_since linux 100) ≡ linux ∷ []
unfolding network_round receive serve
boots_by_deadline_example =
    boots_by_deadline slow_peer to_linux [] (λ w. w + 300) 1 300 linux 100
      (refl, refl, (refl, refl, tt)) (omega arith)

-- Events are numbered as they are made; the world is the next number.
abbrev clock : Timers ℕ
clock = record {
  create_event = λ w. (some w, w + 1);
  set_timer = λ e n w. w;
  packet_wait_event = λ w. (some 1, w);
  key_event = λ w. (none, w);
  input_events = λ w. ([], w);
}

abbrev board : Firmware ℕ
board = record { stall = λ n w. w; wait_for_event = λ es w. (some 0, w) }

board-Signals : Signals board
board-Signals [] w n = cc
board-Signals (e ∷ es) w n = (0, e, refl, refl)

-- A task that wakes itself in each poll.
abbrev busy_task : TaskId → ℕ → ℕ → Polled ℕ ℕ
busy_task id n w = record { effects = wake id ∷ []; outcome = pending (n + 1); world = w }

busy_task-LastsToo : LastsToo clock slow_peer to_linux [] busy_task
busy_task-LastsToo = record { lasts = λ id f w. refl; arranged = λ id f w k. ground arith }

network_lasts_example : NetworkLasts clock slow_peer to_linux [] busy_task board 9 5 10
network_lasts_example =
    network_lasts clock slow_peer to_linux [] busy_task board 9 5 10 (λ w. (w, refl)) board-Signals
      busy_task-LastsToo
