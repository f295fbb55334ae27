-- ===== src/Startup/Exits.antt =====
-- How the start-up ends.
use webuiboot.Base.{◌++◌, ◌≡◌, Bool, true, false, ◌⊎◌, List, [], ◌∷◌, none, some, length}
use webuiboot.Text.{codes}
use webuiboot.Boot.Firmware.{Firmware, World}
use webuiboot.Boot.Bootnext.{check_and_process_bootnext}
use webuiboot.Device.{new, mac_address}
use webuiboot.Logs.{Logs, or_empty}
use webuiboot.Logs.Format.{LogRecord}
use webuiboot.Startup.{Host, EventLoop, GlobalNet, Main, starting, mac_message, log_lines}

-- These messages lead from one text to the other.
abbrev pub Logged : List LogRecord → Logs → Logs → Type 0
Logged ms l l' = log_lines ms l ≡ some l'

module _ {S : Type 0} (fw : Firmware S) (host : Host S) (run : EventLoop S) (before : Main S) where
  -- the machine behind the set-up of the firmware's functions, the timer and the logger
  abbrev pub machine_set_up : S
  machine_set_up = host.set_logger (host.init_global_timer (host.init before.world.machine).1)

  -- the world in which the boot queue is processed
  abbrev pub at_queue : World S
  at_queue = record before.world { machine = machine_set_up }

  -- the messages up to the network, with the card's, and all of them
  abbrev pub first_messages : List LogRecord
  first_messages = starting ∷ host.bootnext_messages at_queue

  abbrev pub network_messages : S → List LogRecord
  network_messages s = first_messages ++ mac_message (mac_address host.snp (new host.snp s)) ∷ []

  abbrev pub messages : S → S → List LogRecord
  messages s t = network_messages s ++ host.pointer_messages t

  -- Exactly the boot queue was processed, by the machine that was set up.
  abbrev pub Processed : Main S → Type 0
  Processed m = m.world.calls ≡ (check_and_process_bootnext fw at_queue).calls

  -- nothing is set
  abbrev pub IsUntouched : Main S → Type 0
  IsUntouched m = (m.global_net ≡ before.global_net) × (m.app_window ≡ before.app_window)

  -- The network is set, with its buffer.
  abbrev pub HasNet : Main S → Type 0
  HasNet m =
      (net : GlobalNet) × (m.global_net ≡ some net)
      × (length net.rx_buffer ≡ 2048)
      × (net.ms_elapsed ≡ 0)

  -- The window is set, with what the messages of the start-up, the card's address and the pointers' among
  -- them, left pending, and nothing is pending.
  abbrev pub HasWindow : Main S → Type 0
  HasWindow m =
      (s : S) × (t : S) × (l : Logs) × Logged (messages s t) before.logs l
      × (m.app_window
          ≡ some (record {
            ip_address = codes "192.168.1.30";
            status_text = codes "Select OS to boot...";
            has_callbacks = true;
          }))
      × (m.logs ≡ record { window = some (or_empty l.pending); pending = none })

  -- all is set
  abbrev pub IsSetUp : Main S → Type 0
  IsSetUp m = Processed m × HasNet m × HasWindow m

  -- The event loop began where all was set, and ended so.
  abbrev pub HasRun : Bool → Main S → Type 0
  HasRun b m = (m' : Main S) × IsSetUp m' × (run m' ≡ (b, m))

  -- a panic: before the boot queue, behind it, or in the event loop
  abbrev pub Panicked : Main S → Type 0
  Panicked m = (m.world.calls ≡ before.world.calls) ⊎ (Processed m ⊎ HasRun false m)

  -- given up: nothing is set, behind the boot queue
  abbrev pub GivenUp : Main S → Type 0
  GivenUp m = Processed m × IsUntouched m

  -- before the boot queue, with a machine
  abbrev IsEarly : S → List LogRecord → Main S → Type 0
  IsEarly s ms m =
      (m.world ≡ record { machine = s; calls = before.world.calls })
      × IsUntouched m
      × Logged ms before.logs m.logs

  -- behind it
  abbrev IsQueueDone : Main S → Type 0
  IsQueueDone m = Processed m × IsUntouched m × Logged first_messages before.logs m.logs

  -- with the network only
  abbrev WithNet : Main S → Type 0
  WithNet m = Processed m × HasNet m × (s : S) × Logged (network_messages s) before.logs m.logs
