-- ===== src/Startup/Tests.antt =====
-- A machine for the start-up of src/main.rs.
use webuiboot.Base.{ℕ, ◌+◌, true, [], ◌∷◌, none, some}
use webuiboot.Base.Arrays.{replicate}
use webuiboot.Text.{codes}
use webuiboot.Boot.Tests.{switched_on}
use webuiboot.Device.{SimpleNetwork, no_buffer}
use webuiboot.Startup.{Host, EventLoop, Main}

-- A card that is quiet.
abbrev card : SimpleNetwork ℕ
card = record {
  start = λ n. n;
  initialize = λ a b n. n;
  receive_filters = λ on off reset n. n;
  current_address = λ n. replicate 32 7;
  receive = λ s n. (none, s, n);
  transmit = λ s n. (true, n);
  get_recycled_transmit_buffer_status = λ n. (no_buffer, n);
}

-- Sockets are numbered.
abbrev host : Host ℕ
host = record {
  init = λ n. (true, n);
  init_global_timer = λ n. n;
  set_logger = λ n. n;
  find_handles = λ n. (some (4 ∷ []), n);
  open_protocol = λ h n. (true, n);
  snp = card;
  new_interface = λ mac seed ips n. n;
  add_socket = λ socket n. (n, n + 1);
  set_platform = λ n. (true, n);
  bootnext_messages = λ w. [];
  pointer_messages = λ n. [];
  new_window = λ n. (true, n);
}

-- An event loop that ends at once.
abbrev loop : EventLoop ℕ
loop m = (true, m)

abbrev unset : Main ℕ
unset = record {
  world = switched_on;
  global_net = none;
  app_window = none;
  logs = record { window = none; pending = some (codes "[INFO ]: hello\n") };
}
