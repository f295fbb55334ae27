-- ===== src/Network.antt =====
-- src/main.rs, `run_network`: the body of the network task's loop, up to its sleep. The network stack,
-- the clock and the boots are parameters on the world `W`.
pub mod Pending
pub mod Deadline
pub mod Task
mod Tests
use webuiboot.Base.{
  ℕ, ◌-◌, Bool, true, false, not, ◌&&◌, ◌||◌, List, [], ◌∷◌, Option, none, some, if◌then◌else◌,
  ◌==◌, leb, is_empty,
}
use webuiboot.Text.{Str}
use webuiboot.Text.Utf8.{Bytes, as_bytes}
use webuiboot.Web.{BootSelection, windows, linux, Parse, handle_http_request}

pub record Net (W : Type 0) : Type 0 where
  -- `GLOBAL_NET` is set
  pub has_net : W → Bool
  pub get_ms_since_start : W → ℕ
  -- `iface.poll` at this time
  pub poll_interface : ℕ → W → W
  -- the address of a configuration, which the interface then has
  pub poll_dhcp : W → Option Str × W
  pub is_open : W → Bool
  pub listen : W → W
  pub can_recv : W → Bool
  -- `recv_slice` into 1024 bytes: what was read, or none on an error
  pub recv_slice : W → Option Bytes × W
  pub send_slice : Bytes → W → W
  pub close : W → W
  -- the socket's state is `Closed`, or `TimeWait`
  pub is_closed : W → Bool
  pub is_time_wait : W → Bool
  pub send_queue : W → ℕ
  pub update_slint_ip : Str → W → W
  -- `boot_os` with the path of Windows, and `boot_linux_direct`
  pub boot_windows : W → W
  pub boot_linux_direct : W → W

-- The variables of the task.
pub record Waiting : Type 0 where
  pub pending_boot : Option BootSelection
  pub pending_boot_time : Option ℕ

abbrev pub nothing_pending : Waiting
nothing_pending = record { pending_boot = none; pending_boot_time = none }

-- `if selection.is_some()`
abbrev pub select : ℕ → Option BootSelection → Waiting → Waiting
select ms none p = p
select ms (some s) p = record { pending_boot = some s; pending_boot_time = some ms }

-- `saturating_sub`, or 0
abbrev pub elapsed : ℕ → Option ℕ → ℕ
elapsed ms none = 0
elapsed ms (some start) = ms - start

module _ {W : Type 0} (net : Net W) (parse : Parse) (html_ui : Str) where
  abbrev pub respond : ℕ → Option (Str × Option BootSelection) → W → Waiting → W × Waiting
  respond ms none w p = (w, p)
  respond ms (some (response, selection)) w p =
      (net.close (net.send_slice (as_bytes response) w), select ms selection p)

  abbrev pub answer_request : ℕ → Option Bytes → W → Waiting → W × Waiting
  answer_request ms none w p = (w, p)
  answer_request ms (some request) w p =
      if is_empty request
      then (w, p)
      else respond ms (handle_http_request parse html_ui request) w p

  unfoldable pub receive : ℕ → W → Waiting → W × Waiting
  receive ms w p =
      let (request, w') = net.recv_slice w in
      if net.can_recv w then answer_request ms request w' p else (w, p)

  abbrev pub due : ℕ → W → Waiting → Bool
  due ms w p =
      let time = elapsed ms p.pending_boot_time in
      net.is_closed w
      || net.is_time_wait w
      || (net.send_queue w == 0 && leb 100 time)
      || leb 500 time

  -- `boot_sel`, and the variables behind the test
  abbrev pub release : Option BootSelection → ℕ → W → Waiting → Option BootSelection × Waiting
  release none ms w p = (none, p)
  release (some s) ms w p = if due ms w p then (some s, nothing_pending) else (none, p)

  abbrev pub open_socket : W → W
  open_socket w = if net.is_open w then w else net.listen w

  -- the interface, DHCP and the listening
  unfoldable pub serve : ℕ → W → Option Str × W
  serve ms w = let (ip, w') = net.poll_dhcp (net.poll_interface ms w) in (ip, open_socket w')

  abbrev pub show_ip : Option Str → W → W
  show_ip none w = w
  show_ip (some ip) w = net.update_slint_ip ip w

  abbrev pub boot_selected : Option BootSelection → W → W
  boot_selected none w = w
  boot_selected (some windows) w = net.boot_windows w
  boot_selected (some linux) w = net.boot_linux_direct w

  -- One round: the world and the variables behind it, and what it boots.
  unfoldable pub network_round : W → Waiting → W × Waiting × Option BootSelection
  unfolding receive serve
  network_round w p =
      if net.has_net w
      then (let ms = net.get_ms_since_start w in
          let (ip, w1) = serve ms w in
          let (w2, p2) = receive ms w1 p in
          let (boot_sel, p3) = release p2.pending_boot ms w2 p2 in
          (boot_selected boot_sel (show_ip ip w2), p3, boot_sel))
      else (w, p, none)
