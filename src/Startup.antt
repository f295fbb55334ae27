-- ===== src/Startup.antt =====
-- src/main.rs: `efi_main`, the window's callbacks and `update_slint_ip`. The libraries' set-up is the record
-- `Host`, on the machine's state; the queue of the next boot is the one of Boot, and messages go to the
-- text of Logs. The event loop acts on all there is, since its callbacks boot.
pub mod Rules
pub mod Exits
pub mod Debug
mod Tests
use webuiboot.Base.{
  ◌+◌, ◌/◌, ◌%◌, ◌++◌, if◌then◌else◌, ltb, ℕ, Bool, true, false, List, [], ◌∷◌, Option, none, some,
}
use webuiboot.Text.{Str, codes}
use webuiboot.Text.Utf8.{Bytes}
use webuiboot.Boot.Firmware.{Handle, Firmware, World, Res, Done}
use webuiboot.Boot.Volumes
use webuiboot.Boot.Bootnext.{check_and_process_bootnext}
use webuiboot.Device
use webuiboot.Device.{SimpleNetwork, UefiSnpDevice, mac_address}
use webuiboot.Logs.{Logs, or_empty}
use webuiboot.Logs
use webuiboot.Logs.Format.{LogRecord, info, warn, format_line}

pub data Socket : Type 0 where
  dhcpv4 : Socket
  -- with the sizes of its two buffers
  tcp : ℕ → ℕ → Socket

-- What the libraries do: a step that is unwrapped gives whether it succeeded. Boot leaves the messages of
-- `check_and_process_bootnext` out, and Screen/Pointers those of `pointer_init`: they are given.
pub record Host (S : Type 0) : Type 0 where
  pub init : S → Bool × S
  pub init_global_timer : S → S
  pub set_logger : S → S
  pub find_handles : S → Option (List Handle) × S
  pub open_protocol : Handle → S → Bool × S
  pub snp : SimpleNetwork S
  -- `Interface::new` with the address of the card, the random seed, and the addresses that are set
  pub new_interface : Bytes → ℕ → List (List ℕ × ℕ) → S → S
  pub add_socket : Socket → S → ℕ × S
  pub set_platform : S → Bool × S
  pub bootnext_messages : World S → List LogRecord
  pub pointer_messages : S → List LogRecord
  pub new_window : S → Bool × S

pub record GlobalNet : Type 0 where
  pub rx_buffer : Bytes
  pub dhcp_handle : ℕ
  pub tcp_handle : ℕ
  pub ms_elapsed : ℕ

pub record AppWindow : Type 0 where
  pub ip_address : Str
  pub status_text : Str
  -- the callbacks are set
  pub has_callbacks : Bool

-- the world and the statics
pub record Main (S : Type 0) : Type 0 where
  pub world : World S
  pub global_net : Option GlobalNet
  pub app_window : Option AppWindow
  pub logs : Logs

pub data Exit (A : Type 0) : Type 0 where
  goes_on : A → Exit A
  panicked : Exit A
  unsupported : Exit A

abbrev pub Startup : Type 0 → Type 0 → Type 0
Startup S A = Main S → Exit A × Main S

module _ {S A B : Type 0} where
  abbrev pub continue : Exit A → (A → Startup S B) → Startup S B
  continue (goes_on a) f m = f a m
  continue panicked f m = (panicked, m)
  continue unsupported f m = (unsupported, m)

  infixl 5 ◌>>=◌ ◌>>◌
  abbrev pub ◌>>=◌ : Startup S A → (A → Startup S B) → Startup S B
  ◌>>=◌ x f m = let (e, m') = x m in continue e f m'

  abbrev pub ◌>>◌ : Startup S A → Startup S B → Startup S B
  x >> y = x >>= λ _. y

abbrev pub with_machine : {S : Type 0} → S → Main S → Main S
with_machine s m = record m { world = record m.world { machine = s } }

abbrev pub expected : Bool → Exit Done
expected true = goes_on tt
expected false = panicked

module _ {S : Type 0} where
  -- a step whose result is unwrapped
  abbrev pub unwrap : (S → Bool × S) → Startup S Done
  unwrap op m = let (b, s) = op m.world.machine in (expected b, with_machine s m)

  abbrev pub perform : (S → S) → Startup S Done
  perform op m = (goes_on tt, with_machine (op m.world.machine) m)

  abbrev pub obtain : {A : Type 0} → (S → A × S) → Startup S A
  obtain op m = let (a, s) = op m.world.machine in (goes_on a, with_machine s m)

  abbrev pub update : (Main S → Main S) → Startup S Done
  update f m = (goes_on tt, f m)

-- `APP_WINDOW` is set, and the pending messages become the window's text, which is empty at first.
abbrev pub show_pending : Logs → Logs
show_pending l = record { window = some (or_empty l.pending); pending = none }

abbrev pub update_slint_ip : {S : Type 0} → Str → Main S → Main S
update_slint_ip ip m = elim m.app_window [
  | none ↦ m
  | some window ↦ record m { app_window = some (record window { ip_address = ip }) }
]

-- the address of the window's text, and its prefix
abbrev pub static_ip : List ℕ × ℕ
static_ip = (192 ∷ 168 ∷ 1 ∷ 30 ∷ [], 24)

-- a digit of `{:x}`
abbrev pub hex_digit : ℕ → ℕ
hex_digit n = if ltb n 10 then 48 + n else 87 + n

-- `{:02x}`, with a colon in front of all but the first
abbrev pub hex_bytes : Bytes → Bytes
hex_bytes [] = []
hex_bytes (b ∷ []) = hex_digit (b / 16) ∷ hex_digit (b % 16) ∷ []
hex_bytes (b ∷ c ∷ s) = hex_digit (b / 16) ∷ hex_digit (b % 16) ∷ b':' ∷ hex_bytes (c ∷ s)

abbrev pub starting : LogRecord
starting = record { level = info; args = codes "Starting Web & Slint UI Bootloader..." }

abbrev pub no_interface : LogRecord
no_interface = record { level = warn; args = codes "No network interface found!" }

abbrev pub mac_message : Bytes → LogRecord
mac_message mac = record { level = info; args = codes "MAC Address: " ++ hex_bytes mac }

-- messages in turn, to the logger's text
unfoldable pub log_lines : List LogRecord → Logs → Option Logs
log_lines [] l = some l
log_lines (m ∷ ms) l = elim (Logs.log (format_line m) l) [ none ↦ none | some l' ↦ log_lines ms l' ]

module _ {S : Type 0} where
  abbrev pub logged : Option Logs → Startup S Done
  logged none m = (panicked, m)
  logged (some l) m = (goes_on tt, record m { logs = l })

  abbrev pub log_messages : List LogRecord → Startup S Done
  log_messages ms m = logged (log_lines ms m.logs) m

  -- without a card: a message, and the return
  abbrev pub give_up : {A : Type 0} → Startup S A
  give_up = log_messages (no_interface ∷ []) >> λ m. (unsupported, m)

  -- `Ok(handles) if !handles.is_empty() => handles[0]`
  abbrev pub first_handle : Option (List Handle) → Startup S Handle
  first_handle none = give_up
  first_handle (some []) = give_up
  first_handle (some (h ∷ hs)) = λ m. (goes_on h, m)

-- the event loop, which ends or panics
abbrev pub EventLoop : Type 0 → Type 0
EventLoop S = Main S → Bool × Main S

module _ {S : Type 0} (fw : Firmware S) (host : Host S) (run : EventLoop S) where
  abbrev pub bootnext : Startup S Done
  bootnext = do
    messages ← (λ m. (goes_on (host.bootnext_messages m.world), m))
    update (λ m. record m { world = check_and_process_bootnext fw m.world })
    log_messages messages

  -- the network's part of `efi_main`
  abbrev pub setup_network : Startup S Done
  setup_network = do
    handles ← obtain host.find_handles
    snp_handle ← first_handle handles
    unwrap (host.open_protocol snp_handle)
    device ← obtain (λ s. let d = Device.new host.snp s in (d, d.snp))
    log_messages (mac_message (mac_address host.snp device) ∷ [])
    perform (host.new_interface (mac_address host.snp device) 0x12345678 (static_ip ∷ []))
    dhcp_handle ← obtain (host.add_socket dhcpv4)
    tcp_handle ← obtain (host.add_socket (tcp 4096 4096))
    update (λ m. record m {
      global_net = some (record {
        rx_buffer = device.rx_buffer;
        dhcp_handle = dhcp_handle;
        tcp_handle = tcp_handle;
        ms_elapsed = 0;
      });
    })

  -- the window's part
  abbrev pub setup_window : Startup S Done
  setup_window = do
    messages ← (λ m. (goes_on (host.pointer_messages m.world.machine), m))
    log_messages messages
    unwrap host.set_platform
    unwrap host.new_window
    update (λ m. record m {
      app_window = some (record {
        ip_address = codes "192.168.1.30";
        status_text = codes "Select OS to boot...";
        has_callbacks = true;
      });
      logs = show_pending m.logs;
    })

  unfoldable pub efi_main : Startup S Done
  efi_main = do
    unwrap host.init
    perform host.init_global_timer
    perform host.set_logger
    log_messages (starting ∷ [])
    bootnext
    setup_network
    setup_window
    (λ m. let (b, m') = run m in (expected b, m'))

  -- the callback `boot-windows`, whose error is only logged, and `boot-linux`
  abbrev pub on_boot_windows : World S → World S
  on_boot_windows w = (Volumes.boot_os fw (codes "\\EFI\\Microsoft\\Boot\\bootmgfw.efi") w).1

  abbrev pub on_boot_linux : World S → World S
  on_boot_linux w = Volumes.boot_linux_direct fw w
