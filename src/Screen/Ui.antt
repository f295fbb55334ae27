-- ===== src/Screen/Ui.antt =====
-- src/slint_plat.rs, `run_slint_ui`: the body of the loop, and the loop for so many rounds. A round first
-- reads the keys and the pointers, and makes its calls in the order of the source, messages of the logger
-- among them; then it draws. What a call does to the window and to the frame buffer is the record `Host`:
-- every one of them can draw into the buffer by the flush of the logs, and can panic, which is `none`.
pub mod Calls
pub mod Made
pub mod Rounds
pub mod Boots
pub mod Started
use webuiboot.Base.{
  ℕ, ◌*◌, Bool, true, false, List, [], ◌∷◌, ◌++◌, map, Option, none, some, if◌then◌else◌,
}
use webuiboot.Base.Arrays.{replicate}
use webuiboot.Text.{Str, codes}
use webuiboot.Futures.{Sleep}
use webuiboot.Futures
use webuiboot.Logs.Format.{LogRecord, info, warn, error}
use webuiboot.Web.{BootSelection, windows, linux}
use webuiboot.Screen.Pixel.{BltPixel, black}
use webuiboot.Screen.Cursor.{◌>>=◌, draw_frame}
use webuiboot.Screen.Mouse.{MouseState, WindowEvent, Mouse, read_pointer, start_mouse}
use webuiboot.Screen.Keys.{UefiKey, SlintKey, KeysRead, read_keys}

-- the window with all else that the calls act on, and the frame buffer
pub record Screen (W : Type 0) : Type 0 where
  pub window : W
  pub fb : List BltPixel

-- What Slint, the logger, the boots and the firmware do. A boot of Windows gives its error, as printed.
pub record Host (W : Type 0) : Type 0 where
  pub update_timers_and_animations : Screen W → Option (Screen W)
  pub try_dispatch_event : WindowEvent → Screen W → Option (Screen W)
  pub log : LogRecord → Screen W → Option (Screen W)
  pub boot_os : Str → Screen W → Option (Option Str × Screen W)
  pub boot_linux_direct : Screen W → Option (Screen W)
  pub request_redraw : W → W
  pub needs_redraw : W → Bool
  pub render : Screen W → Option (Screen W)
  pub blt : List BltPixel → W → W
  pub has_active_animations : W → Bool
  -- in nanoseconds
  pub duration_until_next_timer_update : W → Option ℕ

pub data UiCall : Type 0 where
  update_timers_and_animations : UiCall
  dispatch : WindowEvent → UiCall
  log : LogRecord → UiCall
  boot_os : Str → UiCall
  boot_linux_direct request_redraw : UiCall

-- what a pointer gives: its states, and the error that ends them, as printed, or no more states
pub record Pointer : Type 0 where
  pub states : List MouseState
  pub error : Option Str

-- what a round reads
pub record Given : Type 0 where
  pub stdin : List (Option UefiKey)
  pub pointers : List Pointer

-- the variables of the task, with the window and the frame buffer
pub record Ui (W : Type 0) : Type 0 where
  pub mouse : Mouse
  pub screen : Screen W

-- What a round called, what it left, the keys that it left to be read, and how it sleeps.
pub record Round (W : Type 0) : Type 0 where
  pub calls : List UiCall
  pub ui : Ui W
  pub stdin : List (Option UefiKey)
  pub sleep : Sleep

abbrev pub info_message : Str → UiCall
info_message text = log (record { level = info; args = text })

abbrev pub boot_directly : Option BootSelection → List UiCall
boot_directly none = []
boot_directly (some windows) =
    info_message (codes "Direct keyboard boot: Windows")
    ∷ boot_os (codes "\\EFI\\Microsoft\\Boot\\bootmgfw.efi")
    ∷ []
boot_directly (some linux) =
    info_message (codes "Direct keyboard boot: Linux") ∷ boot_linux_direct ∷ []

abbrev pub mouse_error : Option Str → List UiCall
mouse_error none = []
mouse_error (some e) =
    log (record { level = warn; args = codes "Raw UEFI mouse error: " ++ e }) ∷ []

abbrev pub redraw_requests : Bool → List UiCall
redraw_requests is_mouse_move = if is_mouse_move then request_redraw ∷ [] else []

abbrev pub or_50ms : Option ℕ → ℕ
or_50ms none = 50000000
or_50ms (some duration) = duration

module _ (screen_width screen_height scale_factor : ℕ) where
  -- the loop over the pointers
  unfoldable pub read_pointers : List Pointer → Mouse → List UiCall × Mouse
  read_pointers [] m = ([], m)
  read_pointers (p ∷ ps) m =
      let (events, m') = read_pointer screen_width screen_height scale_factor p.states m in
      let (calls, m'') = read_pointers ps m' in
      (map dispatch events ++ (mouse_error p.error ++ calls), m'')

-- a round's calls, in order
abbrev pub round_calls : KeysRead → List UiCall × Mouse → List UiCall
round_calls read (mouse_calls, m) =
    update_timers_and_animations ∷ map dispatch read.events
    ++ (boot_directly read.direct_boot ++ (mouse_calls ++ redraw_requests m.is_mouse_move))

module _ {W : Type 0} (host : Host W) where
  -- `log::error!` where the boot failed
  abbrev pub booted : Option Str × Screen W → Option (Screen W)
  booted (none, s) = some s
  booted (some e, s) =
      host.log (record { level = error; args = codes "Direct keyboard boot Windows failed: " ++ e })
        s

  abbrev pub perform : UiCall → Screen W → Option (Screen W)
  perform update_timers_and_animations s = host.update_timers_and_animations s
  perform (dispatch e) s = host.try_dispatch_event e s
  perform (log r) s = host.log r s
  perform (boot_os path) s = host.boot_os path s >>= booted
  perform boot_linux_direct s = host.boot_linux_direct s
  perform request_redraw s = some (record s { window = host.request_redraw s.window })

  -- the calls in turn
  unfoldable pub perform_all : List UiCall → Screen W → Option (Screen W)
  perform_all [] s = some s
  perform_all (c ∷ cs) s = perform c s >>= perform_all cs

  abbrev pub sleep_duration : W → ℕ
  sleep_duration w =
      if host.has_active_animations w
      then 16000000
      else or_50ms (host.duration_until_next_timer_update w)

  -- behind the drawing of the cursor, with the frame that is copied
  abbrev pub shown : Screen W → List BltPixel × List BltPixel → Screen W
  shown s (frame, fb) = record { window = host.blt frame s.window; fb = fb }

module _ {W : Type 0} (host : Host W) (slint_char : SlintKey → ℕ)
    (screen_width screen_height scale_factor : ℕ) where
  -- the closure of `draw_if_needed`
  abbrev pub draw : Mouse → Screen W → Option (Screen W)
  draw m s = host.render s >>= λ s'.
      (draw_frame screen_width screen_height m.phys_x m.phys_y s'.fb >>= λ d.
      some (shown host s' d))

  abbrev pub draw_if_needed : Mouse → Screen W → Option (Screen W)
  draw_if_needed m s = if host.needs_redraw s.window then draw m s else some s

  abbrev pub round_of : KeysRead → List UiCall × Mouse → Screen W → Round W
  round_of read (mouse_calls, m) s = record {
    calls = round_calls read (mouse_calls, m);
    ui = record { mouse = record m { is_mouse_move = false }; screen = s };
    stdin = read.stdin;
    sleep = Futures.new (sleep_duration host s.window);
  }

  unfoldable pub ui_round : Given → Ui W → Option (Round W)
  ui_round g ui =
      let read = read_keys slint_char g.stdin none in
      let went = read_pointers screen_width screen_height scale_factor g.pointers ui.mouse in
      perform_all host (round_calls read went) ui.screen >>= λ called.
      (draw_if_needed went.1 called >>= λ drawn. some (round_of read went drawn))

  -- the loop, for the rounds that are given
  unfoldable pub ui_rounds : List Given → Ui W → Option (List UiCall × Ui W)
  unfolding ui_round
  ui_rounds [] ui = some ([], ui)
  ui_rounds (g ∷ gs) ui =
      ui_round g ui >>= λ r. (ui_rounds gs r.ui >>= λ rest. some (r.calls ++ rest.0, rest.1))

-- the variables before the loop, with the frame buffer that `run_event_loop` makes
abbrev pub start_ui : {W : Type 0} → W → ℕ → ℕ → Ui W
start_ui w screen_width screen_height = record {
  mouse = start_mouse screen_width screen_height;
  screen = record { window = w; fb = replicate (screen_width * screen_height) black };
}
