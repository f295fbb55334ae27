-- ===== src/Screen/Start.antt =====
-- src/slint_plat.rs, `run_event_loop` up to the executor's run: the video mode, the sizes and the two
-- tasks. The graphics protocol is a parameter. A panic is `none`.
pub mod Scale
use webuiboot.Base.{
  ℕ, ◌*◌, ◌^◌, Bool, true, false, ◌&&◌, List, Option, none, some, if◌then◌else◌, leb, ltb,
}
use webuiboot.Base.Arrays.{replicate}
use webuiboot.Executor
use webuiboot.Executor.{State, spawn}
use webuiboot.Screen.{Mode, no_mode, choose_mode}
use webuiboot.Screen.Pixel.{BltPixel, black}
use webuiboot.Screen.Cursor.{pointer_width, pointer_height}
use webuiboot.Screen.Mouse.{WindowEvent, scale_factor_changed}

pub record Gop (A : Type 0) : Type 0 where
  pub modes : List (Mode A)
  -- whether `set_mode` succeeds, and the current resolution behind it
  pub set_mode : Mode A → Bool × (ℕ × ℕ)
  -- the resolution before
  pub resolution : ℕ × ℕ

-- the executor's tasks: `crate::run`, and `run_slint_ui` with its arguments
pub data Task : Type 0 where
  run : Task
  run_slint_ui : List BltPixel → List BltPixel → ℕ → ℕ → ℕ → Task

-- what the start leaves: the window's size and event, the statics, and the executor
pub record Started (W : Type 0) : Type 0 where
  pub size : ℕ × ℕ
  pub event : WindowEvent
  pub global_gop : Option (ℕ × ℕ)
  pub global_fb : Option (List BltPixel)
  pub global_window : Bool
  pub executor : State Task W

-- in halves
abbrev pub scale_factor : ℕ → ℕ
scale_factor screen_width =
    if leb 3840 screen_width then 4 else if leb 2560 screen_width then 3 else 2

abbrev pub resolution_with : {A : Type 0} → Gop A → Option (Mode A) → ℕ × ℕ
resolution_with gop none = gop.resolution
resolution_with gop (some m) = (gop.set_mode m).1

abbrev pub started : {W : Type 0} → ℕ → ℕ → W → Started W
started screen_width screen_height w =
    let scale = scale_factor screen_width in
    let fb = replicate (screen_width * screen_height) black in
    let mfb = replicate (pointer_width * pointer_height) black in
    record {
      size = (screen_width, screen_height);
      event = scale_factor_changed scale;
      global_gop = some (screen_width, screen_height);
      global_fb = some fb;
      global_window = true;
      executor =
          spawn (run_slint_ui fb mfb screen_width screen_height scale) (spawn run (Executor.new w));
    }

-- `try_into().unwrap()` to a `u32`
abbrev pub fits_u32 : ℕ → Bool
fits_u32 n = ltb n (2 ^ 32)

-- `get_handle_for_protocol` and `open_protocol_exclusive` found the protocol, or panicked.
unfoldable pub run_event_loop : {A W : Type 0} → Gop A → Bool → W → Option (Started W)
run_event_loop gop false w = none
run_event_loop gop true w =
    let (screen_width, screen_height) =
      resolution_with gop (choose_mode gop.modes no_mode).best_mode in
    if fits_u32 screen_width && fits_u32 screen_height
    then some (started screen_width screen_height w)
    else none
