-- ===== src/Screen/Tests.antt =====
-- Modes for src/slint_plat.rs.
use webuiboot.Base.{
  ◌%◌, ◌==◌, leb, ℕ, ◌+◌, ◌*◌, ◌/◌, ◌^◌, ◌≤◌, ◌<◌, ◌≡◌, refl, true, false, List, [], ◌∷◌, Option,
  none, some, length, arith,
}
use webuiboot.Base.Int.{pos, negsuc}
use webuiboot.Base.Arrays.{replicate}
use webuiboot.Text.{codes}
use webuiboot.Logs.Format.{LogRecord, info, warn}
use webuiboot.Screen.Pixel.{BltPixel, PremultipliedRgbaColor, from_rgb, blend}
use webuiboot.Screen.Pixel.Bounds.{IsPixel, over, blend_lem}
use webuiboot.Screen.Cursor.{draw_frame}
use webuiboot.Screen.Cursor.Restored.{pixel}
use webuiboot.Screen.Cursor.Shown.{overlaid, draw_frame_lem}
use webuiboot.Screen.Mouse.{MouseState}
use webuiboot.Screen.Keys.{UefiKey, SlintKey, printable, special, up, unnamed, tab}
use webuiboot.Screen.Ui.{Host, Given, Ui}
use webuiboot.Screen.Flush.{Statics, log_record}
use webuiboot.Screen.Flush.Ends.{Ends, IsRestored, log_record-Ends}
use webuiboot.Screen.Timer.{init_global_timer, get_ms_since_start}
use webuiboot.Screen.Timer.Elapsed.{elapsed_lem}
use webuiboot.Screen.Start.{Gop}
use webuiboot.Screen.{Mode, no_mode, choose_mode}
use webuiboot.Screen.Modes.{Chosen, AllWithin, choose_mode_lem}

abbrev some_modes : List (Mode ℕ)
some_modes =
    record { width = 800; height = 600; handle = 0 }
    ∷ record { width = 1920; height = 1080; handle = 1 }
    ∷ record { width = 1024; height = 768; handle = 2 }
    ∷ record { width = 2560; height = 1440; handle = 3 }
    ∷ []

choose_mode_lem_example :
    Chosen some_modes (choose_mode some_modes no_mode)
    × AllWithin some_modes (choose_mode some_modes no_mode)
choose_mode_lem_example = choose_mode_lem some_modes

abbrev red : BltPixel
red = from_rgb 255 0 0

abbrev small_frame : List BltPixel
small_frame = replicate 6 red

-- The cursor's left upper corner is at the second column of a screen of three columns and two rows.
draw_frame_lem_example :
    (drawn : List BltPixel) × (draw_frame 3 2 1 0 small_frame ≡ some (drawn, small_frame))
    × (length drawn ≡ 3 * 2)
    × ((px py : ℕ) → px < 3 → py < 2 → pixel 3 drawn px py ≡ overlaid 3 2 1 0 small_frame px py)
draw_frame_lem_example = draw_frame_lem 3 2 1 0 small_frame refl

-- Slint's characters.
abbrev slint_char : SlintKey → ℕ
slint_char tab = 9
slint_char k = 0xf700

abbrev some_keys : List (Option UefiKey)
some_keys =
    some (printable b'w')
    ∷ some (special up)
    ∷ some (printable b'2')
    ∷ some (printable b'\r')
    ∷ some (special (unnamed 99))
    ∷ some (printable b'1')
    ∷ []

abbrev moved_right : MouseState
moved_right = record {
  relative_x = pos 3;
  relative_y = negsuc 2;
  relative_z = pos 1;
  left_button = true;
  right_button = false;
}

-- A pointer with one state, and one that fails.
abbrev a_round : Given
a_round = record {
  stdin = some_keys;
  pointers =
      record { states = moved_right ∷ []; error = none }
      ∷ record { states = []; error = some (codes "DEVICE_ERROR") }
      ∷ [];
}

abbrev some_rounds : List Given
some_rounds = a_round ∷ record { stdin = []; pointers = [] } ∷ []

-- A window that counts what is called, and is drawn behind every request.
abbrev counting : Host ℕ
counting = record {
  update_timers_and_animations = λ s. some (record s { window = s.window + 1 });
  try_dispatch_event = λ e s. some (record s { window = s.window + 1 });
  log = λ r s. some (record s { window = s.window + 1 });
  boot_os = λ path s. (some (some (codes "NOT_FOUND"), record s { window = s.window + 1 }));
  boot_linux_direct = λ s. some (record s { window = s.window + 1 });
  request_redraw = λ w. w + 100;
  needs_redraw = λ w. leb 100 w;
  render = λ s. some s;
  blt = λ frame w. w % 100;
  has_active_animations = λ w. w % 2 == 0;
  duration_until_next_timer_update = λ w. none;
}

-- Rendering logs.
abbrev noisy : Statics → ℕ → List BltPixel → List BltPixel × List LogRecord
noisy s width fb = (fb, record { level = warn; args = codes "slow" } ∷ [])

abbrev some_statics : Statics
some_statics = record {
  in_flush = false;
  has_window = true;
  gop = some (3, 2);
  fb = some small_frame;
  logs = record { window = some []; pending = none };
  stdout = [];
  screen = [];
}

abbrev hello : LogRecord
hello = record { level = info; args = codes "hello" }

log_record-Ends_example : Ends (IsRestored some_statics) (log_record noisy 2 hello some_statics)
log_record-Ends_example = log_record-Ends noisy 0 hello some_statics

abbrev half_white : PremultipliedRgbaColor
half_white = record { alpha = 128; red = 128; green = 128; blue = 128 }

blend_lem_example :
    (blend half_white red ≡ from_rgb (over 128 255 128) (over 128 0 128) (over 128 0 128))
    × IsPixel (blend half_white red)
blend_lem_example =
    blend_lem half_white red (omega arith, omega arith, omega arith, omega arith)
      (omega arith, omega arith, omega arith)

-- Three million ticks in a millisecond, and a second later.
elapsed_lem_example :
    (3000000000 ≤ 2 ^ 64 / 1000
      → get_ms_since_start (init_global_timer 500 900 (900 + 3000000)) (500 + 3000000000)
        ≡ 3000000000 / 3000000)
    × (get_ms_since_start (init_global_timer 500 900 (900 + 3000000)) (500 + (2 ^ 64 / 1000 + 1))
        ≡ 0)
elapsed_lem_example = elapsed_lem 500 900 3000000 3000000000 (omega arith) (omega arith)

abbrev some_gop : Gop ℕ
some_gop = record {
  modes = some_modes;
  set_mode = λ m. (true, (m.width, m.height));
  resolution = (640, 480);
}

abbrev full_hd : Mode ℕ
full_hd = record { width = 1920; height = 1080; handle = 1 }

abbrev a_world : ℕ
a_world = 0
