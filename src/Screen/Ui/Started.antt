-- ===== src/Screen/Ui/Started.antt =====
-- The user interface from its start on.
use webuiboot.Base.{ℕ, ◌≡◌, true, List, [], ◌∷◌, some}
use webuiboot.Screen.{Mode}
use webuiboot.Screen.Pixel.{BltPixel}
use webuiboot.Screen.Mouse.{start_mouse}
use webuiboot.Screen.Keys.{SlintKey}
use webuiboot.Screen.Start.{Gop, run, run_slint_ui, Started, run_event_loop}
use webuiboot.Screen.Ui.{Screen, Host, UiCall, Given, Ui, ui_rounds}
use webuiboot.Screen.Ui.Made.{IsSound}
use webuiboot.Screen.Ui.Rounds.{Did}

module _ {A W V : Type 0} (gop : Gop A) (w : W) (m : Mode A) (host : Host V) (sound : IsSound host)
    (window : V) (slint_char : SlintKey → ℕ) where
  -- The interface's task starts in this mode, and its rounds go well, as many as are given.
  abbrev pub RunsFromStart : List Given → Type 0
  RunsFromStart gs =
      (s : Started W) × (fb : List BltPixel) × (mfb : List BltPixel) × (run_event_loop gop true w
        ≡ some s)
      × (s.executor.tasks ≡ (0, run) ∷ (1, run_slint_ui fb mfb m.width m.height 2) ∷ [])
      × (let screen : Screen V = record { window = window; fb = fb } in
          (calls : List UiCall) × (ui : Ui V) × (ui_rounds host slint_char m.width m.height 2 gs
              (record { mouse = start_mouse m.width m.height; screen = screen })
            ≡ some (calls, ui))
          × Did host sound slint_char m.width m.height 2 screen calls ui)
