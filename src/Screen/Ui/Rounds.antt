-- ===== src/Screen/Ui/Rounds.antt =====
-- What the rounds of the user interface keep, whatever they are given.
use webuiboot.Base.{
  ℕ, ◌*◌, ◌≤◌, ◌≡◌, refl, ◌∙◌, false, List, [], none, some, length, arith, Bool-cases, inl, inr,
  subst,
}
use webuiboot.Base.Arrays.{length-replicate}
use mathlib.Core.List.{append-nil}
use webuiboot.Screen.Pixel.{black}
use webuiboot.Screen.Cursor.{◌>>=◌}
use webuiboot.Screen.Cursor.Shown.{draw_frame_lem}
use webuiboot.Screen.Mouse.{Mouse}
use webuiboot.Screen.Mouse.Position.{IsInside}
use webuiboot.Screen.Keys.{SlintKey, read_keys}
use webuiboot.Screen.Held.{Released}
use webuiboot.Screen.Ui.Made.{IsSound, Made, nothing_more, drawn, Made-append, perform_all_lem}
use webuiboot.Screen.Ui.Calls.{dispatched}
use webuiboot.Screen.Ui.{
  Screen, Host, UiCall, Given, Ui, read_pointers, round_calls, shown, draw_if_needed, round_of,
  ui_round, start_ui,
}

module _ {W : Type 0} (host : Host W) (sound : IsSound host) (slint_char : SlintKey → ℕ)
    (screen_width screen_height scale_factor : ℕ) where
  -- Between two rounds: the cursor is on the screen, no move is pending, the frame is of its size.
  abbrev pub IsReady : Ui W → Type 0
  IsReady ui =
      IsInside screen_width screen_height ui.mouse
      × (ui.mouse.is_mouse_move ≡ false)
      × (length ui.screen.fb ≡ screen_width * screen_height)

  -- what rounds do that began with this screen
  abbrev pub Did : Screen W → List UiCall → Ui W → Type 0
  Did s calls ui =
      IsReady ui
      × Released (dispatched calls)
      × Made host screen_width screen_height s calls ui.screen

  pub draw_if_needed_lem :
      (m : Mouse) (s : Screen W)
      → length s.fb ≡ screen_width * screen_height
      → (t : Screen W) × (draw_if_needed host slint_char screen_width screen_height scale_factor m s
          ≡ some t)
        × (length t.fb ≡ screen_width * screen_height)
        × Made host screen_width screen_height s [] t
  draw_if_needed_lem m s l = elim (Bool-cases (host.needs_redraw s.window)) [
    | inl e ↦
        let (s', r, k) = sound.renders s in
        let (frame, d, fits, seen) =
          draw_frame_lem screen_width screen_height m.phys_x m.phys_y s'.fb (k ∙ l) in
        (
          shown host s' (frame, s'.fb),
          rw (e, r, ◌>>=◌, d) refl,
          k ∙ l,
          drawn m.phys_x m.phys_y r d nothing_more,
        )
    | inr e ↦ (s, rw e refl, l, nothing_more)
  ]

  -- A round goes through, whatever the keys and the pointers give.
  pub ui_round-goes_on :
      (g : Given) (ui : Ui W)
      → length ui.screen.fb ≡ screen_width * screen_height
      → let read = read_keys slint_char g.stdin none in
        let went = read_pointers screen_width screen_height scale_factor g.pointers ui.mouse in
        (s : Screen W) × (ui_round host slint_char screen_width screen_height scale_factor g ui
          ≡ some (round_of host slint_char screen_width screen_height scale_factor read went s))
        × (length s.fb ≡ screen_width * screen_height)
        × Made host screen_width screen_height ui.screen (round_calls read went) s
  unfolding ui_round
  ui_round-goes_on g ui l =
      let read = read_keys slint_char g.stdin none in
      let went = read_pointers screen_width screen_height scale_factor g.pointers ui.mouse in
      let (s, e, k, made) =
        perform_all_lem host sound screen_width screen_height (round_calls read went) ui.screen in
      let (t, d, k', made') = draw_if_needed_lem went.1 s (k ∙ l) in
      (
        t,
        rw (e, ◌>>=◌, d) refl,
        k',
        subst (λ cs. Made host screen_width screen_height ui.screen cs t)
            (append-nil (round_calls read went)) (Made-append made made'),
      )

-- A screen that is twice the cursor's size is ready at the start.
pub start_ui-IsReady :
    {W : Type 0} (host : Host W) (sound : IsSound host) (slint_char : SlintKey → ℕ)
    (screen_width screen_height scale_factor : ℕ) (w : W)
    → 24 ≤ screen_width
    → 38 ≤ screen_height
    → IsReady host sound slint_char screen_width screen_height scale_factor
        (start_ui w screen_width screen_height)
start_ui-IsReady host sound slint_char w h s world hw hh =
    ((omega arith, omega arith), refl, length-replicate (w * h) black)
