-- ===== src/Screen/Mouse.antt =====
-- src/slint_plat.rs, `run_slint_ui`: the mouse. The position and the movements are `f32` there; they
-- start at whole numbers and change by whole numbers (2.0 times a scale of 1.0, 1.5 or 2.0 is 2, 3 or
-- 4), so that below 2 ^ 24 they are exact, and a larger one is clamped all the same: they are whole
-- numbers here, and a scale is counted in halves. A subtraction of `usize` wraps.
pub mod Position
use webuiboot.Base.{
  ℕ, zero, suc, ◌+◌, ◌-◌, ◌*◌, ◌/◌, ◌%◌, ◌^◌, Bool, true, false, ◌||◌, List, [], ◌∷◌, ◌++◌,
  if◌then◌else◌, ltb,
}
use webuiboot.Base.Int.{ℤ, pos, negsuc, wrapping_sub}
use webuiboot.Screen.Cursor.{pointer_width, pointer_height}

-- a pointer's state, as `read_state` gives it
pub record MouseState : Type 0 where
  pub relative_x : ℤ
  pub relative_y : ℤ
  pub relative_z : ℤ
  pub left_button : Bool
  pub right_button : Bool

pub data PointerEventButton : Type 0 where
  left right other : PointerEventButton

-- `phys_x / scale_factor` and `phys_y / scale_factor`
pub record LogicalPosition : Type 0 where
  pub phys_x : ℕ
  pub phys_y : ℕ
  pub scale_factor : ℕ

-- The events that are dispatched to the window.
pub data WindowEvent : Type 0 where
  scale_factor_changed : ℕ → WindowEvent
  key_pressed key_released : ℕ → WindowEvent
  pointer_moved : LogicalPosition → WindowEvent
  pointer_exited : WindowEvent
  pointer_pressed pointer_released : LogicalPosition → PointerEventButton → WindowEvent
  pointer_scrolled : LogicalPosition → ℤ → WindowEvent

-- the variables of the loop
pub record Mouse : Type 0 where
  pub phys_x : ℕ
  pub phys_y : ℕ
  pub is_mouse_move : Bool

abbrev pub min : ℕ → ℕ → ℕ
min a b = if ltb a b then a else b

-- `phys += movement * sensitivity`, and `clamp(0, max)`
abbrev pub moved : ℕ → ℕ → ℕ → ℤ → ℕ
moved max sensitivity phys (pos n) = min (phys + n * sensitivity) max
moved max sensitivity phys (negsuc n) = min (phys - suc n * sensitivity) max

abbrev pub button_of : Bool → Bool → PointerEventButton
button_of true r = left
button_of false true = right
button_of false false = other

-- `-(movement as f32) * 30.0`
abbrev pub scroll_delta : ℤ → ℤ
scroll_delta (pos zero) = pos 0
scroll_delta (pos (suc n)) = negsuc (suc n * 30 - 1)
scroll_delta (negsuc n) = pos (suc n * 30)

abbrev pub is_nonzero : ℤ → Bool
is_nonzero (pos zero) = false
is_nonzero _ = true

module _ (screen_width screen_height scale_factor : ℕ) where
  abbrev pub move_mouse : MouseState → Mouse → Mouse
  move_mouse mouse m = record {
    phys_x = moved (wrapping_sub screen_width pointer_width) scale_factor m.phys_x mouse.relative_x;
    phys_y =
        moved (wrapping_sub screen_height pointer_height) scale_factor m.phys_y mouse.relative_y;
    is_mouse_move = true;
  }

  abbrev pub position : Mouse → LogicalPosition
  position m = record { phys_x = m.phys_x; phys_y = m.phys_y; scale_factor = scale_factor }

  -- what is dispatched for one state, behind the move
  abbrev pub mouse_events : MouseState → Mouse → List WindowEvent
  mouse_events mouse m =
      let button = button_of mouse.left_button mouse.right_button in
      (pointer_moved (position m) ∷ pointer_exited ∷ [])
      ++ (if mouse.left_button || mouse.right_button
          then pointer_pressed (position m) button ∷ pointer_released (position m) button ∷ []
          else [])
      ++ (if is_nonzero mouse.relative_z
          then pointer_scrolled (position m) (scroll_delta mouse.relative_z) ∷ []
          else [])

  -- The states that one pointer gives, up to its first `None` or error.
  unfoldable pub read_pointer : List MouseState → Mouse → List WindowEvent × Mouse
  read_pointer [] m = ([], m)
  read_pointer (mouse ∷ states) m =
      let m' = move_mouse mouse m in
      let (events, m'') = read_pointer states m' in (mouse_events mouse m' ++ events, m'')

-- the variables before the loop
abbrev pub start_mouse : ℕ → ℕ → Mouse
start_mouse screen_width screen_height = record {
  phys_x = screen_width / 2;
  phys_y = screen_height / 2;
  is_mouse_move = false;
}
