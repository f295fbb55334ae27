-- ===== src/Screen/Held.antt =====
-- src/slint_plat.rs, `run_slint_ui`: the keys and buttons that the dispatched events hold down.
use webuiboot.Base.{ℕ, Bool, true, false, ◌||◌, List, [], ◌∷◌, ◌++◌, if◌then◌else◌}
use webuiboot.Base.Int.{ℤ}
use webuiboot.Screen.Mouse.{
  MouseState, LogicalPosition, PointerEventButton, WindowEvent, Mouse, key_pressed, key_released,
  pointer_moved, pointer_exited, pointer_pressed, pointer_released, pointer_scrolled, move_mouse,
  position, button_of, scroll_delta, is_nonzero, mouse_events, read_pointer,
}
use webuiboot.Screen.Keys.Typed.{strokes}

-- Every press is followed at once by its release: of the same key, or of the same button at the same place.
pub data Released : List WindowEvent → Type 0 where
  nothing_left : Released []
  typed :
      {key : ℕ} {es : List WindowEvent}
      → Released es
      → Released (key_pressed key ∷ key_released key ∷ es)
  clicked :
      {at : LogicalPosition} {button : PointerEventButton} {es : List WindowEvent}
      → Released es
      → Released (pointer_pressed at button ∷ pointer_released at button ∷ es)
  went :
      {at : LogicalPosition} {es : List WindowEvent}
      → Released es
      → Released (pointer_moved at ∷ pointer_exited ∷ es)
  scrolled :
      {at : LogicalPosition} {delta : ℤ} {es : List WindowEvent}
      → Released es
      → Released (pointer_scrolled at delta ∷ es)

pub Released-append :
    {es es' : List WindowEvent} → Released es → Released es' → Released (es ++ es')
Released-append nothing_left s = s
Released-append (typed r) s = typed (Released-append r s)
Released-append (clicked r) s = clicked (Released-append r s)
Released-append (went r) s = went (Released-append r s)
Released-append (scrolled r) s = scrolled (Released-append r s)

pub strokes-Released : (keys : List ℕ) → Released (strokes keys)
strokes-Released [] = nothing_left
strokes-Released (key ∷ keys) = typed (strokes-Released keys)

clicks-Released :
    (b : Bool) (at : LogicalPosition) (button : PointerEventButton)
    → Released (if b then pointer_pressed at button ∷ pointer_released at button ∷ [] else [])
clicks-Released true at button = clicked nothing_left
clicks-Released false at button = nothing_left

scroll-Released :
    (b : Bool) (at : LogicalPosition) (delta : ℤ)
    → Released (if b then pointer_scrolled at delta ∷ [] else [])
scroll-Released true at delta = scrolled nothing_left
scroll-Released false at delta = nothing_left

module _ (screen_width screen_height scale_factor : ℕ) where
  mouse_events-Released :
      (mouse : MouseState) (m : Mouse)
      → Released (mouse_events screen_width screen_height scale_factor mouse m)
  mouse_events-Released mouse m =
      let at = position screen_width screen_height scale_factor m in
      went (
        Released-append
          (clicks-Released (mouse.left_button || mouse.right_button) at
            (button_of mouse.left_button mouse.right_button))
          (scroll-Released (is_nonzero mouse.relative_z) at (scroll_delta mouse.relative_z)))

  pub read_pointer-Released :
      (states : List MouseState) (m : Mouse)
      → Released (read_pointer screen_width screen_height scale_factor states m).0
  unfolding read_pointer
  read_pointer-Released [] m = nothing_left
  read_pointer-Released (mouse ∷ states) m =
      let m' = move_mouse screen_width screen_height scale_factor mouse m in
      Released-append (mouse_events-Released mouse m') (read_pointer-Released states m')
