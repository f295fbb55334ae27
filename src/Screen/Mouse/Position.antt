-- ===== src/Screen/Mouse/Position.antt =====
-- Where the cursor can be.
use webuiboot.Base.{ℕ, ◌+◌, ◌^◌, ◌≤◌, ◌<◌, ◌≡◌, true, List, [], ◌∷◌, arith}
use webuiboot.Base.Int.{ℤ, pos, negsuc, wrapping_sub}
use webuiboot.Screen.Cursor.{pointer_width, pointer_height, is_visible}
use webuiboot.Screen.Mouse.{MouseState, Mouse, moved, move_mouse, read_pointer}

moved-le : (max s x : ℕ) (m : ℤ) → moved max s x m ≤ max
moved-le max s x (pos n) = ground arith
moved-le max s x (negsuc n) = ground arith

module _ (screen_width screen_height : ℕ) where
  -- The whole cursor is on the screen.
  abbrev pub IsInside : Mouse → Type 0
  IsInside m =
      (m.phys_x + pointer_width ≤ screen_width) × (m.phys_y + pointer_height ≤ screen_height)

  -- The cursor fits the screen.
  abbrev pub FitsCursor : Type 0
  FitsCursor =
      (pointer_width ≤ screen_width)
      × (pointer_height ≤ screen_height)
      × (screen_width < 2 ^ 64)
      × (screen_height < 2 ^ 64)

  move_mouse-IsInside :
      (scale : ℕ) (mouse : MouseState) (m : Mouse)
      → FitsCursor
      → IsInside (move_mouse screen_width screen_height scale mouse m)
  move_mouse-IsInside scale mouse m f =
      let dx = moved-le (wrapping_sub screen_width pointer_width) scale m.phys_x mouse.relative_x in
      let dy =
        moved-le (wrapping_sub screen_height pointer_height) scale m.phys_y mouse.relative_y in
      (omega arith, omega arith)

  -- The mouse's moves keep the cursor on the screen, whatever a pointer gives.
  pub read_pointer-IsInside :
      (scale : ℕ) (states : List MouseState) (m : Mouse)
      → FitsCursor
      → IsInside m
      → IsInside (read_pointer screen_width screen_height scale states m).1
  unfolding read_pointer
  read_pointer-IsInside scale [] m f i = i
  read_pointer-IsInside scale (mouse ∷ states) m f i =
      read_pointer-IsInside scale states (move_mouse screen_width screen_height scale mouse m) f
        (move_mouse-IsInside scale mouse m f)

  pub IsInside-is_visible :
      (m : Mouse) (x y : ℕ)
      → IsInside m
      → x < pointer_width
      → y < pointer_height
      → is_visible screen_width screen_height m.phys_x m.phys_y x y ≡ true
  IsInside-is_visible m x y i hx hy = ground arith
