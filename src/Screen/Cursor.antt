-- ===== src/Screen/Cursor.antt =====
-- src/slint_plat.rs, `run_slint_ui`: the closure that draws a frame. It puts the mouse cursor onto the
-- frame buffer for the time of the copy to the screen. A panic, an index out of bounds, is `none`.
-- The position is `phys_x as usize` and `phys_y as usize`.
pub mod Grid
pub mod Paint
pub mod Shown
pub mod Restored
use webuiboot.Base.{
  ℕ, zero, suc, ◌+◌, ◌*◌, Bool, ◌&&◌, List, [], ◌∷◌, ◌++◌, Option, none, some, if◌then◌else◌, ◌==◌,
  ltb, get_elem?,
}
use webuiboot.Base.Arrays.{store, replicate}
use webuiboot.Screen.Pixel.{BltPixel, white, black}

abbrev pub pointer_width : ℕ
pointer_width = 12

abbrev pub pointer_height : ℕ
pointer_height = 19

abbrev pub pointer_pixels : List ℕ
pointer_pixels =
    2 ∷ 0 ∷ 0 ∷ 0 ∷ 0 ∷ 0 ∷ 0 ∷ 0 ∷ 0 ∷ 0 ∷ 0 ∷ 0 ∷ 2 ∷ 2 ∷ 0 ∷ 0 ∷ 0 ∷ 0 ∷ 0 ∷ 0 ∷ 0 ∷ 0 ∷ 0 ∷ 0
    ∷ 2 ∷ 1 ∷ 2 ∷ 0 ∷ 0 ∷ 0 ∷ 0 ∷ 0 ∷ 0 ∷ 0 ∷ 0 ∷ 0 ∷ 2 ∷ 1 ∷ 1 ∷ 2 ∷ 0 ∷ 0 ∷ 0 ∷ 0 ∷ 0 ∷ 0 ∷ 0 ∷ 0
    ∷ 2 ∷ 1 ∷ 1 ∷ 1 ∷ 2 ∷ 0 ∷ 0 ∷ 0 ∷ 0 ∷ 0 ∷ 0 ∷ 0 ∷ 2 ∷ 1 ∷ 1 ∷ 1 ∷ 1 ∷ 2 ∷ 0 ∷ 0 ∷ 0 ∷ 0 ∷ 0 ∷ 0
    ∷ 2 ∷ 1 ∷ 1 ∷ 1 ∷ 1 ∷ 1 ∷ 2 ∷ 0 ∷ 0 ∷ 0 ∷ 0 ∷ 0 ∷ 2 ∷ 1 ∷ 1 ∷ 1 ∷ 1 ∷ 1 ∷ 1 ∷ 2 ∷ 0 ∷ 0 ∷ 0 ∷ 0
    ∷ 2 ∷ 1 ∷ 1 ∷ 1 ∷ 1 ∷ 1 ∷ 1 ∷ 1 ∷ 2 ∷ 0 ∷ 0 ∷ 0 ∷ 2 ∷ 1 ∷ 1 ∷ 1 ∷ 1 ∷ 1 ∷ 1 ∷ 1 ∷ 1 ∷ 2 ∷ 0 ∷ 0
    ∷ 2 ∷ 1 ∷ 1 ∷ 1 ∷ 1 ∷ 1 ∷ 2 ∷ 2 ∷ 2 ∷ 2 ∷ 2 ∷ 2 ∷ 2 ∷ 1 ∷ 1 ∷ 2 ∷ 1 ∷ 1 ∷ 2 ∷ 0 ∷ 0 ∷ 0 ∷ 0 ∷ 0
    ∷ 2 ∷ 1 ∷ 2 ∷ 0 ∷ 2 ∷ 1 ∷ 1 ∷ 2 ∷ 0 ∷ 0 ∷ 0 ∷ 0 ∷ 2 ∷ 2 ∷ 0 ∷ 0 ∷ 2 ∷ 1 ∷ 1 ∷ 2 ∷ 0 ∷ 0 ∷ 0 ∷ 0
    ∷ 0 ∷ 0 ∷ 0 ∷ 0 ∷ 0 ∷ 2 ∷ 1 ∷ 1 ∷ 2 ∷ 0 ∷ 0 ∷ 0 ∷ 0 ∷ 0 ∷ 0 ∷ 0 ∷ 0 ∷ 2 ∷ 1 ∷ 1 ∷ 2 ∷ 0 ∷ 0 ∷ 0
    ∷ 0 ∷ 0 ∷ 0 ∷ 0 ∷ 0 ∷ 0 ∷ 2 ∷ 2 ∷ 0 ∷ 0 ∷ 0 ∷ 0 ∷ 0 ∷ 0 ∷ 0 ∷ 0 ∷ 0 ∷ 0 ∷ 0 ∷ 0 ∷ 0 ∷ 0 ∷ 0 ∷ 0
    ∷ 0 ∷ 0 ∷ 0 ∷ 0 ∷ 0 ∷ 0 ∷ 0 ∷ 0 ∷ 0 ∷ 0 ∷ 0 ∷ 0 ∷ []

-- `for y in 0..POINTER_HEIGHT { for x in 0..POINTER_WIDTH`: the pairs, in the order of the loops
abbrev pub row_cells : ℕ → ℕ → ℕ → List (ℕ × ℕ)
row_cells y x zero = []
row_cells y x (suc n) = (x, y) ∷ row_cells y (suc x) n

abbrev pub rows_cells : ℕ → ℕ → List (ℕ × ℕ)
rows_cells y zero = []
rows_cells y (suc n) = row_cells y 0 pointer_width ++ rows_cells (suc y) n

unfoldable pub pointer_cells : List (ℕ × ℕ)
pointer_cells = rows_cells 0 pointer_height

infixl 5 ◌>>=◌
abbrev pub ◌>>=◌ : {A B : Type 0} → Option A → (A → Option B) → Option B
none >>= f = none
(some a) >>= f = f a

unfoldable pub for_cells : {S : Type 0} → (ℕ → ℕ → S → Option S) → List (ℕ × ℕ) → S → Option S
for_cells body [] s = some s
for_cells body ((x, y) ∷ cs) s = body x y s >>= for_cells body cs

abbrev pub bg_idx : ℕ → ℕ → ℕ
bg_idx x y = x + y * pointer_width

abbrev pub draw_pixel : ℕ → ℕ → List BltPixel → Option (List BltPixel)
draw_pixel pixel_type i fb =
    if pixel_type == 1
    then store fb i white
    else if pixel_type == 2
    then store fb i black
    else some fb

module _ (screen_width screen_height phys_x phys_y : ℕ) where
  abbrev pub is_visible : ℕ → ℕ → Bool
  is_visible x y = ltb (phys_x + x) screen_width && ltb (phys_y + y) screen_height

  abbrev pub fb_idx : ℕ → ℕ → ℕ
  fb_idx x y = (phys_y + y) * screen_width + (phys_x + x)

  abbrev pub save_cell : List BltPixel → ℕ → ℕ → List BltPixel → Option (List BltPixel)
  save_cell fb x y saved =
      if is_visible x y
      then (get_elem? fb (fb_idx x y) >>= store saved (bg_idx x y))
      else some saved

  abbrev pub draw_cell : ℕ → ℕ → List BltPixel → Option (List BltPixel)
  draw_cell x y fb =
      if is_visible x y
      then (get_elem? pointer_pixels (bg_idx x y) >>= λ t. draw_pixel t (fb_idx x y) fb)
      else some fb

  abbrev pub restore_cell : List BltPixel → ℕ → ℕ → List BltPixel → Option (List BltPixel)
  restore_cell saved x y fb =
      if is_visible x y then (get_elem? saved (bg_idx x y) >>= store fb (fb_idx x y)) else some fb

  unfoldable pub save_background : List BltPixel → Option (List BltPixel)
  save_background fb =
      for_cells (save_cell fb) pointer_cells (replicate (pointer_width * pointer_height) black)

  unfoldable pub draw_cursor : List BltPixel → Option (List BltPixel)
  draw_cursor fb = for_cells draw_cell pointer_cells fb

  unfoldable pub restore_background : List BltPixel → List BltPixel → Option (List BltPixel)
  restore_background saved fb = for_cells (restore_cell saved) pointer_cells fb

  -- On the frame that was rendered: what is copied to the screen, and the frame behind it.
  unfoldable pub draw_frame : List BltPixel → Option (List BltPixel × List BltPixel)
  unfolding save_background draw_cursor restore_background
  draw_frame fb = do
    saved ← save_background fb
    drawn ← draw_cursor fb
    restored ← restore_background saved drawn
    some (drawn, restored)
