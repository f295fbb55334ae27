-- ===== src/Screen/Cursor/Shown.antt =====
-- What is copied to the screen: the rendered frame under the cursor.
use webuiboot.Base.{
  ℕ, ◌+◌, ◌-◌, ◌*◌, ◌<◌, ◌≡◌, refl, sym, ◌∙◌, ap, true, false, ◌&&◌, ◌⊎◌, inl, inr, List, [], ◌∷◌,
  some, if◌then◌else◌, ◌==◌, ltb, leb, arith, length, Bool-cases,
}
use webuiboot.Base.Arrays.{get_or, get_elem?-get_or}
use webuiboot.Screen.Pixel.{BltPixel}
use webuiboot.Screen.Cursor.{
  pointer_width, pointer_height, pointer_pixels, pointer_cells, ◌>>=◌, bg_idx, is_visible, fb_idx,
  draw_cell, draw_cursor, draw_frame,
}
use webuiboot.Screen.Cursor.Paint.{paint, draw_pixel_lem, paint_step}
use webuiboot.Screen.Cursor.Grid.{
  has_cell, for_cells_inv, pointer_cells-AllCells, has_cell-pointer_cells, index-injective,
}
use webuiboot.Screen.Cursor.Restored.{
  pixel, is_on, visible-lt, same_place, save_background_lem, restore_background_lem,
}

module _ (screen_width screen_height phys_x phys_y : ℕ) where
  -- the pixel of the cursor over a place
  abbrev pub pointer_at : ℕ → ℕ → ℕ
  pointer_at px py = get_or pointer_pixels (bg_idx (px - phys_x) (py - phys_y)) 0

  -- The frame with the cursor, pixel by pixel.
  abbrev pub overlaid : List BltPixel → ℕ → ℕ → BltPixel
  overlaid fb px py =
      if leb phys_x px
        && ltb px (phys_x + pointer_width)
        && leb phys_y py
        && ltb py (phys_y + pointer_height)
      then paint (pointer_at px py) (pixel screen_width fb px py)
      else pixel screen_width fb px py

  -- The cells that are left make of `now` the frame with the cursor.
  abbrev Draws : List BltPixel → List (ℕ × ℕ) → List BltPixel → Type 0
  Draws fb cs now =
      (length now ≡ screen_width * screen_height)
      × ((px py : ℕ)
          → px < screen_width
          → py < screen_height
          → (if is_on screen_width screen_height phys_x phys_y cs px py
              then paint (pointer_at px py) (pixel screen_width now px py)
              else pixel screen_width now px py)
            ≡ overlaid fb px py)

  here_iff :
      (x y px py : ℕ)
      → phys_x + x < screen_width
      → px < screen_width
      → (fb_idx screen_width screen_height phys_x phys_y x y == py * screen_width + px)
        ≡ (leb phys_x px && leb phys_y py && (x == px - phys_x && y == py - phys_y))
  here_iff x y px py hx hp = ground (
    arith,
    index-injective (phys_y + y) py (phys_x + x) px screen_width,
    same_place screen_width screen_height phys_x phys_y x y px py,
  )

  same_type :
      (x y px py : ℕ)
      → (x == px - phys_x && y == py - phys_y) ≡ true
      → get_or pointer_pixels (bg_idx x y) 0 ≡ pointer_at px py
  same_type x y px py k =
      let same : bg_idx x y ≡ bg_idx (px - phys_x) (py - phys_y) = ground arith in
      ap (λ m. get_or pointer_pixels m 0) same

  covered_iff :
      (px py : ℕ)
      → is_on screen_width screen_height phys_x phys_y pointer_cells px py ≡ (
          leb phys_x px
          && ltb px (phys_x + pointer_width)
          && leb phys_y py
          && ltb py (phys_y + pointer_height))
  covered_iff px py = ground (arith, has_cell-pointer_cells (px - phys_x) (py - phys_y))

  none_left : (px py : ℕ) → is_on screen_width screen_height phys_x phys_y [] px py ≡ false
  none_left px py = ground arith

  draw_cell-Draws :
      (fb : List BltPixel) (x y : ℕ) (cs : List (ℕ × ℕ)) (now : List BltPixel)
      → x < pointer_width
      → y < pointer_height
      → Draws fb ((x, y) ∷ cs) now
      → (now' : List BltPixel) × (draw_cell screen_width screen_height phys_x phys_y x y now
          ≡ some now')
        × Draws fb cs now'
  draw_cell-Draws fb x y cs now hx hy (l, old) =
      elim (Bool-cases (is_visible screen_width screen_height phys_x phys_y x y)) [
        | inr v ↦ (now, rw v refl, (l, λ a b ha hb. ground (arith, old a b ha hb)))
        | inl v ↦
            let i = fb_idx screen_width screen_height phys_x phys_y x y in
            let t = get_or pointer_pixels (bg_idx x y) 0 in
            let (now', e, l', drawn) =
              draw_pixel_lem t i now
                (omega (arith, visible-lt screen_width screen_height phys_x phys_y x y v)) in
            (
              now',
              rw (v, get_elem?-get_or pointer_pixels (bg_idx x y) 0 (omega arith), ◌>>=◌) e,
              (
                l' ∙ l,
                λ a b ha hb.
                    paint_step (leb phys_x a) (leb phys_y b) (x == a - phys_x && y == b - phys_y)
                      (has_cell (a - phys_x) (b - phys_y) cs) (i == b * screen_width + a) t
                      (pointer_at a b) (pixel screen_width now a b) (pixel screen_width now' a b)
                      (overlaid fb a b) (here_iff x y a b (ground (arith, v)) ha)
                      (λ k. same_type x y a b k) (old a b ha hb) (drawn (b * screen_width + a)),
              ),
            )
      ]

  draw_cursor_lem :
      (fb : List BltPixel)
      → length fb ≡ screen_width * screen_height
      → (drawn : List BltPixel) × (draw_cursor screen_width screen_height phys_x phys_y fb
          ≡ some drawn)
        × (length drawn ≡ screen_width * screen_height)
        × ((px py : ℕ)
            → px < screen_width
            → py < screen_height
            → pixel screen_width drawn px py ≡ overlaid fb px py)
  unfolding draw_cursor
  draw_cursor_lem fb fits =
      let (drawn, e, (l, shown)) =
        for_cells_inv (draw_cell screen_width screen_height phys_x phys_y) (Draws fb)
          (draw_cell-Draws fb) pointer_cells fb pointer_cells-AllCells
          (
            fits,
            λ px py hx hy.
                ap
                  (λ c.
                    if c
                    then paint (pointer_at px py) (pixel screen_width fb px py)
                    else pixel screen_width fb px py)
                  (covered_iff px py),
          ) in
      (
        drawn,
        e,
        l,
        λ px py hx hy.
            ap
              (λ c.
                if c
                then paint (pointer_at px py) (pixel screen_width drawn px py)
                else pixel screen_width drawn px py)
              (sym (none_left px py))
            ∙ shown px py hx hy,
      )

  overlaid-Restores :
      (fb : List BltPixel) (px py : ℕ) (o : BltPixel)
      → o ≡ overlaid fb px py
      → (is_on screen_width screen_height phys_x phys_y pointer_cells px py ≡ true)
        ⊎ (o ≡ pixel screen_width fb px py)
  overlaid-Restores fb px py o e =
      elim (Bool-cases (is_on screen_width screen_height phys_x phys_y pointer_cells px py)) [
        | inl on ↦ inl on
        | inr off ↦ inr (
            e
            ∙ ap
                (λ c.
                  if c
                  then paint (pointer_at px py) (pixel screen_width fb px py)
                  else pixel screen_width fb px py)
                (sym (covered_iff px py) ∙ off))
      ]

  -- A frame of the size of the screen is drawn without a panic, wherever the cursor is. What is
  -- copied to the screen is the frame, with the pixels of the cursor over it where they lie on the
  -- screen, and behind it the frame buffer is the frame again.
  pub draw_frame_lem :
      (fb : List BltPixel)
      → length fb ≡ screen_width * screen_height
      → (drawn : List BltPixel) × (draw_frame screen_width screen_height phys_x phys_y fb
          ≡ some (drawn, fb))
        × (length drawn ≡ screen_width * screen_height)
        × ((px py : ℕ)
            → px < screen_width
            → py < screen_height
            → pixel screen_width drawn px py ≡ overlaid fb px py)
  unfolding draw_frame
  draw_frame_lem fb fits =
      let (saved, s, kept) = save_background_lem screen_width screen_height phys_x phys_y fb fits in
      let (drawn, d, l, shown) = draw_cursor_lem fb fits in
      let r =
        restore_background_lem screen_width screen_height phys_x phys_y fb saved drawn fits kept
          (l, λ px py hx hy. overlaid-Restores fb px py _ (shown px py hx hy)) in
      (drawn, rw (s, ◌>>=◌, d, r) refl, l, shown)
