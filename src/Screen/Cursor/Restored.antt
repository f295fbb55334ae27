-- ===== src/Screen/Cursor/Restored.antt =====
-- The frame buffer behind the drawing of a frame.
use webuiboot.Base.{
  ℕ, ◌+◌, ◌-◌, ◌*◌, ◌/◌, ◌%◌, ◌<◌, ◌≤◌, ◌≡◌, ◌≢◌, subst, refl, ◌∙◌, ap, Bool, true, ◌&&◌, ◌⊎◌, inl,
  inr, List, [], ◌∷◌, some, leb, arith, length, Bool-cases,
}
use webuiboot.Base.Arrays.{
  set, get_or, store-some, length-set, get_elem?-get_or, get_or-set, get_or-ext, replicate,
  length-replicate,
}
use webuiboot.Screen.Pixel.{BltPixel, black}
use webuiboot.Screen.Cursor.{
  pointer_width, pointer_height, pointer_cells, ◌>>=◌, bg_idx, is_visible, fb_idx, save_cell,
  restore_cell, save_background, restore_background,
}
use webuiboot.Screen.Cursor.Grid.{
  has_cell, for_cells_inv, pointer_cells-AllCells, has_cell-pointer_cells, index-lt, index-place,
}

-- the pixel at a place of the screen
abbrev pub pixel : ℕ → List BltPixel → ℕ → ℕ → BltPixel
pixel screen_width fb px py = get_or fb (py * screen_width + px) black

module _ (screen_width screen_height phys_x phys_y : ℕ) where
  pub visible-lt :
      (x y : ℕ)
      → is_visible screen_width screen_height phys_x phys_y x y ≡ true
      → fb_idx screen_width screen_height phys_x phys_y x y < screen_width * screen_height
  visible-lt x y v =
      index-lt (phys_y + y) (phys_x + x) screen_width screen_height (ground arith) (ground arith)

  -- The background of each visible cell is saved, but for the cells that are left.
  abbrev pub Saves : List BltPixel → List (ℕ × ℕ) → List BltPixel → Type 0
  Saves fb cs saved =
      (length saved ≡ pointer_width * pointer_height)
      × ((x y : ℕ)
          → x < pointer_width
          → y < pointer_height
          → is_visible screen_width screen_height phys_x phys_y x y ≡ true
          → (has_cell x y cs ≡ true)
            ⊎ (get_or saved (bg_idx x y) black ≡ pixel screen_width fb (phys_x + x) (phys_y + y)))

  save_cell-Saves :
      (fb : List BltPixel)
      → length fb ≡ screen_width * screen_height
      → (x y : ℕ) (cs : List (ℕ × ℕ)) (saved : List BltPixel) → x < pointer_width
      → y < pointer_height
      → Saves fb ((x, y) ∷ cs) saved
      → (saved' : List BltPixel) × (save_cell screen_width screen_height phys_x phys_y fb x y saved
          ≡ some saved')
        × Saves fb cs saved'
  save_cell-Saves fb fits x y cs saved hx hy (l, old) =
      elim (Bool-cases (is_visible screen_width screen_height phys_x phys_y x y)) [
        | inr v ↦ (saved, rw v refl, (l, λ a b ha hb w. ground (arith, old a b ha hb w)))
        | inl v ↦
            let i = fb_idx screen_width screen_height phys_x phys_y x y in
            let p = get_or fb i black in
            let j = bg_idx x y in
            (
              set saved j p,
              rw (v, get_elem?-get_or fb i black (omega (arith, visible-lt x y v)), ◌>>=◌)
                  (store-some saved j p (omega arith)),
              (
                length-set saved j p ∙ l,
                λ a b ha hb w.
                    ground (
                      arith,
                      old a b ha hb w,
                      get_or-set saved j (bg_idx a b) p black (omega arith),
                    ),
              ),
            )
      ]

  pub save_background_lem :
      (fb : List BltPixel)
      → length fb ≡ screen_width * screen_height
      → (saved : List BltPixel) × (save_background screen_width screen_height phys_x phys_y fb
          ≡ some saved)
        × Saves fb [] saved
  unfolding save_background
  save_background_lem fb fits =
      let cells = pointer_width * pointer_height in
      for_cells_inv (save_cell screen_width screen_height phys_x phys_y fb) (Saves fb)
        (save_cell-Saves fb fits) pointer_cells (replicate cells black) pointer_cells-AllCells
        (
          length-replicate cells black,
          λ x y hx hy v. inl (has_cell-pointer_cells x y ∙ ground arith),
        )

  -- The pixel lies on one of the cells.
  abbrev pub is_on : List (ℕ × ℕ) → ℕ → ℕ → Bool
  is_on cs px py = leb phys_x px && leb phys_y py && has_cell (px - phys_x) (py - phys_y) cs

  -- Each pixel is as in `fb`, but for those on the cells that are left.
  abbrev pub Restores : List BltPixel → List (ℕ × ℕ) → List BltPixel → Type 0
  Restores fb cs now =
      (length now ≡ screen_width * screen_height)
      × ((px py : ℕ)
          → px < screen_width
          → py < screen_height
          → (is_on cs px py ≡ true) ⊎ (pixel screen_width now px py ≡ pixel screen_width fb px py))

  pub same_place :
      (x y px py : ℕ)
      → phys_x ≤ px
      → phys_y ≤ py
      → x ≡ px - phys_x
      → y ≡ py - phys_y
      → fb_idx screen_width screen_height phys_x phys_y x y ≡ py * screen_width + px
  same_place x y px py hx hy e f =
      let column : phys_x + x ≡ px = omega arith in
      let line : phys_y + y ≡ py = omega arith in rw (column, line) refl

  restore_cell-Restores :
      (fb saved : List BltPixel)
      → Saves fb [] saved
      → (x y : ℕ) (cs : List (ℕ × ℕ)) (now : List BltPixel) → x < pointer_width
      → y < pointer_height
      → Restores fb ((x, y) ∷ cs) now
      → (now' : List BltPixel) × (restore_cell screen_width screen_height phys_x phys_y saved x y
            now
          ≡ some now')
        × Restores fb cs now'
  restore_cell-Restores fb saved (m, kept) x y cs now hx hy (l, old) =
      elim (Bool-cases (is_visible screen_width screen_height phys_x phys_y x y)) [
        | inr v ↦ (now, rw v refl, (l, λ a b ha hb. ground (arith, old a b ha hb)))
        | inl v ↦
            let i = fb_idx screen_width screen_height phys_x phys_y x y in
            let j = bg_idx x y in
            let p = get_or saved j black in
            (
              set now i p,
              rw (v, get_elem?-get_or saved j black (omega arith), ◌>>=◌)
                  (store-some now i p (omega (arith, visible-lt x y v))),
              (
                length-set now i p ∙ l,
                λ a b ha hb. ground (
                  arith,
                  old a b ha hb,
                  kept x y hx hy v,
                  same_place x y a b,
                  get_or-set now i (b * screen_width + a) p black (omega (arith, visible-lt x y v)),
                ),
              ),
            )
      ]

  none_left : (px py : ℕ) → is_on [] px py ≢ true
  none_left px py on = ground arith

  pub restore_background_lem :
      (fb saved drawn : List BltPixel)
      → length fb ≡ screen_width * screen_height
      → Saves fb [] saved
      → Restores fb pointer_cells drawn
      → restore_background screen_width screen_height phys_x phys_y saved drawn ≡ some fb
  unfolding restore_background
  restore_background_lem fb saved drawn fits kept drawn_on =
      let (now, e, (l, same)) =
        for_cells_inv (restore_cell screen_width screen_height phys_x phys_y saved) (Restores fb)
          (restore_cell-Restores fb saved kept) pointer_cells drawn pointer_cells-AllCells
          drawn_on in
      e
      ∙ ap some (get_or-ext now fb black (omega arith) (λ i k. everywhere now same i (omega arith)))
    where
      everywhere :
          (now : List BltPixel)
          → ((px py : ℕ)
              → px < screen_width
              → py < screen_height
              → (is_on [] px py ≡ true)
                ⊎ (pixel screen_width now px py ≡ pixel screen_width fb px py))
          → (i : ℕ) → i < screen_width * screen_height
          → get_or now i black ≡ get_or fb i black
      everywhere now same i k =
          let (below, within, e) = index-place i screen_width screen_height k in
          elim (same (i % screen_width) (i / screen_width) within below) [
            | inl on ↦ elim (none_left (i % screen_width) (i / screen_width) on) [ ]
            | inr eq ↦ subst (λ x. get_or now x black ≡ get_or fb x black) e eq
          ]
