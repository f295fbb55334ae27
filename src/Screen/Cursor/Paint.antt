-- ===== src/Screen/Cursor/Paint.antt =====
-- One pixel of the cursor over one of the frame.
use webuiboot.Base.{
  ℕ, ◌<◌, ◌≡◌, refl, Bool, true, false, ◌&&◌, ◌||◌, inl, inr, List, some, if◌then◌else◌, ◌==◌,
  arith, length, Bool-cases,
}
use webuiboot.Base.Arrays.{set, get_or, store-some, length-set, get_or-set}
use webuiboot.Screen.Pixel.{BltPixel, black, white}
use webuiboot.Screen.Cursor.{draw_pixel}

-- A pixel under a pixel of the cursor.
abbrev pub paint : ℕ → BltPixel → BltPixel
paint pixel_type p = if pixel_type == 1 then white else if pixel_type == 2 then black else p

pub draw_pixel_lem :
    (t i : ℕ) (fb : List BltPixel)
    → i < length fb
    → (fb' : List BltPixel) × (draw_pixel t i fb ≡ some fb')
      × (length fb' ≡ length fb)
      × ((j : ℕ)
          → get_or fb' j black
            ≡ (if i == j then paint t (get_or fb j black) else get_or fb j black))
draw_pixel_lem t i fb h = elim (Bool-cases (t == 1)) [
  | inl e ↦ rw e (
    set fb i white,
    store-some fb i white h,
    length-set fb i white,
    λ j. get_or-set fb i j white black h,
  )
  | inr e ↦ elim (Bool-cases (t == 2)) [
    | inl f ↦
        rw (e, f)
          (
            set fb i black,
            store-some fb i black h,
            length-set fb i black,
            λ j. get_or-set fb i j black black h,
          )
    | inr f ↦ rw (e, f) (fb, refl, refl, λ j. ground arith)
  ]
]

paint_idem : (t : ℕ) (p : BltPixel) → paint t (paint t p) ≡ paint t p
paint_idem t p = ground arith

-- one pixel, before and after a cell is drawn
pub paint_step :
    (right below on_cell on_later here : Bool) (t t' : ℕ) (p p' o : BltPixel)
    → here ≡ (right && below && on_cell)
    → (on_cell ≡ true → t ≡ t')
    → (if right && below && (on_cell || on_later) then paint t' p else p) ≡ o
    → p' ≡ (if here then paint t p else p)
    → (if right && below && on_later then paint t' p' else p') ≡ o
paint_step true true true true here t t' p p' o e same old new =
    rw (new, e, same refl, paint_idem t' p) old
paint_step true true true false here t t' p p' o e same old new = rw (new, e, same refl) old
paint_step true true false l here t t' p p' o e same old new = rw (new, e) old
paint_step true false c l here t t' p p' o e same old new = rw (new, e) old
paint_step false b c l here t t' p p' o e same old new = rw (new, e) old
