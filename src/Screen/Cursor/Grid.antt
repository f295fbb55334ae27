-- ===== src/Screen/Cursor/Grid.antt =====
-- The cells of the cursor, and the index of a pixel in the frame buffer.
use webuiboot.Base.{
  ℕ, zero, suc, ◌+◌, ◌*◌, ◌/◌, ◌%◌, ◌<◌, ◌≤◌, ◌≡◌, refl, ◌∙◌, ap, Bool, false, ◌&&◌, ◌||◌, List, [],
  ◌∷◌, ◌++◌, Option, some, ◌==◌, ltb, leb, arith,
}
use native.Mathlib.Nat.{div-add-mod}
use webuiboot.Screen.Cursor.{
  pointer_width, pointer_height, row_cells, rows_cells, pointer_cells, ◌>>=◌, for_cells,
}

-- Every cell lies in the cursor.
abbrev pub AllCells : List (ℕ × ℕ) → Type 0
AllCells [] = Unit
AllCells ((x, y) ∷ cs) = (x < pointer_width) × (y < pointer_height) × AllCells cs

abbrev pub has_cell : ℕ → ℕ → List (ℕ × ℕ) → Bool
has_cell x y [] = false
has_cell x y ((x', y') ∷ cs) = (x' == x && y' == y) || has_cell x y cs

row_cells-AllCells :
    (y x n : ℕ) (cs : List (ℕ × ℕ))
    → y < pointer_height
    → x + n ≤ pointer_width
    → AllCells cs
    → AllCells (row_cells y x n ++ cs)
row_cells-AllCells y x zero cs h k a = a
row_cells-AllCells y x (suc n) cs h k a =
    (omega arith, h, row_cells-AllCells y (suc x) n cs h (omega arith) a)

rows_cells-AllCells : (y n : ℕ) → y + n ≤ pointer_height → AllCells (rows_cells y n)
rows_cells-AllCells y zero h = tt
rows_cells-AllCells y (suc n) h =
    row_cells-AllCells y 0 pointer_width (rows_cells (suc y) n) (omega arith) (omega arith)
      (rows_cells-AllCells (suc y) n (omega arith))

pub pointer_cells-AllCells : AllCells pointer_cells
unfolding pointer_cells
pointer_cells-AllCells = rows_cells-AllCells 0 pointer_height (omega arith)

has_cell-row_cells :
    (a b y x n : ℕ) (cs : List (ℕ × ℕ))
    → has_cell a b (row_cells y x n ++ cs)
      ≡ ((y == b && leb x a && ltb a (x + n)) || has_cell a b cs)
has_cell-row_cells a b y x zero cs = ground arith
has_cell-row_cells a b y x (suc n) cs = ground (arith, has_cell-row_cells a b y (suc x) n cs)

has_cell-rows_cells :
    (a b y n : ℕ)
    → has_cell a b (rows_cells y n) ≡ (ltb a pointer_width && leb y b && ltb b (y + n))
has_cell-rows_cells a b y zero = ground arith
has_cell-rows_cells a b y (suc n) =
    has_cell-row_cells a b y 0 pointer_width (rows_cells (suc y) n)
    ∙ ground (arith, has_cell-rows_cells a b (suc y) n)

-- The loops run over exactly the cells of the cursor.
pub has_cell-pointer_cells :
    (a b : ℕ) → has_cell a b pointer_cells ≡ (ltb a pointer_width && ltb b pointer_height)
unfolding pointer_cells
has_cell-pointer_cells a b = has_cell-rows_cells a b 0 pointer_height ∙ ground arith

-- A loop over cells with an invariant on the cells that are left.
pub for_cells_inv :
    {S : Type 0} (body : ℕ → ℕ → S → Option S) (P : List (ℕ × ℕ) → S → Type 0)
    → ((x y : ℕ) (cs : List (ℕ × ℕ)) (s : S)
        → x < pointer_width
        → y < pointer_height
        → P ((x, y) ∷ cs) s
        → (s' : S) × (body x y s ≡ some s') × P cs s')
    → (cs : List (ℕ × ℕ)) (s : S) → AllCells cs
    → P cs s
    → (s' : S) × (for_cells body cs s ≡ some s') × P [] s'
unfolding for_cells
for_cells_inv body P keep [] s a p = (s, refl, p)
for_cells_inv body P keep ((x, y) ∷ cs) s (hx, hy, a) p =
    let (s', e, q) = keep x y cs s hx hy p in
    let (s'', e', r) = for_cells_inv body P keep cs s' a q in (s'', rw (e, ◌>>=◌) e', r)

pub index-lt : (r c w h : ℕ) → r < h → c < w → r * w + c < w * h
index-lt r c w h p q = grind arith

next_row-le : (r r' c c' w : ℕ) → r < r' → c < w → r * w + c < r' * w + c'
next_row-le r r' c c' w h p = grind arith

pub index-injective :
    (r r' c c' w : ℕ) → c < w → c' < w → r * w + c ≡ r' * w + c' → (r ≡ r') × (c ≡ c')
index-injective r r' c c' w p q e =
    let same = rows_equal in (same, omega (arith, ap (λ (t : ℕ). t * w) same))
  where
    rows_equal : r ≡ r'
    rows_equal = ground (arith, next_row-le r r' c c' w, next_row-le r' r c' c w)

-- Every index of the frame buffer is that of a pixel.
pub index-place : (i w h : ℕ) → i < w * h → (i / w < h) × (i % w < w) × (i / w * w + i % w ≡ i)
index-place i w h k =
    let wide : 0 < w = grind arith in
    (grind (arith, div-add-mod i w), grind arith, grind (arith, div-add-mod i w))
