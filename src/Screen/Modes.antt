-- ===== src/Screen/Modes.antt =====
-- The video mode that src/slint_plat.rs chooses.
use webuiboot.Base.{
  ℕ, ◌≡◌, Bool, true, ◌&&◌, ◌||◌, List, [], ◌∷◌, if◌then◌else◌, ◌==◌, leb, ltb, arith, Bool-cases,
  inl, inr,
}
use webuiboot.Screen.{Mode, Best, no_mode, fits, is_better, set_best, choose_mode}

-- The resolution is not larger than this one: less wide, or as wide and not higher.
abbrev pub within : ℕ → ℕ → ℕ → ℕ → Bool
within w h w' h' = ltb w w' || (w == w' && leb h h')

within_trans :
    (a b c d e f : ℕ) → within a b c d ≡ true → within c d e f ≡ true → within a b e f ≡ true
within_trans a b c d e f h k = ground arith

within_refl : (w h : ℕ) → within w h w h ≡ true
within_refl w h = ground arith

module _ {A : Type 0} where
  -- Every mode of the list that fits is within the chosen resolution.
  abbrev pub AllWithin : List (Mode A) → Best A → Type 0
  AllWithin [] b = Unit
  AllWithin (m ∷ ms) b =
      (fits m ≡ true → within m.width m.height b.best_width b.best_height ≡ true) × AllWithin ms b

  -- The mode stands in the list.
  pub data IsIn (m : Mode A) : List (Mode A) → Type 0 where
    first : {ms : List (Mode A)} → IsIn m (m ∷ ms)
    later : {n : Mode A} {ms : List (Mode A)} → IsIn m ms → IsIn m (n ∷ ms)

  abbrev step : Mode A → Best A → Best A
  step m b = if fits m then (if is_better m b then set_best m else b) else b

  step-within :
      (m : Mode A) (b : Best A)
      → (within b.best_width b.best_height (step m b).best_width (step m b).best_height ≡ true)
        × (fits m ≡ true
            → within m.width m.height (step m b).best_width (step m b).best_height ≡ true)
  step-within m b = elim (Bool-cases (fits m)) [
    | inr f ↦ rw f (within_refl b.best_width b.best_height, λ e. cc)
    | inl f ↦ elim (Bool-cases (is_better m b)) [
      | inl g ↦ rw (f, g) (ground arith, λ e. within_refl m.width m.height)
      | inr g ↦ rw (f, g) (within_refl b.best_width b.best_height, λ e. ground arith)
    ]
  ]

  choose-within :
      (ms : List (Mode A)) (b : Best A)
      → (within b.best_width b.best_height
            (choose_mode ms b).best_width
            (choose_mode ms b).best_height
          ≡ true)
        × AllWithin ms (choose_mode ms b)
  unfolding choose_mode
  choose-within [] b = (within_refl b.best_width b.best_height, tt)
  choose-within (m ∷ ms) b =
      let c = step m b in
      let (grows, covers) = step-within m b in
      let (more, all) = choose-within ms c in
      let d = choose_mode ms c in
      (
        within_trans b.best_width b.best_height c.best_width c.best_height d.best_width
            d.best_height grows more,
        (
          λ f.
              within_trans m.width m.height c.best_width c.best_height d.best_width d.best_height
                (covers f) more,
          all,
        ),
      )

  -- Where a choice comes from.
  pub data Chosen (ms : List (Mode A)) : Best A → Type 0 where
    none_fits : Chosen ms no_mode
    chosen : (m : Mode A) → IsIn m ms → fits m ≡ true → Chosen ms (set_best m)

  step-Chosen :
      (all : List (Mode A)) (m : Mode A) (b : Best A)
      → IsIn m all
      → Chosen all b
      → Chosen all (step m b)
  step-Chosen all m b i c = elim (Bool-cases (fits m)) [
    | inr f ↦ rw f c
    | inl f ↦ elim (Bool-cases (is_better m b)) [
      | inl g ↦ rw (f, g) (chosen m i f)
      | inr g ↦ rw (f, g) c
    ]
  ]

  choose-Chosen :
      (all ms : List (Mode A)) (b : Best A)
      → ((m : Mode A) → IsIn m ms → IsIn m all)
      → Chosen all b
      → Chosen all (choose_mode ms b)
  unfolding choose_mode
  choose-Chosen all [] b i c = c
  choose-Chosen all (m ∷ ms) b i c =
      choose-Chosen all ms (step m b) (λ n j. i n (later j)) (step-Chosen all m b (i m first) c)

  -- The chosen mode is one of the list that is at most 1920 wide and 1080 high, with its own resolution,
  -- or none; and every mode of the list that fits is less wide, or as wide and not higher.
  pub choose_mode_lem :
      (ms : List (Mode A))
      → Chosen ms (choose_mode ms no_mode) × AllWithin ms (choose_mode ms no_mode)
  choose_mode_lem ms =
      (choose-Chosen ms ms no_mode (λ m i. i) none_fits, (choose-within ms no_mode).1)
