-- ===== src/Screen/Pointers.antt =====
-- src/slint_plat.rs, `pointer_init`: the pointers that the mouse's loop reads. Handles are numbers, and an
-- opened pointer is its handle.
use webuiboot.Base.{
  ℕ, ◌≡◌, sym, ◌∙◌, Bool, true, false, List, [], ◌∷◌, ◌++◌, Option, none, some, Bool-cases, inl,
  inr,
}
use mathlib.Core.List.{append-nil, append_assoc}

pub record PointerBoot (W : Type 0) : Type 0 where
  -- `find_handles`
  pub find_handles : W → Option (List ℕ) × W
  -- whether `open_protocol_exclusive` succeeds
  pub open_protocol : ℕ → W → Bool × W
  -- `reset(false)`, whose result is not used
  pub reset : ℕ → W → W

module _ {W : Type 0} (boot : PointerBoot W) where
  -- an opened pointer is reset and pushed
  abbrev pub push_opened : ℕ → Bool → List ℕ → W → List ℕ × W
  push_opened handle false pointers w = (pointers, w)
  push_opened handle true pointers w = (pointers ++ handle ∷ [], boot.reset handle w)

  unfoldable pub open_each : List ℕ → List ℕ → W → List ℕ × W
  open_each [] pointers w = (pointers, w)
  open_each (handle ∷ handles) pointers w =
      let (opened, w') = boot.open_protocol handle w in
      let (pointers', w'') = push_opened handle opened pointers w' in
      open_each handles pointers' w''

  abbrev pub open_found : Option (List ℕ) → List ℕ → W → List ℕ × W
  open_found none pointers w = (pointers, w)
  open_found (some handles) pointers w = open_each handles pointers w

  -- `MOUSE_POINTERS` behind it
  unfoldable pub pointer_init : List ℕ → W → List ℕ × W
  unfolding open_each
  pointer_init pointers w = let (found, w') = boot.find_handles w in open_found found pointers w'

-- Some of them, in order.
pub data IsSublist : List ℕ → List ℕ → Type 0 where
  done : IsSublist [] []
  kept : {a : ℕ} {xs ys : List ℕ} → IsSublist xs ys → IsSublist (a ∷ xs) (a ∷ ys)
  left_out : {a : ℕ} {xs ys : List ℕ} → IsSublist xs ys → IsSublist xs (a ∷ ys)

module _ {W : Type 0} (boot : PointerBoot W) where
  -- Opening pushes some of the handles, in order, behind the pointers that were there.
  pub open_each-IsSublist :
      (handles pointers : List ℕ) (w : W)
      → (more : List ℕ) × ((open_each boot handles pointers w).0 ≡ pointers ++ more)
        × IsSublist more handles
  unfolding open_each
  open_each-IsSublist [] pointers w = ([], sym (append-nil pointers), done)
  open_each-IsSublist (handle ∷ handles) pointers w =
      elim (Bool-cases (boot.open_protocol handle w).0) [
        | inr e ↦
            let (more, pushed, some_of) =
              open_each-IsSublist handles pointers (boot.open_protocol handle w).1 in
            (more, rw (open_each, e) pushed, left_out some_of)
        | inl e ↦
            let (more, pushed, some_of) =
              open_each-IsSublist handles (pointers ++ handle ∷ [])
                (boot.reset handle (boot.open_protocol handle w).1) in
            (
              handle ∷ more,
              rw (open_each, e) (pushed ∙ append_assoc pointers (handle ∷ []) more),
              kept some_of,
            )
      ]
