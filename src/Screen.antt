-- ===== src/Screen.antt =====
-- src/slint_plat.rs: the choice of the video mode in `run_event_loop`. A resolution is a pair of
-- native numbers, and a mode of the `uefi` crate is of any type.
pub mod Modes
pub mod Pixel
pub mod Cursor
pub mod Mouse
pub mod Pointers
pub mod Keys
pub mod Held
pub mod Ui
pub mod Flush
pub mod Timer
pub mod Start
mod Tests
use webuiboot.Base.{
  ℕ, Bool, ◌&&◌, ◌||◌, List, [], ◌∷◌, Option, none, some, if◌then◌else◌, ◌==◌, leb, ltb,
}

pub record Mode (A : Type 0) : Type 0 where
  pub width : ℕ
  pub height : ℕ
  pub handle : A

-- the three variables of the loop over the modes
pub record Best (A : Type 0) : Type 0 where
  pub best_mode : Option (Mode A)
  pub best_width : ℕ
  pub best_height : ℕ

abbrev pub no_mode : {A : Type 0} → Best A
no_mode = record { best_mode = none; best_width = 0; best_height = 0 }

module _ {A : Type 0} where
  abbrev pub fits : Mode A → Bool
  fits m = leb m.width 1920 && leb m.height 1080

  abbrev pub is_better : Mode A → Best A → Bool
  is_better m b =
      ltb b.best_width m.width || (m.width == b.best_width && ltb b.best_height m.height)

  abbrev pub set_best : Mode A → Best A
  set_best m = record { best_mode = some m; best_width = m.width; best_height = m.height }

  unfoldable pub choose_mode : List (Mode A) → Best A → Best A
  choose_mode [] b = b
  choose_mode (m ∷ ms) b =
      choose_mode ms (if fits m then (if is_better m b then set_best m else b) else b)
