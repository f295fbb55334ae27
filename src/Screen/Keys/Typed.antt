-- ===== src/Screen/Keys/Typed.antt =====
-- What the loop over the keys reads, dispatches and selects.
use webuiboot.Base.{
  contains, if◌then◌else◌, arith, ℕ, ◌≡◌, refl, List, [], ◌∷◌, Option, none, some, ap, ◌∙◌, inl,
  inr, Option-cases,
}
use webuiboot.Web.{BootSelection, windows, linux}
use webuiboot.Screen.Mouse.{WindowEvent, key_pressed, key_released}
use webuiboot.Screen.Keys.{UefiKey, SlintKey, get_key_press, set_direct_boot, read_keys}

-- The answers up to the first that is no key the menu knows, or up to the end.
pub data Reads (slint_char : SlintKey → ℕ)
    : List (Option UefiKey) → List ℕ → List (Option UefiKey) → Type 0 where
  at_end : Reads slint_char [] [] []
  stops :
      {answer : Option UefiKey} {rest : List (Option UefiKey)}
      → get_key_press slint_char answer ≡ none
      → Reads slint_char (answer ∷ rest) [] rest
  reads :
      {answer : Option UefiKey} {key : ℕ} {keys : List ℕ} {answers rest : List (Option UefiKey)}
      → get_key_press slint_char answer ≡ some key
      → Reads slint_char answers keys rest
      → Reads slint_char (answer ∷ answers) (key ∷ keys) rest

-- Every key goes down and up.
abbrev pub strokes : List ℕ → List WindowEvent
strokes [] = []
strokes (key ∷ keys) = key_pressed key ∷ key_released key ∷ strokes keys

abbrev pub or_else : Option BootSelection → Option BootSelection → Option BootSelection
or_else none d = d
or_else (some s) d = some s

-- the keys of the two systems
abbrev pub windows_keys : List ℕ
windows_keys = b'1' ∷ b'w' ∷ b'W' ∷ []

abbrev pub linux_keys : List ℕ
linux_keys = b'2' ∷ b'l' ∷ b'L' ∷ []

-- What a key asks for.
abbrev pub boot_key : ℕ → Option BootSelection
boot_key key =
    if contains windows_keys key
    then some windows
    else if contains linux_keys key
    then some linux
    else none

-- What the last of the boot keys asks for.
abbrev pub last_boot : List ℕ → Option BootSelection
last_boot [] = none
last_boot (key ∷ keys) = or_else (last_boot keys) (boot_key key)

or_else_assoc : (a b c : Option BootSelection) → or_else a (or_else b c) ≡ or_else (or_else a b) c
or_else_assoc none b c = refl
or_else_assoc (some s) b c = refl

set_direct_boot-or_else :
    (key : ℕ) (d : Option BootSelection) → set_direct_boot key d ≡ or_else (boot_key key) d
set_direct_boot-or_else key d = ground arith

-- The loop over the keys reads the answers up to the first that is no known key, dispatches a press
-- and a release of each in turn, and selects what the last of the boot keys asks for.
pub read_keys_lem :
    (slint_char : SlintKey → ℕ) (answers : List (Option UefiKey)) (d : Option BootSelection)
    → (keys : List ℕ) × Reads slint_char answers keys (read_keys slint_char answers d).stdin
      × ((read_keys slint_char answers d).events ≡ strokes keys)
      × ((read_keys slint_char answers d).direct_boot ≡ or_else (last_boot keys) d)
unfolding read_keys
read_keys_lem slint_char [] d = ([], at_end, refl, refl)
read_keys_lem slint_char (answer ∷ rest) d = elim (Option-cases (get_key_press slint_char answer)) [
  | inl e ↦ ([], rw (e, read_keys) (stops e), rw (e, read_keys) refl, rw (e, read_keys) refl)
  | inr (key, e) ↦
      let (keys, r, ev, b) = read_keys_lem slint_char rest (set_direct_boot key d) in
      (
        key ∷ keys,
        rw (e, read_keys) (reads e r),
        rw (e, read_keys) (ap (λ l. key_pressed key ∷ key_released key ∷ l) ev),
        rw (e, read_keys)
            (b
              ∙ ap (or_else (last_boot keys)) (set_direct_boot-or_else key d)
              ∙ or_else_assoc (last_boot keys) (boot_key key) d),
      )
]
