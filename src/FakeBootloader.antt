-- ===== src/FakeBootloader.antt =====
-- fake-bootloader/src: the images that the end-to-end tests boot. What the libraries answer is a
-- parameter; what an image does to the machine is listed in order.
pub mod Announced
use webuiboot.Base.{ℕ, Bool, true, false, List, [], ◌∷◌, ◌++◌, Option, none, some}
use webuiboot.Text.{Str, codes}

pub data FakeCall : Type 0 where
  printed : Str → FakeCall
  -- in milliseconds
  stalled : ℕ → FakeCall
  shut_down : FakeCall

pub data Ending : Type 0 where
  -- the reset does not return
  reset panicked : Ending

-- a path of a loaded image, and the protocol that makes a text of it
pub record FakeHost (P H : Type 0) : Type 0 where
  pub init : Bool
  pub open_loaded_image : Bool
  pub file_path : Option P
  pub get_handle : Option H
  pub open_to_text : H → Bool
  -- with `DisplayOnly` and `AllowShortcuts`
  pub convert : P → Bool → Bool → Option Str

abbrev pub expect : Bool → List FakeCall × Ending → List FakeCall × Ending
expect true rest = rest
expect false rest = ([], panicked)

-- the print, the stall and the reset
abbrev pub finish : Str → List FakeCall × Ending
finish msg = (printed msg ∷ stalled 500 ∷ shut_down ∷ [], reset)

abbrev pub or_unknown : Option Str → Str
or_unknown none = codes "unknown"
or_unknown (some name) = name

module _ {P H : Type 0} (host : FakeHost P H) where
  -- linux.rs
  unfoldable pub linux_main : List FakeCall × Ending
  linux_main = expect host.init (finish (codes "BOOTED: \\vmlinuz-test\n"))

  -- windows.rs
  unfoldable pub windows_main : List FakeCall × Ending
  windows_main = expect host.init (finish (codes "BOOTED: \\EFI\\Microsoft\\Boot\\bootmgfw.efi\n"))

  -- `get_handle_for_protocol`, and `open_protocol_exclusive` on the handle
  abbrev pub opened : Option H → Bool
  opened none = false
  opened (some h) = host.open_to_text h

  abbrev pub text_of : Bool → P → Option Str
  text_of false path = none
  text_of true path = host.convert path true false

  abbrev pub path_text : Option P → Option Str
  path_text none = none
  path_text (some path) = text_of (opened host.get_handle) path

  -- main.rs
  unfoldable pub image_main : List FakeCall × Ending
  image_main = expect host.init (
      expect host.open_loaded_image
        (finish (codes "BOOTED: " ++ (or_unknown (path_text host.file_path) ++ codes "\n"))))
