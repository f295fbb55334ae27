-- ===== src/Screen/Keys.antt =====
-- src/slint_plat.rs: `get_key_press`, and the loop over the keys in `run_slint_ui`. What the firmware's
-- `read_key` answers is a list: `none` is an error or no key, and so is its end. The character that
-- Slint has for a key is a parameter.
pub mod Typed
use webuiboot.Base.{
  ℕ, ◌≡◌, Bool, ◌||◌, List, [], ◌∷◌, ◌++◌, Option, none, some, if◌then◌else◌, ◌==◌,
}
use webuiboot.Web.{BootSelection, windows, linux}
use webuiboot.Screen.Mouse.{WindowEvent, key_pressed, key_released}

-- `ScanCode` of the `uefi` crate, as far as the source names it
pub data ScanCode : Type 0 where
  up down right left home end insert delete page_up page_down escape : ScanCode
  function_1 function_2 function_3 function_4 function_5 function_6 : ScanCode
  function_7 function_8 function_9 function_10 function_11 function_12 : ScanCode
  unnamed : ℕ → ScanCode

-- `Key` of the `uefi` crate
pub data UefiKey : Type 0 where
  printable : ℕ → UefiKey
  special : ScanCode → UefiKey

-- `Key` of Slint, as far as the source names it
pub data SlintKey : Type 0 where
  tab up_arrow down_arrow right_arrow left_arrow home end insert delete page_up page_down escape :
      SlintKey
  f1 f2 f3 f4 f5 f6 f7 f8 f9 f10 f11 f12 : SlintKey

abbrev pub slint_key : ScanCode → Option SlintKey
slint_key up = some up_arrow
slint_key down = some down_arrow
slint_key right = some right_arrow
slint_key left = some left_arrow
slint_key home = some home
slint_key end = some end
slint_key insert = some insert
slint_key delete = some delete
slint_key page_up = some page_up
slint_key page_down = some page_down
slint_key escape = some escape
slint_key function_1 = some f1
slint_key function_2 = some f2
slint_key function_3 = some f3
slint_key function_4 = some f4
slint_key function_5 = some f5
slint_key function_6 = some f6
slint_key function_7 = some f7
slint_key function_8 = some f8
slint_key function_9 = some f9
slint_key function_10 = some f10
slint_key function_11 = some f11
slint_key function_12 = some f12
slint_key (unnamed n) = none

abbrev pub char_from : (SlintKey → ℕ) → Option SlintKey → Option ℕ
char_from slint_char none = none
char_from slint_char (some k) = some (slint_char k)

unfoldable pub get_key_press : (SlintKey → ℕ) → Option UefiKey → Option ℕ
get_key_press slint_char none = none
get_key_press slint_char (some (printable key)) =
    if key == b'\r' then some b'\n' else if key == b'\t' then some (slint_char tab) else some key
get_key_press slint_char (some (special key)) = char_from slint_char (slint_key key)

abbrev pub set_direct_boot : ℕ → Option BootSelection → Option BootSelection
set_direct_boot key d =
    if key == b'1' || key == b'w' || key == b'W'
    then some windows
    else if key == b'2' || key == b'l' || key == b'L'
    then some linux
    else d

-- The keys that the loop has read: what it dispatched, the variable, and what is left to read.
pub record KeysRead : Type 0 where
  pub events : List WindowEvent
  pub direct_boot : Option BootSelection
  pub stdin : List (Option UefiKey)

abbrev pub dispatch_key : ℕ → KeysRead → KeysRead
dispatch_key key r = record r { events = key_pressed key ∷ key_released key ∷ r.events }

abbrev pub stop_reading : Option BootSelection → List (Option UefiKey) → KeysRead
stop_reading d rest = record { events = []; direct_boot = d; stdin = rest }

-- `while let Some(key) = get_key_press()`
unfoldable pub read_keys : (SlintKey → ℕ) → List (Option UefiKey) → Option BootSelection → KeysRead
unfolding get_key_press
read_keys slint_char [] d = stop_reading d []
read_keys slint_char (answer ∷ rest) d = elim (get_key_press slint_char answer) [
  | none ↦ stop_reading d rest
  | some key ↦ dispatch_key key (read_keys slint_char rest (set_direct_boot key d))
]
