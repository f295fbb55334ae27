-- ===== src/Boot/Entry.antt =====
-- src/boot.rs, `boot_linux_from_entry_file`: the reading of a systemd-boot entry, and the options
-- that it gives to the kernel.
pub mod Parse
pub mod Options
use webuiboot.Base.{
  ℕ, ◌≡◌, Bool, true, false, ◌||◌, List, [], ◌∷◌, ◌++◌, Option, none, some, if◌then◌else◌, is_empty,
}
use webuiboot.Text.{
  Str, codes, str_eq, trim, lines, split_whitespace, join, starts_with, replace, get_or_else,
}
use webuiboot.Text.Words.{space}

-- The three variables that the loop over the lines assigns.
pub record Entry : Type 0 where
  pub linux_path : Option Str
  pub initrd_paths : List Str
  pub options_str : Option Str

abbrev pub no_entry : Entry
no_entry = record { linux_path = none; initrd_paths = []; options_str = none }

-- `match key`
unfoldable pub set_key : Str → Str → Entry → Entry
set_key key value e =
    if str_eq key (codes "linux")
    then record e { linux_path = some value }
    else if str_eq key (codes "initrd")
    then record e { initrd_paths = e.initrd_paths ++ value ∷ [] }
    else if str_eq key (codes "options")
    then record e { options_str = some value }
    else e

-- a line's key and the words behind it
unfoldable pub read_words : List Str → Entry → Entry
unfolding set_key
read_words [] e = e
read_words (key ∷ parts) e =
    let value = join space parts in if is_empty value then e else set_key key value e

-- the body of the loop
unfoldable pub read_line : Str → Entry → Entry
unfolding read_words
read_line raw e =
    let line = trim raw in
    if starts_with line (codes "#") || is_empty line
    then e
    else read_words (split_whitespace line) e

unfoldable pub read_lines : List Str → Entry → Entry
unfolding read_line
read_lines [] e = e
read_lines (l ∷ ls) e = read_lines ls (read_line l e)

unfoldable pub read_entry : Str → Entry
unfolding read_lines
read_entry content = read_lines (lines content) no_entry

abbrev pub backslashed : Str → Str
backslashed = replace b'/' b'\\'

-- the loop over `initrd_paths`
unfoldable pub add_initrds : List Str → Str → Str
add_initrds [] options = options
add_initrds (initrd ∷ rest) options =
    let spaced = if is_empty options then options else options ++ b' ' ∷ [] in
    add_initrds rest ((spaced ++ codes "initrd=") ++ backslashed initrd)

unfoldable pub final_options : Entry → Str
unfolding add_initrds
final_options e = add_initrds e.initrd_paths (get_or_else e.options_str [])
