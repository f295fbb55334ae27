-- ===== src/Boot/Bootnext.antt =====
-- src/boot.rs: `check_and_process_bootnext`, the queue of paths to boot next.
pub mod Queue
pub mod Pop
pub mod Check
pub mod Order
use webuiboot.Base.{
  ℕ, suc, zero, ◌++◌, ltb, Bool, true, false, not, ◌&&◌, List, [], ◌∷◌, Option, none, some,
  if◌then◌else◌, map, is_empty,
}
use webuiboot.Text.{Str, codes, trim, lines, replace, without_prefix}
use webuiboot.Text.Utf8.{Bytes, from_utf8, as_bytes}
use webuiboot.Boot.Entry.{backslashed}
use webuiboot.Boot.Firmware.{
  Handle, Dir, File, Image, CString16, Done, Status, invalid_parameter, load_error, not_found, Res,
  ok, err, FileMode, read_write, create_read_write, Call, deleted, wrote, opened, closed, Firmware,
  World, Eff, continue, ◌>>=◌, ◌>>◌, pure, fail, require, ask, ask_option, ask_listed, tell,
}
use webuiboot.Boot.Volumes.{boot_os, with_volume}

-- `filter(|line| !line.is_empty())`
abbrev pub non_empty : List Str → List Str
non_empty [] = []
non_empty (l ∷ ls) = if is_empty l then non_empty ls else l ∷ non_empty ls

-- The paths in the text of a flag file.
unfoldable pub queue_of : Str → List Str
queue_of content = non_empty (map trim (lines (without_prefix 0xfeff content)))

abbrev pub crlf : Str
crlf = codes "\r\n"

-- the loop that fills `new_content`
unfoldable pub append_lines : ℕ → List Str → Str → Str
append_lines i [] content = content
append_lines i (line ∷ rest) content =
    append_lines (suc i) rest ((if ltb 0 i then content ++ crlf else content) ++ line)

unfoldable pub new_content : List Str → Str
unfolding append_lines
new_content remaining = append_lines 0 remaining [] ++ crlf

module _ {S : Type 0} (fw : Firmware S) where
  -- the write and the flush, whose results are ignored
  abbrev pub write_new : File → Bytes → Eff S Done
  write_new file content w =
      let (r, w') = ask_listed (fw.write_file file content) (λ _. wrote file content) w in
      (ok tt, record w' { machine = fw.flush_file file w'.machine })

  -- The remaining lines go to a file that is opened anew. An error ends this. Where the old file could not
  -- be deleted it is the one that is opened, and what it holds behind the write is the machine's.
  unfoldable pub write_back : Dir → CString16 → List Str → Eff S Done
  write_back root path remaining = do
    handle ← ask (fw.open_file root path create_read_write)
    file ← ask_option (fw.into_regular_file handle) not_found
    write_new file (as_bytes (new_content remaining))

  abbrev pub delete_flag : File → World S → World S
  delete_flag file w = (ask_listed (fw.delete_file file) (λ _. deleted file) w).1

  -- The path that is popped, on the paths of the file.
  unfoldable pub pop : Dir → CString16 → File → List Str → World S → Option Str × World S
  unfolding write_back
  pop root path file [] w = (none, delete_flag file w)
  pop root path file (target ∷ []) w = (some target, delete_flag file w)
  pop root path file (target ∷ next ∷ rest) w =
      (some target, (write_back root path (next ∷ rest) (delete_flag file w)).1)

  unfoldable pub read_queue : File → Eff S (List Str)
  read_queue file = do
    size ← ask (fw.file_size file)
    buffer ← ask (fw.read_file file size)
    content ← require (from_utf8 buffer) load_error
    pure (queue_of content)

  -- a flag file that was found: the path that it gives, if any
  unfoldable pub take_flag : Dir → CString16 → File → World S → Option Str × World S
  unfolding read_queue pop
  take_flag root path file w =
      let (r, w') = read_queue file w in
      elim r [ err e ↦ (none, w') | ok paths ↦ pop root path file paths w' ]

  -- Every error goes on with the next name.
  unfoldable pub open_flag : Dir → Str → Eff S (CString16 × File)
  open_flag root name = do
    path ← require (fw.cstring16 name) invalid_parameter
    handle ← ask (fw.open_file root path read_write)
    file ← ask_option (fw.into_regular_file handle) not_found
    pure (path, file)

  -- The loop over the names; `none` means that no file was found.
  unfoldable pub try_flags : Dir → List Str → World S → Option (Option Str) × World S
  unfolding take_flag open_flag
  try_flags root [] w = (none, w)
  try_flags root (name ∷ names) w =
      let (r, w') = open_flag root name w in
      let rest = try_flags root names w' in
      elim r [
        | err e ↦ rest
        | ok flag ↦ let (target, w'') = take_flag root flag.0 flag.1 w' in (some target, w'')
      ]

  abbrev pub flag_filenames : List Str
  flag_filenames = codes "\\bootnext.txt" ∷ codes "\\EFI\\bootnext.txt" ∷ []

  unfoldable pub look_on : Handle → Eff S (Option (Option Str))
  unfolding try_flags
  look_on h =
      with_volume fw h
        (λ root w. let (found, w') = try_flags root flag_filenames w in (ok found, w'))

  -- the loop over the handles
  unfoldable pub check_each : List Handle → World S → World S
  unfolding look_on
  check_each [] w = w
  check_each (h ∷ hs) w =
      let (r, w') = look_on h w in
      let rest = check_each hs w' in
      elim r [
        | err e ↦ rest
        | ok found ↦ elim found [
          | none ↦ rest
          | some target ↦ elim target [
            | none ↦ w'
            | some path ↦ (boot_os fw (backslashed path) w').1
          ]
        ]
      ]

  unfoldable pub check_and_process_bootnext : World S → World S
  unfolding check_each
  check_and_process_bootnext w =
      let (found, w') = ask fw.find_handles w in
      elim found [ err e ↦ w' | ok handles ↦ check_each handles w' ]
