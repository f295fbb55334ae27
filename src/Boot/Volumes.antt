-- ===== src/Boot/Volumes.antt =====
-- src/boot.rs: `boot_os`, `find_all_entries` and `boot_linux_direct`, over the file systems that
-- the firmware finds. A file system's protocol is closed where its variable goes out of scope; the
-- other protocols and the files are not followed.
pub mod Order
use webuiboot.Base.{
  ℕ, ◌++◌, Bool, true, false, not, ◌&&◌, List, [], ◌∷◌, Option, none, some, if◌then◌else◌,
}
use webuiboot.Text.{Str, codes, ends_with, contains_str}
use webuiboot.Boot.Firmware.{
  Handle, Dir, File, Image, CString16, Done, Status, invalid_parameter, load_error, not_found, Res,
  ok, err, FileMode, read, Call, opened, closed, Firmware, World, Eff, continue, ◌>>=◌, ◌>>◌, pure,
  fail, require, ask, ask_option, ask_listed, tell,
}
use webuiboot.Boot.Launch.{boot_from, boot_linux_from_entry_file}

module _ {S A : Type 0} where
  abbrev pub closing : Handle → Eff S A → Eff S A
  closing h m w = let (r, w') = m w in (r, record w' { calls = w'.calls ++ closed h ∷ [] })

module _ {S : Type 0} (fw : Firmware S) where
  unfoldable pub with_volume : {A : Type 0} → Handle → (Dir → Eff S A) → Eff S A
  with_volume h body = do
    ask_listed (fw.open_fs h) (λ _. opened h)
    closing h (ask (fw.open_volume h) >>= body)

  -- the loop of `boot_os`
  unfoldable pub try_each : Str → List Handle → Eff S Done
  try_each path [] w = (err not_found, w)
  try_each path (h ∷ hs) w =
      let (r, w') = with_volume h (boot_from fw path h) w in
      elim r [ ok _ ↦ (ok tt, w') | err e ↦ try_each path hs w' ]

  unfoldable pub boot_os : Str → Eff S Done
  unfolding try_each
  boot_os path = do handles ← ask fw.find_handles; try_each path handles

-- the loop of `find_all_entries`
unfoldable pub conf_files : List Str → List Str
conf_files [] = []
conf_files (name ∷ names) =
    if ends_with name (codes ".conf") then name ∷ conf_files names else conf_files names

abbrev pub is_fallback : Str → Bool
is_fallback name = contains_str name (codes "fallback")

-- `a.cmp(&b)` is not `Greater`, on the flags
abbrev pub in_order : Str → Str → Bool
in_order a b = not (is_fallback a && not (is_fallback b))

-- `sort_by`, which is stable: an insertion sort that puts a name before its equals.
unfoldable pub insert_entry : Str → List Str → List Str
insert_entry a [] = a ∷ []
insert_entry a (b ∷ names) = if in_order a b then a ∷ b ∷ names else b ∷ insert_entry a names

unfoldable pub sort_entries : List Str → List Str
unfolding insert_entry
sort_entries [] = []
sort_entries (a ∷ names) = insert_entry a (sort_entries names)

abbrev pub entries_dir : Str
entries_dir = codes "\\loader\\entries"

abbrev pub entry_path : Str → Str
entry_path name = codes "\\loader\\entries\\" ++ name

module _ {S : Type 0} (fw : Firmware S) where
  -- The caller goes on with the next handle on `None`.
  unfoldable pub find_all_entries : Dir → Eff S (List Str)
  unfolding conf_files
  find_all_entries root = do
    path ← require (fw.cstring16 entries_dir) not_found
    handle ← ask (fw.open_file root path read)
    dir ← ask_option (fw.into_directory handle) not_found
    names ← ask (λ s. let (names, s') = fw.read_entries dir s in (ok names, s'))
    pure (conf_files names)

  -- the loop over the sorted entries, which goes on after each of them
  unfoldable pub boot_each : Dir → Handle → List Str → World S → World S
  boot_each root h [] w = w
  boot_each root h (name ∷ names) w =
      boot_each root h names (boot_linux_from_entry_file fw root h (entry_path name) w).1

  unfoldable pub boot_direct_on : Handle → Dir → Eff S Done
  unfolding find_all_entries boot_each sort_entries
  boot_direct_on h root = do
    entries ← find_all_entries root
    (λ w. (ok tt, boot_each root h (sort_entries entries) w))

  -- the loop over the handles
  unfoldable pub direct_each : List Handle → World S → World S
  unfolding boot_direct_on
  direct_each [] w = w
  direct_each (h ∷ hs) w = direct_each hs (with_volume fw h (boot_direct_on h) w).1

  unfoldable pub boot_linux_direct : World S → World S
  unfolding direct_each
  boot_linux_direct w =
      let (found, w') = ask fw.find_handles w in
      elim found [ err e ↦ w' | ok handles ↦ direct_each handles w' ]
