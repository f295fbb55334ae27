-- ===== src/Boot/Ledger/Direct.antt =====
-- What `boot_linux_direct` leaves behind.
use mathlib.Core.List.{append-nil, append_assoc}
use webuiboot.Base.{◌≡◌, refl, sym, ◌∙◌, ap, List, [], ◌∷◌, ◌++◌, Option-cases, inl, inr}
use webuiboot.Text.{Str}
use webuiboot.Boot.Firmware.{
  Handle, Dir, File, Done, not_found, Res, Res-cases, read, Call, Firmware, World, require, ask,
  ask_option,
}
use webuiboot.Boot.Launch.{boot_linux_from_entry_file}
use webuiboot.Boot.Launch.Traces.{Runs, IsQuiet, bind-IsQuiet, bind-Runs, required-IsQuiet}
use webuiboot.Boot.Volumes.{
  with_volume, find_all_entries, boot_each, boot_direct_on, direct_each, boot_linux_direct,
  entry_path, entries_dir, sort_entries,
}
use webuiboot.Boot.Ledger.{
  IsTidy, IsTidy-nil, IsTidy-append, IsTidy-volume, boot_linux-RunsTidily, with_volume-Runs,
}

abbrev Tidily : Res Done → List Call → Type 0
Tidily r cs = IsTidy cs

module _ {S : Type 0} where
  -- The requests between two worlds are tidy.
  abbrev pub Leaves : World S → World S → Type 0
  Leaves w w' = (cs : List Call) × (w'.calls ≡ w.calls ++ cs) × IsTidy cs

  Leaves-trans : (w w' w'' : World S) → Leaves w w' → Leaves w' w'' → Leaves w w''
  Leaves-trans w w' w'' (cs, added, c) (ds, after, d) = (
    cs ++ ds,
    after ∙ ap (λ x. x ++ ds) added ∙ append_assoc w.calls cs ds,
    IsTidy-append cs ds c d,
  )

module _ {S : Type 0} (fw : Firmware S) where
  boot_each-Leaves :
      (root : Dir) (h : Handle) (names : List Str) (w : World S)
      → Leaves w (boot_each fw root h names w)
  unfolding boot_each
  boot_each-Leaves root h [] w = ([], sym (append-nil w.calls), IsTidy-nil)
  boot_each-Leaves root h (name ∷ names) w =
      let w' = (boot_linux_from_entry_file fw root h (entry_path name) w).1 in
      let (cs, added, (tidy, n)) = boot_linux-RunsTidily fw root h (entry_path name) w in
      Leaves-trans w w' (boot_each fw root h names w') (cs, added, tidy)
        (boot_each-Leaves root h names w')

  directory-IsQuiet : (handle : File) → IsQuiet (ask_option (fw.into_directory handle) not_found)
  directory-IsQuiet handle w = elim (Option-cases (fw.into_directory handle w.machine).0) [
    | inl h ↦ rw (h, require)
    | inr (a, h) ↦ rw (h, require)
  ]

  find_all_entries-IsQuiet : (root : Dir) → IsQuiet (find_all_entries fw root)
  unfolding find_all_entries
  find_all_entries-IsQuiet root =
      bind-IsQuiet (require (fw.cstring16 entries_dir) not_found) _
        (required-IsQuiet (fw.cstring16 entries_dir) not_found)
        λ path.
          bind-IsQuiet (ask (fw.open_file root path read)) _ (λ w. refl)
            λ handle.
              bind-IsQuiet (ask_option (fw.into_directory handle) not_found) _
                (directory-IsQuiet handle) λ dir w. refl

  boot_direct_on-Runs :
      (h : Handle) (root : Dir) (w : World S) → Runs Tidily (boot_direct_on fw h root) w
  unfolding boot_direct_on
  boot_direct_on-Runs h root w =
      bind-Runs Tidily (find_all_entries fw root) _ w (find_all_entries-IsQuiet root)
        (λ e. IsTidy-nil) (λ names _ w'. boot_each-Leaves root h (sort_entries names) w')

  direct_each-Leaves : (hs : List Handle) (w : World S) → Leaves w (direct_each fw hs w)
  unfolding direct_each
  direct_each-Leaves [] w = ([], sym (append-nil w.calls), IsTidy-nil)
  direct_each-Leaves (h ∷ hs) w =
      let w' = (with_volume fw h (boot_direct_on fw h) w).1 in
      Leaves-trans w w' (direct_each fw hs w')
        (with_volume-Runs fw Tidily h (boot_direct_on fw h) w (λ e. IsTidy-nil)
          (λ r cs. IsTidy-volume h cs) (boot_direct_on-Runs h))
        (direct_each-Leaves hs w')

  -- Whatever the firmware answers, `boot_linux_direct` unloads each image that it loads but
  -- those whose start returned `Ok`, and closes each file system that it opens.
  pub boot_linux_direct-Leaves : (w : World S) → Leaves w (boot_linux_direct fw w)
  unfolding boot_linux_direct
  boot_linux_direct-Leaves w = elim (Res-cases (fw.find_handles w.machine).0) [
    | inl (e, h) ↦ rw (h, boot_linux_direct) ([], sym (append-nil w.calls), IsTidy-nil)
    | inr (hs, h) ↦ rw (h, boot_linux_direct) (direct_each-Leaves hs _)
  ]
