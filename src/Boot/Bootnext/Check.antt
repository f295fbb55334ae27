-- ===== src/Boot/Bootnext/Check.antt =====
-- What the search of src/boot.rs's `check_and_process_bootnext` for a flag file asks of the machine.
use mathlib.Core.List.{append-nil, append_assoc}
use webuiboot.Base.{
  ◌≡◌, refl, sym, ◌∙◌, ap, List, [], ◌∷◌, ◌++◌, Option, Option-cases, inl, inr, arith,
}
use webuiboot.Text.{Str}
use webuiboot.Text.Utf8.{Bytes, as_bytes, from_utf8}
use webuiboot.Boot.Firmware.{
  Handle, Dir, File, CString16, Done, Status, invalid_parameter, load_error, not_found, Res, ok,
  err, Res-cases, read_write, create_read_write, Call, deleted, wrote, opened, closed, Firmware,
  World, calls_of, require, ask, ask_option,
}
use webuiboot.Boot.Launch.Traces.{IsQuiet, bind-Runs, bind-IsQuiet, required-IsQuiet}
use webuiboot.Boot.Ledger.{
  count, count-append, is_start, IsTidy, IsTidy-nil, IsTidy-append, IsTidy-volume, with_volume-Runs,
}
use webuiboot.Boot.Bootnext.{
  new_content, write_back, delete_flag, pop, read_queue, take_flag, open_flag, try_flags,
  flag_filenames, look_on,
}

-- Tidy requests without a start.
abbrev pub IsStartless : List Call → Type 0
IsStartless cs = IsTidy cs × (count is_start cs ≡ 0)

pub IsStartless-nil : IsStartless []
IsStartless-nil = (IsTidy-nil, refl)

pub IsStartless-append :
    (cs ds : List Call) → IsStartless cs → IsStartless ds → IsStartless (cs ++ ds)
IsStartless-append cs ds (c, m) (d, n) =
    (IsTidy-append cs ds c d, omega (arith, count-append is_start cs ds))

IsStartless-volume :
    (h : Handle) (cs : List Call) → IsStartless cs → IsStartless (opened h ∷ (cs ++ closed h ∷ []))
IsStartless-volume h cs (c, n) =
    (IsTidy-volume h cs c, omega (arith, count-append is_start cs (closed h ∷ [])))

deleted-IsStartless : (file : File) (r : Res Done) → IsStartless (calls_of (λ _. deleted file) r)
deleted-IsStartless file (ok d) = (record { images = λ i. refl; volumes = λ h. refl }, refl)
deleted-IsStartless file (err e) = IsStartless-nil

wrote-IsStartless :
    (file : File) (bytes : Bytes) (r : Res Done) → IsStartless (calls_of (λ _. wrote file bytes) r)
wrote-IsStartless file bytes (ok d) = (record { images = λ i. refl; volumes = λ h. refl }, refl)
wrote-IsStartless file bytes (err e) = IsStartless-nil

-- The result does not matter.
abbrev Quietly : {A : Type 0} → Res A → List Call → Type 0
Quietly r cs = IsStartless cs

module _ {S : Type 0} where
  abbrev pub Adds : World S → World S → Type 0
  Adds w w' = (cs : List Call) × (w'.calls ≡ w.calls ++ cs) × IsStartless cs

  pub Adds-refl : (w w' : World S) → w'.calls ≡ w.calls → Adds w w'
  Adds-refl w w' e = ([], e ∙ sym (append-nil w.calls), IsStartless-nil)

  pub Adds-trans : (w w' w'' : World S) → Adds w w' → Adds w' w'' → Adds w w''
  Adds-trans w w' w'' (cs, added, c) (ds, after, d) = (
    cs ++ ds,
    after ∙ ap (λ x. x ++ ds) added ∙ append_assoc w.calls cs ds,
    IsStartless-append cs ds c d,
  )

-- A quiet question about an option.
option-IsQuiet :
    {S A : Type 0} (op : S → Option A × S) (e : Status) → IsQuiet {S = S} (ask_option op e)
option-IsQuiet op e w = elim (Option-cases (op w.machine).0) [
  | inl h ↦ rw (h, require) refl
  | inr (a, h) ↦ rw (h, require) refl
]

module _ {S : Type 0} (fw : Firmware S) where
  delete_flag-Adds : (file : File) (w : World S) → Adds w (delete_flag fw file w)
  delete_flag-Adds file w = (
    calls_of (λ _. deleted file) (fw.delete_file file w.machine).0,
    refl,
    deleted-IsStartless file (fw.delete_file file w.machine).0,
  )

  write_back-Adds :
      (root : Dir) (path : CString16) (paths : List Str) (w : World S)
      → Adds w (write_back fw root path paths w).1
  unfolding write_back
  write_back-Adds root path paths w =
      bind-Runs Quietly (ask (fw.open_file root path create_read_write)) _ w (λ v. refl)
        (λ e. IsStartless-nil)
        λ handle _ w1.
          bind-Runs Quietly (ask_option (fw.into_regular_file handle) not_found) _ w1
            (option-IsQuiet (fw.into_regular_file handle) not_found) (λ e. IsStartless-nil)
            λ file _ w2.
              let bytes = as_bytes (new_content paths) in
              let r = (fw.write_file file bytes w2.machine).0 in
              (calls_of (λ _. wrote file bytes) r, refl, wrote-IsStartless file bytes r)

  pop-Adds :
      (root : Dir) (path : CString16) (file : File) (paths : List Str) (w : World S)
      → Adds w (pop fw root path file paths w).1
  unfolding pop
  pop-Adds root path file [] w = delete_flag-Adds file w
  pop-Adds root path file (target ∷ []) w = delete_flag-Adds file w
  pop-Adds root path file (target ∷ next ∷ rest) w =
      let w' = delete_flag fw file w in
      Adds-trans w w' (write_back fw root path (next ∷ rest) w').1 (delete_flag-Adds file w)
        (write_back-Adds root path (next ∷ rest) w')

  read_queue-IsQuiet : (file : File) → IsQuiet (read_queue fw file)
  unfolding read_queue
  read_queue-IsQuiet file =
      bind-IsQuiet (ask (fw.file_size file)) _ (λ w. refl)
        λ size.
          bind-IsQuiet (ask (fw.read_file file size)) _ (λ w. refl)
            λ buffer.
              bind-IsQuiet (require (from_utf8 buffer) load_error) _
                (required-IsQuiet (from_utf8 buffer) load_error) λ content w. refl

  take_flag-Adds :
      (root : Dir) (path : CString16) (file : File) (w : World S)
      → Adds w (take_flag fw root path file w).1
  unfolding take_flag
  take_flag-Adds root path file w =
      let w' = (read_queue fw file w).1 in
      elim (Res-cases (read_queue fw file w).0) [
        | inl (e, h) ↦ rw (h, take_flag) (Adds-refl w w' (read_queue-IsQuiet file w))
        | inr (paths, h) ↦
            rw (h, take_flag)
              (Adds-trans w w' (pop fw root path file paths w').1
                (Adds-refl w w' (read_queue-IsQuiet file w)) (pop-Adds root path file paths w'))
      ]

  open_flag-IsQuiet : (root : Dir) (name : Str) → IsQuiet (open_flag fw root name)
  unfolding open_flag
  open_flag-IsQuiet root name =
      bind-IsQuiet (require (fw.cstring16 name) invalid_parameter) _
        (required-IsQuiet (fw.cstring16 name) invalid_parameter)
        λ path.
          bind-IsQuiet (ask (fw.open_file root path read_write)) _ (λ w. refl)
            λ handle.
              bind-IsQuiet (ask_option (fw.into_regular_file handle) not_found) _
                (option-IsQuiet (fw.into_regular_file handle) not_found) λ file w. refl

  try_flags-Adds :
      (root : Dir) (names : List Str) (w : World S) → Adds w (try_flags fw root names w).1
  unfolding try_flags
  try_flags-Adds root [] w = Adds-refl w w refl
  try_flags-Adds root (name ∷ names) w =
      let w' = (open_flag fw root name w).1 in
      let opens = Adds-refl w w' (open_flag-IsQuiet root name w) in
      elim (Res-cases (open_flag fw root name w).0) [
        | inl (e, h) ↦
            rw (h, try_flags)
              (Adds-trans w w' (try_flags fw root names w').1 opens (try_flags-Adds root names w'))
        | inr (flag, h) ↦
            rw (h, try_flags)
              (Adds-trans w w' (take_flag fw root flag.0 flag.1 w').1 opens
                (take_flag-Adds root flag.0 flag.1 w'))
      ]

  pub look_on-Adds : (h : Handle) (w : World S) → Adds w (look_on fw h w).1
  unfolding look_on
  look_on-Adds h w =
      with_volume-Runs fw Quietly h _ w (λ e. IsStartless-nil) (λ r cs. IsStartless-volume h cs)
        (λ root w'. try_flags-Adds root (flag_filenames fw) w')
