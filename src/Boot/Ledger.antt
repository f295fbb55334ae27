-- ===== src/Boot/Ledger.antt =====
-- What src/boot.rs leaves behind: images that are loaded, and file systems that are open.
pub mod Direct
use mathlib.Core.List.{append-nil, append_assoc}
use webuiboot.Base.{
  ℕ, suc, ◌+◌, ◌≡◌, refl, sym, ◌∙◌, ap, subst, Bool, true, false, List, [], ◌∷◌, ◌++◌, Option, none,
  some, arith, Option-cases, inl, inr, ◌⊎◌, if◌then◌else◌, Bool-cases, ◌==◌,
}
use webuiboot.Text.{Str}
use webuiboot.Text.Utf8.{Bytes, from_utf8}
use webuiboot.Boot.Entry.{Entry, read_entry, final_options, backslashed}
use webuiboot.Boot.Firmware.{
  Handle, Dir, File, Image, CString16, Done, Status, invalid_parameter, load_error, not_found, Res,
  ok, err, Res-cases, FileMode, read, Call, loaded, started, unloaded, options_set, logs_flushed,
  console_reset, stalled, opened, closed, deleted, wrote, Firmware, World, Eff, continue, ◌>>=◌,
  ◌>>◌, require, ask, ask_option, ask_listed, tell,
}
use webuiboot.Boot.Launch.{
  boot_entry, boot_linux_from_entry_file, boot_image, boot_from, is_systemd_entry, read_path,
}
use webuiboot.Boot.Launch.Traces.{
  Runs, IsQuiet, bind-Runs, bind-IsQuiet, required-IsQuiet, hand_over, StartTrace, running, failed,
  LaunchTrace, refused, handed_over, LoadTrace, not_loaded, then_loaded, boot_entry-Runs,
  boot_image-Runs, read_path-IsQuiet,
}
use webuiboot.Boot.Volumes.{with_volume, closing, try_each, boot_os}

abbrev pub count : (Call → Bool) → List Call → ℕ
count p [] = 0
count p (c ∷ cs) = (if p c then 1 else 0) + count p cs

pub count-append :
    (p : Call → Bool) (cs ds : List Call) → count p (cs ++ ds) ≡ count p cs + count p ds
count-append p [] ds = omega arith
count-append p (c ∷ cs) ds = omega (arith, count-append p cs ds)

abbrev pub is_load : Image → Call → Bool
is_load i (loaded j) = j == i
is_load i _ = false

-- A start of the image returned `Ok`, or it was unloaded.
abbrev pub is_end : Image → Call → Bool
is_end i (started j (ok d)) = j == i
is_end i (unloaded j) = j == i
is_end i _ = false

-- a start that returned `Ok`
abbrev pub is_start : Call → Bool
is_start (started j (ok d)) = true
is_start _ = false

abbrev pub is_open : Handle → Call → Bool
is_open h (opened j) = j == h
is_open h _ = false

abbrev pub is_close : Handle → Call → Bool
is_close h (closed j) = j == h
is_close h _ = false

-- Every image that is loaded is started with `Ok` or unloaded, and every file system that is opened is closed.
pub record IsTidy (cs : List Call) : Type 0 where
  pub images : (i : Image) → count (is_load i) cs ≡ count (is_end i) cs
  pub volumes : (h : Handle) → count (is_open h) cs ≡ count (is_close h) cs

pub IsTidy-nil : IsTidy []
IsTidy-nil = record { images = λ i. refl; volumes = λ h. refl }

pub IsTidy-append : (cs ds : List Call) → IsTidy cs → IsTidy ds → IsTidy (cs ++ ds)
IsTidy-append cs ds c d = record {
  images = λ i. omega (
    arith,
    count-append (is_load i) cs ds,
    count-append (is_end i) cs ds,
    c.images i,
    d.images i,
  );
  volumes = λ h. omega (
    arith,
    count-append (is_open h) cs ds,
    count-append (is_close h) cs ds,
    c.volumes h,
    d.volumes h,
  );
}

pub IsTidy-volume :
    (h : Handle) (cs : List Call) → IsTidy cs → IsTidy (opened h ∷ (cs ++ closed h ∷ []))
IsTidy-volume h cs c = record {
  images = λ i. omega (
    arith,
    count-append (is_load i) cs (closed h ∷ []),
    count-append (is_end i) cs (closed h ∷ []),
    c.images i,
  );
  volumes = λ j. omega (
    arith,
    count-append (is_open j) cs (closed h ∷ []),
    count-append (is_close j) cs (closed h ∷ []),
    c.volumes j,
  );
}

abbrev pub starts_of : Res Done → ℕ
starts_of (ok d) = 1
starts_of (err e) = 0

-- Nothing is left, and one start returned `Ok` where the result is `Ok`, none otherwise.
abbrev pub RunsTidily : Res Done → List Call → Type 0
RunsTidily r cs = IsTidy cs × (count is_start cs ≡ starts_of r)

load-launch-RunsTidily :
    (cstring16 : Str → Option CString16) (options : Str) (r : Res Done) (cs : List Call)
    → LoadTrace (LaunchTrace cstring16 options) r cs
    → RunsTidily r cs
load-launch-RunsTidily c o _ _ (not_loaded e) = (IsTidy-nil, refl)
load-launch-RunsTidily c o _ _ (then_loaded i (refused e)) =
    (record { images = λ j. omega arith; volumes = λ h. refl }, refl)
load-launch-RunsTidily c o _ _ (then_loaded i (handed_over u h running)) =
    (record { images = λ j. omega arith; volumes = λ h. refl }, refl)
load-launch-RunsTidily c o _ _ (then_loaded i (handed_over u h (failed e))) =
    (record { images = λ j. omega arith; volumes = λ h. refl }, refl)

load-start-RunsTidily :
    (r : Res Done) (cs : List Call) → LoadTrace StartTrace r cs → RunsTidily r cs
load-start-RunsTidily _ _ (not_loaded e) = (IsTidy-nil, refl)
load-start-RunsTidily _ _ (then_loaded i running) =
    (record { images = λ j. omega arith; volumes = λ h. refl }, refl)
load-start-RunsTidily _ _ (then_loaded i (failed e)) =
    (record { images = λ j. omega arith; volumes = λ h. refl }, refl)

module _ {S : Type 0} (fw : Firmware S) where
  -- An attempt at an entry file leaves no image loaded, and is `Ok` exactly where a start returned `Ok`.
  pub boot_linux-RunsTidily :
      (root : Dir) (h : Handle) (path : Str) (w : World S)
      → Runs RunsTidily (boot_linux_from_entry_file fw root h path) w
  unfolding boot_linux_from_entry_file
  boot_linux-RunsTidily root h path w =
      bind-Runs RunsTidily (require (fw.cstring16 path) invalid_parameter) _ w
        (required-IsQuiet (fw.cstring16 path) invalid_parameter) (λ e. (IsTidy-nil, refl))
        λ path16 _ w1.
          bind-Runs RunsTidily (read_path fw root path16) _ w1 (read_path-IsQuiet fw root path16)
            (λ e. (IsTidy-nil, refl))
            λ buffer _ w2.
              bind-Runs RunsTidily (require (from_utf8 buffer) load_error) _ w2
                (required-IsQuiet (from_utf8 buffer) load_error) (λ e. (IsTidy-nil, refl))
                λ content _ w3.
                  let (cs, added, t) = boot_entry-Runs fw root h (read_entry content) w3 in
                  (cs, added, load-launch-RunsTidily _ _ _ cs t)

  boot_from-RunsTidily :
      (path : Str) (h : Handle) (root : Dir) (w : World S)
      → Runs RunsTidily (boot_from fw path h root) w
  unfolding boot_from
  boot_from-RunsTidily path h root w = elim (Bool-cases (is_systemd_entry path)) [
    | inl entry ↦ rw entry (boot_linux-RunsTidily root h path w)
    | inr image ↦
        let (cs, added, t) = boot_image-Runs fw root h path w in
        rw image (cs, added, load-start-RunsTidily _ cs t)
  ]

  -- What holds of a body that is tidy holds of it on a file system that is opened for it.
  pub with_volume-Runs :
      {A : Type 0} (P : Res A → List Call → Type 0) (h : Handle) (body : Dir → Eff S A)
      (w : World S)
      → ((e : Status) → P (err e) [])
      → ((r : Res A) (cs : List Call) → P r cs → P r (opened h ∷ (cs ++ closed h ∷ [])))
      → ((root : Dir) (w' : World S) → Runs P (body root) w')
      → Runs P (with_volume fw h body) w
  unfolding with_volume
  with_volume-Runs P h body w fails wraps rest = elim (Res-cases (fw.open_fs h w.machine).0) [
    | inl (e, f) ↦ rw (f, continue) ([], refl, fails e)
    | inr (d, f) ↦
        let start : World S = record {
          machine = (fw.open_fs h w.machine).1;
          calls = w.calls ++ opened h ∷ [];
        } in
        let (cs, added, p) =
          bind-Runs P (ask (fw.open_volume h)) body start (λ v. refl) fails
            (λ root _ w'. rest root w') in
        rw (f, continue)
          (
            opened h ∷ (cs ++ closed h ∷ []),
            ap (λ x. x ++ closed h ∷ []) added ∙ simp append_assoc,
            wraps _ cs p,
          )
  ]

  RunsTidily-volume :
      (h : Handle) (r : Res Done) (cs : List Call)
      → RunsTidily r cs
      → RunsTidily r (opened h ∷ (cs ++ closed h ∷ []))
  RunsTidily-volume h r cs (tidy, n) =
      (IsTidy-volume h cs tidy, omega (arith, count-append is_start cs (closed h ∷ [])))

  then-RunsTidily :
      (e : Status) (r : Res Done) (cs ds : List Call)
      → RunsTidily (err e) cs
      → RunsTidily r ds
      → RunsTidily r (cs ++ ds)
  then-RunsTidily e r cs ds (c, m) (d, n) =
      (IsTidy-append cs ds c d, omega (arith, count-append is_start cs ds))

  try_each-RunsTidily :
      (path : Str) (hs : List Handle) (w : World S) → Runs RunsTidily (try_each fw path hs) w
  unfolding try_each
  try_each-RunsTidily path [] w = ([], sym (append-nil w.calls), (IsTidy-nil, refl))
  try_each-RunsTidily path (h ∷ hs) w =
      let (cs, added, t) =
        with_volume-Runs RunsTidily h (boot_from fw path h) w (λ e. (IsTidy-nil, refl))
          (RunsTidily-volume h) (boot_from-RunsTidily path h) in
      let (ds, after, u) =
        try_each-RunsTidily path hs (with_volume fw h (boot_from fw path h) w).1 in
      elim (Res-cases (with_volume fw h (boot_from fw path h) w).0) [
        | inl (e, f) ↦
            rw (f, try_each)
              (
                cs ++ ds,
                after ∙ ap (λ x. x ++ ds) added ∙ append_assoc w.calls cs ds,
                then-RunsTidily e _ cs ds (subst (λ r. RunsTidily r cs) f t) u,
              )
        | inr (d, f) ↦ rw (f, try_each) (cs, added, subst (λ r. RunsTidily r cs) f t)
      ]

  -- Whatever the firmware answers, `boot_os` closes each file system that it opens and leaves no image
  -- loaded but one whose `start_image` returned `Ok`: every other image that it loads is unloaded,
  -- also one that ran and returned an error. It returns `Ok` where one start returned `Ok`, and an
  -- error where none did.
  pub boot_os-RunsTidily : (path : Str) (w : World S) → Runs RunsTidily (boot_os fw path) w
  unfolding boot_os
  boot_os-RunsTidily path w =
      bind-Runs RunsTidily (ask fw.find_handles) _ w (λ v. refl) (λ e. (IsTidy-nil, refl))
        λ hs _ w'. try_each-RunsTidily path hs w'
