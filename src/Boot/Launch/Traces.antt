-- ===== src/Boot/Launch/Traces.antt =====
-- Which requests a boot of src/boot.rs makes, on every path through it.
use mathlib.Core.List.{append-nil, append_assoc}
use webuiboot.Base.{
  ◌≡◌, refl, sym, ◌∙◌, ap, List, [], ◌∷◌, ◌++◌, Option, none, some, Option-cases, inl, inr,
}
use webuiboot.Text.{Str}
use webuiboot.Text.Utf8.{Bytes}
use webuiboot.Boot.Entry.{Entry, final_options, backslashed}
use webuiboot.Boot.Firmware.{
  Handle, Dir, File, Image, CString16, Done, Status, invalid_parameter, load_error, not_found, Res,
  ok, err, Res-cases, read, Call, loaded, started, unloaded, options_set, logs_flushed,
  console_reset, stalled, Firmware, World, Eff, continue, ◌>>=◌, require, ask, ask_option, tell,
}
use webuiboot.Boot.Launch.{
  read_path, or_unload, unloading, load, start, options_size, launch, boot_entry, boot_image,
}

-- The hand-over to an image, up to its start.
abbrev pub hand_over : List Call
hand_over = logs_flushed ∷ stalled 1500 ∷ console_reset ∷ []

-- The requests of a start, with its result.
pub data StartTrace (image : Image) : Res Done → List Call → Type 0 where
  running : StartTrace image (ok tt) (hand_over ++ started image (ok tt) ∷ [])
  failed :
      (e : Status)
      → StartTrace image (err e) (hand_over ++ started image (err e) ∷ unloaded image ∷ [])

-- The requests behind the load of a kernel.
pub data LaunchTrace (cstring16 : Str → Option CString16) (options : Str) (image : Image)
    : Res Done → List Call → Type 0 where
  refused : (e : Status) → LaunchTrace cstring16 options image (err e) (unloaded image ∷ [])
  handed_over :
      {r : Res Done} {cs : List Call} (o : CString16)
      → cstring16 options ≡ some o
      → StartTrace image r cs
      → LaunchTrace cstring16 options image r (options_set image o (options_size o) ∷ cs)

-- The requests of a boot: none, or a load and then those of `P` for its image.
pub data LoadTrace (P : Image → Res Done → List Call → Type 0) : Res Done → List Call → Type 0 where
  not_loaded : (e : Status) → LoadTrace P (err e) []
  then_loaded :
      {r : Res Done} {cs : List Call} (image : Image)
      → P image r cs
      → LoadTrace P r (loaded image ∷ cs)

module _ {S : Type 0} where
  -- `m`, run at `w`, adds the requests `cs`, and `P` holds of its result and of them.
  abbrev pub Runs : {A : Type 0} → (Res A → List Call → Type 0) → Eff S A → World S → Type 0
  Runs P m w = (cs : List Call) × ((m w).1.calls ≡ w.calls ++ cs) × P (m w).0 cs

  abbrev pub IsQuiet : {A : Type 0} → Eff S A → Type 0
  IsQuiet m = (w : World S) → (m w).1.calls ≡ w.calls

  pub required-IsQuiet : {A : Type 0} (o : Option A) (e : Status) → IsQuiet (require o e)
  required-IsQuiet none e w = refl
  required-IsQuiet (some a) e w = refl

  pub bind-IsQuiet :
      {A B : Type 0} (m : Eff S A) (f : A → Eff S B)
      → IsQuiet m
      → ((a : A) → IsQuiet (f a))
      → IsQuiet (m >>= f)
  bind-IsQuiet m f qm qf w = elim (Res-cases (m w).0) [
    | inl (e, h) ↦ rw (h, continue) (qm w)
    | inr (a, h) ↦ rw (h, continue) (qf a (m w).1 ∙ qm w)
  ]

  pub bind-Runs :
      {A B : Type 0} (P : Res B → List Call → Type 0) (m : Eff S A) (f : A → Eff S B) (w : World S)
      → IsQuiet m
      → ((e : Status) → P (err e) [])
      → ((a : A) → (m w).0 ≡ ok a → (w' : World S) → Runs P (f a) w')
      → Runs P (m >>= f) w
  bind-Runs P m f w q fails rest = elim (Res-cases (m w).0) [
    | inl (e, h) ↦ rw (h, continue) ([], q w ∙ sym (append-nil w.calls), fails e)
    | inr (a, h) ↦
        let (cs, added, p) = rest a h (m w).1 in
        rw (h, continue) (cs, added ∙ ap (λ x. x ++ cs) (q w), p)
  ]

module _ {S : Type 0} (fw : Firmware S) where
  start-Runs : (image : Image) (w : World S) → Runs (StartTrace image) (start fw image) w
  unfolding start
  start-Runs image w =
      let s = fw.reset_console (fw.stall 1500 (fw.flush_logs w.machine)) in
      elim (Res-cases (fw.start_image image s).0) [
        | inl (e, h) ↦
            rw (h, continue)
              (
                hand_over ++ started image (err e) ∷ unloaded image ∷ [],
                simp append_assoc,
                failed e,
              )
        | inr (d, h) ↦
            rw (h, continue) (hand_over ++ started image (ok tt) ∷ [], simp append_assoc, running)
      ]

  require-IsQuiet : (handle : File) → IsQuiet (ask_option (fw.into_regular_file handle) load_error)
  require-IsQuiet handle w = elim (Option-cases (fw.into_regular_file handle w.machine).0) [
    | inl e ↦ rw (e, require)
    | inr (f, e) ↦ rw (e, require)
  ]

  pub read_path-IsQuiet : (root : Dir) (path : CString16) → IsQuiet (read_path fw root path)
  unfolding read_path
  read_path-IsQuiet root path =
      bind-IsQuiet (ask (fw.open_file root path read)) _ (λ w. refl)
        λ handle.
          bind-IsQuiet (ask_option (fw.into_regular_file handle) load_error) _
            (require-IsQuiet handle)
            λ file. bind-IsQuiet (ask (fw.file_size file)) _ (λ w. refl) λ size w. refl

  -- A step whose failure unloads the image.
  unload-Runs :
      {A : Type 0} (P : Res Done → List Call → Type 0) (image : Image) (m : Eff S A)
      (f : A → Eff S Done) (w : World S)
      → IsQuiet m
      → ((e : Status) → P (err e) (unloaded image ∷ []))
      → ((a : A) → (m w).0 ≡ ok a → (w' : World S) → Runs P (f a) w')
      → Runs P (or_unload fw image m >>= f) w
  unload-Runs P image m f w q fails rest = elim (Res-cases (m w).0) [
    | inl (e, h) ↦
        rw (h, unloading, continue)
          (unloaded image ∷ [], ap (λ x. x ++ unloaded image ∷ []) (q w), fails e)
    | inr (a, h) ↦
        let (cs, added, p) = rest a h (m w).1 in
        rw (h, unloading, continue) (cs, added ∙ ap (λ x. x ++ cs) (q w), p)
  ]

  require-eq-ok :
      (o : Option CString16) (e : Status) (w : World S) {a : CString16}
      → (require o e w).0 ≡ ok a
      → o ≡ some a
  require-eq-ok none e w h = cc
  require-eq-ok (some b) e w h = cc

  pub launch-Runs :
      (options : Str) (image : Image) (w : World S)
      → Runs (LaunchTrace fw.cstring16 options image) (launch fw options image) w
  unfolding launch
  launch-Runs options image w =
      unload-Runs (LaunchTrace fw.cstring16 options image) image (ask (fw.open_loaded_image image))
        _ w (λ v. refl) refused
        λ d _ w'.
          unload-Runs (LaunchTrace fw.cstring16 options image) image
            (require (fw.cstring16 options) invalid_parameter) _ w'
            (required-IsQuiet (fw.cstring16 options) invalid_parameter) refused
            λ o h w''.
              let told =
                (tell (fw.set_load_options image o (options_size o))
                  (options_set image o (options_size o)) w'').1 in
              let (cs, added, t) = start-Runs image told in
              (
                options_set image o (options_size o) ∷ cs,
                added ∙ append_assoc w''.calls (options_set image o (options_size o) ∷ []) cs,
                handed_over o (require-eq-ok (fw.cstring16 options) invalid_parameter w' h) t,
              )

  load-Runs :
      (P : Image → Res Done → List Call → Type 0) (buffer : Bytes) (f : Image → Eff S Done)
      (w : World S)
      → ((image : Image) (w' : World S) → Runs (P image) (f image) w')
      → Runs (LoadTrace P) (load fw buffer >>= f) w
  unfolding load
  load-Runs P buffer f w rest = elim (Res-cases (fw.load_image buffer w.machine).0) [
    | inl (e, h) ↦ rw (h, continue) ([], refl, not_loaded e)
    | inr (image, h) ↦
        let (cs, added, p) = rest image (record {
          machine = (fw.load_image buffer w.machine).1;
          calls = w.calls ++ loaded image ∷ [];
        }) in
        rw (h, continue)
          (
            loaded image ∷ cs,
            added ∙ append_assoc w.calls (loaded image ∷ []) cs,
            then_loaded image p,
          )
  ]

  -- From a parsed entry: nothing is loaded and the result is an error; or a kernel is loaded, and then
  -- it is unloaded with an error, or its options are set to the command line of the entry and it is
  -- handed over: the logs are flushed, a pause of 1500 milliseconds, the console is reset, and it is
  -- started, and unloaded behind the start where that returned an error, which is then the result.
  pub boot_entry-Runs :
      (root : Dir) (fs_handle : Handle) (entry : Entry) (w : World S)
      → Runs
          (LoadTrace (LaunchTrace fw.cstring16 (final_options entry)))
          (boot_entry fw root fs_handle entry)
          w
  unfolding boot_entry
  boot_entry-Runs root fs_handle entry w =
      let P = LoadTrace (LaunchTrace fw.cstring16 (final_options entry)) in
      bind-Runs P (require entry.linux_path not_found) _ w
        (required-IsQuiet entry.linux_path not_found) not_loaded
        λ linux _ w1.
          bind-Runs P (require (fw.cstring16 (backslashed linux)) invalid_parameter) _ w1
            (required-IsQuiet (fw.cstring16 (backslashed linux)) invalid_parameter) not_loaded
            λ path _ w2.
              bind-Runs P (read_path fw root path) _ w2 (read_path-IsQuiet root path) not_loaded
                λ kernel _ w3.
                  bind-Runs P (ask (fw.open_device_path fs_handle)) _ w3 (λ v. refl) not_loaded
                    λ d _ w4.
                      load-Runs (LaunchTrace fw.cstring16 (final_options entry)) kernel _ w4
                        (launch-Runs (final_options entry))

  -- From an image's path: nothing is loaded and the result is an error; or the image is loaded and
  -- handed over: the logs are flushed, a pause of 1500 milliseconds, the console is reset, and it is
  -- started, and unloaded behind the start where that returned an error, which is then the result.
  pub boot_image-Runs :
      (root : Dir) (h : Handle) (path : Str) (w : World S)
      → Runs (LoadTrace StartTrace) (boot_image fw root h path) w
  unfolding boot_image
  boot_image-Runs root h path w =
      let P = LoadTrace StartTrace in
      bind-Runs P (require (fw.cstring16 path) invalid_parameter) _ w
        (required-IsQuiet (fw.cstring16 path) invalid_parameter) not_loaded
        λ path16 _ w1.
          bind-Runs P (read_path fw root path16) _ w1 (read_path-IsQuiet root path16) not_loaded
            λ buffer _ w2.
              bind-Runs P (ask (fw.open_device_path h)) _ w2 (λ v. refl) not_loaded
                λ d _ w3. load-Runs StartTrace buffer _ w3 start-Runs
