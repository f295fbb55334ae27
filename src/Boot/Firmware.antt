-- ===== src/Boot/Firmware.antt =====
-- What src/boot.rs asks of the firmware and of the `uefi` crate, as a parameter, and the monad of
-- its functions. Handles, directories, files and images are opaque numbers. A state `S` stands for
-- the machine; `calls` lists the requests that change what runs or what the disk holds, in order.
use webuiboot.Base.{◌≡◌, refl, ◌⊎◌, inl, inr, ℕ, List, [], ◌∷◌, ◌++◌, Option, none, some}
use webuiboot.Text.{Str}
use webuiboot.Text.Utf8.{Bytes}

abbrev pub Handle : Type 0
Handle = ℕ

abbrev pub Dir : Type 0
Dir = ℕ

abbrev pub File : Type 0
File = ℕ

abbrev pub Image : Type 0
Image = ℕ

-- The 16-bit units of a `CString16`, without its nul.
abbrev pub CString16 : Type 0
CString16 = List ℕ

pub data Status : Type 0 where
  invalid_parameter load_error not_found : Status
  other : ℕ → Status

pub data Res {ℓ} (A : Type ℓ) : Type ℓ where
  ok : A → Res A
  err : Status → Res A

pub Res-cases : {A : Type 0} (r : Res A) → ((e : Status) × (r ≡ err e)) ⊎ ((a : A) × (r ≡ ok a))
Res-cases (ok a) = inr (a, refl)
Res-cases (err e) = inl (e, refl)

-- `()`
abbrev pub Done : Type 0
Done = Unit {0}

pub data FileMode : Type 0 where
  read read_write create_read_write : FileMode

pub data Call : Type 0 where
  opened closed : Handle → Call
  loaded unloaded : Image → Call
  -- a call of `start_image`, with what it returned
  started : Image → Res Done → Call
  options_set : Image → CString16 → ℕ → Call
  logs_flushed console_reset : Call
  stalled : ℕ → Call
  deleted : File → Call
  wrote : File → Bytes → Call

pub record Firmware (S : Type 0) : Type 0 where
  -- `CString16::try_from`
  pub cstring16 : Str → Option CString16
  pub find_handles : S → Res (List Handle) × S
  pub open_fs : Handle → S → Res Done × S
  pub open_volume : Handle → S → Res Dir × S
  pub open_file : Dir → CString16 → FileMode → S → Res File × S
  pub into_regular_file : File → S → Option File × S
  pub into_directory : File → S → Option File × S
  pub file_size : File → S → Res ℕ × S
  -- the buffer of the given size, as it is after the read
  pub read_file : File → ℕ → S → Res Bytes × S
  -- the names that `read_entry` gives up to the first `None` or error
  pub read_entries : File → S → List Str × S
  pub write_file : File → Bytes → S → Res Done × S
  pub flush_file : File → S → S
  pub delete_file : File → S → Res Done × S
  pub open_device_path : Handle → S → Res Done × S
  pub load_image : Bytes → S → Res Image × S
  pub open_loaded_image : Image → S → Res Done × S
  pub set_load_options : Image → CString16 → ℕ → S → S
  pub flush_logs : S → S
  pub stall : ℕ → S → S
  pub reset_console : S → S
  pub start_image : Image → S → Res Done × S
  pub unload_image : Image → S → S

pub record World (S : Type 0) : Type 0 where
  pub machine : S
  pub calls : List Call

-- A function that returns a `Result`, and the world that it leaves.
abbrev pub Eff : Type 0 → Type 0 → Type 0
Eff S A = World S → Res A × World S

module _ {S A B : Type 0} where
  abbrev pub continue : Res A → (A → Eff S B) → Eff S B
  continue (ok a) f w = f a w
  continue (err e) f w = (err e, w)

  infixl 5 ◌>>=◌ ◌>>◌
  abbrev pub ◌>>=◌ : Eff S A → (A → Eff S B) → Eff S B
  ◌>>=◌ m f w = let (r, w') = m w in continue r f w'

  abbrev pub ◌>>◌ : Eff S A → Eff S B → Eff S B
  m >> n = m >>= λ _. n

abbrev pub calls_of : {A : Type 0} → (A → Call) → Res A → List Call
calls_of call (ok a) = call a ∷ []
calls_of call (err e) = []

module _ {S A : Type 0} where
  abbrev pub pure : A → Eff S A
  pure a w = (ok a, w)

  abbrev pub fail : Status → Eff S A
  fail e w = (err e, w)

  -- `ok_or` and the matches on an option that return an error
  abbrev pub require : Option A → Status → Eff S A
  require none e w = (err e, w)
  require (some a) e w = (ok a, w)

  -- a request whose result is used
  abbrev pub ask : (S → Res A × S) → Eff S A
  ask op w = let (r, s) = op w.machine in (r, record w { machine = s })

  abbrev pub ask_option : (S → Option A × S) → Status → Eff S A
  ask_option op e w = let (o, s) = op w.machine in require o e (record w { machine = s })

  -- a request that is listed where it succeeds
  abbrev pub ask_listed : (S → Res A × S) → (A → Call) → Eff S A
  ask_listed op call w =
      let (r, s) = op w.machine in (r, record { machine = s; calls = w.calls ++ calls_of call r })

module _ {S : Type 0} where
  -- a request that is always listed, with its result
  abbrev pub ask_told : {A : Type 0} → (S → Res A × S) → (Res A → Call) → Eff S A
  ask_told op call w =
      let (r, s) = op w.machine in (r, record { machine = s; calls = w.calls ++ call r ∷ [] })

  -- a request that is always listed, and whose result is ignored
  abbrev pub tell : (S → S) → Call → Eff S Done
  tell op call w = (ok tt, record { machine = op w.machine; calls = w.calls ++ call ∷ [] })
