-- ===== src/Boot/Launch.antt =====
-- src/boot.rs: `boot_linux_from_entry_file`, and the body of the loop of `boot_os`.
pub mod Traces
use webuiboot.Base.{
  ℕ, suc, ◌+◌, ◌*◌, ◌%◌, ◌^◌, Bool, ◌||◌, List, [], ◌∷◌, ◌++◌, Option, none, some, if◌then◌else◌,
  length,
}
use webuiboot.Text.{Str, codes, ends_with}
use webuiboot.Text.Utf8.{Bytes, from_utf8}
use webuiboot.Boot.Entry.{Entry, read_entry, final_options, backslashed}
use webuiboot.Boot.Firmware.{
  Handle, Dir, File, Image, CString16, Done, Status, invalid_parameter, load_error, not_found, Res,
  ok, err, FileMode, read, Call, loaded, started, unloaded, options_set, logs_flushed,
  console_reset, stalled, Firmware, World, Eff, continue, ◌>>=◌, ◌>>◌, require, ask, ask_option,
  ask_listed, ask_told, tell,
}

-- `(slice.len() * 2) as u32`, for the slice with its nul
abbrev pub options_size : CString16 → ℕ
options_size options = (length options + 1) * 2 % 2 ^ 32

abbrev pub is_systemd_entry : Str → Bool
is_systemd_entry path = ends_with path (codes ".conf") || ends_with path (codes ".CONF")

module _ {S : Type 0} (fw : Firmware S) where
  -- `open`, `into_regular_file`, the size from the file's information, and `read`
  unfoldable pub read_path : Dir → CString16 → Eff S Bytes
  read_path root path = do
    handle ← ask (fw.open_file root path read)
    file ← ask_option (fw.into_regular_file handle) load_error
    size ← ask (fw.file_size file)
    ask (fw.read_file file size)

  -- `unload_image` where what follows the load fails
  abbrev pub unloading : {A : Type 0} → Image → Res A → Eff S A
  unloading image (ok a) w = (ok a, w)
  unloading image (err e) w = (err e, (tell (fw.unload_image image) (unloaded image) w).1)

  abbrev pub or_unload : {A : Type 0} → Image → Eff S A → Eff S A
  or_unload image m w = let (r, w') = m w in unloading image r w'

  unfoldable pub load : Bytes → Eff S Image
  load buffer = ask_listed (fw.load_image buffer) loaded

  -- the hand-over: logs on the screen, a pause, the text console, and the start
  unfoldable pub start : Image → Eff S Done
  start image = do
    tell fw.flush_logs logs_flushed
    tell (fw.stall 1500) (stalled 1500)
    tell fw.reset_console console_reset
    or_unload image (ask_told (fw.start_image image) (started image))

  -- from the loaded kernel on
  unfoldable pub launch : Str → Image → Eff S Done
  unfolding start
  launch options image = do
    or_unload image (ask (fw.open_loaded_image image))
    options16 ← or_unload image (require (fw.cstring16 options) invalid_parameter)
    tell (fw.set_load_options image options16 (options_size options16))
        (options_set image options16 (options_size options16))
    start image

  -- from the parsed entry on
  unfoldable pub boot_entry : Dir → Handle → Entry → Eff S Done
  unfolding read_path load launch
  boot_entry root fs_handle entry = do
    linux ← require entry.linux_path not_found
    path ← require (fw.cstring16 (backslashed linux)) invalid_parameter
    kernel ← read_path root path
    ask (fw.open_device_path fs_handle)
    image ← load kernel
    launch (final_options entry) image

  unfoldable pub boot_linux_from_entry_file : Dir → Handle → Str → Eff S Done
  unfolding read_path boot_entry
  boot_linux_from_entry_file root fs_handle entry_path = do
    path ← require (fw.cstring16 entry_path) invalid_parameter
    buffer ← read_path root path
    content ← require (from_utf8 buffer) load_error
    boot_entry root fs_handle (read_entry content)

  -- The rest of the loop's body in `boot_os`, for an image by its path. Every error goes on with
  -- the next handle, whatever its status.
  unfoldable pub boot_image : Dir → Handle → Str → Eff S Done
  unfolding read_path load start
  boot_image root handle path = do
    path16 ← require (fw.cstring16 path) invalid_parameter
    buffer ← read_path root path16
    ask (fw.open_device_path handle)
    image ← load buffer
    start image

  unfoldable pub boot_from : Str → Handle → Dir → Eff S Done
  unfolding boot_linux_from_entry_file boot_image
  boot_from path handle root =
      if is_systemd_entry path
      then boot_linux_from_entry_file root handle path
      else boot_image root handle path
