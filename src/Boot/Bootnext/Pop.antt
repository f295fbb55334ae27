-- ===== src/Boot/Bootnext/Pop.antt =====
-- What a pop of src/boot.rs's `check_and_process_bootnext` leaves on the disk.
use webuiboot.Base.{◌≡◌, refl, true, List, [], ◌∷◌, ◌++◌, Option, none, some}
use mathlib.Core.List.{append_assoc}
use webuiboot.Text.{Str, without_prefix}
use webuiboot.Text.Utf8.{Bytes, as_bytes, from_utf8, all_scalar, from_utf8-as_bytes}
use webuiboot.Boot.Firmware.{
  Dir, File, CString16, ok, create_read_write, deleted, wrote, Firmware, World, continue, require,
}
use webuiboot.Boot.Bootnext.{queue_of, new_content, write_back, pop}
use webuiboot.Boot.Bootnext.Queue.{queue_of-pop}

-- The paths that a flag file with these bytes gives, if it can be read.
abbrev pub paths_in : Bytes → Option (List Str)
paths_in bytes = read_text (from_utf8 bytes)
  where
    read_text : Option Str → Option (List Str)
    read_text none = none
    read_text (some content) = some (queue_of content)

paths_in-new_content :
    (content target next : Str) (rest : List Str)
    → queue_of content ≡ target ∷ next ∷ rest
    → without_prefix 0xfeff next ≡ next
    → all_scalar (new_content (next ∷ rest)) ≡ true
    → paths_in (as_bytes (new_content (next ∷ rest))) ≡ some (next ∷ rest)
paths_in-new_content content target next rest q b s =
    rw
      (
        from_utf8-as_bytes (new_content (next ∷ rest)) s,
        paths_in,
        queue_of-pop content target next rest q b,
      )
      refl

module _ {S : Type 0} (fw : Firmware S) (root : Dir) (path : CString16) (file : File) (s : S) where
  -- The machine behind the delete, the open, and the look whether it is a file; and the new file's bytes.
  abbrev pub deleted_at : S
  deleted_at = (fw.delete_file file s).1

  abbrev pub opened_at : S
  opened_at = (fw.open_file root path create_read_write deleted_at).1

  -- The delete succeeds, and so do all steps of the write of these bytes to a file.
  pub record Succeeds (new_file : File) (bytes : Bytes) : Type 0 where
    pub handle : File
    pub deletes : (fw.delete_file file s).0 ≡ ok tt
    pub opens : (fw.open_file root path create_read_write deleted_at).0 ≡ ok handle
    pub is_regular : (fw.into_regular_file handle opened_at).0 ≡ some new_file
    pub writes : (fw.write_file new_file bytes (fw.into_regular_file handle opened_at).1).0 ≡ ok tt

module _ {S : Type 0} (fw : Firmware S) where
  -- A flag file whose text has the paths `target`, `next` and `rest`, all of them Rust strings, and
  -- `next` without a byte order mark in front: where the delete of the file, its creation and the
  -- write succeed, the pop gives `target`, deletes the file and writes it once, with bytes that the
  -- next pop reads as exactly `next` and `rest`.
  pub pop_lem :
      (content target next : Str) (rest : List Str) (root : Dir) (path : CString16)
      (file new_file : File) (w : World S)
      → queue_of content ≡ target ∷ next ∷ rest
      → without_prefix 0xfeff next ≡ next
      → all_scalar (new_content (next ∷ rest)) ≡ true
      → Succeeds fw root path file w.machine new_file (as_bytes (new_content (next ∷ rest)))
      → (bytes : Bytes) × ((pop fw root path file (target ∷ next ∷ rest) w).0 ≡ some target)
        × ((pop fw root path file (target ∷ next ∷ rest) w).1.calls
            ≡ w.calls ++ (deleted file ∷ wrote new_file bytes ∷ []))
        × (paths_in bytes ≡ some (next ∷ rest))
  unfolding pop write_back
  pop_lem content target next rest root path file new_file w q b s h = (
    as_bytes (new_content (next ∷ rest)),
    refl,
    rw (pop, write_back, h.deletes, h.opens, continue, h.is_regular, require, h.writes)
        (append_assoc w.calls (deleted file ∷ [])
          (wrote new_file (as_bytes (new_content (next ∷ rest))) ∷ [])),
    paths_in-new_content content target next rest q b s,
  )
