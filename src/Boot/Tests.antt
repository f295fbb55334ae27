-- ===== src/Boot/Tests.antt =====
-- Boots of src/boot.rs on a small machine.
use webuiboot.Base.{ℕ, ◌+◌, ◌≡◌, refl, List, [], ◌∷◌, ◌++◌, some, length}
use webuiboot.Text.{
  Str, codes, without_prefix, trim, lines, join, get_or_else, split_inclusive, is_whitespace,
  trim_start, trim_end, strip_last, strip_eol, starts_with,
}
use webuiboot.Text.Utf8.{Bytes, as_bytes}
use webuiboot.Text.Words.{space}
use webuiboot.Boot.Entry.{Entry, read_entry, final_options}
use webuiboot.Boot.Entry.Parse.{
  Item, setting, comment, blank, render, last_value, all_values, read_entry-render,
}
use webuiboot.Boot.Entry.Options.{command_words, final_options-join}
use webuiboot.Boot.Firmware.{Firmware, World, deleted, wrote, ok}
use webuiboot.Boot.Launch.{boot_entry, boot_image}
use webuiboot.Boot.Launch.Traces.{
  Runs, LoadTrace, LaunchTrace, StartTrace, boot_entry-Runs, boot_image-Runs,
}
use webuiboot.Boot.Volumes.{boot_os, boot_linux_direct}
use webuiboot.Boot.Ledger.{RunsTidily, boot_os-RunsTidily}
use webuiboot.Boot.Ledger.Direct.{Leaves, boot_linux_direct-Leaves}
use webuiboot.Boot.Bootnext.{queue_of, new_content, append_lines, pop}
use webuiboot.Boot.Bootnext.Queue.{queue_of-pop}
use webuiboot.Boot.Bootnext.Pop.{paths_in, pop_lem}

abbrev entry_text : Str
entry_text = codes "linux /vmlinuz\ninitrd /initrd.img\n# quiet\noptions root=LABEL=a ro\n"

-- Two file systems with a directory of two entries; every file has the same text; images are numbered.
abbrev pub machine : Firmware ℕ
machine = record {
  cstring16 = λ s. some s;
  find_handles = λ n. (ok (1 ∷ 2 ∷ []), n);
  open_fs = λ h n. (ok tt, n);
  open_volume = λ h n. (ok h, n);
  open_file = λ d path mode n. (ok (length path), n);
  into_regular_file = λ f n. (some f, n);
  into_directory = λ f n. (some f, n);
  file_size = λ f n. (ok 64, n);
  read_file = λ f size n. (ok (as_bytes entry_text), n);
  read_entries = λ f n. (codes "a.conf" ∷ codes "b.txt" ∷ [], n);
  write_file = λ f bytes n. (ok tt, n);
  flush_file = λ f n. n;
  delete_file = λ f n. (ok tt, n);
  open_device_path = λ h n. (ok tt, n);
  load_image = λ bytes n. (ok n, n + 1);
  open_loaded_image = λ i n. (ok tt, n);
  set_load_options = λ i options size n. n;
  flush_logs = λ n. n;
  stall = λ ms n. n;
  reset_console = λ n. n;
  start_image = λ i n. (ok tt, n);
  unload_image = λ i n. n;
}

abbrev pub switched_on : World ℕ
switched_on = record { machine = 7; calls = [] }

boot_os-RunsTidily_example :
    Runs RunsTidily (boot_os machine (codes "\\loader\\a.conf")) switched_on
boot_os-RunsTidily_example = boot_os-RunsTidily machine (codes "\\loader\\a.conf") switched_on

boot_linux_direct-Leaves_example : Leaves switched_on (boot_linux_direct machine switched_on)
boot_linux_direct-Leaves_example = boot_linux_direct-Leaves machine switched_on

abbrev some_entry : Entry
some_entry = record {
  linux_path = some (codes "/vmlinuz");
  initrd_paths = codes "/ucode.img" ∷ codes "/initrd.img" ∷ [];
  options_str = some (codes "ro quiet");
}

boot_entry-Runs_example :
    Runs
      (LoadTrace (LaunchTrace machine.cstring16 (final_options some_entry)))
      (boot_entry machine 1 1 some_entry)
      switched_on
boot_entry-Runs_example = boot_entry-Runs machine 1 1 some_entry switched_on

boot_image-Runs_example :
    Runs (LoadTrace StartTrace) (boot_image machine 1 1 (codes "\\EFI\\boot.efi")) switched_on
boot_image-Runs_example = boot_image-Runs machine 1 1 (codes "\\EFI\\boot.efi") switched_on

abbrev some_items : List Item
some_items =
    setting (codes "title") (codes "A") (codes "Linux" ∷ [])
    ∷ comment (codes " the kernel")
    ∷ setting (codes "linux") (codes "/vmlinuz") []
    ∷ blank
    ∷ setting (codes "initrd") (codes "/ucode.img") []
    ∷ setting (codes "initrd") (codes "/initrd.img") []
    ∷ setting (codes "options") (codes "ro") (codes "quiet" ∷ [])
    ∷ []

read_entry-render_example : read_entry (render some_items) ≡ record {
  linux_path = last_value (codes "linux") some_items;
  initrd_paths = all_values (codes "initrd") some_items;
  options_str = last_value (codes "options") some_items;
}
unfolding is_whitespace starts_with
read_entry-render_example = read_entry-render some_items refl

final_options-join_example :
    final_options some_entry
    ≡ join space (command_words (get_or_else some_entry.options_str []) some_entry.initrd_paths)
final_options-join_example = final_options-join some_entry

abbrev some_names : List Str
some_names =
    codes "a-fallback.conf" ∷ codes "b.conf" ∷ codes "c-fallback.conf" ∷ codes "d.conf" ∷ []

abbrev flag_text : Str
flag_text = codes " /EFI/a.efi\r\n\n/EFI/b.efi \n/c.conf"

queue_of-pop_example :
    queue_of (new_content (codes "/EFI/b.efi" ∷ codes "/c.conf" ∷ []))
    ≡ codes "/EFI/b.efi" ∷ codes "/c.conf" ∷ []
unfolding queue_of without_prefix lines split_inclusive strip_eol strip_last trim trim_start
    trim_end is_whitespace
queue_of-pop_example =
    queue_of-pop flag_text (codes "/EFI/a.efi") (codes "/EFI/b.efi") (codes "/c.conf" ∷ []) refl
      refl

pop_lem_example :
    (bytes : Bytes) × ((pop machine 1
        (codes "f")
        3
        (codes "/EFI/a.efi" ∷ codes "/EFI/b.efi" ∷ codes "/c.conf" ∷ [])
        switched_on).0
      ≡ some (codes "/EFI/a.efi"))
    × ((pop machine 1
          (codes "f")
          3
          (codes "/EFI/a.efi" ∷ codes "/EFI/b.efi" ∷ codes "/c.conf" ∷ [])
          switched_on).1.calls
        ≡ switched_on.calls ++ (deleted 3 ∷ wrote 1 bytes ∷ []))
    × (paths_in bytes ≡ some (codes "/EFI/b.efi" ∷ codes "/c.conf" ∷ []))
unfolding queue_of without_prefix lines split_inclusive strip_eol strip_last trim trim_start
    trim_end is_whitespace new_content append_lines
pop_lem_example =
    pop_lem machine flag_text (codes "/EFI/a.efi") (codes "/EFI/b.efi") (codes "/c.conf" ∷ []) 1
      (codes "f") 3 1 switched_on refl refl refl
      (record { handle = 1; deletes = refl; opens = refl; is_regular = refl; writes = refl })
