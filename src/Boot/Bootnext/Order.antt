-- ===== src/Boot/Bootnext/Order.antt =====
-- The boot in src/boot.rs's `check_and_process_bootnext`, and what comes before it.
use webuiboot.Base.{◌≡◌, ◌⊎◌}
use webuiboot.Text.{Str}
use webuiboot.Boot.Entry.{backslashed}
use webuiboot.Boot.Firmware.{Firmware, World}
use webuiboot.Boot.Volumes.{boot_os}
use webuiboot.Boot.Bootnext.Check.{Adds}

module _ {S : Type 0} (fw : Firmware S) where
  -- Tidy requests that start nothing, and then the boot of one path, or nothing.
  abbrev pub Checks : World S → World S → Type 0
  Checks w w' =
      (w1 : World S) × Adds w w1
      × ((w' ≡ w1) ⊎ ((target : Str) × (w' ≡ (boot_os fw (backslashed target) w1).1)))
