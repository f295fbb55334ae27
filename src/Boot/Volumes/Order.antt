-- ===== src/Boot/Volumes/Order.antt =====
-- The order in which `boot_linux_direct` tries the entries of a file system.
use webuiboot.Base.{Bool, not, List, [], ◌∷◌, if◌then◌else◌}
use webuiboot.Text.{Str}
use webuiboot.Boot.Firmware.{Firmware}
use webuiboot.Boot.Volumes.{is_fallback}

-- The names of the fallback entries, and the others, each in their order.
abbrev pub picked : (Str → Bool) → List Str → List Str
picked p [] = []
picked p (a ∷ names) = if p a then a ∷ picked p names else picked p names

abbrev pub first_class : Str → Bool
first_class name = not (is_fallback name)
