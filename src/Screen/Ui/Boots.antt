-- ===== src/Screen/Ui/Boots.antt =====
-- What a round of the user interface boots.
use webuiboot.Base.{ℕ, ◌≡◌, List, [], ◌∷◌, ◌++◌, Option, none, some}
use webuiboot.Text.{codes}
use webuiboot.Web.{BootSelection, windows, linux}
use webuiboot.Screen.Keys.{SlintKey}
use webuiboot.Screen.Keys.Typed.{Reads, strokes, last_boot}
use webuiboot.Screen.Ui.{UiCall, boot_os, boot_linux_direct, Host, Given, Ui, Round, ui_round}
use webuiboot.Screen.Ui.Calls.{dispatched, boots, pointed}
use webuiboot.Screen.Ui.Made.{Made}

-- the boot of a selection
abbrev pub boot_of : Option BootSelection → List UiCall
boot_of none = []
boot_of (some windows) = boot_os (codes "\\EFI\\Microsoft\\Boot\\bootmgfw.efi") ∷ []
boot_of (some linux) = boot_linux_direct ∷ []

module _ {W : Type 0} (host : Host W) (slint_char : SlintKey → ℕ)
    (screen_width screen_height scale_factor : ℕ) where
  -- The round that boots by its keys.
  abbrev pub BootsByKeys : Given → Ui W → Type 0
  BootsByKeys g ui =
      (r : Round W) × (keys : List ℕ) × (ui_round host slint_char screen_width screen_height
          scale_factor g ui
        ≡ some r)
      × Reads slint_char g.stdin keys r.stdin
      × (boots r.calls ≡ boot_of (last_boot keys))
      × (dispatched r.calls
          ≡ strokes keys ++ pointed screen_width screen_height scale_factor g.pointers ui.mouse)
      × Made host screen_width screen_height ui.screen r.calls r.ui.screen
