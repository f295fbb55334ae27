-- ===== src/FakeBootloader/Announced.antt =====
-- What the images announce.
use webuiboot.Base.{◌≡◌, refl, subst, if◌then◌else◌, Bool, true, false, List, [], ◌∷◌, ◌++◌, some}
use webuiboot.Text.{Str, codes}
use webuiboot.FakeBootloader.{
  FakeCall, printed, stalled, shut_down, Ending, reset, panicked, FakeHost, expect, or_unknown,
  path_text, linux_main, windows_main, image_main,
}
use webuiboot.Screen.Ui.{boot_os, boot_directly}
use webuiboot.Screen.Ui.Calls.{boots}
use webuiboot.Web.{windows}

-- One line with this name, half a second for the line to leave, and the end of the machine.
abbrev pub Announces : Str → List FakeCall × Ending → Type 0
Announces name r =
    r ≡ (printed (codes "BOOTED: " ++ (name ++ codes "\n")) ∷ stalled 500 ∷ shut_down ∷ [], reset)

-- Nothing was printed.
abbrev pub IsSilent : List FakeCall × Ending → Type 0
IsSilent r = r ≡ ([], panicked)

expect_if :
    (b : Bool) (r : List FakeCall × Ending) (Q : List FakeCall × Ending → Type 0)
    → Q r
    → if b then Q (expect b r) else IsSilent (expect b r)
expect_if true r Q h = h
expect_if false r Q h = refl

boot_os-injective : (p q : Str) → (boot_os p ∷ []) ≡ (boot_os q ∷ []) → p ≡ q
boot_os-injective p q e = cc

-- Each of the images, where its start does not panic, prints one line and shuts the machine down half
-- a second later, and else prints nothing. The line names the kernel of the tests, the path that the
-- menu boots for Windows, and for the other image its own path, or `unknown` where that cannot be had.
pub mains_lem :
    {P H : Type 0} (host : FakeHost P H)
    → (if host.init
        then Announces (codes "\\vmlinuz-test") (linux_main host)
        else IsSilent (linux_main host))
      × ((path : Str)
          → boots (boot_directly (some windows)) ≡ boot_os path ∷ []
          → if host.init then Announces path (windows_main host) else IsSilent (windows_main host))
      × (if host.init
          then (if host.open_loaded_image
              then Announces (or_unknown (path_text host host.file_path)) (image_main host)
              else IsSilent (image_main host))
          else IsSilent (image_main host))
unfolding linux_main windows_main image_main
mains_lem host =
    let name = or_unknown (path_text host host.file_path) in
    (
      expect_if host.init _ (Announces (codes "\\vmlinuz-test")) refl,
      λ path e.
          subst
            (λ p.
              if host.init then Announces p (windows_main host) else IsSilent (windows_main host))
            (boot_os-injective _ path e)
            (expect_if host.init _ (Announces (codes "\\EFI\\Microsoft\\Boot\\bootmgfw.efi")) refl),
      expect_if host.init (expect host.open_loaded_image _)
          (λ r. if host.open_loaded_image then Announces name r else IsSilent r)
          (expect_if host.open_loaded_image _ (Announces name) refl),
    )
