-- ===== src/Boot/Entry/Options.antt =====
-- The kernel's command line: the options, then one "initrd=" word for each initrd.
use mathlib.Core.List.{append_assoc}
use webuiboot.Base.{◌≡◌, refl, List, [], ◌∷◌, ◌++◌, map, if◌then◌else◌, is_empty, ◌∙◌, ap}
use webuiboot.Text.{Str, codes, join, get_or_else}
use webuiboot.Text.Words.{space}
use webuiboot.Boot.Entry.{Entry, backslashed, add_initrds, final_options}

abbrev pub initrd_arg : Str → Str
initrd_arg path = codes "initrd=" ++ backslashed path

-- The words of the command line: no word for options that are missing or empty.
abbrev pub command_words : Str → List Str → List Str
command_words options initrds =
    if is_empty options then map initrd_arg initrds else options ∷ map initrd_arg initrds

join-onto :
    (s : Str) (w : Str) (ws : List Str)
    → join space ((s ++ (space ++ w)) ∷ ws) ≡ join space (s ∷ w ∷ ws)
unfolding join
join-onto s w [] = refl
join-onto s w (v ∷ ws) = simp append_assoc

add_initrds-join :
    (initrds : List Str) (options : Str)
    → add_initrds initrds options ≡ join space (command_words options initrds)
unfolding add_initrds
add_initrds-join [] [] = unfold join in refl
add_initrds-join [] (c ∷ s) = unfold join in refl
add_initrds-join (i ∷ is) [] = add_initrds-join is (initrd_arg i)
add_initrds-join (i ∷ is) (c ∷ s) =
    add_initrds-join is ((((c ∷ s) ++ space) ++ codes "initrd=") ++ backslashed i)
    ∙ ap (λ x. join space ((c ∷ x) ∷ map initrd_arg is))
        (append_assoc (s ++ space) (codes "initrd=") (backslashed i)
          ∙ append_assoc s space (initrd_arg i))
    ∙ join-onto (c ∷ s) (initrd_arg i) (map initrd_arg is)

-- The options of the kernel are the options of the entry, unless missing or empty, and an "initrd="
-- word for each initrd, in order and with backslashes for slashes, joined by single spaces.
pub final_options-join :
    (e : Entry)
    → final_options e ≡ join space (command_words (get_or_else e.options_str []) e.initrd_paths)
unfolding final_options
final_options-join e = add_initrds-join e.initrd_paths (get_or_else e.options_str [])
