-- ===== src/Boot/Entry/Parse.antt =====
-- An entry file that is written from its settings is read back.
use webuiboot.Base.{
  ℕ, ◌≡◌, refl, Bool, true, false, not, ◌&&◌, List, [], ◌∷◌, ◌++◌, Option, none, some,
  if◌then◌else◌, contains, contains-append, arith, ◌==◌, inl, inr, ◌∙◌, ◌⊎◌,
}
use mathlib.Core.List.{append-nil, append_assoc}
use webuiboot.Text.{
  Str, codes, str_eq, str_eq→eq, is_whitespace, trim, lines, strip_last, join, starts_with,
  trim_start, trim_end, split_inclusive,
}
use webuiboot.Text.Words.{
  space, is_word, all_words, no_blank, split_whitespace-join, trim-join, is_empty-join,
}
use webuiboot.Text.Lines.{lines-lf}
use webuiboot.Boot.Entry.{Entry, no_entry, set_key, read_line, read_lines, read_entry}

-- A line of an entry file.
pub data Item : Type 0 where
  -- a key and the words of its value
  setting : Str → Str → List Str → Item
  -- what stands behind the "#"
  comment : Str → Item
  blank : Item

abbrev pub text : Item → Str
text (setting key w ws) = join space (key ∷ w ∷ ws)
text (comment s) = b'#' ∷ s
text blank = []

abbrev pub render : List Item → Str
render [] = []
render (i ∷ is) = text i ++ b'\n' ∷ render is

abbrev pub is_item : Item → Bool
is_item (setting key w ws) = not (starts_with key (codes "#")) && all_words (key ∷ w ∷ ws)
is_item (comment s) = not (contains s b'\n') && not (contains s b'\r')
is_item blank = true

abbrev pub all_items : List Item → Bool
all_items [] = true
all_items (i ∷ is) = is_item i && all_items is

-- The value of the last setting of a key.
abbrev pub last_value : Str → List Item → Option Str
last_value k [] = none
last_value k (setting key w ws ∷ is) = elim (last_value k is) [
  | some v ↦ some v
  | none ↦ if str_eq key k then some (join space (w ∷ ws)) else none
]
last_value k (comment s ∷ is) = last_value k is
last_value k (blank ∷ is) = last_value k is

-- The values of all settings of a key, in order.
abbrev pub all_values : Str → List Item → List Str
all_values k [] = []
all_values k (setting key w ws ∷ is) =
    if str_eq key k then join space (w ∷ ws) ∷ all_values k is else all_values k is
all_values k (comment s ∷ is) = all_values k is
all_values k (blank ∷ is) = all_values k is

no_blank-contains :
    (c : ℕ) (s : Str) → is_whitespace c ≡ true → no_blank s ≡ true → contains s c ≡ false
no_blank-contains c [] h k = refl
no_blank-contains c (d ∷ s) h k = ground (arith, no_blank-contains c s)

join-contains :
    (c : ℕ) (ws : List Str)
    → is_whitespace c ≡ true
    → (c == b' ') ≡ false
    → all_words ws ≡ true
    → contains (join space ws) c ≡ false
unfolding join
join-contains c [] h n k = refl
join-contains c (w ∷ []) h n k = no_blank-contains c w h (ground arith)
join-contains c (w ∷ v ∷ ws) h n k = ground (
  arith,
  no_blank-contains c w h,
  contains-append w (b' ' ∷ join space (v ∷ ws)) c,
  join-contains c (v ∷ ws) h n,
)

strip_last_absent : (c : ℕ) (s : Str) → contains s c ≡ false → strip_last c s ≡ none
unfolding strip_last
strip_last_absent c [] h = refl
strip_last_absent c (d ∷ s) h = ground (arith, strip_last_absent c s)

text-contains :
    (i : Item) (c : ℕ) → is_item i ≡ true → (c ≡ b'\n') ⊎ (c ≡ b'\r') → contains (text i) c ≡ false
text-contains (setting key w ws) c h n =
    join-contains c (key ∷ w ∷ ws) (unfold is_whitespace in ground arith) (ground arith)
      (ground arith)
text-contains (comment s) c h n = ground arith
text-contains blank c h n = refl

-- The lines of the written file are those of the items.
lines-render :
    (i : Item) (is : List Item)
    → is_item i ≡ true
    → lines (text i ++ b'\n' ∷ render is) ≡ text i ∷ lines (render is)
lines-render i is h =
    lines-lf (text i) (render is) (text-contains i b'\n' h (inl refl))
      (strip_last_absent b'\r' (text i) (text-contains i b'\r' h (inr refl)))

abbrev pub or_else {ℓ} : {A : Type ℓ} → Option A → Option A → Option A
or_else none b = b
or_else (some a) b = some a

-- What the settings say, on top of `e`.
abbrev pub meaning : List Item → Entry → Entry
meaning is e = record {
  linux_path = or_else (last_value (codes "linux") is) e.linux_path;
  initrd_paths = e.initrd_paths ++ all_values (codes "initrd") is;
  options_str = or_else (last_value (codes "options") is) e.options_str;
}

starts_with-join :
    (key w : Str) (ws : List Str)
    → is_word key ≡ true
    → starts_with key (codes "#") ≡ false
    → starts_with (join space (key ∷ w ∷ ws)) (codes "#") ≡ false
unfolding join starts_with
starts_with-join [] w ws h n = cc
starts_with-join (c ∷ key) w ws h n = ground arith

read_line-setting :
    (key w : Str) (ws : List Str) (e : Entry)
    → is_item (setting key w ws) ≡ true
    → read_line (text (setting key w ws)) e ≡ set_key key (join space (w ∷ ws)) e
unfolding read_line
read_line-setting key w ws e h =
    rw
      (trim-join (key ∷ w ∷ ws) (ground arith), split_whitespace-join (key ∷ w ∷ ws) (ground arith))
      (rw (
        starts_with-join key w ws (ground arith) (ground arith),
        is_empty-join key (w ∷ ws) (ground arith),
        is_empty-join w ws (ground arith),
      ))

read_line-comment : (s : Str) (e : Entry) → read_line (b'#' ∷ s) e ≡ e
unfolding read_line trim trim_start trim_end is_whitespace starts_with
read_line-comment s e = ground arith

set_key_lem :
    (key value : Str) (e : Entry)
    → set_key key value e ≡ record {
      linux_path = if str_eq key (codes "linux") then some value else e.linux_path;
      initrd_paths =
          if str_eq key (codes "initrd") then e.initrd_paths ++ value ∷ [] else e.initrd_paths;
      options_str = if str_eq key (codes "options") then some value else e.options_str;
    }
unfolding set_key
set_key_lem key value e = ground (
  arith,
  str_eq→eq key (codes "linux"),
  str_eq→eq key (codes "initrd"),
  str_eq→eq key (codes "options"),
)

read_line-blank : (e : Entry) → read_line [] e ≡ e
unfolding read_line trim trim_start trim_end starts_with
read_line-blank e = refl

meaning-set_key :
    (key w : Str) (ws : List Str) (is : List Item) (e : Entry)
    → meaning is (set_key key (join space (w ∷ ws)) e) ≡ meaning (setting key w ws ∷ is) e
meaning-set_key key w ws is e =
    let v = join space (w ∷ ws) in
    rw (set_key_lem key v e)
      (ground (arith, append_assoc e.initrd_paths (v ∷ []) (all_values (codes "initrd") is)))

read_lines-render :
    (is : List Item) (e : Entry)
    → all_items is ≡ true
    → read_lines (lines (render is)) e ≡ meaning is e
unfolding read_lines
read_lines-render [] e h = unfold lines split_inclusive in ground (arith, append-nil e.initrd_paths)
read_lines-render (setting key w ws ∷ is) e h =
    rw
      (
        lines-render (setting key w ws) is (ground arith),
        read_lines,
        read_line-setting key w ws e (ground arith),
      )
      (read_lines-render is (set_key key (join space (w ∷ ws)) e) (ground arith)
        ∙ meaning-set_key key w ws is e)
read_lines-render (comment s ∷ is) e h =
    rw (lines-render (comment s) is (ground arith), read_lines, read_line-comment s e)
      (read_lines-render is e (ground arith))
read_lines-render (blank ∷ is) e h =
    rw (lines-render blank is refl, read_lines, read_line-blank e)
      (read_lines-render is e (ground arith))

-- An entry file of settings (a key without "#" in front, and words, separated by single spaces),
-- comments without line ends, and empty lines gives the last value of "linux", all values of
-- "initrd" in order, and the last value of "options".
pub read_entry-render :
    (is : List Item)
    → all_items is ≡ true
    → read_entry (render is) ≡ record {
      linux_path = last_value (codes "linux") is;
      initrd_paths = all_values (codes "initrd") is;
      options_str = last_value (codes "options") is;
    }
unfolding read_entry
read_entry-render is h = read_lines-render is no_entry h ∙ ground arith
