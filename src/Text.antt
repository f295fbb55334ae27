-- ===== src/Text.antt =====
-- The text functions of Rust's standard library that the source uses, on lists of code points:
-- `trim`, `lines`, `split_whitespace`, `join`, `replace`, the searches, and decimal formatting.
pub mod Utf8
pub mod Lines
pub mod Words
pub mod Decimal
use Prim.Native.Char.{code}
use Prim.Native.String.{String}
use mathlib.Core.List.{reverse}
use webuiboot.Base.{
  ℕ, zero, suc, ◌+◌, ◌/◌, ◌%◌, Bool, true, false, not, ◌&&◌, ◌||◌, List, [], ◌∷◌, ◌++◌, map, Option,
  none, some, ◌≡◌, refl, arith, ltb, leb, ◌==◌, if◌then◌else◌, is_empty,
}

abbrev pub Str : Type 0
Str = List ℕ

-- The code points of a literal.
abbrev pub codes : String → Str
codes String.[] = []
codes (String.◌∷◌ c s) = code c ∷ codes s

unfoldable pub str_eq : Str → Str → Bool
str_eq [] [] = true
str_eq (a ∷ s) (b ∷ t) = a == b && str_eq s t
str_eq _ _ = false

-- `char::is_whitespace`: Unicode's White_Space.
unfoldable pub is_whitespace : ℕ → Bool
is_whitespace c =
    (leb 9 c && leb c 13)
    || c == 32
    || c == 0x85
    || c == 0xa0
    || c == 0x1680
    || (leb 0x2000 c && leb c 0x200a)
    || c == 0x2028
    || c == 0x2029
    || c == 0x202f
    || c == 0x205f
    || c == 0x3000

unfoldable pub trim_start : Str → Str
trim_start [] = []
trim_start (c ∷ s) = let rest = trim_start s in if is_whitespace c then rest else c ∷ s

unfoldable pub trim_end : Str → Str
trim_end [] = []
trim_end (c ∷ s) =
    let rest = trim_end s in if is_whitespace c && is_empty rest then [] else c ∷ rest

unfoldable pub trim : Str → Str
unfolding trim_start trim_end
trim s = trim_end (trim_start s)

-- Puts a character in front of the first piece.
abbrev pub onto_first : ℕ → List Str → List Str
onto_first c [] = (c ∷ []) ∷ []
onto_first c (l ∷ ls) = (c ∷ l) ∷ ls

-- `split_inclusive('\n')`
unfoldable pub split_inclusive : Str → List Str
split_inclusive [] = []
split_inclusive (c ∷ s) =
    let rest = split_inclusive s in if c == b'\n' then (c ∷ []) ∷ rest else onto_first c rest

-- `strip_suffix`, for a suffix of one character
unfoldable pub strip_last : ℕ → Str → Option Str
strip_last c [] = none
strip_last c (d ∷ s) =
    if is_empty s && d == c
    then some []
    else elim (strip_last c s) [ none ↦ none | some r ↦ some (d ∷ r) ]

abbrev pub get_or_else : {A : Type 0} → Option A → A → A
get_or_else none a = a
get_or_else (some x) a = x

-- A line without its "\n" or "\r\n"; a last line without "\n" stays as it is.
unfoldable pub strip_eol : Str → Str
unfolding strip_last
strip_eol l = elim (strip_last b'\n' l) [
  | none ↦ l
  | some body ↦ get_or_else (strip_last b'\r' body) body
]

unfoldable pub lines : Str → List Str
unfolding split_inclusive strip_eol
lines s = map strip_eol (split_inclusive s)

abbrev pub starts_word : Str → Bool
starts_word [] = false
starts_word (c ∷ s) = not (is_whitespace c)

unfoldable pub split_whitespace : Str → List Str
split_whitespace [] = []
split_whitespace (c ∷ s) =
    let rest = split_whitespace s in
    if is_whitespace c then rest else if starts_word s then onto_first c rest else (c ∷ []) ∷ rest

unfoldable pub join : Str → List Str → Str
join sep [] = []
join sep (w ∷ []) = w
join sep (w ∷ v ∷ ws) = w ++ (sep ++ join sep (v ∷ ws))

-- `replace(from, to)` of one character by one
unfoldable pub replace : ℕ → ℕ → Str → Str
replace from to s = map (λ c. if c == from then to else c) s

unfoldable pub starts_with : Str → Str → Bool
starts_with s [] = true
starts_with [] (p ∷ ps) = false
starts_with (c ∷ s) (p ∷ ps) = c == p && starts_with s ps

unfoldable pub ends_with : Str → Str → Bool
unfolding str_eq
ends_with [] suffix = str_eq [] suffix
ends_with (c ∷ s) suffix = str_eq (c ∷ s) suffix || ends_with s suffix

-- `str::contains`
unfoldable pub contains_str : Str → Str → Bool
unfolding starts_with
contains_str [] needle = starts_with [] needle
contains_str (c ∷ s) needle = starts_with (c ∷ s) needle || contains_str s needle

-- `strip_prefix(c).unwrap_or(self)`, for a prefix of one character
unfoldable pub without_prefix : ℕ → Str → Str
without_prefix p [] = []
without_prefix p (c ∷ s) = if c == p then s else c ∷ s

pub str_eq→eq : (s t : Str) → str_eq s t ≡ true → s ≡ t
unfolding str_eq
str_eq→eq [] [] h = refl
str_eq→eq [] (b ∷ t) h = cc
str_eq→eq (a ∷ s) [] h = cc
str_eq→eq (a ∷ s) (b ∷ t) h = ground (arith, str_eq→eq s t)

pub str_eq_refl : (s : Str) → str_eq s s ≡ true
unfolding str_eq
str_eq_refl [] = refl
str_eq_refl (a ∷ s) = ground (arith, str_eq_refl s)
