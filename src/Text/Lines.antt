-- ===== src/Text/Lines.antt =====
-- Laws of `lines` and `trim`.
use webuiboot.Base.{
  ℕ, ◌≡◌, ◌≢◌, refl, Bool, false, List, [], ◌∷◌, ◌++◌, map, arith, Bool-cases, Option-cases, inl,
  inr, none, some, ◌==◌, contains, contains-append, ap,
}
use mathlib.Core.List.{append_assoc}
use webuiboot.Text.{
  Str, is_whitespace, trim_start, trim_end, trim, onto_first, split_inclusive, strip_last,
  get_or_else, strip_eol, lines,
}

-- No newline in the text.
abbrev pub IsLine : Str → Type 0
IsLine s = contains s b'\n' ≡ false

split_inclusive-line :
    (l rest : Str)
    → IsLine l
    → split_inclusive (l ++ b'\n' ∷ rest) ≡ (l ++ b'\n' ∷ []) ∷ split_inclusive rest
unfolding split_inclusive
split_inclusive-line [] rest h = refl
split_inclusive-line (c ∷ l) rest h = ground (arith, split_inclusive-line l rest)

strip_last-concat : (c : ℕ) (s : Str) → strip_last c (s ++ c ∷ []) ≡ some s
unfolding strip_last
strip_last-concat c [] = ground arith
strip_last-concat c (d ∷ s) = ground (arith, strip_last-concat c s)

-- A line that is written with "\r\n" is read back, whatever stands behind it.
pub lines-crlf : (l rest : Str) → IsLine l → lines (l ++ (b'\r' ∷ b'\n' ∷ rest)) ≡ l ∷ lines rest
unfolding lines strip_eol
lines-crlf l rest h =
    let cr = l ++ b'\r' ∷ [] in
    rw (← append_assoc l (b'\r' ∷ []) (b'\n' ∷ rest)) (
      rw (split_inclusive-line cr rest (ground (arith, contains-append l (b'\r' ∷ []) b'\n'))) (
        ap (λ x. x ∷ map strip_eol (split_inclusive rest))
          (rw (strip_last-concat b'\n' cr, strip_eol, strip_last-concat b'\r' l))))

-- So is a line that is written with "\n" and does not end in "\r".
pub lines-lf :
    (l rest : Str)
    → IsLine l
    → strip_last b'\r' l ≡ none
    → lines (l ++ b'\n' ∷ rest) ≡ l ∷ lines rest
unfolding lines strip_eol
lines-lf l rest h n = rw (split_inclusive-line l rest h) (
    ap (λ x. x ∷ map strip_eol (split_inclusive rest))
      (rw (strip_last-concat b'\n' l, strip_eol, n)))

-- No white space at either end.
abbrev pub IsTrimmed : Str → Type 0
IsTrimmed s = trim s ≡ s

abbrev pub AllLines : List Str → Type 0
AllLines [] = Unit
AllLines (l ∷ ls) = IsLine l × AllLines ls

trim_end-contains : (s : Str) (c : ℕ) → contains s c ≡ false → contains (trim_end s) c ≡ false
unfolding trim_end
trim_end-contains [] c h = refl
trim_end-contains (d ∷ s) c h = ground (arith, trim_end-contains s c)

trim_start-contains : (s : Str) (c : ℕ) → contains s c ≡ false → contains (trim_start s) c ≡ false
unfolding trim_start
trim_start-contains [] c h = refl
trim_start-contains (d ∷ s) c h = ground (arith, trim_start-contains s c)

pub trim-IsLine : (s : Str) → IsLine s → IsLine (trim s)
unfolding trim
trim-IsLine s h = trim_end-contains (trim_start s) b'\n' (trim_start-contains s b'\n' h)

abbrev starts_blank : Str → Bool
starts_blank [] = false
starts_blank (c ∷ s) = is_whitespace c

trim_start-starts : (s : Str) → starts_blank (trim_start s) ≡ false
unfolding trim_start
trim_start-starts [] = refl
trim_start-starts (c ∷ s) = ground (arith, trim_start-starts s)

trim_start_of_starts : (s : Str) → starts_blank s ≡ false → trim_start s ≡ s
unfolding trim_start
trim_start_of_starts [] h = refl
trim_start_of_starts (c ∷ s) h = ground arith

trim_end-starts : (s : Str) → starts_blank s ≡ false → starts_blank (trim_end s) ≡ false
unfolding trim_end
trim_end-starts [] h = refl
trim_end-starts (c ∷ s) h = ground arith

trim_end-trim_end : (s : Str) → trim_end (trim_end s) ≡ trim_end s
unfolding trim_end
trim_end-trim_end [] = refl
trim_end-trim_end (c ∷ s) = ground (arith, trim_end-trim_end s)

-- Trimming leaves nothing to trim.
pub trim-IsTrimmed : (s : Str) → IsTrimmed (trim s)
unfolding trim
trim-IsTrimmed s =
    rw
      (trim_start_of_starts (trim_end (trim_start s))
        (trim_end-starts (trim_start s) (trim_start-starts s)))
      (trim_end-trim_end (trim_start s))

abbrev body_of : Str → Str
body_of p = get_or_else (strip_last b'\n' p) p

abbrev AllBodies : List Str → Type 0
AllBodies [] = Unit
AllBodies (p ∷ ps) = IsLine (body_of p) × AllBodies ps

body_of-cons : (c : ℕ) (p : Str) → c ≢ b'\n' → body_of (c ∷ p) ≡ c ∷ body_of p
unfolding strip_last
body_of-cons c p h = ground arith

split_inclusive-AllBodies : (s : Str) → AllBodies (split_inclusive s)
unfolding split_inclusive
split_inclusive-AllBodies [] = tt
split_inclusive-AllBodies (c ∷ s) = elim (Bool-cases (c == b'\n')) [
  | inl newline ↦ rw newline (unfold strip_last in rw newline refl, split_inclusive-AllBodies s)
  | inr other ↦
      rw other
        (onto_first-AllBodies c (split_inclusive s) (ground arith) (split_inclusive-AllBodies s))
]
  where
    onto_first-AllBodies :
        (d : ℕ) (ps : List Str) → d ≢ b'\n' → AllBodies ps → AllBodies (onto_first d ps)
    onto_first-AllBodies d [] n h =
        (rw (body_of-cons d [] n) (unfold strip_last in ground arith), tt)
    onto_first-AllBodies d (p ∷ ps) n h = (rw (body_of-cons d p n) (ground (arith, h.0)), h.1)

strip_last-contains :
    (c d : ℕ) (s : Str) → contains s d ≡ false → contains (get_or_else (strip_last c s) s) d ≡ false
unfolding strip_last
strip_last-contains c d [] h = refl
strip_last-contains c d (e ∷ s) h = ground (arith, strip_last-contains c d s)

strip_eol-IsLine : (p : Str) → IsLine (body_of p) → IsLine (strip_eol p)
unfolding strip_eol
strip_eol-IsLine p h = elim (Option-cases (strip_last b'\n' p)) [
  | inl e ↦ rw (e, strip_eol) (rw e at h)
  | inr (b, e) ↦ rw (e, strip_eol) (strip_last-contains b'\r' b'\n' b (rw e at h))
]

map-strip_eol-AllLines : (ps : List Str) → AllBodies ps → AllLines (map strip_eol ps)
map-strip_eol-AllLines [] h = tt
map-strip_eol-AllLines (p ∷ ps) h = (strip_eol-IsLine p h.0, map-strip_eol-AllLines ps h.1)

-- No line holds a newline.
pub lines-AllLines : (s : Str) → AllLines (lines s)
unfolding lines
lines-AllLines s = map-strip_eol-AllLines (split_inclusive s) (split_inclusive-AllBodies s)
