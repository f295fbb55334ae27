-- ===== src/Boot/Bootnext/Queue.antt =====
-- The queue of src/boot.rs's `check_and_process_bootnext`, from one boot to the next.
use webuiboot.Base.{
  ℕ, suc, ◌≡◌, refl, ◌∙◌, ap, subst, ◌==◌, length, true, false, List, [], ◌∷◌, ◌++◌, map, is_empty,
  Bool-cases, inl, inr, arith, ltb,
}
use mathlib.Core.List.{append_assoc, append-nil}
use webuiboot.Text.{Str, trim, lines, without_prefix}
use webuiboot.Text.Lines.{
  IsLine, lines-crlf, IsTrimmed, AllLines, trim-IsLine, trim-IsTrimmed, lines-AllLines,
}
use webuiboot.Boot.Bootnext.{non_empty, queue_of, crlf, append_lines, new_content}

-- What a line of the queue is.
abbrev pub IsPath : Str → Type 0
IsPath s = (is_empty s ≡ false) × IsTrimmed s × IsLine s

abbrev pub AllPaths : List Str → Type 0
AllPaths [] = Unit
AllPaths (l ∷ ls) = IsPath l × AllPaths ls

trimmed-AllPaths : (ls : List Str) → AllLines ls → AllPaths (non_empty (map trim ls))
trimmed-AllPaths [] h = tt
trimmed-AllPaths (l ∷ ls) h = elim (Bool-cases (is_empty (trim l))) [
  | inl e ↦ rw e (trimmed-AllPaths ls h.1)
  | inr e ↦ rw e ((e, trim-IsTrimmed l, trim-IsLine l h.0), trimmed-AllPaths ls h.1)
]

queue_of-AllPaths : (content : Str) → AllPaths (queue_of content)
unfolding queue_of
queue_of-AllPaths content =
    trimmed-AllPaths (lines (without_prefix 0xfeff content))
      (lines-AllLines (without_prefix 0xfeff content))

-- The lines of a file, each with its end.
abbrev written : List Str → Str
written [] = []
written (l ∷ ls) = l ++ (b'\r' ∷ b'\n' ∷ written ls)

ltb-suc : (i : ℕ) → ltb 0 (suc i) ≡ true
ltb-suc i = ground arith

append_lines-suc :
    (i : ℕ) (ls : List Str) (content : Str)
    → append_lines (suc i) ls content ++ crlf ≡ content ++ crlf ++ written ls
unfolding append_lines
append_lines-suc i [] content = simp (append_assoc, append-nil)
append_lines-suc i (l ∷ ls) content =
    rw (ltb-suc i) (append_lines-suc (suc i) ls _ ∙ simp append_assoc)

new_content-written : (l : Str) (ls : List Str) → new_content (l ∷ ls) ≡ written (l ∷ ls)
unfolding new_content append_lines
new_content-written l [] = refl
new_content-written l (m ∷ ls) =
    append_lines-suc 0 (m ∷ ls) l ∙ append_assoc l crlf (written (m ∷ ls))

paths-written : (ls : List Str) → AllPaths ls → non_empty (map trim (lines (written ls))) ≡ ls
paths-written [] h = unfold lines in refl
paths-written (l ∷ ls) h =
    rw (lines-crlf l (written ls) h.0.2, h.0.1, h.0.0) (ap (λ x. l ∷ x) (paths-written ls h.1))

without_prefix-append :
    (c : ℕ) (s t : Str)
    → is_empty s ≡ false
    → without_prefix c s ≡ s
    → without_prefix c (s ++ t) ≡ s ++ t
unfolding without_prefix
without_prefix-append c [] t n h = cc
without_prefix-append c (d ∷ s) t n h = elim (Bool-cases (d == c)) [
  | inl e ↦ let eq : s ≡ d ∷ s = rw e at h in absurd (omega (arith, ap length eq))
  | inr e ↦ rw e refl
]

-- The paths that are written back are read again.
queue_of-new_content :
    (l : Str) (ls : List Str)
    → AllPaths (l ∷ ls)
    → without_prefix 0xfeff l ≡ l
    → queue_of (new_content (l ∷ ls)) ≡ l ∷ ls
unfolding queue_of
queue_of-new_content l ls h b =
    rw
      (
        new_content-written l ls,
        without_prefix-append 0xfeff l (b'\r' ∷ b'\n' ∷ written ls) h.0.0 b,
      )
      (paths-written (l ∷ ls) h)

-- For a flag file of any content whose paths are `target`, `next` and `rest`, where `next` does not
-- begin with a byte order mark: what is written back has exactly the paths `next` and `rest`.
pub queue_of-pop :
    (content target next : Str) (rest : List Str)
    → queue_of content ≡ target ∷ next ∷ rest
    → without_prefix 0xfeff next ≡ next
    → queue_of (new_content (next ∷ rest)) ≡ next ∷ rest
queue_of-pop content target next rest q b =
    queue_of-new_content next rest (subst AllPaths q (queue_of-AllPaths content)).1 b
