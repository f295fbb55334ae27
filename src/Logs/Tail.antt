-- ===== src/Logs/Tail.antt =====
-- What the log keeps.
use mathlib.Core.List.{append-nil}
use webuiboot.Base.{
  ℕ, zero, suc, ◌+◌, ◌-◌, ◌≤◌, ◌<◌, ◌≡◌, ◌≢◌, refl, sym, ap, ◌∙◌, subst, ◌⊎◌, Bool, true, false,
  not, ◌&&◌, [], ◌∷◌, ◌++◌, Option, none, some, length, length-append, contains, ltb, leb, ◌==◌,
  ==_iff, arith, Bool-cases, Option-cases, inl, inr,
}
use webuiboot.Text.Utf8.{Bytes}
use webuiboot.Logs.{
  is_boundary, skip, slice_from, find_newline, limit, drained, truncate, Logs, or_empty, kept,
  log_to, log,
}

length-skip : (n : ℕ) (s : Bytes) → length (skip n s) ≡ length s - n
length-skip zero s = omega arith
length-skip (suc n) [] = omega arith
length-skip (suc n) (b ∷ s) = omega (arith, length-skip n s)

skip-append : (n : ℕ) (s : Bytes) → (front : Bytes) × (s ≡ front ++ skip n s)
skip-append zero s = ([], refl)
skip-append (suc n) [] = ([], refl)
skip-append (suc n) (b ∷ s) = let (front, e) = skip-append n s in (b ∷ front, ap (λ x. b ∷ x) e)

skip-nil : (n : ℕ) → skip n [] ≡ []
skip-nil zero = refl
skip-nil (suc n) = refl

skip-skip : (m n : ℕ) (s : Bytes) → skip (m + n) s ≡ skip n (skip m s)
skip-skip zero n s = ap (λ x. skip x s) (omega arith)
skip-skip (suc m) n [] = skip-nil (suc m + n) ∙ sym (skip-nil n)
skip-skip (suc m) n (b ∷ s) = ap (λ x. skip x (b ∷ s)) (suc_out m n) ∙ skip-skip m n s
  where
    suc_out : (a b : ℕ) → suc a + b ≡ suc (a + b)
    suc_out a b = omega arith

-- What is kept of a text: all of it where it is not above the limit; else, of its last bytes, what
-- stands behind their first newline, or all of them where none is a newline.
pub data Kept (s : Bytes) : Bytes → Type 0 where
  whole : length s ≤ limit → Kept s s
  behind_line :
      (front line t : Bytes)
      → limit < length s
      → s ≡ front ++ (line ++ b'\n' ∷ t)
      → length (line ++ b'\n' ∷ t) ≡ limit
      → contains line b'\n' ≡ false
      → Kept s t
  last_bytes :
      (front t : Bytes)
      → limit < length s
      → s ≡ front ++ t
      → length t ≡ limit
      → contains t b'\n' ≡ false
      → Kept s t

pub none-some : {A : Type 0} {a : A} → none ≢ some a
none-some e = cc

pub some-injective : {A : Type 0} {a b : A} → some a ≡ some b → a ≡ b
some-injective e = cc

find_newline_lem :
    (s : Bytes) (n : ℕ)
    → find_newline s ≡ some n
    → (front : Bytes) × (s ≡ front ++ b'\n' ∷ skip (suc n) s)
      × (n < length s)
      × (contains front b'\n' ≡ false)
find_newline_lem [] n h = elim (none-some h) [ ]
find_newline_lem (b ∷ s) n h = elim (Bool-cases (b == b'\n')) [
  | inl newline ↦
      let zero_th : 0 ≡ n = some-injective (rw newline at h) in
      ([], rw (← zero_th, (==_iff b b'\n').0 newline) refl, rw (← zero_th) (omega arith), refl)
  | inr other ↦ elim (Option-cases (find_newline s)) [
    | inl e ↦ elim (none-some (rw (other, e) at h)) [ ]
    | inr (m, e) ↦
        let next : suc m ≡ n = some-injective (rw (other, e) at h) in
        let (front, f, l, c) = find_newline_lem s m e in
        (b ∷ front, rw (← next) (ap (λ x. b ∷ x) f), omega arith, ground (arith, c))
  ]
]

no_newline : (s : Bytes) → find_newline s ≡ none → contains s b'\n' ≡ false
no_newline [] h = refl
no_newline (b ∷ s) h = elim (Bool-cases (b == b'\n')) [
  | inl e ↦ absurd (none-some (sym (rw e at h)))
  | inr e ↦ elim (Option-cases (find_newline s)) [
    | inl f ↦ ground (arith, no_newline s f)
    | inr (m, f) ↦ absurd (none-some (sym (rw (e, f) at h)))
  ]
]

abbrev pub all_ascii : Bytes → Bool
all_ascii [] = true
all_ascii (b ∷ s) = ltb b 128 && all_ascii s

not_continuation : (b : ℕ) → ltb b 128 ≡ true → not (leb 128 b && ltb b 192) ≡ true
not_continuation b h = ground arith

skip-ascii : (n : ℕ) (s : Bytes) → all_ascii s ≡ true → is_boundary (skip n s) ≡ true
skip-ascii zero [] h = refl
skip-ascii zero (b ∷ s) h = rw (not_continuation b (ground arith)) refl
skip-ascii (suc n) [] h = refl
skip-ascii (suc n) (b ∷ s) h = skip-ascii n s (ground arith)

slice_from-ascii :
    (n : ℕ) (s : Bytes) → all_ascii s ≡ true → n ≤ length s → slice_from n s ≡ some (skip n s)
slice_from-ascii n s h l =
    let inside : leb n (length s) ≡ true = ground arith in rw (inside, skip-ascii n s h) refl

sliced : (n : ℕ) (s t : Bytes) → slice_from n s ≡ some t → t ≡ skip n s
sliced n s t h = elim (Bool-cases (leb n (length s) && is_boundary (skip n s))) [
  | inl e ↦ some-injective (sym (rw e at h))
  | inr e ↦ elim (none-some (rw e at h)) [ ]
]

drained-Kept :
    (s : Bytes) (d : ℕ) (t : Bytes)
    → length s ≡ d + limit
    → 0 < d
    → drained d s (find_newline (skip d s)) ≡ some t
    → Kept s t
drained-Kept s d t l o h =
    let (front, f) = skip-append d s in
    let size : length (skip d s) ≡ limit = length-skip d s ∙ omega arith in
    elim (Option-cases (find_newline (skip d s))) [
      | inl e ↦
          let q = sliced d s t (rw e at h) in
          subst (Kept s) (sym q)
            (last_bytes front (skip d s) (omega arith) f size (no_newline (skip d s) e))
      | inr (n, e) ↦
          let q = sliced (d + n + 1) s t (rw e at h) in
          let (line, g, small, c) = find_newline_lem (skip d s) n e in
          let p = ap (λ x. skip x s) (next_line d n) ∙ skip-skip d (suc n) s in
          subst (Kept s) (sym (q ∙ p)) (
            behind_line front line (skip (suc n) (skip d s)) (omega arith)
              (f ∙ ap (λ x. front ++ x) g) (ap length (sym g) ∙ size) c)
    ]
  where
    next_line : (a b : ℕ) → a + b + 1 ≡ a + suc b
    next_line a b = omega arith

Kept-length : (s t : Bytes) → Kept s t → length t ≤ limit
Kept-length s _ (whole h) = h
Kept-length s _ (behind_line front line t o e l c) = omega (arith, length-append line (b'\n' ∷ t))
Kept-length s _ (last_bytes front t o e l n) = omega arith

-- A text that is truncated without a panic is what `Kept` says, and is then no longer than the limit.
pub truncate-Kept : (s t : Bytes) → truncate s ≡ some t → Kept s t × (length t ≤ limit)
unfolding truncate
truncate-Kept s t h =
    let k = truncated (Bool-cases (ltb limit (length s))) in (k, Kept-length s t k)
  where
    truncated : (ltb limit (length s) ≡ true) ⊎ (ltb limit (length s) ≡ false) → Kept s t
    truncated (inr small) = subst (Kept s) (some-injective (rw small at h)) (whole (ground arith))
    truncated (inl over) =
        let d = length s - limit in
        elim (Option-cases (slice_from d s)) [
          | inl e ↦ elim (none-some (rw (over, e) at h)) [ ]
          | inr (rest, e) ↦ drained-Kept s d t (ground arith) (ground arith) (
              subst (λ x. drained d s (find_newline x) ≡ some t) (sliced d s rest e)
                (rw (over, e) at h))
        ]

drained-ascii :
    (d : ℕ) (s : Bytes)
    → all_ascii s ≡ true
    → d ≤ length s
    → (t : Bytes) × (drained d s (find_newline (skip d s)) ≡ some t)
drained-ascii d s h l = elim (Option-cases (find_newline (skip d s))) [
  | inl e ↦ rw e (skip d s, slice_from-ascii d s h l)
  | inr (n, e) ↦
      let (line, g, small, c) = find_newline_lem (skip d s) n e in
      rw e (skip (d + n + 1) s, slice_from-ascii (d + n + 1) s h (omega (arith, length-skip d s)))
]

-- Of an ASCII text, whatever its length, the truncation does not panic: no slice starts beyond the end
-- of the text or inside of a character.
pub truncate-ascii : (s : Bytes) → all_ascii s ≡ true → (t : Bytes) × (truncate s ≡ some t)
unfolding truncate
truncate-ascii s h = elim (Bool-cases (ltb limit (length s))) [
  | inr small ↦ rw small (s, refl)
  | inl over ↦
      let d = length s - limit in
      rw (over, slice_from-ascii d s h (omega arith)) (drained-ascii d s h (omega arith))
]

abbrev pub text_of : Logs → Bytes
text_of l = or_empty l.window ++ or_empty l.pending

kept-some :
    (f : Bytes → Logs) (o : Option Bytes) (l : Logs)
    → kept f o ≡ some l
    → (t : Bytes) × (o ≡ some t) × (f t ≡ l)
kept-some f none l h = elim (none-some h) [ ]
kept-some f (some t) l h = (t, refl, some-injective h)

logged :
    (window pending : Option Bytes) (msg : Bytes) (l : Logs)
    → log_to window msg pending ≡ some l
    → Kept (or_empty window ++ or_empty pending ++ msg) (text_of l) × (length (text_of l) ≤ limit)
logged none pending msg l h =
    let (t, e, same) = kept-some _ (truncate (or_empty pending ++ msg)) l h in
    subst (λ x. Kept (or_empty pending ++ msg) (text_of x) × (length (text_of x) ≤ limit)) same
      (truncate-Kept (or_empty pending ++ msg) t e)
logged (some text) pending msg l h =
    let (t, e, same) = kept-some _ (truncate (text ++ or_empty pending ++ msg)) l h in
    subst (λ x. Kept (text ++ or_empty pending ++ msg) (text_of x) × (length (text_of x) ≤ limit))
      same (rw (append-nil t) (truncate-Kept (text ++ or_empty pending ++ msg) t e))

-- Where `log` does not panic, the text that it leaves, in the window or pending, is kept of what was
-- in the window, what was pending and the message, in this order: all of it where that is at most 4000
-- bytes long, and else, of its last 4000 bytes, what stands behind their first newline, or all of them
-- where they hold none. It is at most 4000 bytes long.
pub log-Kept :
    (msg : Bytes) (l l' : Logs)
    → log msg l ≡ some l'
    → Kept (text_of l ++ msg) (text_of l') × (length (text_of l') ≤ limit)
unfolding log
log-Kept msg l l' h = logged l.window l.pending msg l' h
