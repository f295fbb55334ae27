-- ===== src/Text/Words.antt =====
-- Laws of `split_whitespace`, `join` and `trim` on lines made of words.
use webuiboot.Base.{
  ℕ, ◌≡◌, refl, Bool, true, false, not, ◌&&◌, List, [], ◌∷◌, ◌++◌, arith, is_empty,
}
use webuiboot.Text.{Str, is_whitespace, trim_start, trim_end, trim, split_whitespace, join}

abbrev pub no_blank : Str → Bool
no_blank [] = true
no_blank (c ∷ s) = not (is_whitespace c) && no_blank s

abbrev pub is_word : Str → Bool
is_word s = not (is_empty s) && no_blank s

abbrev pub all_words : List Str → Bool
all_words [] = true
all_words (w ∷ ws) = is_word w && all_words ws

split_whitespace-word : (w : Str) → is_word w ≡ true → split_whitespace w ≡ w ∷ []
unfolding split_whitespace
split_whitespace-word [] h = cc
split_whitespace-word (c ∷ []) h = ground arith
split_whitespace-word (c ∷ d ∷ w) h = ground (arith, split_whitespace-word (d ∷ w))

split_whitespace-word-blank :
    (w rest : Str) (b : ℕ)
    → is_word w ≡ true
    → is_whitespace b ≡ true
    → split_whitespace (w ++ b ∷ rest) ≡ w ∷ split_whitespace rest
unfolding split_whitespace
split_whitespace-word-blank [] rest b h k = cc
split_whitespace-word-blank (c ∷ []) rest b h k = ground arith
split_whitespace-word-blank (c ∷ d ∷ w) rest b h k =
    ground (arith, split_whitespace-word-blank (d ∷ w) rest b)

abbrev pub space : Str
space = b' ' ∷ []

-- Words joined by spaces are split again.
pub split_whitespace-join :
    (ws : List Str) → all_words ws ≡ true → split_whitespace (join space ws) ≡ ws
unfolding join
split_whitespace-join [] h = unfold split_whitespace in refl
split_whitespace-join (w ∷ []) h = split_whitespace-word w (ground arith)
split_whitespace-join (w ∷ v ∷ ws) h = ground (
  arith,
  split_whitespace-word-blank w (join space (v ∷ ws)) b' ' (ground arith)
      (unfold is_whitespace in refl),
  split_whitespace-join (v ∷ ws),
)

trim_end-blankless : (s : Str) → no_blank s ≡ true → trim_end s ≡ s
unfolding trim_end
trim_end-blankless [] h = refl
trim_end-blankless (c ∷ s) h = ground (arith, trim_end-blankless s)

-- What follows is kept, so what stands before is kept.
trim_end-append : (s t : Str) → is_empty t ≡ false → trim_end t ≡ t → trim_end (s ++ t) ≡ s ++ t
unfolding trim_end
trim_end-append [] t n h = h
trim_end-append (c ∷ s) [] n h = cc
trim_end-append (c ∷ []) (d ∷ t) n h = ground arith
trim_end-append (c ∷ e ∷ s) (d ∷ t) n h = ground (arith, trim_end-append (e ∷ s) (d ∷ t))

is_empty-append : (s t : Str) → is_empty t ≡ false → is_empty (s ++ t) ≡ false
is_empty-append [] t h = h
is_empty-append (c ∷ s) t h = refl

pub is_empty-join :
    (w : Str) (ws : List Str) → all_words (w ∷ ws) ≡ true → is_empty (join space (w ∷ ws)) ≡ false
unfolding join
is_empty-join [] ws h = cc
is_empty-join (c ∷ w) [] h = refl
is_empty-join (c ∷ w) (v ∷ ws) h = refl

trim_end-join : (ws : List Str) → all_words ws ≡ true → trim_end (join space ws) ≡ join space ws
unfolding join
trim_end-join [] h = unfold trim_end in refl
trim_end-join (w ∷ []) h = trim_end-blankless w (ground arith)
trim_end-join (w ∷ v ∷ ws) h = trim_end-append w (b' ' ∷ join space (v ∷ ws)) refl (
    trim_end-append space (join space (v ∷ ws)) (is_empty-join v ws (ground arith))
      (trim_end-join (v ∷ ws) (ground arith)))

trim_start-join : (ws : List Str) → all_words ws ≡ true → trim_start (join space ws) ≡ join space ws
unfolding join trim_start
trim_start-join [] h = refl
trim_start-join ([] ∷ ws) h = cc
trim_start-join ((c ∷ w) ∷ []) h = ground arith
trim_start-join ((c ∷ w) ∷ v ∷ ws) h = ground arith

-- Words joined by spaces have nothing to trim.
pub trim-join : (ws : List Str) → all_words ws ≡ true → trim (join space ws) ≡ join space ws
unfolding trim
trim-join ws h = rw (trim_start-join ws h) (trim_end-join ws h)
