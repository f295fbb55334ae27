-- ===== src/Text/Utf8.antt =====
-- UTF-8: `as_bytes`, and `core::str::from_utf8` with its checks on overlong forms, surrogates and
-- the largest code point.
use webuiboot.Base.{
  ℕ, zero, suc, ◌+◌, ◌-◌, ◌*◌, ◌/◌, ◌%◌, ◌≡◌, refl, Bool, true, ◌&&◌, ◌||◌, List, [], ◌∷◌, ◌++◌,
  arith, ltb, leb, if◌then◌else◌, Option, none, some, ◌==◌, ◌∙◌,
}
use webuiboot.Text.{Str}

abbrev pub Bytes : Type 0
Bytes = List ℕ

-- One `char` as bytes.
pub encode_char : ℕ → Bytes
encode_char c =
    if ltb c 0x80
    then c ∷ []
    else if ltb c 0x800
    then (0xc0 + c / 64) ∷ (0x80 + c % 64) ∷ []
    else if ltb c 0x10000
    then (0xe0 + c / 4096) ∷ (0x80 + c / 64 % 64) ∷ (0x80 + c % 64) ∷ []
    else (0xf0 + c / 262144) ∷ (0x80 + c / 4096 % 64) ∷ (0x80 + c / 64 % 64) ∷ (0x80 + c % 64) ∷ []

unfoldable pub as_bytes : Str → Bytes
unfolding encode_char
as_bytes [] = []
as_bytes (c ∷ s) = encode_char c ++ as_bytes s

-- Between two characters, or inside one: the bytes still to come behind the next, the range of the
-- next, and the bits read so far.
pub data Mode : Type 0 where
  start : Mode
  within : ℕ → ℕ → ℕ → ℕ → Mode

pub data Step : Type 0 where
  bad : Step
  on : Mode → Step
  emit : ℕ → Step

-- The first byte of a character.
pub first_byte : ℕ → Step
first_byte b =
    if ltb b 0x80
    then emit b
    else if leb 0xc2 b && leb b 0xdf
    then on (within 0 0x80 0xbf (b - 0xc0))
    else if b == 0xe0
    then on (within 1 0xa0 0xbf 0)
    else if b == 0xed
    then on (within 1 0x80 0x9f 13)
    else if leb 0xe1 b && leb b 0xef
    then on (within 1 0x80 0xbf (b - 0xe0))
    else if b == 0xf0
    then on (within 2 0x90 0xbf 0)
    else if leb 0xf1 b && leb b 0xf3
    then on (within 2 0x80 0xbf (b - 0xf0))
    else if b == 0xf4
    then on (within 2 0x80 0x8f 4)
    else bad

-- A byte inside a character.
pub next_byte : ℕ → ℕ → ℕ → ℕ → ℕ → Step
next_byte zero lo hi acc b = if leb lo b && leb b hi then emit (acc * 64 + (b - 0x80)) else bad
next_byte (suc left) lo hi acc b =
    if leb lo b && leb b hi then on (within left 0x80 0xbf (acc * 64 + (b - 0x80))) else bad

pub step : Mode → ℕ → Step
unfolding first_byte next_byte
step start b = first_byte b
step (within left lo hi acc) b = next_byte left lo hi acc b

abbrev pub cons_to : ℕ → Option Str → Option Str
cons_to c none = none
cons_to c (some s) = some (c ∷ s)

pub decode : Mode → Bytes → Option Str
unfolding step
decode start [] = some []
decode (within left lo hi acc) [] = none
decode m (b ∷ bs) = elim (step m b) [
  | bad ↦ none
  | on m' ↦ decode m' bs
  | emit c ↦ cons_to c (decode start bs)
]

unfoldable pub from_utf8 : Bytes → Option Str
unfolding decode
from_utf8 = decode start

-- A Unicode scalar value, which is what a `char` holds.
abbrev pub is_scalar : ℕ → Bool
is_scalar c = ltb c 0xd800 || (leb 0xe000 c && ltb c 0x110000)

abbrev pub all_scalar : Str → Bool
all_scalar [] = true
all_scalar (c ∷ s) = is_scalar c && all_scalar s

decode-encode_char :
    (c : ℕ) (rest : Bytes)
    → is_scalar c ≡ true
    → decode start (encode_char c ++ rest) ≡ cons_to c (decode start rest)
unfolding decode encode_char
decode-encode_char c rest h = ground arith

-- Whatever text of scalar values is written as bytes is read back.
pub from_utf8-as_bytes : (s : Str) → all_scalar s ≡ true → from_utf8 (as_bytes s) ≡ some s
unfolding from_utf8 as_bytes
from_utf8-as_bytes [] h = refl
from_utf8-as_bytes (c ∷ s) h =
    decode-encode_char c (as_bytes s) (ground arith) ∙ rw (from_utf8-as_bytes s (ground arith))
