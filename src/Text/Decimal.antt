-- ===== src/Text/Decimal.antt =====
-- Formatting of a number by `{}`, and its inverse.
use webuiboot.Base.{
  ℕ, zero, suc, ◌+◌, ◌-◌, ◌*◌, ◌/◌, ◌%◌, ◌<◌, ◌≤◌, ◌≡◌, refl, Bool, true, ◌&&◌, [], ◌∷◌, ◌++◌,
  arith, ltb, leb, if◌then◌else◌, Bool-cases, inl, inr, ◌∙◌,
}
use webuiboot.Text.{Str}

-- One digit more than the quotient by ten has; the fuel is more than the number.
decimal_from : ℕ → ℕ → Str
decimal_from zero n = []
decimal_from (suc fuel) n =
    let front = decimal_from fuel (n / 10) in
    if ltb n 10 then (48 + n) ∷ [] else front ++ (48 + n % 10) ∷ []

unfoldable pub decimal : ℕ → Str
unfolding decimal_from
decimal n = decimal_from (suc n) n

-- The value of a text of digits, read from the left.
pub read_decimal : ℕ → Str → ℕ
read_decimal acc [] = acc
read_decimal acc (c ∷ s) = read_decimal (acc * 10 + (c - 48)) s

abbrev pub all_digits : Str → Bool
all_digits [] = true
all_digits (c ∷ s) = leb 48 c && leb c 57 && all_digits s

all_digits-concat :
    (s : Str) (c : ℕ) → all_digits s ≡ true → 48 ≤ c → c ≤ 57 → all_digits (s ++ c ∷ []) ≡ true
all_digits-concat [] c h lo hi = ground arith
all_digits-concat (d ∷ s) c h lo hi = ground (arith, all_digits-concat s c)

read_decimal-concat :
    (acc : ℕ) (s : Str) (c : ℕ)
    → read_decimal acc (s ++ c ∷ []) ≡ read_decimal acc s * 10 + (c - 48)
unfolding read_decimal
read_decimal-concat acc [] c = refl
read_decimal-concat acc (d ∷ s) c = read_decimal-concat (acc * 10 + (d - 48)) s c

decimal_from_lem :
    (fuel n : ℕ)
    → n < fuel
    → (read_decimal 0 (decimal_from fuel n) ≡ n) × (all_digits (decimal_from fuel n) ≡ true)
unfolding decimal_from
decimal_from_lem zero n h = elim h [ ]
decimal_from_lem (suc fuel) n h = elim (Bool-cases (ltb n 10)) [
  | inl small ↦ rw small (unfold read_decimal in ground arith, ground arith)
  | inr large ↦
      let (value, digits) = decimal_from_lem fuel (n / 10) (ground arith) in
      rw large (
        read_decimal-concat 0 (decimal_from fuel (n / 10)) (48 + n % 10) ∙ ground (arith, value),
        all_digits-concat (decimal_from fuel (n / 10)) (48 + n % 10) digits (omega arith)
            (omega arith),
      )
]

-- A formatted number is read back, and is made of digits.
pub read_decimal-decimal :
    (n : ℕ) → (read_decimal 0 (decimal n) ≡ n) × (all_digits (decimal n) ≡ true)
unfolding decimal
read_decimal-decimal n = decimal_from_lem (suc n) n (omega arith)
