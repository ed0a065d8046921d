-- ===== src/Klog/Text.antt =====
-- core/klog.cpp: the texts of `%c`, `%p` and of a null string, read apart from the code.
use jkos.Base.{
  ℕ, zero, suc, ◌+◌, ◌-◌, ◌*◌, ◌/◌, ◌^◌, ◌%◌, ◌<◌, ◌≡◌, ◌≢◌, refl, ap, ◌∙◌, false, List, [], ◌∷◌,
  ◌++◌, ◌==◌, if◌then◌else◌, arith,
}
use jkos.Base.Below.{all_below-at, same_number}
use jkos.Base.Int.{ℤ, pos, negsuc, pos_part, neg_part, ◌≤ℤ◌}
use native.Mathlib.Decide.{ℕ_discrete}
use jkos.Klog.Format.{to_char, char_text, upper_digit, pointer_text}

-- "(null)"
abbrev pub null_chars : List ℤ
null_chars = pos 40 ∷ pos 110 ∷ pos 117 ∷ pos 108 ∷ pos 108 ∷ pos 41 ∷ []

-- "0123456789ABCDEF"
abbrev letters : List ℕ
letters = 48 ∷ 49 ∷ 50 ∷ 51 ∷ 52 ∷ 53 ∷ 54 ∷ 55 ∷ 56 ∷ 57 ∷ 65 ∷ 66 ∷ 67 ∷ 68 ∷ 69 ∷ 70 ∷ []

abbrev letter : List ℕ → ℕ → ℕ
letter [] d = 0
letter (l ∷ ls) d = if d == 0 then l else letter ls (d - 1)

-- The last `n` digits to the base 16.
abbrev pub hex_digits : ℕ → ℕ → List ℤ
hex_digits zero a = []
hex_digits (suc n) a = hex_digits n (a / 16) ++ (pos (letter letters (a % 16)) ∷ [])

-- `r` is the signed character that an `int` is cut to: it differs by a multiple of 256.
pub record IsChar (c r : ℤ) : Type 0 where
  pub low : negsuc 127 ≤ℤ r
  pub high : r ≤ℤ pos 127
  pub up : ℕ
  pub down : ℕ
  pub same : pos_part c + neg_part r + 256 * up ≡ pos_part r + neg_part c + 256 * down

letter_lem : (d : ℕ) → d < 16 → upper_digit d ≡ letter letters d
letter_lem d h = same_number _ _ (all_below-at 16 (λ i. upper_digit i == letter letters i) d refl h)

digit_lem : (a b : ℕ) → a ≡ b → pos (upper_digit (a % 16)) ≡ pos (letter letters (b % 16))
digit_lem a b e = ap pos (letter_lem (a % 16) (omega arith) ∙ ap (λ x. letter letters (x % 16)) e)

to_char-IsChar : (c r : ℤ) → IsChar c r → to_char c ≡ r
to_char-IsChar (pos n) (pos m) i = ground (arith, i.low, i.high, i.same)
to_char-IsChar (pos n) (negsuc m) i = ground (arith, i.low, i.high, i.same)
to_char-IsChar (negsuc n) (pos m) i = ground (arith, i.low, i.high, i.same)
to_char-IsChar (negsuc n) (negsuc m) i = ground (arith, i.low, i.high, i.same)

one_char : (r : ℤ) → r ≢ pos 0 → char_text r ≡ r ∷ []
one_char (pos m) n = elim (ℕ_discrete m 0) [
  | yes z ↦ absurd (n (ap pos z))
  | no z ↦ let f : (m == 0) ≡ false = ground (arith, z) in rw f refl
]
one_char (negsuc m) n = refl

pub char_text-IsChar : (c r : ℤ) → IsChar c r → r ≢ pos 0 → char_text (to_char c) ≡ r ∷ []
char_text-IsChar c r i n = rw (to_char-IsChar c r i) (one_char r n)

pub char_text-silent : (c : ℤ) → IsChar c (pos 0) → char_text (to_char c) ≡ []
char_text-silent c i = rw (to_char-IsChar c (pos 0) i) refl

pub pointer_text-hex_digits : (a : ℕ) → pointer_text a ≡ pos 35 ∷ pos 48 ∷ pos 120 ∷ hex_digits 8 a
pointer_text-hex_digits a = cc (
  digit_lem (a / 2 ^ 28) (a / 16 / 16 / 16 / 16 / 16 / 16 / 16) (omega arith),
  digit_lem (a / 2 ^ 24) (a / 16 / 16 / 16 / 16 / 16 / 16) (omega arith),
  digit_lem (a / 2 ^ 20) (a / 16 / 16 / 16 / 16 / 16) (omega arith),
  digit_lem (a / 2 ^ 16) (a / 16 / 16 / 16 / 16) (omega arith),
  digit_lem (a / 2 ^ 12) (a / 16 / 16 / 16) (omega arith),
  digit_lem (a / 2 ^ 8) (a / 16 / 16) (omega arith),
  digit_lem (a / 2 ^ 4) (a / 16) (omega arith),
  digit_lem a a refl,
)
