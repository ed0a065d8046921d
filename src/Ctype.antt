-- ===== src/Ctype.antt =====
-- include/lib/ctype.h: the classes of characters. A character is an `int`.
pub mod Classes
mod Tests
use jkos.Base.{ℕ, Bool, not, ◌&&◌, ◌||◌, ◌==◌, if◌then◌else◌, true, false, ltb, leb}
use jkos.Base.Int.{ℤ, pos, negsuc, ltb_ℤ, ◌+ℤ◌, ◌-ℤ◌}

-- `c == n` and `low <= c && c <= high`
abbrev is_char : ℕ → ℤ → Bool
is_char n (pos c) = c == n
is_char n (negsuc c) = false

abbrev between : ℕ → ℕ → ℤ → Bool
between low high (pos c) = leb low c && leb c high
between low high (negsuc c) = false

abbrev pub is_ascii : ℤ → Bool
is_ascii = between 0 127

abbrev pub is_cntrl : ℤ → Bool
is_cntrl c = ltb_ℤ c (pos 32) || ltb_ℤ (pos 126) c

abbrev pub is_digit : ℤ → Bool
is_digit = between 48 57

abbrev pub is_graph : ℤ → Bool
is_graph c = ltb_ℤ (pos 32) c && not (ltb_ℤ (pos 126) c)

abbrev pub is_lower : ℤ → Bool
is_lower = between 97 122

abbrev pub is_print : ℤ → Bool
is_print = between 32 126

abbrev pub is_space : ℤ → Bool
is_space c =
    is_char 32 c || is_char 12 c || is_char 10 c || is_char 13 c || is_char 9 c || is_char 11 c

abbrev pub is_upper : ℤ → Bool
is_upper = between 65 90

abbrev pub is_xdigit : ℤ → Bool
is_xdigit c = is_digit c || between 65 70 c || between 97 102 c

abbrev pub is_alpha : ℤ → Bool
is_alpha c = is_lower c || is_upper c

abbrev pub is_alnum : ℤ → Bool
is_alnum c = is_alpha c || is_digit c

abbrev pub is_punct : ℤ → Bool
is_punct c = is_graph c && not (is_alnum c)

unfoldable pub to_upper : ℤ → ℤ
to_upper c = if is_lower c then c -ℤ pos 97 +ℤ pos 65 else c

unfoldable pub to_lower : ℤ → ℤ
to_lower c = if is_upper c then c -ℤ pos 65 +ℤ pos 97 else c
