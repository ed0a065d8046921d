-- ===== src/Klog/Format.antt =====
-- core/klog.cpp: `vprintf`, without `%f`, and the text that a format stands for.
use jkos.Base.{
  ℕ, ◌+◌, ◌-◌, ◌/◌, ◌%◌, ◌^◌, true, false, Option, none, some, List, [], ◌∷◌, if◌then◌else◌, ltb,
  ◌>>=◌, drop, length,
}
use jkos.Base.Int.{ℤ, pos, negsuc}
use jkos.Klog.{Screen, putc, puts, u2s, is_code}

-- An argument of the call, as `va_arg` reads it; a string may be null.
pub data Arg : Type 0 where
  text : Option (List ℤ) → Arg
  int : ℤ → Arg
  unsigned : ℕ → Arg
  pointer : ℕ → Arg

-- Where `buf` points: nowhere yet, to a place of the static `buf_mem`, or to a string elsewhere.
pub data Buf : Type 0 where
  unset : Buf
  to_buf_mem : ℕ → Buf
  to_string : List ℤ → Buf

pub record Printer : Type 0 where
  pub buf : Buf
  pub buf_mem : List ℤ
  pub args : List Arg
  pub screen : Screen

-- The cases of the `switch`.
pub data Conversion : Type 0 where
  as_text as_hex as_int as_unsigned as_char as_percent as_float as_pointer unknown : Conversion

abbrev pub conversion : ℤ → Conversion
conversion c =
    if is_code 115 c
    then as_text
    else if is_code 120 c
    then as_hex
    else if is_code 100 c
    then as_int
    else if is_code 117 c
    then as_unsigned
    else if is_code 99 c
    then as_char
    else if is_code 37 c
    then as_percent
    else if is_code 102 c
    then as_float
    else if is_code 112 c
    then as_pointer
    else unknown

abbrev pub codes : List ℕ → List ℤ
codes [] = []
codes (n ∷ ns) = pos n ∷ codes ns

-- "(null)" and "(%?)"
abbrev pub null_text : List ℤ
null_text = codes (40 ∷ 110 ∷ 117 ∷ 108 ∷ 108 ∷ 41 ∷ [])

abbrev pub unknown_text : List ℤ
unknown_text = codes (40 ∷ 37 ∷ 63 ∷ 41 ∷ [])

-- `(char)` of an `int`, and the string of one character, which is empty for 0.
abbrev pub to_char : ℤ → ℤ
to_char (pos n) = if ltb (n % 256) 128 then pos (n % 256) else negsuc (255 - n % 256)
to_char (negsuc n) = if ltb (n % 256) 128 then negsuc (n % 256) else pos (255 - n % 256)

abbrev pub char_text : ℤ → List ℤ
char_text c = if is_code 0 c then [] else c ∷ []

abbrev pub upper_digit : ℕ → ℕ
upper_digit d = if ltb d 10 then 48 + d else 65 + d - 10

-- "#0x" and eight digits.
abbrev pub pointer_text : ℕ → List ℤ
pointer_text val = codes (
    35
    ∷ 48
    ∷ 120
    ∷ upper_digit (val / 2 ^ 28 % 16)
    ∷ upper_digit (val / 2 ^ 24 % 16)
    ∷ upper_digit (val / 2 ^ 20 % 16)
    ∷ upper_digit (val / 2 ^ 16 % 16)
    ∷ upper_digit (val / 2 ^ 12 % 16)
    ∷ upper_digit (val / 2 ^ 8 % 16)
    ∷ upper_digit (val / 2 ^ 4 % 16)
    ∷ upper_digit (val % 16)
    ∷ [])

abbrev pub in_buf_mem : List ℤ → List Arg → Printer → Printer
in_buf_mem t args p = record p { buf = to_buf_mem 0; buf_mem = t; args = args }

abbrev pub elsewhere : List ℤ → List Arg → Printer → Printer
elsewhere t args p = record p { buf = to_string t; args = args }

-- A case of the `switch`. `none` is an argument that is missing or of another type, or `%f`.
unfoldable pub convert : Conversion → List Arg → Printer → Option Printer
convert as_text (text none ∷ args) p = some (in_buf_mem null_text args p)
convert as_text (text (some t) ∷ args) p = some (elsewhere t args p)
convert as_hex (unsigned n ∷ args) p = some (elsewhere (codes (u2s n 16)) args p)
convert as_int (int (pos n) ∷ args) p = some (elsewhere (codes (u2s n 10)) args p)
convert as_int (int (negsuc n) ∷ args) p =
    some (elsewhere (codes (u2s (n + 1) 10)) args (record p { screen = putc (pos 45) p.screen }))
convert as_unsigned (unsigned n ∷ args) p = some (elsewhere (codes (u2s n 10)) args p)
convert as_char (int c ∷ args) p = some (in_buf_mem (char_text (to_char c)) args p)
convert as_percent args p = some (in_buf_mem (pos 37 ∷ []) args p)
convert as_pointer (pointer a ∷ args) p = some (in_buf_mem (pointer_text a) args p)
convert unknown args p = some (record p { buf_mem = unknown_text })
convert c args p = none

-- The string at `buf`; `none` stands for a pointer that was never set.
abbrev pub pointed : Printer → Option (List ℤ)
pointed p = elim p.buf [
  | unset ↦ none
  | to_buf_mem n ↦ some (drop n p.buf_mem)
  | to_string t ↦ some t
]

-- Where it points behind the text, at the terminating 0.
abbrev pub advanced : List ℤ → Buf → Buf
advanced t unset = unset
advanced t (to_buf_mem n) = to_buf_mem (n + length t)
advanced t (to_string u) = to_string []

-- `while (*buf) putc(*(buf ++))`
unfoldable pub put_buf : Printer → Option Printer
put_buf p = pointed p >>= λ t. some (record p { buf = advanced t p.buf; screen = puts t p.screen })

-- The loop of `vprintf`; `none` is also a `%` at the end, from where it reads behind the format.
unfoldable pub vprintf : List ℤ → Printer → Option Printer
unfolding convert put_buf
vprintf [] p = some p
vprintf (c ∷ []) p = if is_code 37 c then none else some (record p { screen = putc c p.screen })
vprintf (c ∷ k ∷ fmt) p = elim (is_code 37 c) [
  | true ↦ convert (conversion k) p.args p >>= λ p1. put_buf p1 >>= λ p2. vprintf fmt p2
  | false ↦ vprintf (k ∷ fmt) (record p { screen = putc c p.screen })
]
