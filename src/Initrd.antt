-- ===== src/Initrd.antt =====
-- initrd.cpp: the program that runs in user mode, with its own `printf` over the system call `sys_puts`.
-- The system call is the parameter `sys_puts`, on the rest of the state; the source text of the cases of
-- `vprintf` is that of the kernel, so the types of Klog/Format serve here, too.
pub mod Digits
pub mod Printf
mod Tests
use jkos.Base.{
  update, ℕ, zero, suc, ◌+◌, ◌-◌, ◌/◌, ◌%◌, true, false, Option, none, some, List, [], ◌∷◌, ◌==◌,
  if◌then◌else◌, ◌>>=◌, drop,
}
use jkos.Base.Int.{ℤ, pos, negsuc}
use jkos.Base.Slice.{slice}
use jkos.Klog.{digit, is_code}
use jkos.Klog.Format.{
  Arg, text, int, unsigned, pointer, Buf, unset, to_buf_mem, to_string, Conversion, as_text, as_hex,
  as_int, as_unsigned, as_char, as_percent, as_pointer, unknown, conversion, codes, null_text,
  unknown_text, to_char, char_text, pointer_text,
}

-- The first loop of `u2s`: the digits, the last one first, and how many they are. `ret` is an array.
unfoldable pub put_digits : ℕ → ℕ → ℕ → ℕ → (ℕ → ℕ) → ℕ × (ℕ → ℕ)
put_digits zero n base len ret = (len, ret)
put_digits (suc fuel) n base len ret =
    let rest = put_digits fuel (n / base) base (len + 1) (update ret len (digit (n % base))) in
    if n == 0 then (len, ret) else rest

-- The second loop, with the places below `i` left.
unfoldable pub swap_digits : ℕ → ℕ → (ℕ → ℕ) → ℕ → ℕ
swap_digits zero len ret = ret
swap_digits (suc i) len ret =
    swap_digits i len (update (update ret i (ret (len - 1 - i))) (len - 1 - i) (ret i))

-- `u2s`; the string ends behind the digits, none of which is 0.
unfoldable pub u2s : ℕ → ℕ → (ℕ → ℕ) → List ℕ
unfolding put_digits swap_digits
u2s n base ret =
    let (len, digits) = put_digits n n base 0 ret in
    if n == 0 then 48 ∷ [] else slice (swap_digits (len / 2) len digits) 0 len

-- The statics of `vprintf`, its arguments, and the state that the system call changes; `ret` is the
-- buffer of `u2s`.
pub record Printer (W : Type 0) : Type 0 where
  pub buf : Buf
  pub buf_mem : List ℤ
  pub args : List Arg
  pub out : W

-- `putc`: a string of one character, which is empty for 0.
abbrev pub putc : {W : Type 0} → (List ℤ → W → W) → ℤ → W → W
putc sys_puts ch w = sys_puts (char_text ch) w

module _ {W : Type 0} (sys_puts : List ℤ → W → W) (ret : ℕ → ℕ) where
  abbrev in_buf_mem : List ℤ → List Arg → Printer W → Printer W
  in_buf_mem t args p = record p { buf = to_buf_mem 0; buf_mem = t; args = args }

  abbrev elsewhere : List ℤ → List Arg → Printer W → Printer W
  elsewhere t args p = record p { buf = to_string t; args = args }

  -- A case of the `switch`. `none` is an argument that is missing or of another type, or `%f`.
  unfoldable pub convert : Conversion → List Arg → Printer W → Option (Printer W)
  unfolding u2s
  convert as_text (text none ∷ args) p = some (in_buf_mem null_text args p)
  convert as_text (text (some t) ∷ args) p = some (elsewhere t args p)
  convert as_hex (unsigned n ∷ args) p = some (elsewhere (codes (u2s n 16 ret)) args p)
  convert as_int (int (pos n) ∷ args) p = some (elsewhere (codes (u2s n 10 ret)) args p)
  convert as_int (int (negsuc n) ∷ args) p = some (
      elsewhere (codes (u2s (n + 1) 10 ret)) args (record p { out = putc sys_puts (pos 45) p.out }))
  convert as_unsigned (unsigned n ∷ args) p = some (elsewhere (codes (u2s n 10 ret)) args p)
  convert as_char (int c ∷ args) p = some (in_buf_mem (char_text (to_char c)) args p)
  convert as_percent args p = some (in_buf_mem (pos 37 ∷ []) args p)
  convert as_pointer (pointer a ∷ args) p = some (in_buf_mem (pointer_text a) args p)
  convert unknown args p = some (record p { buf_mem = unknown_text })
  convert c args p = none

  -- `sys_puts(buf)`, which leaves `buf` where it is; `none` stands for a pointer that was never set.
  unfoldable pub put_buf : Printer W → Option (Printer W)
  put_buf p = elim p.buf [
    | unset ↦ none
    | to_buf_mem n ↦ some (record p { out = sys_puts (drop n p.buf_mem) p.out })
    | to_string t ↦ some (record p { out = sys_puts t p.out })
  ]

  -- The loop of `vprintf`; `none` is also a `%` at the end, from where it reads behind the format.
  unfoldable pub vprintf : List ℤ → Printer W → Option (Printer W)
  unfolding convert put_buf
  vprintf [] p = some p
  vprintf (c ∷ []) p =
      if is_code 37 c then none else some (record p { out = putc sys_puts c p.out })
  vprintf (c ∷ k ∷ fmt) p = elim (is_code 37 c) [
    | true ↦ convert (conversion k) p.args p >>= λ p1. put_buf p1 >>= λ p2. vprintf fmt p2
    | false ↦ vprintf (k ∷ fmt) (record p { out = putc sys_puts c p.out })
  ]
