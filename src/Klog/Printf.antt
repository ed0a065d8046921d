-- ===== src/Klog/Printf.antt =====
-- core/klog.cpp: `vprintf` prints the text that its format stands for.
use jkos.Base.{ℕ, ◌+◌, ◌≡◌, ◌≢◌, false, Option, none, some, List, [], ◌∷◌, ◌++◌}
use jkos.Base.Int.{ℤ, pos, negsuc}
use jkos.Klog.{Screen, puts, u2s, is_code}
use jkos.Klog.Text.{hex_digits, null_chars, IsChar}
use jkos.Klog.Format.{Arg, text, int, unsigned, pointer, Buf, Printer, codes}

-- The text that a format stands for, with its arguments.
pub data Formats : List ℤ → List Arg → List ℤ → Type 0 where
  end : Formats [] [] []
  plain :
      {fmt : List ℤ} {args : List Arg} {t : List ℤ} (c : ℤ)
      → is_code 37 c ≡ false
      → Formats fmt args t
      → Formats (c ∷ fmt) args (c ∷ t)
  percent :
      {fmt : List ℤ} {args : List Arg} {t : List ℤ}
      → Formats fmt args t
      → Formats (pos 37 ∷ pos 37 ∷ fmt) args (pos 37 ∷ t)
  string :
      {fmt : List ℤ} {args : List Arg} {t : List ℤ} (u : List ℤ)
      → Formats fmt args t
      → Formats (pos 37 ∷ pos 115 ∷ fmt) (text (some u) ∷ args) (u ++ t)
  null :
      {fmt : List ℤ} {args : List Arg} {t : List ℤ}
      → Formats fmt args t
      → Formats (pos 37 ∷ pos 115 ∷ fmt) (text none ∷ args) (null_chars ++ t)
  hex :
      {fmt : List ℤ} {args : List Arg} {t : List ℤ} (n : ℕ)
      → Formats fmt args t
      → Formats (pos 37 ∷ pos 120 ∷ fmt) (unsigned n ∷ args) (codes (u2s n 16) ++ t)
  natural :
      {fmt : List ℤ} {args : List Arg} {t : List ℤ} (n : ℕ)
      → Formats fmt args t
      → Formats (pos 37 ∷ pos 117 ∷ fmt) (unsigned n ∷ args) (codes (u2s n 10) ++ t)
  positive :
      {fmt : List ℤ} {args : List Arg} {t : List ℤ} (n : ℕ)
      → Formats fmt args t
      → Formats (pos 37 ∷ pos 100 ∷ fmt) (int (pos n) ∷ args) (codes (u2s n 10) ++ t)
  negative :
      {fmt : List ℤ} {args : List Arg} {t : List ℤ} (n : ℕ)
      → Formats fmt args t
      → Formats
          (pos 37 ∷ pos 100 ∷ fmt)
          (int (negsuc n) ∷ args)
          (pos 45 ∷ (codes (u2s (n + 1) 10) ++ t))
  char :
      {fmt : List ℤ} {args : List Arg} {t : List ℤ} (c r : ℤ)
      → IsChar c r
      → r ≢ pos 0
      → Formats fmt args t
      → Formats (pos 37 ∷ pos 99 ∷ fmt) (int c ∷ args) (r ∷ t)
  silent :
      {fmt : List ℤ} {args : List Arg} {t : List ℤ} (c : ℤ)
      → IsChar c (pos 0)
      → Formats fmt args t
      → Formats (pos 37 ∷ pos 99 ∷ fmt) (int c ∷ args) t
  address :
      {fmt : List ℤ} {args : List Arg} {t : List ℤ} (a : ℕ)
      → Formats fmt args t
      → Formats
          (pos 37 ∷ pos 112 ∷ fmt)
          (pointer a ∷ args)
          (pos 35 ∷ pos 48 ∷ pos 120 ∷ (hex_digits 8 a ++ t))

-- The loop ends, and the screen is the one on which the text was put.
pub data Prints (t : List ℤ) (s : Screen) (call : Option Printer) : Type 0 where
  prints : (p : Printer) → call ≡ some p → p.screen ≡ puts t s → Prints t s call

abbrev printer : Buf → List ℤ → List Arg → Screen → Printer
printer buf mem args s = record { buf = buf; buf_mem = mem; args = args; screen = s }
