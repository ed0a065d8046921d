-- ===== src/Initrd/Printf.antt =====
-- initrd.cpp: `vprintf` over the system call prints what `vprintf` of the kernel prints.
use jkos.Base.{
  Bool, true, false, ◌&&◌, if◌then◌else◌, ℕ, ◌+◌, ◌≡◌, refl, inl, inr, Bool-cases, Option, none,
  some, List, [], ◌∷◌, ◌==◌, arith,
}
use jkos.Base.Int.{ℤ, pos, negsuc}
use jkos.Klog
use jkos.Klog.{Screen, puts, is_code}
use jkos.Klog.Format
use jkos.Klog.Format.{
  Arg, text, int, unsigned, pointer, Buf, unset, to_buf_mem, to_string, Conversion, as_text, as_hex,
  as_int, as_unsigned, as_char, as_percent, as_float, as_pointer, unknown, conversion, codes,
  char_text,
}
use jkos.Initrd.{Printer, putc, convert, put_buf, vprintf}
use jkos.Initrd.Digits.{u2s-Klog}

-- The state of a printer in the kernel with the same `buf_mem`, arguments and screen.
abbrev pub in_kernel : Buf → Printer Screen → Format.Printer
in_kernel buf p = record { buf = buf; buf_mem = p.buf_mem; args = p.args; screen = p.out }

-- What `vprintf` leaves for the next call: `buf_mem`, the other arguments and the screen.
abbrev pub left : Option (Printer Screen) → Option (List ℤ × List Arg × Screen)
left none = none
left (some p) = some (p.buf_mem, p.args, p.out)

abbrev pub left_in_kernel : Option Format.Printer → Option (List ℤ × List Arg × Screen)
left_in_kernel none = none
left_in_kernel (some p) = some (p.buf_mem, p.args, p.screen)

abbrev pub is_known : Conversion → Bool
is_known as_float = false
is_known unknown = false
is_known c = true

-- Each `%` of the format stands before a letter of a conversion, which is not `f`.
abbrev pub all_known : List ℤ → Bool
all_known [] = true
all_known (c ∷ []) = true
all_known (c ∷ k ∷ fmt) =
    let behind = all_known fmt in
    let rest = all_known (k ∷ fmt) in
    if is_code 37 c then is_known (conversion k) && behind else rest

-- A string of one character is put as the character is; the character 0 is not printed.
putc-Klog : (ch : ℤ) (s : Screen) → putc puts ch s ≡ Klog.putc ch s
unfolding puts Klog.putc
putc-Klog (pos c) s = elim (Bool-cases (c == 0)) [
  | inl e ↦ let z : c ≡ 0 = ground (arith, e) in rw z refl
  | inr e ↦ rw e refl
]
putc-Klog (negsuc c) s = refl

module _ (ret : ℕ → ℕ) where
  -- A known conversion sets `buf` alike in both, whatever it was.
  data Converts (call : Option (Printer Screen)) (call' : Option Format.Printer) : Type 0 where
    stops : call ≡ none → call' ≡ none → Converts call call'
    goes :
        (p : Printer Screen)
        → call ≡ some p
        → call' ≡ some (in_kernel p.buf p)
        → Converts call call'

  convert-Klog :
      (c : Conversion) (args : List Arg) (p : Printer Screen) (buf : Buf)
      → is_known c ≡ true
      → Converts (convert puts ret c args p) (Format.convert c args (in_kernel buf p))
  unfolding convert Format.convert
  convert-Klog as_text (text none ∷ args) p buf h = goes _ refl refl
  convert-Klog as_text (text (some t) ∷ args) p buf h = goes _ refl refl
  convert-Klog as_hex (unsigned n ∷ args) p buf h = goes _ refl (rw (u2s-Klog n 16 ret) refl)
  convert-Klog as_int (int (pos n) ∷ args) p buf h = goes _ refl (rw (u2s-Klog n 10 ret) refl)
  convert-Klog as_int (int (negsuc n) ∷ args) p buf h =
      goes _ refl (rw (u2s-Klog (n + 1) 10 ret, putc-Klog (pos 45) p.out) refl)
  convert-Klog as_unsigned (unsigned n ∷ args) p buf h = goes _ refl (rw (u2s-Klog n 10 ret) refl)
  convert-Klog as_char (int c ∷ args) p buf h = goes _ refl refl
  convert-Klog as_percent args p buf h = goes _ refl refl
  convert-Klog as_pointer (pointer a ∷ args) p buf h = goes _ refl refl
  convert-Klog unknown args p buf h = ground (arith, h)
  convert-Klog c args p buf h = stops refl refl

  -- Both print the same text; the kernel leaves `buf` behind it.
  data Puts (call : Option (Printer Screen)) (call' : Option Format.Printer) : Type 0 where
    unset_buf : call ≡ none → call' ≡ none → Puts call call'
    printed :
        (p : Printer Screen) (buf : Buf)
        → call ≡ some p
        → call' ≡ some (in_kernel buf p)
        → Puts call call'

  put_buf-Klog :
      (p : Printer Screen) → Puts (put_buf puts ret p) (Format.put_buf (in_kernel p.buf p))
  unfolding put_buf Format.put_buf
  put_buf-Klog p = go p.buf p.buf_mem p.args p.out
    where
      go :
          (buf : Buf) (mem : List ℤ) (args : List Arg) (s : Screen)
          → let q : Printer Screen = record { buf = buf; buf_mem = mem; args = args; out = s } in
            Puts (put_buf puts ret q) (Format.put_buf (in_kernel buf q))
      go unset mem args s = unset_buf refl refl
      go (to_buf_mem n) mem args s = printed _ _ refl refl
      go (to_string t) mem args s = printed _ _ refl refl

  -- From the same `buf_mem` and the same screen, with the system call for `puts` of the kernel, `vprintf` of
  -- the program ends as `vprintf` of the kernel does, for every format in which each `%` but one at the
  -- end stands before the letter of a conversion that is not `f`, and all arguments: both fail, or both
  -- leave the same `buf_mem`, arguments and screen.
  pub vprintf-Klog :
      (fmt : List ℤ) (p : Printer Screen) (buf : Buf)
      → all_known fmt ≡ true
      → left (vprintf puts ret fmt p) ≡ left_in_kernel (Format.vprintf fmt (in_kernel buf p))
  unfolding vprintf Format.vprintf
  vprintf-Klog [] p buf h = refl
  vprintf-Klog (c ∷ []) p buf h = elim (Bool-cases (is_code 37 c)) [
    | inl e ↦ rw e refl
    | inr e ↦ rw (e, putc-Klog c p.out) refl
  ]
  vprintf-Klog (c ∷ k ∷ fmt) p buf h = elim (Bool-cases (is_code 37 c)) [
    | inr e ↦
        rw (vprintf, Format.vprintf, e, putc-Klog c p.out)
          (vprintf-Klog (k ∷ fmt) (record p { out = Klog.putc c p.out }) buf (ground (arith, h, e)))
    | inl e ↦ elim (convert-Klog (conversion k) p.args p buf (ground (arith, h, e))) [
      | stops a b ↦ rw (vprintf, Format.vprintf, e, a, b) refl
      | goes p1 a b ↦ elim (put_buf-Klog p1) [
        | unset_buf d f ↦ rw (vprintf, Format.vprintf, e, a, b) (rw (d, f) refl)
        | printed p2 buf' d f ↦
            rw (vprintf, Format.vprintf, e, a, b)
              (rw (d, f) (vprintf-Klog fmt p2 buf' (ground (arith, h, e))))
      ]
    ]
  ]
