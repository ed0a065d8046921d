-- ===== src/Klog/Reach.antt =====
-- core/klog.cpp: the screens that any calls reach from `init`.
use jkos.Base.{
  ℕ, ◌/◌, ◌%◌, ◌≡◌, subst, false, Option, none, some, List, [], ◌∷◌, ◌==◌, ◌>>=◌, arith,
  Option-cases, Bool-cases, inl, inr,
}
use jkos.Base.Int.{ℤ, pos, negsuc}
use jkos.Klog.{Screen, push_color, pop_color, cls, puts, is_code}
use jkos.Klog.Cursor.{OnScreen, puts-OnScreen, putc-OnScreen}
use jkos.Klog.Format.{
  Printer, Arg, text, int, unsigned, pointer, unset, Conversion, as_text, as_hex, as_int,
  as_unsigned, as_char, as_percent, as_pointer, unknown, conversion, convert, pointed, put_buf,
  vprintf,
}
use jkos.Klog.Log.{printf, LogLevel, level_str, mode_format, mode_text, log, init}

-- A call that keeps the cursor on the screen whenever it returns.
abbrev Keeps : Option Printer → Type 0
Keeps none = Unit
Keeps (some p) = OnScreen p.screen

Keeps-bind :
    (x : Option Printer) (f : Printer → Option Printer)
    → Keeps x
    → ((p : Printer) → OnScreen p.screen → Keeps (f p))
    → Keeps (x >>= f)
Keeps-bind none f h g = tt
Keeps-bind (some p) f h g = g p h

Keeps-some : (x : Option Printer) (p : Printer) → x ≡ some p → Keeps x → OnScreen p.screen
Keeps-some x p e h = subst Keeps e h

convert-Keeps :
    (c : Conversion) (args : List Arg) (p : Printer) → OnScreen p.screen → Keeps (convert c args p)
unfolding convert
convert-Keeps as_text (text none ∷ args) p o = o
convert-Keeps as_text (text (some t) ∷ args) p o = o
convert-Keeps as_hex (unsigned n ∷ args) p o = o
convert-Keeps as_int (int (pos n) ∷ args) p o = o
convert-Keeps as_int (int (negsuc n) ∷ args) p o = putc-OnScreen (pos 45) p.screen o
convert-Keeps as_unsigned (unsigned n ∷ args) p o = o
convert-Keeps as_char (int c ∷ args) p o = o
convert-Keeps as_percent args p o = o
convert-Keeps as_pointer (pointer a ∷ args) p o = o
convert-Keeps unknown args p o = o
convert-Keeps c args p o = tt

put_buf-Keeps : (p : Printer) → OnScreen p.screen → Keeps (put_buf p)
unfolding put_buf
put_buf-Keeps p o = elim (Option-cases (pointed p)) [
  | inl e ↦ rw (put_buf, e) tt
  | inr r ↦ rw (put_buf, r.1) (puts-OnScreen (r.0) p.screen o)
]

vprintf-Keeps : (fmt : List ℤ) (p : Printer) → OnScreen p.screen → Keeps (vprintf fmt p)
unfolding vprintf
vprintf-Keeps [] p o = o
vprintf-Keeps (c ∷ []) p o = elim (Bool-cases (is_code 37 c)) [
  | inl e ↦ rw e tt
  | inr e ↦ rw e (putc-OnScreen c p.screen o)
]
vprintf-Keeps (c ∷ k ∷ fmt) p o = elim (Bool-cases (is_code 37 c)) [
  | inl e ↦
      rw (vprintf, e)
        (Keeps-bind (convert (conversion k) p.args p) _ (convert-Keeps (conversion k) p.args p o)
          (λ p1 o1.
            Keeps-bind (put_buf p1) _ (put_buf-Keeps p1 o1) (λ p2 o2. vprintf-Keeps fmt p2 o2)))
  | inr e ↦ rw (vprintf, e) (vprintf-Keeps (k ∷ fmt) _ (putc-OnScreen c p.screen o))
]

printf-Keeps :
    (fmt : List ℤ) (args : List Arg) (p : Printer) → OnScreen p.screen → Keeps (printf fmt args p)
printf-Keeps fmt args p o = vprintf-Keeps fmt (record p { buf = unset; args = args }) o

push_color-OnScreen : (f b : ℕ) (s : Screen) → OnScreen s → OnScreen (push_color f b s)
unfolding push_color
push_color-OnScreen f b s o = record {
  column = o.column;
  row = o.row;
  some_color = ground (arith, o.some_color);
  few_colors = ground (arith, o.few_colors);
}

pop_color-OnScreen : (s : Screen) → OnScreen s → OnScreen (pop_color s)
unfolding pop_color
pop_color-OnScreen s o = record {
  column = ground (arith, o.column);
  row = ground (arith, o.row);
  some_color = ground (arith, o.some_color);
  few_colors = ground (arith, o.few_colors);
}

log-Keeps :
    (level : LogLevel) (fmt : List ℤ) (args : List Arg) (p : Printer)
    → OnScreen p.screen
    → Keeps (log level fmt args p)
unfolding log
log-Keeps level fmt args p o =
    let s = pop_color (puts (level_str level) (push_color 9 0 p.screen)) in
    let i =
      pop_color-OnScreen _
        (puts-OnScreen (level_str level) _ (push_color-OnScreen 9 0 p.screen o)) in
    Keeps-bind (printf fmt args (record p { screen = s })) _
      (printf-Keeps fmt args (record p { screen = s }) i)
      (λ q i. puts-OnScreen (pos 10 ∷ []) q.screen i)

-- The screen of the start of the kernel, with no colour yet, and what the calls make of it.
abbrev pub blank : (ℕ → ℤ × ℕ) → Screen
blank cells = record {
  cells = cells;
  monochrome = false;
  color_stack = λ i. 0;
  ncolor_stack = 0;
  xpos = 0;
  ypos = 0;
}

pub data Reach : Printer → Type 0 where
  start :
      (mode : ℕ) (cells : ℕ → ℤ × ℕ) (mem : List ℤ) {p : Printer}
      → init mode (record { buf = unset; buf_mem = mem; args = []; screen = blank cells }) ≡ some p
      → Reach p
  puts_call :
      {p : Printer} (str : List ℤ) → Reach p → Reach (record p { screen = puts str p.screen })
  push_call :
      {p : Printer} (f b : ℕ) → Reach p → Reach (record p { screen = push_color f b p.screen })
  pop_call : {p : Printer} → Reach p → Reach (record p { screen = pop_color p.screen })
  cls_call : {p : Printer} → Reach p → Reach (record p { screen = cls p.screen })
  printf_call :
      {p q : Printer} (fmt : List ℤ) (args : List Arg)
      → Reach p
      → printf fmt args p ≡ some q
      → Reach q
  log_call :
      {p q : Printer} (level : LogLevel) (fmt : List ℤ) (args : List Arg)
      → Reach p
      → log level fmt args p ≡ some q
      → Reach q

init-Keeps :
    (mode : ℕ) (cells : ℕ → ℤ × ℕ) (mem : List ℤ)
    → Keeps (init mode (record { buf = unset; buf_mem = mem; args = []; screen = blank cells }))
unfolding init push_color cls
init-Keeps mode cells mem =
    let monochrome = mode / 16 % 4 == 3 in
    let s = cls (push_color 7 0 (record (blank cells) { monochrome = monochrome })) in
    let o : OnScreen s = record {
      column = omega arith;
      row = omega arith;
      some_color = ground arith;
      few_colors = ground arith;
    } in
    printf-Keeps mode_format (text (some (mode_text monochrome)) ∷ [])
      (record { buf = unset; buf_mem = mem; args = []; screen = s }) o

-- After `init` and any calls of `puts`, `printf`, `log`, `push_color`, `pop_color` and `cls` that return, the
-- cursor is on the screen, and the stack of colours has 1 to 32 of them.
pub Reach-OnScreen : (p : Printer) → Reach p → OnScreen p.screen
unfolding cls
Reach-OnScreen p (start mode cells mem e) = Keeps-some _ p e (init-Keeps mode cells mem)
Reach-OnScreen _ (puts_call {p = p} str r) = puts-OnScreen str p.screen (Reach-OnScreen p r)
Reach-OnScreen _ (push_call {p = p} f b r) = push_color-OnScreen f b p.screen (Reach-OnScreen p r)
Reach-OnScreen _ (pop_call {p = p} r) = pop_color-OnScreen p.screen (Reach-OnScreen p r)
Reach-OnScreen _ (cls_call {p = p} r) =
    let o = Reach-OnScreen p r in
    record {
      column = omega arith;
      row = omega arith;
      some_color = o.some_color;
      few_colors = o.few_colors;
    }
Reach-OnScreen q (printf_call {p = p} fmt args r e) =
    Keeps-some _ q e (printf-Keeps fmt args p (Reach-OnScreen p r))
Reach-OnScreen q (log_call {p = p} level fmt args r e) =
    Keeps-some _ q e (log-Keeps level fmt args p (Reach-OnScreen p r))
