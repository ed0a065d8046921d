-- ===== src/Klog.antt =====
-- core/klog.cpp: the screen with its cursor and colours, and the digits of a number. A cell of the
-- screen is a character with its colour; the writes that move the hardware cursor are in Klog/Log, and
-- the calls that end with them are without them here.
pub mod Cursor
pub mod Digits
pub mod Format
pub mod Text
pub mod Printf
pub mod Log
pub mod Reach
mod Tests
use jkos.Base.{
  ℕ, zero, suc, ◌+◌, ◌-◌, ◌*◌, ◌/◌, ◌%◌, Bool, true, false, not, ◌&&◌, ◌||◌, ◌==◌, if◌then◌else◌,
  List, [], ◌∷◌, update, ltb,
}
use jkos.Base.Int.{ℤ, pos, negsuc}
use jkos.Ctype.{is_print}

-- The statics of the file; a byte of `videomem` is the half of a cell.
pub record Screen : Type 0 where
  pub cells : ℕ → ℤ × ℕ
  pub monochrome : Bool
  pub color_stack : ℕ → ℕ
  pub ncolor_stack : ℕ
  pub xpos : ℕ
  pub ypos : ℕ

unfoldable pub push_color : ℕ → ℕ → Screen → Screen
push_color forecolor backcolor s =
    let n = if s.ncolor_stack == 32 then s.ncolor_stack - 1 else s.ncolor_stack in
    let color =
      if s.monochrome
      then (if forecolor == backcolor then 0 else 7)
      else backcolor % 16 * 16 + forecolor % 16 in
    record s { color_stack = update s.color_stack n color; ncolor_stack = n + 1 }

unfoldable pub pop_color : Screen → Screen
pop_color s = if ltb 1 s.ncolor_stack then record s { ncolor_stack = s.ncolor_stack - 1 } else s

-- The colour on top of the stack.
abbrev pub top_color : Screen → ℕ
top_color s = s.color_stack (s.ncolor_stack - 1)

unfoldable pub cls : Screen → Screen
cls s = record s {
  cells = λ i. if ltb i 2000 then (pos 32, top_color s) else s.cells i;
  xpos = 0;
  ypos = 0;
}

-- The end of a line: the screen scrolls behind the last one.
unfoldable pub newline : Screen → Screen
newline s =
    if s.ypos + 1 == 25
    then record s {
      cells = λ i.
          if ltb i 1920
          then s.cells (i + 80)
          else (if ltb i 2000 then (pos 32, top_color s) else s.cells i);
      xpos = 0;
      ypos = 24;
    }
    else record s { xpos = 0; ypos = s.ypos + 1 }

abbrev pub is_code : ℕ → ℤ → Bool
is_code n (pos c) = c == n
is_code n (negsuc c) = false

-- A character goes to the cell of the cursor.
abbrev pub put_cell : ℤ → Screen → Screen
put_cell ch s = record s {
  cells = update s.cells (s.xpos + s.ypos * 80) (ch, top_color s);
  xpos = s.xpos + 1;
}

unfoldable pub putc : ℤ → Screen → Screen
unfolding newline
putc ch s =
    if not (is_print ch) && not (is_code 13 ch) && not (is_code 10 ch)
    then s
    else if is_code 13 ch
    then record s { xpos = 0 }
    else if is_code 10 ch
    then newline s
    else (let s1 = put_cell ch s in if s1.xpos == 80 then newline s1 else s1)

unfoldable pub puts : List ℤ → Screen → Screen
unfolding putc
puts [] s = s
puts (ch ∷ str) s = puts str (putc ch s)

abbrev pub digit : ℕ → ℕ
digit d = if ltb d 10 then 48 + d else 97 + d - 10

-- The loop of `u2s`, which puts the digits in the reverse order and then turns them round.
unfoldable pub u2s_loop : ℕ → ℕ → ℕ → List ℕ → List ℕ
u2s_loop zero n base ret = ret
u2s_loop (suc fuel) n base ret =
    let rest = u2s_loop fuel (n / base) base (digit (n % base) ∷ ret) in
    if n == 0 then ret else rest

unfoldable pub u2s : ℕ → ℕ → List ℕ
unfolding u2s_loop
u2s n base = if n == 0 then 48 ∷ [] else u2s_loop n n base []
