-- ===== src/Klog/Cursor.antt =====
-- core/klog.cpp: the cursor stays on the screen.
use jkos.Base.{
  ◌+◌, ◌<◌, ◌≤◌, Bool-cases, inl, inr, not, ◌&&◌, ◌==◌, if◌then◌else◌, List, [], ◌∷◌, arith,
}
use jkos.Base.Int.{ℤ}
use jkos.Ctype.{is_print}
use jkos.Klog.{Screen, newline, is_code, put_cell, putc, puts}

-- The cursor is on the screen, and there is a colour.
pub record OnScreen (s : Screen) : Type 0 where
  pub column : s.xpos < 80
  pub row : s.ypos < 25
  pub some_color : 1 ≤ s.ncolor_stack
  pub few_colors : s.ncolor_stack ≤ 32

newline-OnScreen :
    (s : Screen) → s.ypos < 25 → 1 ≤ s.ncolor_stack → s.ncolor_stack ≤ 32 → OnScreen (newline s)
unfolding newline
newline-OnScreen s h a b = elim (Bool-cases (s.ypos + 1 == 25)) [
  | inl e ↦
      rw e (record { column = omega arith; row = omega arith; some_color = a; few_colors = b })
  | inr e ↦
      rw e (record {
        column = omega arith;
        row = ground (arith, e, h);
        some_color = a;
        few_colors = b;
      })
]

put_cell-OnScreen :
    (ch : ℤ) (s : Screen)
    → OnScreen s
    → OnScreen (if s.xpos + 1 == 80 then newline (put_cell ch s) else put_cell ch s)
put_cell-OnScreen ch s o = elim (Bool-cases (s.xpos + 1 == 80)) [
  | inl e ↦ rw e (newline-OnScreen (put_cell ch s) o.row o.some_color o.few_colors)
  | inr e ↦ rw e (record {
    column = ground (arith, e, o.column);
    row = o.row;
    some_color = o.some_color;
    few_colors = o.few_colors;
  })
]

pub putc-OnScreen : (ch : ℤ) (s : Screen) → OnScreen s → OnScreen (putc ch s)
unfolding putc
putc-OnScreen ch s o =
    elim (Bool-cases (not (is_print ch) && not (is_code 13 ch) && not (is_code 10 ch))) [
      | inl e ↦ rw e o
      | inr e ↦ elim (Bool-cases (is_code 13 ch)) [
        | inl f ↦
            rw (e, f)
              (record {
                column = omega arith;
                row = o.row;
                some_color = o.some_color;
                few_colors = o.few_colors;
              })
        | inr f ↦ elim (Bool-cases (is_code 10 ch)) [
          | inl g ↦ rw (e, f, g) (newline-OnScreen s o.row o.some_color o.few_colors)
          | inr g ↦ rw (e, f, g) (put_cell-OnScreen ch s o)
        ]
      ]
    ]

-- `puts` of any string keeps the cursor on the screen and the stack of colours in its bounds.
pub puts-OnScreen : (str : List ℤ) (s : Screen) → OnScreen s → OnScreen (puts str s)
unfolding puts
puts-OnScreen [] s o = o
puts-OnScreen (ch ∷ str) s o = puts-OnScreen str (putc ch s) (putc-OnScreen ch s o)
