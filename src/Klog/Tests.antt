-- ===== src/Klog/Tests.antt =====
-- The screen and the digits at concrete values.
use jkos.Klog.Log.{mode_text, init}
use jkos.Klog.Reach.{blank, start, push_call, Reach-OnScreen}
use jkos.Base.{some, ◌≡◌, false, refl, [], ◌∷◌}
use jkos.Base.Int.{pos}
use jkos.Klog.{Screen, putc, puts, cls, push_color}
use jkos.Klog.Cursor.{OnScreen}
use jkos.Klog.Format.{unset, to_string, Printer, codes, convert, put_buf, vprintf}

-- At the last cell of the last line.
abbrev screen : Screen
screen = record {
  cells = λ i. (pos 32, 7);
  monochrome = false;
  color_stack = λ i. 7;
  ncolor_stack = 1;
  xpos = 79;
  ypos = 24;
}

-- The screen after `init` on a machine with colours, and after one more line.
abbrev started : Printer
started = record {
  buf = to_string [];
  buf_mem = [];
  args = [];
  screen = putc (pos 10) (
      puts (mode_text false) (
        puts
          (codes (
            118 ∷ 105 ∷ 100 ∷ 101 ∷ 111 ∷ 32 ∷ 105 ∷ 110 ∷ 116 ∷ 105 ∷ 97 ∷ 108 ∷ 105 ∷ 122 ∷ 101
            ∷ 100 ∷ 46 ∷ 32 ∷ 109 ∷ 111 ∷ 100 ∷ 101 ∷ 58 ∷ 32 ∷ []))
          (cls (push_color 7 0 (blank (λ i. (pos 0, 0)))))));
}

init_returns :
    init 0x20 (record { buf = unset; buf_mem = []; args = []; screen = blank (λ i. (pos 0, 0)) })
    ≡ some started
unfolding init vprintf convert put_buf puts
init_returns = refl

Reach-OnScreen_example : OnScreen (push_color 4 0 started.screen)
Reach-OnScreen_example =
    Reach-OnScreen (record started { screen = push_color 4 0 started.screen })
      (push_call 4 0 (start 0x20 (λ i. (pos 0, 0)) [] init_returns))
