-- ===== src/Initrd/Tests.antt =====
-- The `printf` of the program at concrete values.
use jkos.Base.{some, List, false, ◌≡◌, refl, [], ◌∷◌}
use jkos.Base.Int.{ℤ, pos, negsuc}
use jkos.Base.Slice.{slice}
use jkos.Klog
use jkos.Klog.{Screen, puts}
use jkos.Klog.Format
use jkos.Klog.Format.{unset, int, unknown_text}
use jkos.Initrd.{Printer, u2s, vprintf, convert, put_buf}
use jkos.Initrd.Printf.{in_kernel, left, left_in_kernel, vprintf-Klog}

abbrev screen : Screen
screen = record {
  cells = λ i. (pos 32, 7);
  monochrome = false;
  color_stack = λ i. 7;
  ncolor_stack = 1;
  xpos = 79;
  ypos = 24;
}

-- "pid %d" with the argument -12
abbrev printer : Printer Screen
printer = record { buf = unset; buf_mem = []; args = int (negsuc 11) ∷ []; out = screen }

vprintf-Klog_example :
    left (vprintf puts (λ i. 0) (pos 112 ∷ pos 37 ∷ pos 100 ∷ []) printer)
    ≡ left_in_kernel (Format.vprintf (pos 112 ∷ pos 37 ∷ pos 100 ∷ []) (in_kernel unset printer))
vprintf-Klog_example = vprintf-Klog (λ i. 0) (pos 112 ∷ pos 37 ∷ pos 100 ∷ []) printer unset refl

-- "%d%q" with the argument 5: the kernel goes on behind the digit, and the program prints it again.
abbrev five : Printer Screen
five = record { buf = unset; buf_mem = []; args = int (pos 5) ∷ []; out = screen }

abbrev odd_format : List ℤ
odd_format = pos 37 ∷ pos 100 ∷ pos 37 ∷ pos 113 ∷ []

again_in_program :
    left (vprintf puts (λ i. 0) odd_format five)
    ≡ some (unknown_text, [], puts (pos 53 ∷ pos 53 ∷ []) screen)
unfolding vprintf convert put_buf u2s slice puts
again_in_program = refl

once_in_kernel :
    left_in_kernel (Format.vprintf odd_format (in_kernel unset five))
    ≡ some (unknown_text, [], puts (pos 53 ∷ []) screen)
unfolding Format.vprintf Format.convert Format.put_buf Klog.u2s puts
once_in_kernel = refl

-- The digits are turned round in place.
four_digits : u2s 1250 10 (λ i. 9) ≡ 49 ∷ 50 ∷ 53 ∷ 48 ∷ []
unfolding u2s slice
four_digits = refl
