-- ===== src/Signal.antt =====
-- core/signal.cpp with include/signal.h: a set of signals, the bits of one word.
pub mod Members
mod Tests
use jkos.Base.{ℕ, ◌+◌, ◌-◌, ◌/◌, ◌%◌, ◌^◌, Bool, false, not, ◌&&◌, ◌==◌, if◌then◌else◌, ltb}
use jkos.Base.Int.{ℤ, pos, negsuc}

-- `val[0]`; NSIGNAL_MAX is 32.
pub record Sigset : Type 0 where
  pub val : ℕ

abbrev pub clear : Sigset
clear = record { val = 0 }

abbrev pub fill : Sigset
fill = record { val = 2 ^ 32 - 1 }

abbrev pub has_bit : ℕ → ℕ → Bool
has_bit v k = v / 2 ^ k % 2 == 1

unfoldable pub add : ℤ → Sigset → Sigset
add (pos k) s = if ltb k 32 && not (has_bit s.val k) then record { val = s.val + 2 ^ k } else s
add (negsuc k) s = s

unfoldable pub del : ℤ → Sigset → Sigset
del (pos k) s = if ltb k 32 && has_bit s.val k then record { val = s.val - 2 ^ k } else s
del (negsuc k) s = s

unfoldable pub test : ℤ → Sigset → Bool
test (pos k) s = ltb k 32 && has_bit s.val k
test (negsuc k) s = false
