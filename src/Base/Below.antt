-- ===== src/Base/Below.antt =====
-- A test of all numbers below a bound, by a run.
use jkos.Base.{ℕ, zero, suc, ◌<◌, ◌≡◌, Bool, true, ◌&&◌, ◌==◌, arith}
use native.Mathlib.Decide.{ℕ_discrete}

abbrev pub all_below : ℕ → (ℕ → Bool) → Bool
all_below zero p = true
all_below (suc n) p = p n && all_below n p

pub all_below-at : (n : ℕ) (p : ℕ → Bool) (d : ℕ) → all_below n p ≡ true → d < n → p d ≡ true
all_below-at zero p d e h = absurd (omega (arith, h))
all_below-at (suc n) p d e h = elim (ℕ_discrete d n) [
  | yes q ↦ rw q (ground (arith, e))
  | no q ↦ all_below-at n p d (ground (arith, e)) (omega (arith, q, h))
]

pub same_number : (a b : ℕ) → (a == b) ≡ true → a ≡ b
same_number a b e = ground (arith, e)
