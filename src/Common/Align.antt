-- ===== src/Common/Align.antt =====
-- include/common.h: `get_aligned` rounds up to a multiple of a power of two.
use jkos.Base.{ℕ, zero, suc, ◌+◌, ◌-◌, ◌*◌, ◌/◌, ◌%◌, ◌^◌, ◌≤◌, ◌<◌, ◌≡◌, ◌==◌, false, arith}
use native.Mathlib.Nat
use jkos.Common.{word, get_aligned}

pow_pos : (p : ℕ) → 0 < 2 ^ p
pow_pos zero = omega arith
pow_pos (suc p) = grind (arith, pow_pos p)

-- Between an address and the end of the next step of 2^palign, the result is a multiple of it.
pub record Aligned (addr palign r : ℕ) : Type 0 where
  pub low : addr ≤ r
  pub high : r < addr + 2 ^ palign
  pub multiple : r % 2 ^ palign ≡ 0

round_up : (a d : ℕ) → 0 < a → 0 < d → (a ≤ ((a - 1) / d + 1) * d) × (((a - 1) / d + 1) * d < a + d)
round_up a d h k = grind (arith, Nat.mod-add-div' (a - 1) d, Nat.mod-lt (a - 1) k)

pub get_aligned-Aligned :
    (addr palign : ℕ)
    → 0 < addr
    → addr + 2 ^ palign ≤ 2 ^ 32
    → Aligned addr palign (get_aligned addr palign)
unfolding get_aligned
get_aligned-Aligned addr palign h k =
    let d = pow_pos palign in
    let (lo, hi) = round_up addr (2 ^ palign) h d in
    let b : (addr == 0) ≡ false = ground arith in
    let w : word (((addr - 1) / 2 ^ palign + 1) * 2 ^ palign)
        ≡ ((addr - 1) / 2 ^ palign + 1) * 2 ^ palign =
      Nat.mod-eq_of_lt (omega (arith, hi, k)) in
    rw (b, w) (record { low = lo; high = hi; multiple = Nat.mul-mod_left _ _ })
