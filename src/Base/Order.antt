-- ===== src/Base/Order.antt =====
-- A strict weak order given by Boolean tests, as C++ keys give it by `operator <` and `<=`.
use mathlib.Core.Path.{◌≡◌}
use mathlib.Core.Logic.{◌⊎◌}
use mathlib.Core.Bool.{Bool, true, false, not}

pub record IsWeak {ℓ} {K : Type ℓ} (lt le : K → K → Bool) : Type ℓ where
  pub lt_irrefl : (a : K) → lt a a ≡ false
  pub lt_trans : (a b c : K) → lt a b ≡ true → lt b c ≡ true → lt a c ≡ true
  pub lt_cotrans : (a b c : K) → lt a b ≡ true → (lt a c ≡ true) ⊎ (lt c b ≡ true)
  pub le_iff : (a b : K) → le a b ≡ not (lt b a)

pub record Order {ℓ} (K : Type ℓ) : Type ℓ where
  pub lt : K → K → Bool
  pub le : K → K → Bool
  pub weak : IsWeak lt le
  pub open weak use *
