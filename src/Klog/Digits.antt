-- ===== src/Klog/Digits.antt =====
-- core/klog.cpp: the digits that `u2s` prints.
use jkos.Base.{ℕ, suc, ◌+◌, ◌-◌, ◌*◌, ◌/◌, ◌%◌, ◌≤◌, ◌≡◌, if◌then◌else◌, List, [], ◌∷◌, ltb}
use jkos.Klog.{digit}

-- The number that digits stand for, read from the left after the number `v`.
abbrev pub value : ℕ → ℕ → List ℕ → ℕ
value base v [] = v
value base v (c ∷ cs) = value base (v * base + (if ltb c 97 then c - 48 else c - 87)) cs

-- A base whose digits `value` reads back.
data IsBase (base : ℕ) : Type 0 where
  is_base :
      ((n : ℕ)
        → n / base * base
            + (if ltb (digit (n % base)) 97 then digit (n % base) - 48 else digit (n % base) - 87)
          ≡ n)
      → ((n k : ℕ) → n ≤ suc k → n / base ≤ k)
      → IsBase base
