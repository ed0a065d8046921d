-- ===== src/Initrd/Digits.antt =====
-- initrd.cpp: `u2s` turns its digits round in place, and gives those of the kernel.
use jkos.Base.{
  update, ℕ, zero, suc, ◌+◌, ◌-◌, ◌/◌, ◌%◌, ◌<◌, ◌≤◌, ◌≡◌, ◌⊎◌, inl, inr, refl, sym, ap, ◌∙◌,
  Bool-cases, ltb→lt, reverse, reverse-append, true, false, [], ◌∷◌, ◌==◌, ltb, arith,
}
use native.Mathlib.Decide.{ℕ_discrete}
use jkos.Base.Slice.{slice, slice_ext, slice-update, reverse-slice}
use jkos.Klog
use jkos.Klog.{digit, u2s_loop}
use jkos.Initrd.{put_digits, swap_digits, u2s}

reverse-put_digits :
    (fuel n base len : ℕ) (ret : ℕ → ℕ)
    → let (len', ret') = put_digits fuel n base len ret in
      reverse (slice ret' 0 len') ≡ u2s_loop fuel n base (reverse (slice ret 0 len))
unfolding put_digits u2s_loop
reverse-put_digits zero n base len ret = refl
reverse-put_digits (suc fuel) n base len ret = elim (Bool-cases (n == 0)) [
  | inl e ↦ rw e refl
  | inr e ↦
      let d = digit (n % base) in
      rw e (
        reverse-put_digits fuel (n / base) base (len + 1) (update ret len d)
        ∙ ap (λ xs. u2s_loop fuel (n / base) base (reverse xs)) (slice-update ret len d)
        ∙ ap (λ xs. u2s_loop fuel (n / base) base xs) (reverse-append (slice ret 0 len) (d ∷ [])))
]

-- The swaps below `i` leave the places from `i` on that are not as far from the end.
swap_digits-kept :
    (i len : ℕ) (ret : ℕ → ℕ) (c : ℕ)
    → i + i ≤ len
    → i ≤ c
    → (c + i < len) ⊎ (len ≤ c)
    → swap_digits i len ret c ≡ ret c
unfolding swap_digits
swap_digits-kept zero len ret c h l o = refl
swap_digits-kept (suc i) len ret c h l o =
    swap_digits-kept i len _ c (omega (arith, h)) (omega (arith, l)) (ground (arith, o))
    ∙ ground (arith, h, l, o)

-- They turn the others round.
swap_digits-turned :
    (i len : ℕ) (ret : ℕ → ℕ) (c d : ℕ)
    → i + i ≤ len
    → c + d + 1 ≡ len
    → (c < i) ⊎ (d < i)
    → swap_digits i len ret c ≡ ret d
unfolding swap_digits
swap_digits-turned zero len ret c d h e o = absurd (ground (arith, o))
swap_digits-turned (suc i) len ret c d h e o = elim (turn c d i o) [
  | inl o' ↦ swap_digits-turned i len _ c d (omega (arith, h)) e o' ∙ ground (arith, h, e, o')
  | inr (inl z) ↦
      swap_digits-kept i len _ c (omega (arith, h)) (omega (arith, z)) (ground (arith, z, h))
      ∙ (let f : (len - 1 - i == c) ≡ false = ground (arith, z, h) in
          let g : (i == c) ≡ true = ground (arith, z) in
          rw (f, g) (ap ret (omega (arith, z, h, e))))
  | inr (inr z) ↦
      swap_digits-kept i len _ c (omega (arith, h)) (omega (arith, z, h, e))
        (ground (arith, z, h, e))
      ∙ (let f : (len - 1 - i == c) ≡ true = ground (arith, z, h, e) in
          rw f (ap ret (omega (arith, z))))
]
  where
    turn : (c d i : ℕ) → (c < suc i) ⊎ (d < suc i) → ((c < i) ⊎ (d < i)) ⊎ ((c ≡ i) ⊎ (d ≡ i))
    turn c d i (inl l) = elim (ℕ_discrete c i) [
      | yes e ↦ inr (inl e)
      | no n ↦ inl (inl (omega (arith, l, n)))
    ]
    turn c d i (inr l) = elim (ℕ_discrete d i) [
      | yes e ↦ inr (inr e)
      | no n ↦ inl (inr (omega (arith, l, n)))
    ]

swap_digits-reverses :
    (len : ℕ) (ret : ℕ → ℕ) (c : ℕ) → c < len → swap_digits (len / 2) len ret c ≡ ret (len - 1 - c)
swap_digits-reverses len ret c l = elim (middle (ℕ_discrete (c + c + 1) len)) [
  | inl e ↦
      swap_digits-kept (len / 2) len ret c (omega arith) (omega (arith, e)) (inl (omega (arith, e)))
      ∙ ap ret (omega (arith, e))
  | inr o ↦ swap_digits-turned (len / 2) len ret c (len - 1 - c) (omega arith) (omega (arith, l)) o
]
  where
    middle : Dec (c + c + 1 ≡ len) → (c + c + 1 ≡ len) ⊎ ((c < len / 2) ⊎ (len - 1 - c < len / 2))
    middle (yes e) = inl e
    middle (no n) = inr (elim (Bool-cases (ltb c (len / 2))) [
      | inl a ↦ inl (ltb→lt c (len / 2) a)
      | inr b ↦ inr (ground (arith, b, n, l))
    ])

-- `u2s` of the program gives the digits that `u2s` of the kernel gives, whatever its buffer holds.
pub u2s-Klog : (n base : ℕ) (ret : ℕ → ℕ) → u2s n base ret ≡ Klog.u2s n base
unfolding u2s Klog.u2s slice
u2s-Klog n base ret = elim (Bool-cases (n == 0)) [
  | inl e ↦ rw e refl
  | inr e ↦
      let r = put_digits n n base 0 ret in
      rw e (
        slice_ext (swap_digits (r.0 / 2) (r.0) (r.1)) (λ c. r.1 (r.0 - 1 - c)) 0 0 (r.0)
          (λ c l l'.
            swap_digits-reverses (r.0) (r.1) c (omega (arith, l'))
            ∙ ap (λ x. r.1 (r.0 - 1 - x)) (omega arith))
        ∙ sym (reverse-slice (r.1) (r.0))
        ∙ reverse-put_digits n n base 0 ret)
]
