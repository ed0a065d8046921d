-- ===== src/Base/Slice.antt =====
-- Parts of an array as lists.
use jkos.Base.{
  update, ◌-◌, reverse, reverse-append, ℕ, zero, suc, ◌+◌, ◌<◌, ◌≤◌, ◌≡◌, refl, ap, ◌∙◌, List, [],
  ◌∷◌, ◌++◌, arith, length,
}

-- The `k` items from `i` on.
unfoldable pub slice {ℓ} : {A : Type ℓ} → (ℕ → A) → ℕ → ℕ → List A
slice t i zero = []
slice t i (suc k) = t i ∷ slice t (i + 1) k

pub slice_ext {ℓ} :
    {A : Type ℓ} (t u : ℕ → A) (d i k : ℕ)
    → ((c : ℕ) → i ≤ c → c < i + k → t c ≡ u (c + d))
    → slice t i k ≡ slice u (i + d) k
unfolding slice
slice_ext t u d i zero h = refl
slice_ext t u d i (suc k) h =
    let g = slice_ext t u d (i + 1) k (λ c l l'. h c (omega (arith, l)) (omega (arith, l'))) in
    let e : slice u (i + 1 + d) k ≡ slice u (i + d + 1) k = ap (λ x. slice u x k) (omega arith) in
    rw (h i (omega arith) (omega arith), g, e) refl

pub slice-append {ℓ} :
    {A : Type ℓ} (t : ℕ → A) (i a b : ℕ) → slice t i (a + b) ≡ slice t i a ++ slice t (i + a) b
unfolding slice
slice-append t i zero b =
    let e : 0 + b ≡ b = omega arith in let o : i + 0 ≡ i = omega arith in rw (e, o) refl
slice-append t i (suc a) b =
    let e : suc a + b ≡ suc (a + b) = omega arith in
    let o : i + 1 + a ≡ i + suc a = omega arith in
    rw e (
      ap (λ xs. t i ∷ xs)
        (slice-append t (i + 1) a b ∙ ap (λ x. slice t (i + 1) a ++ slice t x b) o))

pub length-slice {ℓ} : {A : Type ℓ} (t : ℕ → A) (i k : ℕ) → length (slice t i k) ≡ k
unfolding slice
length-slice t i zero = refl
length-slice t i (suc k) = ap suc (length-slice t (i + 1) k)

pub slice_last {ℓ} :
    {A : Type ℓ} (t : ℕ → A) (i : ℕ) → slice t 0 (suc i) ≡ slice t 0 i ++ (t i ∷ [])
unfolding slice
slice_last t i =
    ap (slice t 0) {x = suc i} (omega arith)
    ∙ slice-append t 0 i 1
    ∙ ap (λ x. slice t 0 i ++ (t x ∷ [])) (omega arith)

-- One more item at the end.
pub slice-update {ℓ} :
    {A : Type ℓ} (t : ℕ → A) (n : ℕ) (e : A)
    → slice (update t n e) 0 (n + 1) ≡ slice t 0 n ++ (e ∷ [])
slice-update t n e =
    let same : slice (update t n e) 0 n ≡ slice t 0 n =
      slice_ext (update t n e) t 0 0 n (λ c l l'. ground (arith, l')) in
    ap (slice (update t n e) 0) {y = suc n} (omega arith)
    ∙ slice_last (update t n e) n
    ∙ ap (λ xs. xs ++ (update t n e n ∷ [])) same
    ∙ ap (λ x. slice t 0 n ++ (x ∷ [])) (ground arith)

-- The items in the reverse order.
pub reverse-slice {ℓ} :
    {A : Type ℓ} (t : ℕ → A) (n : ℕ) → reverse (slice t 0 n) ≡ slice (λ c. t (n - 1 - c)) 0 n
unfolding slice
reverse-slice t zero = refl
reverse-slice t (suc n) =
    ap reverse (slice_last t n)
    ∙ reverse-append (slice t 0 n) (t n ∷ [])
    ∙ ap (λ xs. t n ∷ xs)
        (reverse-slice t n
          ∙ slice_ext (λ c. t (n - 1 - c)) (λ c. t (suc n - 1 - c)) 1 0 n
              (λ c l l'. ap t (omega arith)))
    ∙ ap (λ x. t x ∷ slice (λ c. t (suc n - 1 - c)) 1 n) {x = n} {y = suc n - 1 - 0} (omega arith)
