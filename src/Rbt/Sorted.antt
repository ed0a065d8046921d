-- ===== src/Rbt/Sorted.antt =====
-- Sorted lists of keys: what `walk` meets, seen as a sorted bag with an insertion and two searches.
use jkos.Base.{
  ◌≡◌, refl, true, false, List, [], ◌∷◌, ◌++◌, arith, if◌then◌else◌, All, All-append, All-split,
  All-imp, Bool-cases, inl, inr,
}
use jkos.Base.Order.{Order}

module _ {ℓ} {K : Type ℓ} ⦃o : Order K⦄ where
  -- Every key is less than `v`.
  abbrev pub AllLt : K → List K → Type 0
  AllLt v ks = All (λ k. o.lt k v ≡ true) ks

  -- No key is less than `v`.
  abbrev pub AllGe : K → List K → Type 0
  AllGe v ks = All (λ k. o.lt k v ≡ false) ks

  -- No key is greater than `v`.
  abbrev pub AllLe : K → List K → Type 0
  AllLe v ks = All (λ k. o.lt v k ≡ false) ks

  -- Every key is greater than `v`.
  abbrev pub AllGt : K → List K → Type 0
  AllGt v ks = All (λ k. o.lt v k ≡ true) ks

  abbrev pub IsSorted : List K → Type 0
  IsSorted [] = Unit
  IsSorted (k ∷ ks) = AllGe k ks × IsSorted ks

  -- The list with `v` put before the first key that is not less.
  unfoldable pub insert_sorted : K → List K → List K
  insert_sorted v [] = v ∷ []
  insert_sorted v (k ∷ ks) = if o.lt k v then k ∷ insert_sorted v ks else v ∷ k ∷ ks

  pub lt-of_le_lt : (a b c : K) → o.lt b a ≡ false → o.lt b c ≡ true → o.lt a c ≡ true
  lt-of_le_lt a b c p q = elim (o.lt_cotrans b c a q) [ inl r ↦ cc (p, r) | inr r ↦ r ]

  pub lt-of_lt_le : (a b c : K) → o.lt a b ≡ true → o.lt c b ≡ false → o.lt a c ≡ true
  lt-of_lt_le a b c p q = elim (o.lt_cotrans a b c p) [ inl r ↦ r | inr r ↦ cc (q, r) ]

  pub not_lt-of_lt : (a b : K) → o.lt a b ≡ true → o.lt b a ≡ false
  not_lt-of_lt a b p = elim (Bool-cases (o.lt b a)) [
    | inl r ↦ cc (o.lt_trans a b a p r, o.lt_irrefl a)
    | inr r ↦ r
  ]

  pub not_lt_trans : (a b c : K) → o.lt b a ≡ false → o.lt c b ≡ false → o.lt c a ≡ false
  not_lt_trans a b c p q = elim (Bool-cases (o.lt c a)) [
    | inl r ↦ cc (lt-of_lt_le c a b r p, q)
    | inr r ↦ r
  ]

  -- A sorted list, taken apart at one of its keys.
  pub IsSorted-split :
      (xs : List K) (k : K) (ys : List K)
      → IsSorted (xs ++ (k ∷ ys))
      → AllLe k xs × AllGe k ys × IsSorted xs × IsSorted ys
  IsSorted-split [] k ys h = (tt, h.0, tt, h.1)
  IsSorted-split (x ∷ xs) k ys h =
      let (a, b, c, d) = IsSorted-split xs k ys h.1 in
      let s = All-split (λ y. o.lt y x ≡ false) xs (k ∷ ys) h.0 in ((s.1.0, a), b, (s.0, c), d)

  -- A sorted list without one of its keys.
  pub IsSorted-append :
      (xs : List K) (k : K) (ys : List K) → IsSorted (xs ++ (k ∷ ys)) → IsSorted (xs ++ ys)
  IsSorted-append [] k ys h = h.1
  IsSorted-append (x ∷ xs) k ys h =
      let s = All-split (λ y. o.lt y x ≡ false) xs (k ∷ ys) h.0 in
      (All-append (λ y. o.lt y x ≡ false) xs ys s.0 s.1.1, IsSorted-append xs k ys h.1)

  pub IsSorted-join :
      (xs : List K) (k : K) (ys : List K)
      → AllLe k xs
      → AllGe k ys
      → IsSorted xs
      → IsSorted ys
      → IsSorted (xs ++ (k ∷ ys))
  IsSorted-join [] k ys a b c d = (b, d)
  IsSorted-join (x ∷ xs) k ys a b c d = (
    All-append (λ y. o.lt y x ≡ false) xs (k ∷ ys) c.0
        (
          a.0,
          All-imp (λ y. o.lt y k ≡ false) (λ y. o.lt y x ≡ false) ys
              (λ y p. not_lt_trans x k y a.0 p) b,
        ),
    IsSorted-join xs k ys a.1 b c.1 d,
  )

  pub insert_sorted-append_lt :
      (v : K) (xs ys : List K) → AllLt v xs → insert_sorted v (xs ++ ys) ≡ xs ++ insert_sorted v ys
  unfolding insert_sorted
  insert_sorted-append_lt v [] ys h = refl
  insert_sorted-append_lt v (x ∷ xs) ys h = rw (h.0, insert_sorted-append_lt v xs ys h.1)

  pub insert_sorted-append_ge :
      (v : K) (xs : List K) (k : K) (ys : List K)
      → o.lt k v ≡ false
      → insert_sorted v (xs ++ (k ∷ ys)) ≡ insert_sorted v xs ++ (k ∷ ys)
  unfolding insert_sorted
  insert_sorted-append_ge v [] k ys h = rw h
  insert_sorted-append_ge v (x ∷ xs) k ys h = ground (arith, insert_sorted-append_ge v xs k ys h)

  pub All-insert_sorted {κ} :
      (P : K → Type κ) (v : K) (ks : List K) → P v → All P ks → All P (insert_sorted v ks)
  unfolding insert_sorted
  All-insert_sorted P v [] p h = (p, tt)
  All-insert_sorted P v (k ∷ ks) p h = elim (Bool-cases (o.lt k v)) [
    | inl e ↦ rw e (h.0, All-insert_sorted P v ks p h.1)
    | inr e ↦ rw e (p, h)
  ]

  pub insert_sorted-IsSorted : (v : K) (ks : List K) → IsSorted ks → IsSorted (insert_sorted v ks)
  unfolding insert_sorted
  insert_sorted-IsSorted v [] h = (tt, tt)
  insert_sorted-IsSorted v (k ∷ ks) h = elim (Bool-cases (o.lt k v)) [
    | inl e ↦ rw e (
      All-insert_sorted (λ y. o.lt y k ≡ false) v ks (not_lt-of_lt k v e) h.0,
      insert_sorted-IsSorted v ks h.1,
    )
    | inr e ↦ rw e (
      (
        e,
        All-imp (λ y. o.lt y k ≡ false) (λ y. o.lt y v ≡ false) ks (λ y p. not_lt_trans v k y e p)
            h.0,
      ),
      h,
    )
  ]
