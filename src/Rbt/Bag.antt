-- ===== src/Rbt/Bag.antt =====
-- include/lib/rbtree.h: a tree seen as a bag of keys. A bag is read by the sums of weights over it.
use jkos.Base.{
  ℕ, ◌+◌, ◌≡◌, ◌≢◌, refl, sym, ◌∙◌, ap, true, false, Option, some, List, [], ◌∷◌, ◌++◌, arith,
  Bool-cases, inl, inr, All, All-split,
}
use native.Mathlib.Decide.{ℕ_discrete}
use jkos.Base.Order.{Order}
use jkos.Rbt.{Rbt, Loc, get_key, loc_tree, walk, insert, erase, find_ge}
use jkos.Rbt.Balance.{IsRedBlack, gives}
use jkos.Rbt.Sorted.{IsSorted, AllLt, insert_sorted, insert_sorted-IsSorted, IsSorted-append}
use jkos.Rbt.Descend.{insert-Gives}
use jkos.Rbt.Erase.{keys_before, keys_after, walk-loc_tree, erase-Gives}
use jkos.Rbt.Find.{none_ge, first_ge, find_ge-FoundGe}

module _ {ℓ} {K : Type ℓ} where
  -- The weight of all keys of a list.
  abbrev pub sum : (K → ℕ) → List K → ℕ
  sum w [] = 0
  sum w (k ∷ ks) = w k + sum w ks

  pub sum-append : (w : K → ℕ) (xs ys : List K) → sum w (xs ++ ys) ≡ sum w xs + sum w ys
  sum-append w [] ys = omega arith
  sum-append w (x ∷ xs) ys = omega (arith, sum-append w xs ys)

  pub sum-middle :
      (w : K → ℕ) (xs : List K) (k : K) (ys : List K)
      → sum w (xs ++ (k ∷ ys)) ≡ w k + sum w (xs ++ ys)
  sum-middle w xs k ys = omega (arith, sum-append w xs (k ∷ ys), sum-append w xs ys)

  -- A weight that is not 0 comes from some key.
  pub data Split (w : K → ℕ) (ks : List K) : Type ℓ where
    split : (xs : List K) (k : K) (ys : List K) → ks ≡ xs ++ (k ∷ ys) → w k ≢ 0 → Split w ks

  pub sum-Split : (w : K → ℕ) (ks : List K) → sum w ks ≢ 0 → Split w ks
  sum-Split w [] n = absurd (n refl)
  sum-Split w (k ∷ ks) n = elim (ℕ_discrete (w k) 0) [
    | no m ↦ split [] k ks refl m
    | yes z ↦ elim (sum-Split w ks (λ e. n (omega (arith, z, e)))) [
      | split xs j ys e m ↦ split (k ∷ xs) j ys (ap (λ l. k ∷ l) e) m
    ]
  ]

  -- A fact on the keys at all places of a list.
  pub All-splits {κ} :
      (P : K → Type κ) (ks : List K)
      → ((xs : List K) (k : K) (ys : List K) → ks ≡ xs ++ (k ∷ ys) → P k)
      → All P ks
  All-splits P [] h = tt
  All-splits P (k ∷ ks) h =
      (h [] k ks refl, All-splits P ks (λ xs j ys e. h (k ∷ xs) j ys (ap (λ l. k ∷ l) e)))

module _ {ℓ} {K : Type ℓ} ⦃o : Order K⦄ where
  -- A red-black tree whose keys are sorted.
  pub record IsTree (t : Rbt K) : Type ℓ where
    pub balanced : IsRedBlack t
    pub sorted : IsSorted (walk t)

  sum-insert_sorted :
      (w : K → ℕ) (v : K) (ks : List K) → sum w (insert_sorted v ks) ≡ w v + sum w ks
  unfolding insert_sorted
  sum-insert_sorted w v [] = refl
  sum-insert_sorted w v (k ∷ ks) = elim (Bool-cases (o.lt k v)) [
    | inl e ↦ rw e (omega (arith, sum-insert_sorted w v ks))
    | inr e ↦ rw e refl
  ]

  -- The tree gained or lost the key.
  pub data Gains (v : K) (t : Rbt K) (call : Option (Rbt K)) : Type ℓ where
    gains :
        (t' : Rbt K)
        → call ≡ some t'
        → IsTree t'
        → ((w : K → ℕ) → sum w (walk t') ≡ w v + sum w (walk t))
        → Gains v t call

  pub data Loses (v : K) (t : Rbt K) (call : Option (Rbt K)) : Type ℓ where
    loses :
        (t' : Rbt K)
        → call ≡ some t'
        → IsTree t'
        → ((w : K → ℕ) → w v + sum w (walk t') ≡ sum w (walk t))
        → Loses v t call

  pub insert-Gains : (v : K) (t : Rbt K) → IsTree t → Gains v t (insert v t)
  insert-Gains v t i = elim (insert-Gives v t i.balanced i.sorted) [
    | gives t' e b w ↦
        gains t' e
          (record { balanced = b; sorted = rw w (insert_sorted-IsSorted v (walk t) i.sorted) })
          (λ f. rw w (sum-insert_sorted f v (walk t)))
  ]

  pub erase-Loses :
      (p : Loc K) (t : Rbt K) → loc_tree p ≡ t → IsTree t → Loses (get_key p) t (erase p)
  erase-Loses p t e i = elim (erase-Gives p (rw e i.balanced)) [
    | gives t' q b w ↦
        let s = ap (λ x. walk x) (sym e) ∙ walk-loc_tree p in
        loses t' q
          (record {
            balanced = b;
            sorted =
                rw w
                  (IsSorted-append (keys_before p) (get_key p) (keys_after p) (rw (← s) i.sorted));
          })
          (λ f. rw (w, s) (sym (sum-middle f (keys_before p) (get_key p) (keys_after p))))
  ]

  -- Where the order tells keys apart, `find_ge` of a key of the tree gives that key.
  pub data FoundAt (v : K) (t : Rbt K) (answer : Option (Loc K)) : Type ℓ where
    found_at : (p : Loc K) → answer ≡ some p → loc_tree p ≡ t → get_key p ≡ v → FoundAt v t answer

  lt-middle : (v : K) (xs ys : List K) → AllLt v (xs ++ (v ∷ ys)) → o.lt v v ≡ true
  lt-middle v [] ys a = a.0
  lt-middle v (x ∷ xs) ys a = lt-middle v xs ys a.1

  first_key :
      ((a b : K) → o.lt a b ≡ false → o.lt b a ≡ false → a ≡ b)
      → (v : K) (ps : List K) (k : K) (ps' xs ys : List K) → ps ++ (k ∷ ps') ≡ xs ++ (v ∷ ys)
      → IsSorted (ps ++ (k ∷ ps'))
      → AllLt v ps
      → o.lt k v ≡ false
      → k ≡ v
  first_key anti v [] k ps' [] ys e s l n = cc
  first_key anti v [] k ps' (x ∷ xs) ys e s l n =
      let q : ps' ≡ xs ++ (v ∷ ys) = cc in
      let g = (All-split (λ y. o.lt y k ≡ false) xs (v ∷ ys) (rw (← q) s.0)).1.0 in anti k v n g
  first_key anti v (p ∷ ps) k ps' [] ys e s l n =
      let q : p ≡ v = cc in let d = o.lt_irrefl v in let h = l.0 in cc (q, d, h)
  first_key anti v (p ∷ ps) k ps' (x ∷ xs) ys e s l n =
      first_key anti v ps k ps' xs ys (cc) s.1 l.1 n

  pub find_ge-FoundAt :
      ((a b : K) → o.lt a b ≡ false → o.lt b a ≡ false → a ≡ b)
      → (v : K) (t : Rbt K) (xs ys : List K) → IsSorted (walk t)
      → walk t ≡ xs ++ (v ∷ ys)
      → FoundAt v t (find_ge v t)
  find_ge-FoundAt anti v t xs ys s w = elim (find_ge-FoundGe v t s) [
    | none_ge e a ↦ let c = lt-middle v xs ys (rw (← w) a) in let d = o.lt_irrefl v in cc (c, d)
    | first_ge p e q a n ↦
        let z = ap (λ x. walk x) (sym q) ∙ walk-loc_tree p in
        found_at p e q (
          first_key anti v (keys_before p) (get_key p) (keys_after p) xs ys (sym z ∙ w) (rw (← z) s)
            a n)
  ]
