-- ===== src/Rbt/Descend.antt =====
-- include/lib/rbtree.h: `insert` as a whole: the descent to the free place and the climb back.
use jkos.Base.{
  ℕ, zero, suc, ◌≡◌, refl, ◌∙◌, true, false, List, [], ◌∷◌, ◌++◌, append_assoc, append-nil,
  Bool-cases, inl, inr, All-imp,
}
use jkos.Base.Order.{Order}
use jkos.Rbt.{
  Rbt, nil, node, red, black, left, right, frame, Route, is_black, walk, descend, insert,
}
use jkos.Rbt.Walk.{around}
use jkos.Rbt.Balance.{HasHeight, IsRedBlack, Fits, top_black, Gives, gives, Gives-keys}
use jkos.Rbt.Insert.{insert_fix-Gives}
use jkos.Rbt.Sorted.{
  IsSorted, insert_sorted, IsSorted-split, insert_sorted-append_lt, insert_sorted-append_ge,
  lt-of_le_lt,
}

module _ {ℓ} {K : Type ℓ} ⦃o : Order K⦄ where
  -- A sorted list with a key less than `v` in it: the insertion is behind that key.
  insert_sorted_right :
      (v : K) (xs : List K) (k : K) (ys : List K)
      → IsSorted (xs ++ (k ∷ ys))
      → o.lt k v ≡ true
      → insert_sorted v (xs ++ (k ∷ ys)) ≡ xs ++ (k ∷ insert_sorted v ys)
  unfolding insert_sorted
  insert_sorted_right v xs k ys h e =
      let s = IsSorted-split xs k ys h in
      insert_sorted-append_lt v xs (k ∷ ys) (
        All-imp (λ x. o.lt k x ≡ false) (λ x. o.lt x v ≡ true) xs (λ x p. lt-of_le_lt x k v p e)
          s.0)
      ∙ (rw e)

  -- The descent stops where the key belongs.
  around-descend :
      (v : K) (t : Rbt K) (r : Route K)
      → IsSorted (walk t)
      → around (descend v t r) (v ∷ []) ≡ around r (insert_sorted v (walk t))
  unfolding descend insert_sorted
  around-descend v nil r s = refl
  around-descend v (node c l k u) r s =
      let (a, b, sl, su) = IsSorted-split (walk l) k (walk u) s in
      elim (Bool-cases (o.lt k v)) [
        | inl e ↦
            rw (e, insert_sorted_right v (walk l) k (walk u) s e)
              (around-descend v u (frame right c k l ∷ r) su ∙ (simp append_assoc))
        | inr e ↦
            rw (e, insert_sorted-append_ge v (walk l) k (walk u) e)
              (around-descend v l (frame left c k u ∷ r) sl ∙ (simp append_assoc))
      ]

  -- A new red node fits there.
  Fits-descend :
      (v : K) (t : Rbt K) (r : Route K) (n : ℕ)
      → HasHeight t n
      → Fits r n
      → (is_black t ≡ false → top_black r ≡ true)
      → Fits (descend v t r) 0
  unfolding descend
  Fits-descend v nil r n h f top = rw (← h) f
  Fits-descend v (node red l k u) r n h f top = elim (Bool-cases (o.lt k v)) [
    | inl e ↦
        rw e
          (Fits-descend v u (frame right red k l ∷ r) n h.3 (h.0, h.2, f, top refl) (λ p. cc (h.1)))
    | inr e ↦
        rw e
          (Fits-descend v l (frame left red k u ∷ r) n h.2 (h.1, h.3, f, top refl) (λ p. cc (h.0)))
  ]
  Fits-descend v (node black l k u) r zero h f top = elim h [ ]
  Fits-descend v (node black l k u) r (suc n) h f top = elim (Bool-cases (o.lt k v)) [
    | inl e ↦ rw e (Fits-descend v u (frame right black k l ∷ r) n h.1 (h.0, f) (λ p. refl))
    | inr e ↦ rw e (Fits-descend v l (frame left black k u ∷ r) n h.0 (h.1, f) (λ p. refl))
  ]

  -- `insert` on a red-black tree whose keys are sorted returns a
  -- red-black tree that has the old keys in order and `v` before the first key that is not less.
  pub insert-Gives :
      (v : K) (t : Rbt K)
      → IsRedBlack t
      → IsSorted (walk t)
      → Gives (insert_sorted v (walk t)) (insert v t)
  unfolding insert insert_sorted
  insert-Gives v nil b s =
      gives (node black nil v nil) refl
        (record { height = 1; rules = (refl, refl); root_black = refl }) refl
  insert-Gives v (node c l k r) b s =
      Gives-keys
        (insert_fix-Gives nil v nil (descend v (node c l k r) []) 0 (refl, refl, refl, refl)
          (Fits-descend v (node c l k r) [] b.height b.rules tt (λ p. cc (b.root_black))))
        (around-descend v (node c l k r) [] s ∙ append-nil _)
