-- ===== src/Rbt/Find.antt =====
-- include/lib/rbtree.h: `find_ge` and `find_le` on a tree whose keys are sorted.
use jkos.Base.{
  ◌≡◌, refl, ◌∙◌, true, false, Option, none, some, [], ◌∷◌, ◌++◌, append_assoc, append-nil,
  Bool-cases, inl, inr, All-append, All-imp,
}
use jkos.Base.Order.{Order}
use jkos.Rbt.{
  Rbt, nil, node, left, right, frame, Route, Loc, loc, loc_tree, get_key, plug, walk, do_find_ge,
  do_find_le, find_ge, find_le,
}
use jkos.Rbt.Walk.{before, after, walk-plug}
use jkos.Rbt.Sorted.{IsSorted, AllLt, AllGt, IsSorted-split, lt-of_le_lt, lt-of_lt_le}
use jkos.Rbt.Erase.{keys_before, keys_after}

module _ {ℓ} {K : Type ℓ} ⦃o : Order K⦄ where
  -- The answer of `find_ge`: every key is less than `v`, or the node is the first that is not.
  pub data FoundGe (v : K) (t : Rbt K) (answer : Option (Loc K)) : Type ℓ where
    none_ge : answer ≡ none → AllLt v (walk t) → FoundGe v t answer
    first_ge :
        (p : Loc K)
        → answer ≡ some p
        → loc_tree p ≡ t
        → AllLt v (keys_before p)
        → o.lt (get_key p) v ≡ false
        → FoundGe v t answer

  -- The answer of `find_le`: every key is greater than `v`, or the node is the last that is not.
  pub data FoundLe (v : K) (t : Rbt K) (answer : Option (Loc K)) : Type ℓ where
    none_le : answer ≡ none → AllGt v (walk t) → FoundLe v t answer
    last_le :
        (p : Loc K)
        → answer ≡ some p
        → loc_tree p ≡ t
        → AllGt v (keys_after p)
        → o.lt v (get_key p) ≡ false
        → FoundLe v t answer

  -- The best node so far, when the loop of `do_find_ge` is at the subtree `s`.
  data BestGe (v : K) (t s : Rbt K) (r : Route K) (pos : Option (Loc K)) : Type ℓ where
    none_yet : pos ≡ none → after r ≡ [] → BestGe v t s r pos
    best :
        (p : Loc K)
        → pos ≡ some p
        → loc_tree p ≡ t
        → keys_before p ≡ before r ++ walk s
        → o.lt (get_key p) v ≡ false
        → BestGe v t s r pos

  data BestLe (v : K) (t s : Rbt K) (r : Route K) (pos : Option (Loc K)) : Type ℓ where
    none_yet : pos ≡ none → before r ≡ [] → BestLe v t s r pos
    best :
        (p : Loc K)
        → pos ≡ some p
        → loc_tree p ≡ t
        → keys_after p ≡ walk s ++ after r
        → o.lt v (get_key p) ≡ false
        → BestLe v t s r pos

  do_find_ge-FoundGe :
      (v : K) (t s : Rbt K) (r : Route K) (pos : Option (Loc K))
      → plug s r ≡ t
      → IsSorted (walk s)
      → AllLt v (before r)
      → BestGe v t s r pos
      → FoundGe v t (do_find_ge v s r pos)
  unfolding do_find_ge plug
  do_find_ge-FoundGe v t nil r pos e s h (BestGe.none_yet q a) =
      none_ge q (rw (← e, walk-plug, a, append-nil) h)
  do_find_ge-FoundGe v t nil r pos e s h (BestGe.best p q pt b g) =
      first_ge p q pt (rw (b, append-nil) h) g
  do_find_ge-FoundGe v t (node c l k u) r pos e s h b =
      let (al, ag, sl, su) = IsSorted-split (walk l) k (walk u) s in
      elim (Bool-cases (o.lt k v)) [
        | inl q ↦ rw q (
            do_find_ge-FoundGe v t u (frame right c k l ∷ r) pos e su
              (All-append (λ x. o.lt x v ≡ true) (before r) _ h
                (All-append (λ x. o.lt x v ≡ true) (walk l) (k ∷ [])
                  (All-imp (λ x. o.lt k x ≡ false) (λ x. o.lt x v ≡ true) (walk l)
                    (λ x p. lt-of_le_lt x k v p q) al)
                  (q, tt)))
              (go b))
        | inr q ↦ rw q (
            do_find_ge-FoundGe v t l (frame left c k u ∷ r) (some (loc c l k u r)) e sl h
              (best (loc c l k u r) refl e refl q))
      ]
    where
      go : BestGe v t (node c l k u) r pos → BestGe v t u (frame right c k l ∷ r) pos
      go (BestGe.none_yet q a) = BestGe.none_yet q a
      go (BestGe.best p q pt b g) = BestGe.best p q pt (b ∙ (simp append_assoc)) g

  do_find_le-FoundLe :
      (v : K) (t s : Rbt K) (r : Route K) (pos : Option (Loc K))
      → plug s r ≡ t
      → IsSorted (walk s)
      → AllGt v (after r)
      → BestLe v t s r pos
      → FoundLe v t (do_find_le v s r pos)
  unfolding do_find_le plug
  do_find_le-FoundLe v t nil r pos e s h (BestLe.none_yet q a) =
      none_le q (rw (← e, walk-plug, a) h)
  do_find_le-FoundLe v t nil r pos e s h (BestLe.best p q pt b g) = last_le p q pt (rw b h) g
  do_find_le-FoundLe v t (node c l k u) r pos e s h b =
      let (al, ag, sl, su) = IsSorted-split (walk l) k (walk u) s in
      rw (o.le_iff) (elim (Bool-cases (o.lt v k)) [
        | inr q ↦ rw q (
            do_find_le-FoundLe v t u (frame right c k l ∷ r) (some (loc c l k u r)) e su h
              (BestLe.best (loc c l k u r) refl e refl q))
        | inl q ↦ rw q (
            do_find_le-FoundLe v t l (frame left c k u ∷ r) pos e sl
              (
                q,
                All-append (λ x. o.lt v x ≡ true) (walk u) (after r)
                    (All-imp (λ x. o.lt x k ≡ false) (λ x. o.lt v x ≡ true) (walk u)
                      (λ x p. lt-of_lt_le v k x q p) ag)
                    h,
              )
              (go b))
      ])
    where
      go : BestLe v t (node c l k u) r pos → BestLe v t l (frame left c k u ∷ r) pos
      go (BestLe.none_yet q a) = BestLe.none_yet q a
      go (BestLe.best p q pt b g) = BestLe.best p q pt (b ∙ (simp append_assoc)) g

  -- `find_ge` on a tree whose keys are sorted returns the first node that is not less than `v`, and
  -- `NULL` exactly when every key is less.
  pub find_ge-FoundGe : (v : K) (t : Rbt K) → IsSorted (walk t) → FoundGe v t (find_ge v t)
  unfolding find_ge plug
  find_ge-FoundGe v t s = do_find_ge-FoundGe v t t [] none refl s tt (BestGe.none_yet refl refl)

  -- `find_le` on a tree whose keys are sorted either returns NULL and every key is greater than the
  -- argument, or returns a node of the tree that is not greater, with only greater keys behind it.
  pub find_le-FoundLe : (v : K) (t : Rbt K) → IsSorted (walk t) → FoundLe v t (find_le v t)
  unfolding find_le plug
  find_le-FoundLe v t s = do_find_le-FoundLe v t t [] none refl s tt (BestLe.none_yet refl refl)
