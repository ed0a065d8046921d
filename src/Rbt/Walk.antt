-- ===== src/Rbt/Walk.antt =====
-- include/lib/rbtree.h: the order in which `walk` meets the keys, under rotations, `insert` and
-- `erase`.
use jkos.Base.{◌≡◌, refl, sym, ◌∙◌, List, [], ◌∷◌, ◌++◌, append-nil, append_assoc}
use jkos.Rbt.{Rbt, nil, node, Color, Dir, left, right, frame, Route, join, plug, set_black, walk}

module _ {ℓ} {K : Type ℓ} where
  -- The keys before and after the subtree at the end of a route.
  abbrev pub before : Route K → List K
  before [] = []
  before (frame left c k u ∷ r) = before r
  before (frame right c k u ∷ r) = before r ++ (walk u ++ (k ∷ []))

  abbrev pub after : Route K → List K
  after [] = []
  after (frame left c k u ∷ r) = k ∷ (walk u ++ after r)
  after (frame right c k u ∷ r) = after r

  -- The keys of the tree that has the keys `ks` at the end of the route.
  abbrev pub around : Route K → List K → List K
  around r ks = before r ++ (ks ++ after r)

  pub around-frame :
      (d : Dir) (c : Color) (t : Rbt K) (k : K) (u : Rbt K) (r : Route K)
      → around r (walk (join d c t k u)) ≡ around (frame d c k u ∷ r) (walk t)
  around-frame left c t k u r = simp append_assoc
  around-frame right c t k u r = simp append_assoc

  pub walk-plug : (t : Rbt K) (r : Route K) → walk (plug t r) ≡ around r (walk t)
  unfolding plug
  walk-plug t [] = sym (append-nil (walk t))
  walk-plug t (frame d c k u ∷ r) = walk-plug (join d c t k u) r ∙ around-frame d c t k u r

  pub walk-set_black : (t : Rbt K) → walk (set_black t) ≡ walk t
  walk-set_black nil = refl
  walk-set_black (node c l k r) = refl
