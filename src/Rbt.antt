-- ===== src/Rbt.antt =====
-- include/lib/rbtree.h: the template `Rbt<Key_t>`, as the kernel builds it (without RBT_SIZE and
-- RBT_DEBUG). A subtree is a value and `NIL` is `nil`. A `Node*` into a tree is the node's fields
-- with the way back up to the root, which is what `get_par` and `get_ref` follow. The shared `NIL` node
-- has no state here: its colour and children, which the constructor sets, are never changed where the
-- model returns a tree, and its parent field, which `rotate` and `remove_bottom` write, is read only as
-- the way back from the removed node, which the model has as the route. `none` stands for a run that
-- would rotate `NIL` up, take it for a sibling or a grandparent, or colour it red.
pub mod Walk
pub mod Sorted
pub mod Balance
pub mod Insert
pub mod Descend
pub mod Find
pub mod Bag
mod Tests
pub mod Delete
pub mod Climb
pub mod Erase
pub mod Clear
use jkos.Base.{
  ℕ, zero, suc, ◌+◌, Bool, true, false, ◌&&◌, Option, none, some, List, [], ◌∷◌, ◌++◌,
  if◌then◌else◌, length, ◌>>=◌,
}
use jkos.Base.Order.{Order}

pub data Color : Type 0 where
  red black : Color

-- The index of a child pointer: `ch[0]` is `left` and `ch[1]` is `right`.
pub data Dir : Type 0 where
  left right : Dir

abbrev pub flip : Dir → Dir
flip left = right
flip right = left

abbrev pub same : Dir → Dir → Bool
same left left = true
same right right = true
same _ _ = false

-- The child that a comparison picks, `ch[cond]`.
abbrev pub pick : Bool → Dir
pick false = left
pick true = right

pub data Rbt {ℓ} (K : Type ℓ) : Type ℓ where
  nil : Rbt K
  node : Color → Rbt K → K → Rbt K → Rbt K

-- One step from a node to its parent: the child index of the node, the parent's colour and key,
-- and the parent's other child.
pub data Frame {ℓ} (K : Type ℓ) : Type ℓ where
  frame : Dir → Color → K → Rbt K → Frame K

-- The way from a node to the root, the parent first.
abbrev pub Route {ℓ} : Type ℓ → Type ℓ
Route K = List (Frame K)

-- A `Node*` that is not `NIL`.
pub data Loc {ℓ} (K : Type ℓ) : Type ℓ where
  loc : Color → Rbt K → K → Rbt K → Route K → Loc K

-- A round of the loop of `remove_bottom`: it ends with the whole tree, or it climbs to the parent.
pub data Fixed {ℓ} (K : Type ℓ) : Type ℓ where
  finished : Rbt K → Fixed K
  climbs : Rbt K → Route K → Fixed K

module _ {ℓ} {K : Type ℓ} where
  -- The node with `ch[d] = t` and `ch[!d] = u`.
  abbrev pub join : Dir → Color → Rbt K → K → Rbt K → Rbt K
  join left c t k u = node c t k u
  join right c t k u = node c u k t

  -- The whole tree, with `t` at the end of the route.
  unfoldable pub plug : Rbt K → Route K → Rbt K
  plug t [] = t
  plug t (frame d c k u ∷ r) = plug (join d c t k u) r

  abbrev pub loc_tree : Loc K → Rbt K
  loc_tree (loc c l k r route) = plug (node c l k r) route

  abbrev pub get_key : Loc K → K
  get_key (loc c l k r route) = k

  abbrev pub is_red : Rbt K → Bool
  is_red nil = false
  is_red (node red l k r) = true
  is_red (node black l k r) = false

  abbrev pub is_black : Rbt K → Bool
  is_black nil = true
  is_black (node red l k r) = false
  is_black (node black l k r) = true

  -- `NIL` is black already.
  abbrev pub set_black : Rbt K → Rbt K
  set_black nil = nil
  set_black (node c l k r) = node black l k r

  abbrev pub child : Dir → Rbt K → Rbt K → Rbt K
  child left l r = l
  child right l r = r

  -- `rotate(root, dir)`; the parent fields are the ways back, and `none` is a rotation of `NIL`.
  abbrev pub rotate : Dir → Rbt K → Option (Rbt K)
  rotate left (node c a k (node c' b k' e)) = some (node c' (node c a k b) k' e)
  rotate right (node c (node c' a k b) k' e) = some (node c' a k (node c b k' e))
  rotate _ _ = none

  -- The end of that loop at a black uncle: one or two rotations under the grandparent.
  unfoldable pub insert_turn : Dir → Rbt K → K → Rbt K → Dir → K → Rbt K → Option (Rbt K)
  insert_turn d cur k u g gk uncle = do
    par ← if same d g then some (join d red cur k u) else rotate g (join d red cur k u)
    rotate (flip g) (join g red (set_black par) gk uncle)

  -- The loop of `insert` that climbs from the new red node. `par` is red in the last two clauses;
  -- without a grandparent the code would colour and rotate `NIL`.
  unfoldable pub insert_fix : Rbt K → Route K → Option (Rbt K)
  insert_fix cur [] = some (set_black cur)
  insert_fix cur (frame d black k u ∷ r) = some (plug cur (frame d black k u ∷ r))
  insert_fix cur (frame d red k u ∷ []) = none
  insert_fix cur (frame d red k u ∷ frame g c gk uncle ∷ r) = elim (is_red uncle) [
    | true ↦ insert_fix (join g red (join d black cur k u) gk (set_black uncle)) r
    | false ↦ do top ← insert_turn d cur k u g gk uncle; some (plug top r)
  ]

  -- `n->ch[n->ch[0] == NIL]`
  abbrev pub bottom_child : Rbt K → Rbt K → Rbt K
  bottom_child nil r = r
  bottom_child (node c l k r') r = node c l k r'

  -- `s->copy_color(p); s->ch[!dir]->set_black();`
  abbrev pub blacken_far : Dir → Color → Rbt K → Rbt K
  blacken_far d c nil = nil
  blacken_far left c (node sc s0 sk s1) = node c s0 sk (set_black s1)
  blacken_far right c (node sc s0 sk s1) = node c (set_black s0) sk s1

  -- What the loop goes on with.
  abbrev pub continue : (Rbt K → Route K → Option (Rbt K)) → Fixed K → Option (Rbt K)
  continue again (finished t) = some t
  continue again (climbs n r) = again n r

  -- What stands under the rotated sibling: the new sibling `p->ch[!d]`, and the new route to `p`.
  abbrev pub below : Dir → Route K → Rbt K → Option (Rbt K × Route K)
  below left r (node tc (node pc n pk s) tk far) = some (s, frame left tc tk far ∷ r)
  below right r (node tc far tk (node pc s pk n)) = some (s, frame right tc tk far ∷ r)
  below _ r _ = none

  -- `p->set_red(); s->set_black(); rotate(get_ref(p), d); s = p->ch[!d];` for a red sibling `s`.
  unfoldable pub lower_sibling : Dir → Rbt K → K → Rbt K → Route K → Option (Rbt K × Route K)
  lower_sibling d n k s r = rotate d (join d red n k (set_black s)) >>= below d r

  -- `n` is child `d` of the parent with colour `c` and key `k`, and `s` is the other child.
  unfoldable pub fix_sibling : Dir → Rbt K → Color → K → Rbt K → Route K → Option (Fixed K)
  fix_sibling d n c k nil r = none
  fix_sibling d n c k (node sc s0 sk s1) r =
      let near = child d s0 s1 in
      let far = child (flip d) s0 s1 in
      if is_black s0 && is_black s1 then some (climbs (join d c n k (node red s0 sk s1)) r) else (do
        s ←
            if is_black far
            then rotate (flip d) (join d red (set_black near) sk far)
            else some (node sc s0 sk s1)
        top ← rotate d (join d black n k (blacken_far d c s))
        some (finished (plug top r)))

  -- The loop of `remove_bottom` that climbs from a node `n` that lacks a black node.
  unfoldable pub delete_fix : ℕ → Rbt K → Route K → Option (Rbt K)
  unfolding fix_sibling lower_sibling
  delete_fix zero n r = none
  delete_fix (suc fuel) n [] = some (set_black n)
  delete_fix (suc fuel) n (frame d c k s ∷ r) = elim (is_black n) [
    | false ↦ some (plug (set_black n) (frame d c k s ∷ r))
    | true ↦ elim (is_red s) [
      | false ↦ fix_sibling d n c k s r >>= continue (delete_fix fuel)
      | true ↦ lower_sibling d n k s r >>= λ (s', r').
          fix_sibling d n red k s' r' >>= continue (delete_fix fuel)
    ]
  ]

  -- `n` must have at most one child that is not `NIL`. The parent that `c` takes over is the route.
  unfoldable pub remove_bottom : Loc K → Option (Rbt K)
  remove_bottom (loc red l k r route) = some (plug (bottom_child l r) route)
  remove_bottom (loc black l k r route) = elim (is_red (bottom_child l r)) [
    | true ↦ some (plug (set_black (bottom_child l r)) route)
    | false ↦ delete_fix (length route + 2) (bottom_child l r) route
  ]

  -- The loop of `erase` that goes down to the leftmost node.
  unfoldable pub min_loc : Color → Rbt K → K → Rbt K → Route K → Loc K
  min_loc c nil k r route = loc c nil k r route
  min_loc c (node c' l' k' r') k r route = min_loc c' l' k' r' (frame left c k r ∷ route)

  -- `prev` is the successor of `ptr`, whose key moves to `ptr`, or `ptr` itself.
  unfoldable pub erase : Loc K → Option (Rbt K)
  unfolding min_loc remove_bottom
  erase (loc c l k nil route) = remove_bottom (loc c l k nil route)
  erase (loc c l k (node c' l' k' r') route) =
      let key = get_key (min_loc c' l' k' r' (frame right c k l ∷ route)) in
      remove_bottom (min_loc c' l' k' r' (frame right c key l ∷ route))

  -- `walk`: the keys in the order of the calls of `callback`.
  abbrev pub walk : Rbt K → List K
  walk nil = []
  walk (node c l k r) = walk l ++ (k ∷ walk r)

module _ {ℓ} {K : Type ℓ} ⦃o : Order K⦄ where
  -- The descent of `insert` to the free place of the new node.
  unfoldable pub descend : K → Rbt K → Route K → Route K
  descend v nil route = route
  descend v (node c l k r) route =
      let rightwards = descend v r (frame right c k l ∷ route) in
      let leftwards = descend v l (frame left c k r ∷ route) in
      if o.lt k v then rightwards else leftwards

  unfoldable pub insert : K → Rbt K → Option (Rbt K)
  unfolding descend insert_fix
  insert v nil = some (node black nil v nil)
  insert v (node c l k r) = insert_fix (node red nil v nil) (descend v (node c l k r) [])

  -- The loops of `do_find_ge` and `do_find_le`, with the best node so far.
  unfoldable pub do_find_ge : K → Rbt K → Route K → Option (Loc K) → Option (Loc K)
  do_find_ge v nil route pos = pos
  do_find_ge v (node c l k r) route pos =
      let rightwards = do_find_ge v r (frame right c k l ∷ route) pos in
      let leftwards = do_find_ge v l (frame left c k r ∷ route) (some (loc c l k r route)) in
      if o.lt k v then rightwards else leftwards

  unfoldable pub do_find_le : K → Rbt K → Route K → Option (Loc K) → Option (Loc K)
  do_find_le v nil route pos = pos
  do_find_le v (node c l k r) route pos =
      let rightwards = do_find_le v r (frame right c k l ∷ route) (some (loc c l k r route)) in
      let leftwards = do_find_le v l (frame left c k r ∷ route) pos in
      if o.le k v then rightwards else leftwards

  unfoldable pub find_ge : K → Rbt K → Option (Loc K)
  unfolding do_find_ge
  find_ge v t = do_find_ge v t [] none

  unfoldable pub find_le : K → Rbt K → Option (Loc K)
  unfolding do_find_le
  find_le v t = do_find_le v t [] none
