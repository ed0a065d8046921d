-- ===== src/Rbt/Balance.antt =====
-- include/lib/rbtree.h: the colour rules of a red-black tree, for a whole tree and along a route.
use jkos.Base.{ℕ, zero, suc, ◌≡◌, ◌∙◌, Bool, true, false, Option, some, List, [], ◌∷◌, arith}
use jkos.Rbt.{Rbt, nil, node, Color, red, black, left, right, frame, Route, plug, is_black, walk}

module _ {ℓ} {K : Type ℓ} where
  -- Every way down from `t` meets `n` black nodes, and no red node has a red child.
  abbrev pub HasHeight : Rbt K → ℕ → Type 0
  HasHeight nil n = n ≡ 0
  HasHeight (node red l k r) n =
      (is_black l ≡ true) × (is_black r ≡ true) × HasHeight l n × HasHeight r n
  HasHeight (node black l k r) zero = ⊥
  HasHeight (node black l k r) (suc n) = HasHeight l n × HasHeight r n

  pub record IsRedBlack (t : Rbt K) : Type 0 where
    pub height : ℕ
    pub rules : HasHeight t height
    pub root_black : is_black t ≡ true

  -- A red node may stand at the end of the route.
  abbrev pub top_black : Route K → Bool
  top_black [] = false
  top_black (frame d red k u ∷ r) = false
  top_black (frame d black k u ∷ r) = true

  -- A black tree of height `n` fits at the end of the route.
  abbrev pub Fits : Route K → ℕ → Type 0
  Fits [] n = Unit
  Fits (frame d red k u ∷ r) n =
      (is_black u ≡ true) × HasHeight u n × Fits r n × (top_black r ≡ true)
  Fits (frame d black k u ∷ r) n = HasHeight u n × Fits r (suc n)

  -- A node of the colour fits that has subtrees of height `n`.
  abbrev pub FitsAs : Color → Route K → ℕ → Type 0
  FitsAs red r n = Fits r n × (top_black r ≡ true)
  FitsAs black r n = Fits r (suc n)

  -- The call returns a red-black tree with the keys `ks`.
  pub data Gives (ks : List K) (call : Option (Rbt K)) : Type ℓ where
    gives : (t : Rbt K) → call ≡ some t → IsRedBlack t → walk t ≡ ks → Gives ks call

  pub Gives-keys :
      {ks ks' : List K} {call : Option (Rbt K)} → Gives ks call → ks ≡ ks' → Gives ks' call
  Gives-keys (gives t e b w) p = gives t e b (w ∙ p)

  -- A tree that fits makes a red-black tree of the whole.
  pub plug-IsRedBlack :
      (t : Rbt K) (route : Route K) (n : ℕ)
      → HasHeight t n
      → Fits route n
      → (is_black t ≡ false → top_black route ≡ true)
      → IsRedBlack (plug t route)
  unfolding plug
  plug-IsRedBlack t [] n h f top = record { height = n; rules = h; root_black = ground arith }
  plug-IsRedBlack t (frame left red k u ∷ r) n h f top =
      plug-IsRedBlack (node red t k u) r n (ground arith) f.2 (λ e. f.3)
  plug-IsRedBlack t (frame right red k u ∷ r) n h f top =
      plug-IsRedBlack (node red u k t) r n (ground arith) f.2 (λ e. f.3)
  plug-IsRedBlack t (frame left black k u ∷ r) n h f top =
      plug-IsRedBlack (node black t k u) r (suc n) (h, f.0) f.1 (λ e. cc)
  plug-IsRedBlack t (frame right black k u ∷ r) n h f top =
      plug-IsRedBlack (node black u k t) r (suc n) (f.0, h) f.1 (λ e. cc)
