-- ===== src/Rbt/Insert.antt =====
-- include/lib/rbtree.h: the climb of `insert` restores the colour rules and keeps the keys.
use jkos.Base.{
  ℕ, suc, ◌≡◌, refl, sym, ap, ◌∙◌, true, Option, some, List, [], ◌∷◌, append_assoc, append-nil,
  arith, ◌>>=◌,
}
use jkos.Rbt.{
  Rbt, nil, node, Color, red, black, Dir, left, right, frame, Route, join, plug, is_black, walk,
  insert_turn, insert_fix,
}
use jkos.Rbt.Walk.{around, walk-plug}
use jkos.Rbt.Balance.{HasHeight, Fits, Gives, gives, Gives-keys, plug-IsRedBlack}

module _ {ℓ} {K : Type ℓ} where
  -- The result of the rotations that end the climb.
  data Turned (ks : List K) (n : ℕ) (call : Option (Rbt K)) : Type ℓ where
    turned :
        (t : Rbt K)
        → call ≡ some t
        → is_black t ≡ true
        → HasHeight t (suc n)
        → walk t ≡ ks
        → Turned ks n call

  insert_turn-Turned :
      (d : Dir) (x : Rbt K) (y : K) (z : Rbt K) (k : K) (u : Rbt K) (g : Dir) (gk : K)
      (uncle : Rbt K) (n : ℕ)
      → HasHeight (node red x y z) n
      → is_black u ≡ true
      → HasHeight u n
      → is_black uncle ≡ true
      → HasHeight uncle n
      → Turned
          (walk (join g black (join d red (node red x y z) k u) gk uncle))
          n
          (insert_turn d (node red x y z) k u g gk uncle)
  unfolding insert_turn
  insert_turn-Turned left x y z k u left gk uncle n h bu hu bv hv =
      turned (node black (node red x y z) k (node red u gk uncle)) refl refl (ground arith)
        (simp append_assoc)
  insert_turn-Turned right x y z k u left gk uncle n h bu hu bv hv =
      turned (node black (node red u k x) y (node red z gk uncle)) refl refl (ground arith)
        (simp append_assoc)
  insert_turn-Turned left x y z k u right gk uncle n h bu hu bv hv =
      turned (node black (node red uncle gk x) y (node red z k u)) refl refl (ground arith)
        (simp append_assoc)
  insert_turn-Turned right x y z k u right gk uncle n h bu hu bv hv =
      turned (node black (node red uncle gk u) k (node red x y z)) refl refl (ground arith)
        (simp append_assoc)

  join-black :
      (d : Dir) (t : Rbt K) (k : K) (u : Rbt K) (n : ℕ)
      → HasHeight t n
      → HasHeight u n
      → (is_black (join d black t k u) ≡ true) × HasHeight (join d black t k u) (suc n)
  join-black left t k u n h hu = (refl, (h, hu))
  join-black right t k u n h hu = (refl, (hu, h))

  around-recolour :
      (d : Dir) (t : Rbt K) (k : K) (u : Rbt K) (g : Dir) (gk : K) (v v' : Rbt K) (r : Route K)
      → walk v ≡ walk v'
      → (c c' : Color)
      → around r (walk (join g c (join d c' t k u) gk v))
        ≡ around (frame d red k u ∷ frame g black gk v' ∷ r) (walk t)
  around-recolour left t k u left gk v v' r e c c' = simp (e, append_assoc)
  around-recolour left t k u right gk v v' r e c c' = simp (e, append_assoc)
  around-recolour right t k u left gk v v' r e c c' = simp (e, append_assoc)
  around-recolour right t k u right gk v v' r e c c' = simp (e, append_assoc)

  insert_end-Gives :
      (r : Route K) (n : ℕ) {ks : List K} {call : Option (Rbt K)}
      → Turned ks n call
      → Fits r (suc n)
      → Gives (around r ks) (call >>= λ top. some (plug top r))
  insert_end-Gives r n (turned t e b h w) f = rw e (
      gives (plug t r) refl (plug-IsRedBlack t r (suc n) h f (λ p. cc))
        (walk-plug t r ∙ ap (around r) w))

  -- The climb ends in a red-black tree that has the keys of the new node in place.
  pub insert_fix-Gives :
      (x : Rbt K) (y : K) (z : Rbt K) (r : Route K) (n : ℕ)
      → HasHeight (node red x y z) n
      → Fits r n
      → Gives (around r (walk (node red x y z))) (insert_fix (node red x y z) r)
  unfolding insert_fix
  insert_fix-Gives x y z [] n h f =
      gives (node black x y z) refl
        (record { height = suc n; rules = (h.2, h.3); root_black = refl }) (sym (append-nil _))
  insert_fix-Gives x y z (frame d black k u ∷ r) n h f =
      gives (plug (node red x y z) (frame d black k u ∷ r)) refl
        (plug-IsRedBlack (node red x y z) (frame d black k u ∷ r) n h f (λ e. refl))
        (walk-plug (node red x y z) (frame d black k u ∷ r))
  insert_fix-Gives x y z (frame d red k u ∷ []) n h f = cc (f.3)
  insert_fix-Gives x y z (frame d red k u ∷ frame g red gk v ∷ r) n h f = cc (f.3)
  insert_fix-Gives x y z (frame d red k u ∷ frame left black gk (node red a m b) ∷ r) n h f =
      let (bp, hp) = join-black d (node red x y z) k u n h f.1 in
      Gives-keys
        (insert_fix-Gives (join d black (node red x y z) k u) gk (node black a m b) r (suc n)
          (ground arith) (ground arith))
        (around-recolour d (node red x y z) k u left gk (node black a m b) (node red a m b) r refl
          red black)
  insert_fix-Gives x y z (frame d red k u ∷ frame right black gk (node red a m b) ∷ r) n h f =
      let (bp, hp) = join-black d (node red x y z) k u n h f.1 in
      Gives-keys
        (insert_fix-Gives (node black a m b) gk (join d black (node red x y z) k u) r (suc n)
          (ground arith) (ground arith))
        (around-recolour d (node red x y z) k u right gk (node black a m b) (node red a m b) r refl
          red black)
  insert_fix-Gives x y z (frame d red k u ∷ frame g black gk nil ∷ r) n h f =
      Gives-keys
        (insert_end-Gives r n
          (insert_turn-Turned d x y z k u g gk nil n h f.0 f.1 refl (ground arith)) (ground arith))
        (around-recolour d (node red x y z) k u g gk nil nil r refl black red)
  insert_fix-Gives x y z (frame d red k u ∷ frame g black gk (node black a m b) ∷ r) n h f =
      Gives-keys
        (insert_end-Gives r n
          (insert_turn-Turned d x y z k u g gk (node black a m b) n h f.0 f.1 refl (ground arith))
          (ground arith))
        (around-recolour d (node red x y z) k u g gk (node black a m b) (node black a m b) r refl
          black red)
