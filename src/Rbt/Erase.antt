-- ===== src/Rbt/Erase.antt =====
-- include/lib/rbtree.h: `erase` takes one key out of a red-black tree and keeps the rest.
use jkos.Base.{
  ℕ, zero, suc, ◌+◌, ◌≡◌, refl, ◌∙◌, true, false, some, List, [], ◌∷◌, ◌++◌, append_assoc,
  append-nil, arith, inl, inr, length, ◌⊎◌,
}
use jkos.Rbt.{
  Rbt, nil, node, Color, red, black, Dir, left, right, frame, Route, is_black, is_red, join, plug,
  set_black, walk, delete_fix, remove_bottom, Loc, loc, loc_tree, get_key, min_loc, erase,
}
use jkos.Rbt.Walk.{around, before, after, walk-plug}
use jkos.Rbt.Balance.{
  HasHeight, IsRedBlack, Fits, top_black, Gives, gives, Gives-keys, plug-IsRedBlack,
}
use jkos.Rbt.Delete.{Lacks}
use jkos.Rbt.Climb.{delete_fix-Gives}

module _ {ℓ} {K : Type ℓ} where
  -- The keys of the tree before and after a node.
  abbrev pub keys_before : Loc K → List K
  keys_before (loc c l k r route) = before route ++ walk l

  abbrev pub keys_after : Loc K → List K
  keys_after (loc c l k r route) = walk r ++ after route

  pub walk-loc_tree : (p : Loc K) → walk (loc_tree p) ≡ keys_before p ++ (get_key p ∷ keys_after p)
  walk-loc_tree (loc c l k r route) = walk-plug (node c l k r) route ∙ (simp append_assoc)

  -- A subtree of a red-black tree stands where it fits.
  record Stands (t : Rbt K) (r : Route K) : Type 0 where
    height : ℕ
    rules : HasHeight t height
    fits : Fits r height
    top : is_black t ≡ false → top_black r ≡ true

  Stands-child :
      (d : Dir) (c : Color) (t : Rbt K) (k : K) (u : Rbt K) (r : Route K)
      → Stands (join d c t k u) r
      → Stands t (frame d c k u ∷ r)
  Stands-child left red t k u r s = record {
    height = s.height;
    rules = s.rules.2;
    fits = (s.rules.1, s.rules.3, s.fits, s.top refl);
    top = λ e. cc (s.rules.0);
  }
  Stands-child right red t k u r s = record {
    height = s.height;
    rules = s.rules.3;
    fits = (s.rules.0, s.rules.2, s.fits, s.top refl);
    top = λ e. cc (s.rules.1);
  }
  Stands-child left black t k u r s = go s.height s.rules s.fits
    where
      go : (n : ℕ) → HasHeight (node black t k u) n → Fits r n → Stands t (frame left black k u ∷ r)
      go zero h f = elim h [ ]
      go (suc n) h f = record { height = n; rules = h.0; fits = (h.1, f); top = λ e. refl }
  Stands-child right black t k u r s = go s.height s.rules s.fits
    where
      go :
          (n : ℕ) → HasHeight (node black u k t) n → Fits r n → Stands t (frame right black k u ∷ r)
      go zero h f = elim h [ ]
      go (suc n) h f = record { height = n; rules = h.1; fits = (h.0, f); top = λ e. refl }

  Stands-plug : (t : Rbt K) (r : Route K) → IsRedBlack (plug t r) → Stands t r
  unfolding plug
  Stands-plug t [] b = record {
    height = b.height;
    rules = b.rules;
    fits = tt;
    top = λ e. cc (b.root_black);
  }
  Stands-plug t (frame d c k u ∷ r) b = Stands-child d c t k u r (Stands-plug (join d c t k u) r b)

  -- The key of a frame does not count.
  Stands-key :
      (t : Rbt K) (d : Dir) (c : Color) (k k' : K) (u : Rbt K) (r : Route K)
      → Stands t (frame d c k u ∷ r)
      → Stands t (frame d c k' u ∷ r)
  Stands-key t d red k k' u r s = record {
    height = s.height;
    rules = s.rules;
    fits = s.fits;
    top = s.top;
  }
  Stands-key t d black k k' u r s = record {
    height = s.height;
    rules = s.rules;
    fits = s.fits;
    top = s.top;
  }

  Lacks-of :
      (t : Rbt K) (r : Route K) (n : ℕ)
      → is_red t ≡ false
      → HasHeight t n
      → Fits r (suc n)
      → Lacks t r n
  Lacks-of nil r n e h f = (h, f)
  Lacks-of (node red a k b) r n e h f = cc e
  Lacks-of (node black a k b) r zero e h f = elim h [ ]
  Lacks-of (node black a k b) r (suc n) e h f = (h.0, h.1, f)

  -- A black node that has at most one child is gone, and `t` takes its place.
  raise-Gives :
      (t : Rbt K) (r : Route K) (n : ℕ)
      → HasHeight t n
      → Fits r (suc n)
      → Gives (around r (walk t)) (elim (is_red t) [
        | true ↦ some (plug (set_black t) r)
        | false ↦ delete_fix (length r + 2) t r
      ])
  raise-Gives nil r n h f =
      delete_fix-Gives (length r + 2) nil r n (h, f) (omega arith) (λ e. omega arith)
  raise-Gives (node red a k b) r n h f =
      gives (plug (node black a k b) r) refl
        (plug-IsRedBlack (node black a k b) r (suc n) (h.2, h.3) f (λ e. cc))
        (walk-plug (node black a k b) r)
  raise-Gives (node black a k b) r n h f =
      delete_fix-Gives (length r + 2) (node black a k b) r n
        (Lacks-of (node black a k b) r n refl h f) (omega arith) (λ e. omega arith)

  -- `remove_bottom` at a node with at most one child, which is `t`.
  bottom-Gives :
      (c : Color) (l : Rbt K) (k : K) (r : Rbt K) (route : Route K)
      → (l ≡ nil) ⊎ (r ≡ nil)
      → Stands (node c l k r) route
      → Gives (around route (walk l ++ walk r)) (remove_bottom (loc c l k r route))
  unfolding remove_bottom
  bottom-Gives red nil k r route e s =
      gives (plug r route) refl
        (plug-IsRedBlack r route s.height s.rules.3 s.fits (λ p. cc (s.rules.1, p)))
        (walk-plug r route)
  bottom-Gives red (node c a m b) k r route (inl e) s = cc e
  bottom-Gives red (node c a m b) k r route (inr e) s =
      Gives-keys
        (gives (plug (node c a m b) route) refl
          (plug-IsRedBlack (node c a m b) route s.height s.rules.2 s.fits (λ p. cc (s.rules.0, p)))
          (walk-plug (node c a m b) route))
        (rw (e, append-nil))
  bottom-Gives black nil k r route e s = go s.height s.rules s.fits
    where
      go :
          (n : ℕ)
          → HasHeight (node black nil k r) n
          → Fits route n
          → Gives (around route (walk r)) (remove_bottom (loc black nil k r route))
      go zero h f = elim h [ ]
      go (suc n) h f = raise-Gives r route n h.1 f
  bottom-Gives black (node c a m b) k r route (inl e) s = cc e
  bottom-Gives black (node c a m b) k r route (inr e) s = go s.height s.rules s.fits
    where
      go :
          (n : ℕ)
          → HasHeight (node black (node c a m b) k r) n
          → Fits route n
          → Gives
              (around route (walk (node c a m b) ++ walk r))
              (remove_bottom (loc black (node c a m b) k r route))
      go zero h f = elim h [ ]
      go (suc n) h f = Gives-keys (raise-Gives (node c a m b) route n h.0 f) (rw (e, append-nil))

  -- The keys of a node behind the first.
  min_rest : Rbt K → K → Rbt K → List K
  min_rest nil k r = walk r
  min_rest (node c l' k' r') k r = min_rest l' k' r' ++ (k ∷ walk r)

  walk-min_loc :
      (c : Color) (l : Rbt K) (k : K) (r : Rbt K) (route : Route K)
      → walk (node c l k r) ≡ get_key (min_loc c l k r route) ∷ min_rest l k r
  unfolding min_loc min_rest
  walk-min_loc c nil k r route = refl
  walk-min_loc c (node c' l' k' r') k r route =
      rw (walk-min_loc c' l' k' r' (frame left c k r ∷ route))

  regroup :
      (bs ls : List K) (key : K) (rest zs ws : List K)
      → ws ≡ key ∷ rest
      → (bs ++ (ls ++ (key ∷ []))) ++ (rest ++ zs) ≡ (bs ++ ls) ++ (ws ++ zs)
  regroup bs ls key rest zs ws e = simp (e, append_assoc)

  min-Gives :
      (c : Color) (l : Rbt K) (k : K) (r : Rbt K) (route : Route K)
      → Stands (node c l k r) route
      → Gives (around route (min_rest l k r)) (remove_bottom (min_loc c l k r route))
  unfolding min_loc min_rest
  min-Gives c nil k r route s = bottom-Gives c nil k r route (inl refl) s
  min-Gives c (node c' l' k' r') k r route s =
      Gives-keys
        (min-Gives c' l' k' r' (frame left c k r ∷ route)
          (Stands-child left c (node c' l' k' r') k r route s))
        (simp append_assoc)

  -- `erase` at a node of a red-black tree returns, within the fuel of the climb, a red-black tree
  -- that has the other keys in the same order.
  pub erase-Gives :
      (p : Loc K) → IsRedBlack (loc_tree p) → Gives (keys_before p ++ keys_after p) (erase p)
  unfolding erase
  erase-Gives (loc c l k nil route) b =
      Gives-keys (bottom-Gives c l k nil route (inr refl) (Stands-plug (node c l k nil) route b))
        (simp append_assoc)
  erase-Gives (loc c l k (node c' l' k' r') route) b =
      let key = get_key (min_loc c' l' k' r' (frame right c k l ∷ route)) in
      let s =
        Stands-child right c (node c' l' k' r') k l route
          (Stands-plug (node c l k (node c' l' k' r')) route b) in
      Gives-keys
        (min-Gives c' l' k' r' (frame right c key l ∷ route)
          (Stands-key (node c' l' k' r') right c k key l route s))
        (regroup (before route) (walk l) key (min_rest l' k' r') (after route)
          (walk (node c' l' k' r')) (walk-min_loc c' l' k' r' (frame right c k l ∷ route)))
