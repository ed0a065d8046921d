-- ===== src/Rbt/Climb.antt =====
-- include/lib/rbtree.h: the climb of `remove_bottom` ends, and `erase` as a whole.
use jkos.Base.{
  ℕ, zero, suc, ◌≤◌, ◌<◌, ◌≡◌, refl, sym, ap, true, false, Option, List, [], ◌∷◌, append_assoc,
  append-nil, arith, length, ◌>>=◌,
}
use jkos.Rbt.{
  Rbt, nil, node, Color, red, black, Dir, left, right, frame, Route, is_black, plug, walk, Fixed,
  continue, lower_sibling, delete_fix,
}
use jkos.Rbt.Walk.{around, around-frame, walk-plug}
use jkos.Rbt.Balance.{HasHeight, Fits, FitsAs, Gives, gives, Gives-keys, plug-IsRedBlack}
use jkos.Rbt.Delete.{Lacks, Good, good, climb, fix_sibling-Good}

module _ {ℓ} {K : Type ℓ} where
  Lacks-black :
      (t : Rbt K) (r : Route K) (n : ℕ)
      → Lacks t r n
      → is_black t ≡ true
      → HasHeight t n × Fits r (suc n)
  Lacks-black nil r n h e = h
  Lacks-black (node red a k b) r n h e = cc e
  Lacks-black (node black a k b) r zero h e = elim h [ ]
  Lacks-black (node black a k b) r (suc n) h e = ((h.0, h.1), h.2)

  continue-Gives :
      (c : Color) {ks : List K} {r : Route K} {call : Option (Fixed K)}
      (again : Rbt K → Route K → Option (Rbt K))
      → Good c ks r call
      → ((t : Rbt K) (m : ℕ)
          → Lacks t r m
          → (c ≡ red → is_black t ≡ false)
          → Gives (around r (walk t)) (again t r))
      → Gives (around r ks) (call >>= continue again)
  continue-Gives c again (good t e b w) next = rw e (gives t refl b w)
  continue-Gives c {r} again (climb t m e p l w) next =
      rw e (Gives-keys (next t m l p) (ap (around r) w))

  FitsAs-frame :
      (d : Dir) (c : Color) (k : K) (u : Rbt K) (r : Route K) (n : ℕ)
      → Fits (frame d c k u ∷ r) n
      → HasHeight u n × FitsAs c r n
  FitsAs-frame d red k u r n f = (f.1, (f.2, f.3))
  FitsAs-frame d black k u r n f = f

  delete_fix_red :
      (fuel : ℕ) (a : Rbt K) (k : K) (b : Rbt K) (r : Route K) (n : ℕ)
      → Lacks (node red a k b) r n
      → Gives (around r (walk (node red a k b))) (delete_fix (suc fuel) (node red a k b) r)
  unfolding delete_fix
  delete_fix_red fuel a k b [] n h =
      gives (node black a k b) refl
        (record { height = suc n; rules = (h.0, h.1); root_black = refl }) (sym (append-nil _))
  delete_fix_red fuel a k b (frame d c k' s ∷ r) n h =
      gives (plug (node black a k b) (frame d c k' s ∷ r)) refl
        (plug-IsRedBlack (node black a k b) (frame d c k' s ∷ r) (suc n) (h.0, h.1) h.2 (λ e. cc))
        (walk-plug (node black a k b) (frame d c k' s ∷ r))

  delete_fix_root :
      (fuel : ℕ) (t : Rbt K) (n : ℕ)
      → HasHeight t n
      → is_black t ≡ true
      → Gives (around [] (walk t)) (delete_fix (suc fuel) t [])
  unfolding delete_fix
  delete_fix_root fuel nil n h e =
      gives nil refl (record { height = n; rules = h; root_black = refl }) refl
  delete_fix_root fuel (node red a k b) n h e = cc e
  delete_fix_root fuel (node black a k b) n h e =
      gives (node black a k b) refl (record { height = n; rules = h; root_black = refl })
        (sym (append-nil _))

  -- A black `t` under a parent that has the sibling `s`.
  delete_round :
      (fuel : ℕ) (t : Rbt K) (d : Dir) (c : Color) (k : K) (s : Rbt K) (r : Route K) (n : ℕ)
      → HasHeight t n
      → is_black t ≡ true
      → Fits (frame d c k s ∷ r) (suc n)
      → ((u : Rbt K) (r' : Route K) (m : ℕ)
          → Lacks u r' m
          → (is_black u ≡ true → length r' ≤ length r)
          → Gives (around r' (walk u)) (delete_fix fuel u r'))
      → Gives (around (frame d c k s ∷ r) (walk t)) (delete_fix (suc fuel) t (frame d c k s ∷ r))
  unfolding delete_fix lower_sibling
  delete_round fuel t d c k nil r n h e f again =
      absurd (omega (arith, (FitsAs-frame d c k nil r (suc n) f).0))
  delete_round fuel t d c k (node black s0 sk s1) r n h e f again =
      let g = FitsAs-frame d c k (node black s0 sk s1) r (suc n) f in
      rw (e, delete_fix)
        (Gives-keys
          (continue-Gives c (delete_fix fuel)
            (fix_sibling-Good d t c k s0 sk s1 r n h e g.0.0 g.0.1 g.1)
            (λ u m l p. again u r m l (λ q. omega arith)))
          (around-frame d c t k (node black s0 sk s1) r))
  delete_round fuel t d red k (node red s0 sk s1) r n h e f again = cc (f.0)
  delete_round fuel t left black k (node red (node black x y z) sk s1) r n h e f again =
      rw (e, delete_fix)
        (Gives-keys
          (continue-Gives red (delete_fix fuel)
            (fix_sibling-Good left t red k x y z (frame left black sk s1 ∷ r) n h e (f.0.2.0)
              (f.0.2.1) ((f.0.3, f.1), refl))
            (λ u m l p. again u (frame left black sk s1 ∷ r) m l (λ q. cc (p refl, q))))
          (simp append_assoc))
  delete_round fuel t left black k (node red nil sk s1) r n h e f again =
      absurd (omega (arith, f.0.2))
  delete_round fuel t left black k (node red (node red x y z) sk s1) r n h e f again = cc (f.0.0)
  delete_round fuel t right black k (node red s0 sk (node black x y z)) r n h e f again =
      rw (e, delete_fix)
        (Gives-keys
          (continue-Gives red (delete_fix fuel)
            (fix_sibling-Good right t red k x y z (frame right black sk s0 ∷ r) n h e (f.0.3.0)
              (f.0.3.1) ((f.0.2, f.1), refl))
            (λ u m l p. again u (frame right black sk s0 ∷ r) m l (λ q. cc (p refl, q))))
          (simp append_assoc))
  delete_round fuel t right black k (node red s0 sk nil) r n h e f again =
      absurd (omega (arith, f.0.3))
  delete_round fuel t right black k (node red s0 sk (node red x y z)) r n h e f again = cc (f.0.1)

  -- The climb ends in a red-black tree that has the keys in place, within the fuel.
  pub delete_fix-Gives :
      (fuel : ℕ) (t : Rbt K) (r : Route K) (n : ℕ)
      → Lacks t r n
      → 0 < fuel
      → (is_black t ≡ true → length r < fuel)
      → Gives (around r (walk t)) (delete_fix fuel t r)
  delete_fix-Gives zero t r n h q p = absurd (omega arith)
  delete_fix-Gives (suc fuel) (node red a k b) r n h q p = delete_fix_red fuel a k b r n h
  delete_fix-Gives (suc fuel) t [] n h q p =
      delete_fix_root fuel t n (Lacks-black t [] n h refl).0 refl
  delete_fix-Gives (suc fuel) t (frame d c k s ∷ r) n h q p =
      let b = Lacks-black t (frame d c k s ∷ r) n h refl in
      delete_round fuel t d c k s r n b.0 refl b.1 (λ u r' m l e.
        delete_fix-Gives fuel u r' m l (omega (arith, p refl)) (λ e'. omega (arith, e e', p refl)))
