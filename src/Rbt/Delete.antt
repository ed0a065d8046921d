-- ===== src/Rbt/Delete.antt =====
-- include/lib/rbtree.h: `remove_bottom` restores the colour rules, and keeps the other keys.
use jkos.Base.{
  ℕ, zero, suc, ◌≡◌, refl, ◌∙◌, true, false, Option, some, List, append_assoc, Bool-cases, inl, inr,
}
use jkos.Rbt.{
  Rbt, nil, node, Color, red, black, Dir, left, right, Route, is_black, join, plug, walk, Fixed,
  finished, climbs, fix_sibling,
}
use jkos.Rbt.Walk.{around, walk-plug}
use jkos.Rbt.Balance.{HasHeight, IsRedBlack, Fits, FitsAs, plug-IsRedBlack}

module _ {ℓ} {K : Type ℓ} where
  -- The tree lacks one black node where it stands: a red root has only to turn black.
  abbrev pub Lacks : Rbt K → Route K → ℕ → Type 0
  Lacks nil r n = (n ≡ 0) × Fits r (suc n)
  Lacks (node red a k b) r n = HasHeight a n × HasHeight b n × Fits r (suc n)
  Lacks (node black a k b) r zero = ⊥
  Lacks (node black a k b) r (suc n) = HasHeight a n × HasHeight b n × Fits r (suc (suc n))

  -- What a round of the loop may return, for the keys `ks` and the route `r` to the parent.
  pub data Good (c : Color) (ks : List K) (r : Route K) (call : Option (Fixed K)) : Type ℓ where
    good :
        (t : Rbt K)
        → call ≡ some (finished t)
        → IsRedBlack t
        → walk t ≡ around r ks
        → Good c ks r call
    climb :
        (t : Rbt K) (m : ℕ)
        → call ≡ some (climbs t r)
        → (c ≡ red → is_black t ≡ false)
        → Lacks t r m
        → walk t ≡ ks
        → Good c ks r call

  -- The two subtrees of the result have the height `n` of black nodes.
  top-Good :
      (c : Color) (a : Rbt K) (k : K) (b : Rbt K) (r : Route K) (n : ℕ)
      → is_black a ≡ true
      → is_black b ≡ true
      → HasHeight a n
      → HasHeight b n
      → FitsAs c r n
      → IsRedBlack (plug (node c a k b) r)
  top-Good red a k b r n p q ha hb f =
      plug-IsRedBlack (node red a k b) r n (p, q, ha, hb) f.0 (λ e. f.1)
  top-Good black a k b r n p q ha hb f =
      plug-IsRedBlack (node black a k b) r (suc n) (ha, hb) f (λ e. cc)

  climb-Good :
      (d : Dir) (t : Rbt K) (c : Color) (k : K) (s0 : Rbt K) (sk : K) (s1 : Rbt K) (r : Route K)
      (n : ℕ)
      → HasHeight t n
      → is_black t ≡ true
      → HasHeight s0 n
      → HasHeight s1 n
      → is_black s0 ≡ true
      → is_black s1 ≡ true
      → FitsAs c r (suc n)
      → Good c
          (walk (join d c t k (node black s0 sk s1)))
          r
          (fix_sibling d t c k (node black s0 sk s1) r)
  unfolding fix_sibling
  climb-Good left t red k s0 sk s1 r n ht bt h0 h1 b0 b1 f =
      rw (b0, b1)
        (climb (node red t k (node red s0 sk s1)) n refl (λ e. refl) (ht, (b0, b1, h0, h1), f.0)
          refl)
  climb-Good right t red k s0 sk s1 r n ht bt h0 h1 b0 b1 f =
      rw (b0, b1)
        (climb (node red (node red s0 sk s1) k t) n refl (λ e. refl) ((b0, b1, h0, h1), ht, f.0)
          refl)
  climb-Good left t black k s0 sk s1 r n ht bt h0 h1 b0 b1 f =
      rw (b0, b1)
        (climb (node black t k (node red s0 sk s1)) (suc n) refl (λ e. cc) (ht, (b0, b1, h0, h1), f)
          refl)
  climb-Good right t black k s0 sk s1 r n ht bt h0 h1 b0 b1 f =
      rw (b0, b1)
        (climb (node black (node red s0 sk s1) k t) (suc n) refl (λ e. cc) ((b0, b1, h0, h1), ht, f)
          refl)

  -- The far child of the sibling is red: one rotation at the parent.
  far-Good :
      (d : Dir) (t : Rbt K) (c : Color) (k : K) (near : Rbt K) (sk : K) (a : Rbt K) (m : K)
      (b : Rbt K) (r : Route K) (n : ℕ)
      → HasHeight t n
      → is_black t ≡ true
      → HasHeight near n
      → HasHeight (node red a m b) n
      → FitsAs c r (suc n)
      → Good c
          (walk (join d c t k (join d black near sk (node red a m b))))
          r
          (fix_sibling d t c k (join d black near sk (node red a m b)) r)
  unfolding fix_sibling
  far-Good left t c k near sk a m b r n ht bt hn hf f = elim (Bool-cases (is_black near)) [
    | inl e ↦ rw e (
        good (plug (node c (node black t k near) sk (node black a m b)) r) refl
          (top-Good c (node black t k near) sk (node black a m b) r (suc n) refl refl (ht, hn)
            (hf.2, hf.3) f)
          (walk-plug (node c (node black t k near) sk (node black a m b)) r ∙ (simp append_assoc)))
    | inr e ↦ rw e (
        good (plug (node c (node black t k near) sk (node black a m b)) r) refl
          (top-Good c (node black t k near) sk (node black a m b) r (suc n) refl refl (ht, hn)
            (hf.2, hf.3) f)
          (walk-plug (node c (node black t k near) sk (node black a m b)) r ∙ (simp append_assoc)))
  ]
  far-Good right t c k near sk a m b r n ht bt hn hf f =
      good (plug (node c (node black a m b) sk (node black near k t)) r) refl
        (top-Good c (node black a m b) sk (node black near k t) r (suc n) refl refl (hf.2, hf.3)
          (hn, ht) f)
        (walk-plug (node c (node black a m b) sk (node black near k t)) r ∙ (simp append_assoc))

  -- The near child alone is red: it is rotated above the sibling first.
  near-Good :
      (d : Dir) (t : Rbt K) (c : Color) (k : K) (a : Rbt K) (m : K) (b : Rbt K) (sk : K)
      (far : Rbt K) (r : Route K) (n : ℕ)
      → HasHeight t n
      → HasHeight (node red a m b) n
      → HasHeight far n
      → is_black far ≡ true
      → FitsAs c r (suc n)
      → Good c
          (walk (join d c t k (join d black (node red a m b) sk far)))
          r
          (fix_sibling d t c k (join d black (node red a m b) sk far) r)
  unfolding fix_sibling
  near-Good left t c k a m b sk far r n ht hn hf bf f = rw bf (
      good (plug (node c (node black t k a) m (node black b sk far)) r) refl
        (top-Good c (node black t k a) m (node black b sk far) r (suc n) refl refl (ht, hn.2)
          (hn.3, hf) f)
        (walk-plug (node c (node black t k a) m (node black b sk far)) r ∙ (simp append_assoc)))
  near-Good right t c k a m b sk far r n ht hn hf bf f = rw bf (
      good (plug (node c (node black far sk a) m (node black b k t)) r) refl
        (top-Good c (node black far sk a) m (node black b k t) r (suc n) refl refl (hf, hn.2)
          (hn.3, ht) f)
        (walk-plug (node c (node black far sk a) m (node black b k t)) r ∙ (simp append_assoc)))

  -- A round of the loop below a black sibling.
  pub fix_sibling-Good :
      (d : Dir) (t : Rbt K) (c : Color) (k : K) (s0 : Rbt K) (sk : K) (s1 : Rbt K) (r : Route K)
      (n : ℕ)
      → HasHeight t n
      → is_black t ≡ true
      → HasHeight s0 n
      → HasHeight s1 n
      → FitsAs c r (suc n)
      → Good c
          (walk (join d c t k (node black s0 sk s1)))
          r
          (fix_sibling d t c k (node black s0 sk s1) r)
  fix_sibling-Good left t c k s0 sk (node red a m b) r n ht bt h0 h1 f =
      far-Good left t c k s0 sk a m b r n ht bt h0 h1 f
  fix_sibling-Good right t c k (node red a m b) sk s1 r n ht bt h0 h1 f =
      far-Good right t c k s1 sk a m b r n ht bt h1 h0 f
  fix_sibling-Good left t c k (node red a m b) sk s1 r n ht bt h0 h1 f =
      near-Good left t c k a m b sk s1 r n ht h0 h1 refl f
  fix_sibling-Good right t c k s0 sk (node red a m b) r n ht bt h0 h1 f =
      near-Good right t c k a m b sk s0 r n ht h1 h0 refl f
  fix_sibling-Good d t c k s0 sk s1 r n ht bt h0 h1 f =
      climb-Good d t c k s0 sk s1 r n ht bt h0 h1 refl refl f
