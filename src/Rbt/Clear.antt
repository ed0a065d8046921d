-- ===== src/Rbt/Clear.antt =====
-- include/lib/rbtree.h: `clear`.
use jkos.Base.{ℕ, ◌+◌, ◌≡◌, List, ◌∷◌, arith}
use jkos.Rbt.{Rbt, nil, node, walk}
use jkos.Rbt.Bag.{sum, sum-append}

module _ {ℓ κ} {K : Type ℓ} {W : Type κ} (node_free : K → W → W) where
  -- `do_clear`; a node is named by its key.
  unfoldable pub do_clear : Rbt K → W → W
  do_clear nil w = w
  do_clear (node c l k r) w = node_free k (do_clear r (do_clear l w))

  unfoldable pub clear : Rbt K → W → Rbt K × W
  unfolding do_clear
  clear t w = (nil, do_clear t w)

-- `clear` frees each node once.
pub sum-clear {ℓ} :
    {K : Type ℓ} (f : K → ℕ) (t : Rbt K) (ks : List K)
    → sum f (do_clear (λ k l. k ∷ l) t ks) ≡ sum f (walk t) + sum f ks
unfolding do_clear
sum-clear f nil ks = omega arith
sum-clear f (node c l k r) ks = omega (
  arith,
  sum-clear f r (do_clear (λ k l. k ∷ l) l ks),
  sum-clear f l ks,
  sum-append f (walk l) (k ∷ walk r),
)
