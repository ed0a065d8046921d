-- ===== src/Page/Clone.antt =====
-- core/page.cpp: `clone_table` shares every frame of a table read-only.
use jkos.Base.{
  ℕ, ◌+◌, ◌≡◌, ap, ◌≢◌, ◌^◌, ◌<◌, refl, Bool, false, List, [], ◌∷◌, ◌++◌, ◌==◌, arith, length,
  length-append, Bool-cases, inl, inr,
}
use jkos.Page.{Entry, Memory, share, clone_table}
use jkos.Page.Refs.{refs, RefInv, refs-le-length, refs-append}

module _ (pool : ℕ → Bool) where
  -- The invariant reads the entries as a bag.
  pub RefInv-bag :
      (m : Memory) (es fs : List Entry)
      → ((a : ℕ) → refs a es ≡ refs a fs)
      → length es ≡ length fs
      → RefInv pool m es
      → RefInv pool m fs
  RefInv-bag m es fs r l v = record {
    no_null = v.no_null;
    in_bits = v.in_bits;
    few = omega (arith, v.few);
    conserved = λ a. rw (← r a) (v.conserved a);
    counted = λ a. rw (← r a) (v.counted a);
  }

  -- A second entry with the same frame.
  share-RefInv :
      (e : Entry) (m : Memory) (es : List Entry)
      → length es + 2 < 2 ^ 32
      → RefInv pool m (e ∷ es)
      → let (e', m') = share e m in RefInv pool m' (e' ∷ e' ∷ es)
  unfolding share
  share-RefInv e m es few v = record {
    no_null = v.no_null;
    in_bits = v.in_bits;
    few = ground arith;
    conserved = λ b. ground (arith, v.conserved b, v.no_null);
    counted = λ b. ground (arith, v.counted b, v.counted e.addr, refs-le-length e.addr es);
  }

  -- The entries before and behind, in another order.
  regroup-RefInv :
      (m : Memory) (e : Entry) (xs ys es : List Entry)
      → RefInv pool m (xs ++ (ys ++ (e ∷ e ∷ es)))
      → RefInv pool m ((e ∷ xs) ++ ((e ∷ ys) ++ es))
  regroup-RefInv m e xs ys es =
      RefInv-bag m _ _
        (λ a. omega (
          arith,
          refs-append a xs (ys ++ (e ∷ e ∷ es)),
          refs-append a ys (e ∷ e ∷ es),
          refs-append a xs (e ∷ ys ++ es),
          refs-append a ys es,
        ))
        (omega (
          arith,
          length-append xs (ys ++ (e ∷ e ∷ es)),
          length-append ys (e ∷ e ∷ es),
          length-append xs (e ∷ ys ++ es),
          length-append ys es,
        ))

  -- One entry with the rest of the source behind it.
  swap-RefInv :
      (m : Memory) (e : Entry) (xs es : List Entry)
      → RefInv pool m (e ∷ e ∷ xs ++ es)
      → RefInv pool m (xs ++ (e ∷ e ∷ es))
  swap-RefInv m e xs es =
      RefInv-bag m _ _ (λ a. omega (arith, refs-append a xs es, refs-append a xs (e ∷ e ∷ es)))
        (omega (arith, length-append xs es, length-append xs (e ∷ e ∷ es)))

  -- The loop of `clone_table` keeps the invariant of the reference counts, for the source, the copy and
  -- all other entries, as long as there are fewer than 2^32 entries.
  pub clone_table-RefInv :
      (src : List Entry) (m : Memory) (es : List Entry)
      → length src + length src + length es < 2 ^ 32
      → RefInv pool m (src ++ es)
      → let (src', dest', m') = clone_table src m in RefInv pool m' (src' ++ (dest' ++ es))
  unfolding clone_table
  clone_table-RefInv [] m es few v = v
  clone_table-RefInv (e ∷ src) m es few v =
      let (e', m1) = share e m in
      let (src', dest', m2) = clone_table src m1 in
      regroup-RefInv m2 e' src' dest' es (
        clone_table-RefInv src m1 (e' ∷ e' ∷ es) (omega arith) (
          swap-RefInv m1 e' src es
            (share-RefInv e m (src ++ es) (omega (arith, length-append src es)) v)))

abbrev pub ReadOnly : Entry → Type 0
ReadOnly e = e.addr ≢ 0 → e.rw ≡ false

-- The entry of the clone beside the entry that it was made of.
pub data IsShared (e e' : Entry) : Type 0 where
  is_shared : e' ≡ record e { rw = e'.rw } → ReadOnly e' → IsShared e e'

-- Item for item.
pub data Forall2 (R : Entry → Entry → Type 0) : List Entry → List Entry → Type 0 where
  nil : Forall2 R [] []
  cons : {x y : Entry} {xs ys : List Entry} → R x y → Forall2 R xs ys → Forall2 R (x ∷ xs) (y ∷ ys)

share-IsShared : (e : Entry) (m : Memory) → IsShared e (share e m).0
unfolding share
share-IsShared e m = elim (Bool-cases (e.addr == 0)) [
  | inl z ↦ rw z (is_shared refl (λ n. absurd (n (ground arith))))
  | inr z ↦ rw z (is_shared refl (λ n. refl))
]

-- `clone_table` leaves the source and the copy alike; each entry differs from the one before at
-- most in `rw`, and every entry with a frame is read-only.
pub clone_table_shares :
    (src : List Entry) (m : Memory)
    → let (src', dest', m') = clone_table src m in (dest' ≡ src') × Forall2 IsShared src src'
unfolding clone_table
clone_table_shares [] m = (refl, nil)
clone_table_shares (e ∷ src) m =
    let r = clone_table_shares src (share e m).1 in
    (ap (λ es. (share e m).0 ∷ es) r.0, cons (share-IsShared e m) r.1)
