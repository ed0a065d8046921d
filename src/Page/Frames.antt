-- ===== src/Page/Frames.antt =====
-- core/page.cpp: `alloc`, `lazy_alloc` and `free` of an entry keep the reference counts.
use jkos.Base.{
  update, ℕ, ◌%◌, ◌≡◌, sym, ap, ◌∙◌, ◌≢◌, ◌^◌, refl, Bool, true, Option, none, some, List, [], ◌∷◌,
  ◌==◌, ◌&&◌, if◌then◌else◌, arith, Bool-cases, inl, inr,
}
use jkos.Page.{Entry, Memory, decrement, alloc, lazy_alloc, free}
use jkos.Page.Refs.{refs, occurrences, RefInv, refs-le-length}

module _ (pool : ℕ → Bool) (es : List Entry) where
  -- The top of the stack is a frame of the pool that no entry has.
  pub top_free :
      (m : Memory) (e : Entry) (a : ℕ) (rest : List ℕ)
      → m.frames ≡ a ∷ rest
      → RefInv pool m (e ∷ es)
      → (pool a ≡ true)
        × (refs a (e ∷ es) ≡ 0)
        × (occurrences a rest ≡ 0)
        × (a % 2 ^ 20 ≡ a)
        × (a ≢ 0)
  top_free m e a rest q v =
      let c : occurrences a (a ∷ rest) ≡ (if pool a && (refs a (e ∷ es) == 0) then 1 else 0) =
        sym (ap (occurrences a) q) ∙ v.conserved a in
      ground (arith, c, v.in_bits a)

  -- An entry with no frame takes the top of the stack.
  pub take-RefInv :
      (m m' : Memory) (e e' : Entry) (a : ℕ) (rest : List ℕ)
      → e.addr ≡ 0
      → e'.addr ≡ a
      → m.frames ≡ a ∷ rest
      → m'.frames ≡ rest
      → m'.ref_cnt ≡ update m.ref_cnt a 1
      → RefInv pool m (e ∷ es)
      → RefInv pool m' (e' ∷ es)
  take-RefInv m m' e e' a rest z z' q q' u v = record {
    no_null = v.no_null;
    in_bits = v.in_bits;
    few = v.few;
    conserved = λ b.
        let c : occurrences b (a ∷ rest) ≡ (if pool b && (refs b (e ∷ es) == 0) then 1 else 0) =
          sym (ap (occurrences b) q) ∙ v.conserved b in
        rw (q', z') (ground (arith, c, t));
    counted = λ b. rw (u, z') (ground (arith, v.counted b, t));
  }
    where
      t :
          (pool a ≡ true)
          × (refs a (e ∷ es) ≡ 0)
          × (occurrences a rest ≡ 0)
          × (a % 2 ^ 20 ≡ a)
          × (a ≢ 0)
      t = top_free m e a rest q v

  -- An entry drops its frame, which goes back on the stack with the last reference.
  pub drop-RefInv :
      (m m' : Memory) (e e' : Entry)
      → e.addr ≢ 0
      → e'.addr ≡ 0
      → m'.frames ≡ (if decrement (m.ref_cnt e.addr) == 0 then e.addr ∷ m.frames else m.frames)
      → m'.ref_cnt ≡ update m.ref_cnt e.addr (decrement (m.ref_cnt e.addr))
      → RefInv pool m (e ∷ es)
      → RefInv pool m' (e' ∷ es)
  drop-RefInv m m' e e' n z q u v = record {
    no_null = v.no_null;
    in_bits = v.in_bits;
    few = v.few;
    conserved = λ b.
        rw (q, z)
          (ground (
            arith,
            v.conserved b,
            v.conserved e.addr,
            v.counted b,
            v.counted e.addr,
            refs-le-length e.addr es,
            v.few,
            v.no_null,
          ));
    counted = λ b.
        rw (u, z) (ground (arith, v.counted b, v.counted e.addr, refs-le-length e.addr es, v.few));
  }

  -- Entries with the same frames, and a memory with the same stack and counts.
  pub same-RefInv :
      (m m' : Memory) (e e' : Entry)
      → e'.addr ≡ e.addr
      → m'.frames ≡ m.frames
      → m'.ref_cnt ≡ m.ref_cnt
      → RefInv pool m (e ∷ es)
      → RefInv pool m' (e' ∷ es)
  same-RefInv m m' e e' z q u v = record {
    no_null = v.no_null;
    in_bits = v.in_bits;
    few = v.few;
    conserved = λ b. rw (q, z) (v.conserved b);
    counted = λ b. rw (u, z) (v.counted b);
  }

  -- The three ways that `alloc` ends.
  pub data AllocResult (user writable : Bool) (e : Entry) (m : Memory)
      (call : Option (Entry × Memory)) : Type 0 where
    no_frame : e.addr ≡ 0 → m.frames ≡ [] → call ≡ none → AllocResult user writable e m call
    kept :
        e.addr ≢ 0
        → call ≡ some (record e { rw = writable; user = user }, m)
        → AllocResult user writable e m call
    fresh :
        (a : ℕ) (rest : List ℕ)
        → e.addr ≡ 0
        → m.frames ≡ a ∷ rest
        → call
          ≡ some (
            record e { rw = writable; user = user; addr = a; allocable = true; present = true },
            record m { frames = rest; ref_cnt = update m.ref_cnt a 1 },
          )
        → AllocResult user writable e m call

  pub alloc-AllocResult :
      (user writable : Bool) (e : Entry) (m : Memory)
      → RefInv pool m (e ∷ es)
      → AllocResult user writable e m (alloc user writable e m)
  unfolding alloc
  alloc-AllocResult user writable e m v = elim (Bool-cases (e.addr == 0)) [
    | inl z ↦ go m.frames refl (ground arith)
    | inr z ↦ kept (ground arith) (rw z)
  ]
    where
      go :
          (fs : List ℕ)
          → m.frames ≡ fs
          → e.addr ≡ 0
          → AllocResult user writable e m (alloc user writable e m)
      go [] q z = no_frame z q (rw (z, q))
      go (a ∷ rest) q z = fresh a rest z q (rw (z, q, (top_free m e a rest q v).3))

  -- `alloc` keeps the invariant of the reference counts.
  pub alloc-RefInv :
      (user writable : Bool) (e : Entry) (m : Memory) {e' : Entry} {m' : Memory}
      → RefInv pool m (e ∷ es)
      → alloc user writable e m ≡ some (e', m')
      → RefInv pool m' (e' ∷ es)
  alloc-RefInv user writable e m {e'} {m'} v h = go (alloc-AllocResult user writable e m v)
    where
      go : AllocResult user writable e m (alloc user writable e m) → RefInv pool m' (e' ∷ es)
      go (no_frame z q c) = cc
      go (kept n c) =
          same-RefInv m m' e e' (ground (arith, c)) (ground (arith, c)) (ground (arith, c)) v
      go (fresh a rest z q c) =
          take-RefInv m m' e e' a rest z (ground (arith, c)) q (ground (arith, c))
            (ground (arith, c)) v

  -- `lazy_alloc` keeps the invariant of the reference counts.
  pub lazy_alloc-RefInv :
      (user writable fill_zero : Bool) (e : Entry) (m : Memory)
      → RefInv pool m (e ∷ es)
      → let (e', m') = lazy_alloc user writable fill_zero e m in RefInv pool m' (e' ∷ es)
  unfolding lazy_alloc
  lazy_alloc-RefInv user writable fill_zero e m v =
      same-RefInv m _ e _ (ground arith) (ground arith) (ground arith) v

  -- `free` keeps the invariant of the reference counts: a frame goes back on the stack exactly with
  -- its last reference.
  pub free-RefInv :
      (e : Entry) (m : Memory)
      → RefInv pool m (e ∷ es)
      → let (e', m') = free e m in RefInv pool m' (e' ∷ es)
  unfolding free
  free-RefInv e m v = elim (Bool-cases (e.addr == 0)) [
    | inl z ↦ rw z v
    | inr z ↦ rw z (drop-RefInv m _ e _ (ground arith) refl refl refl v)
  ]
