-- ===== src/Kheap/Release.antt =====
-- core/kheap.cpp: `kfree` gives a block back, joined with the free blocks beside it.
use jkos.Base.{
  ℕ, ◌+◌, ◌-◌, ◌≡◌, ◌≢◌, ◌≤◌, ◌<◌, ◌^◌, refl, sym, ◌∙◌, ap, false, Bool-cases, inl, inr, Option,
  none, some, List, ◌∷◌, ◌++◌, arith, if◌then◌else◌, ◌==◌, ◌||◌, ltb, All-split, All-append, ◌>>=◌,
}
use jkos.Rbt.{Loc, get_key, find_ge, find_le, erase}
use jkos.Rbt.Bag.{gains, insert-Gains}
use jkos.Rbt.Find.{none_ge, first_ge, none_le, last_le, find_ge-FoundGe, find_le-FoundLe}
use jkos.Common.{word, get_aligned, page_floor, max, min, kernel_heap_begin, kernel_heap_end}
use jkos.Kheap.{
  Block, ByStart, Heap, size_order, start_order, erase_at, end_of, free_interval, nodes,
}
use jkos.Kheap.Free.{
  Merge, invalid, merged, merge_before, merge_behind, put_back, Release, released, kfree,
}
use jkos.Kheap.Carve.{cover}
use jkos.Kheap.State.{
  FreeInv, FreeInv-rest, size_key, start_key, by_size, by_start, is_empty, drops, drop-by_start,
  block_bounds, in_heap, enough_nodes,
}
use jkos.Kheap.Chunks.{Chunk, used_at, used_at-append, IsChunk, HeapInv, same-IsChunk}

-- The block on its way back, which is no longer in use and not yet free, and the heap.
data Merges (rest : ℕ → ℕ) (h : Heap) (call : Option Merge) : Type 0 where
  merges :
      (blk : Block) (edge : ℕ) (h' : Heap)
      → call ≡ some (merged blk edge h')
      → blk.size ≢ 0
      → FreeInv h' (λ a. cover blk a + rest a)
      → h'.header ≡ h.header
      → nodes h' ≤ nodes h
      → Merges rest h call

-- Two blocks of the heap with no common address.
record Beside (got blk : Block) : Type 0 where
  apart : (a : ℕ) → cover got a + cover blk a ≤ in_heap a
  got_solid : got.size ≢ 0
  blk_solid : blk.size ≢ 0

Beside-ends :
    (got blk : Block)
    → Beside got blk
    → (got.start + got.size ≤ kernel_heap_end) × (blk.start + blk.size ≤ kernel_heap_end)
Beside-ends got blk b = (
  (block_bounds got b.got_solid (λ a. omega (arith, b.apart a))).1,
  (block_bounds blk b.blk_solid (λ a. omega (arith, b.apart a))).1,
)

Beside-order :
    (got blk : Block) → Beside got blk → got.start ≤ blk.start → got.start + got.size ≤ blk.start
Beside-order got blk b h = ground (arith, b.apart blk.start, b.blk_solid)

join-cover :
    (got blk : Block)
    → Beside got blk
    → got.start + got.size ≡ blk.start
    → (a : ℕ)
    → cover got a + cover blk a
      ≡ cover (record { start = got.start; size = word (blk.size + got.size) }) a
join-cover got blk b e a =
    let (x, y) = Beside-ends got blk b in
    let w : word (blk.size + got.size) ≡ blk.size + got.size = omega (arith, x, y, e) in
    rw w (ground (arith, e))

join_solid :
    (got blk : Block)
    → Beside got blk
    → got.start + got.size ≤ blk.start
    → word (blk.size + got.size) ≢ 0
join_solid got blk b h =
    let (x, y) = Beside-ends got blk b in
    let w : word (blk.size + got.size) ≡ blk.size + got.size = omega (arith, x, y, h) in
    omega (arith, w, b.got_solid)

merge_before_alone :
    (blk : Block) (h : Heap)
    → find_le (start_key blk) h.tree_start ≡ none
    → merge_before blk h ≡ some (merged blk blk.start h)
unfolding merge_before
merge_before_alone blk h e = rw (e, merge_before) refl

merge_before_found :
    (blk : Block) (h : Heap) (p : Loc ByStart)
    → find_le (start_key blk) h.tree_start ≡ some p
    → merge_before blk h ≡ (
        let got = (get_key p).block in
        if ltb blk.start (end_of got)
        then some invalid
        else if end_of got == blk.start
        then (do
          by_start ← erase p
          by_size ← erase_at (find_ge (record { block = got }) h.tree_size)
          some (
              merged
                (record { start = got.start; size = word (blk.size + got.size) })
                (max (page_floor blk.start) got.start)
                (record h { tree_start = by_start; tree_size = by_size })))
        else some (merged blk blk.start h))
unfolding merge_before
merge_before_found blk h p e = rw (e, merge_before) refl

merge_before-Merges :
    (blk : Block) (h : Heap) (rest : ℕ → ℕ)
    → blk.size ≢ 0
    → FreeInv h (λ a. cover blk a + rest a)
    → Merges rest h (merge_before blk h)
merge_before-Merges blk h rest n v =
    elim (find_le-FoundLe (start_key blk) h.tree_start v.start_tree.sorted) [
      | none_le e a ↦ merges blk blk.start h (merge_before_alone blk h e) n v refl (omega arith)
      | last_le p e l a m ↦ elim (drop-by_start p h (λ a. cover blk a + rest a) l v) [
        | drops t s e1 e2 g d f ↦
            let got = (get_key p).block in
            let b : Beside got blk = record {
              apart = λ a. omega (arith, f.conserved a);
              got_solid = g;
              blk_solid = n;
            } in
            let o = Beside-order got blk b (ground (arith, m)) in
            let w : end_of got ≡ got.start + got.size = omega (arith, Beside-ends got blk b) in
            let c : ltb blk.start (end_of got) ≡ false = ground (arith, w, o) in
            elim (Bool-cases (end_of got == blk.start)) [
              | inr q ↦
                  merges blk blk.start h (merge_before_found blk h p e ∙ (rw (c, q) refl)) n v refl
                    (omega arith)
              | inl q ↦
                  let k : got.start + got.size ≡ blk.start = ground (arith, q, w) in
                  merges (record { start = got.start; size = word (blk.size + got.size) })
                    (max (page_floor blk.start) got.start)
                    (record h { tree_start = s; tree_size = t })
                    (merge_before_found blk h p e ∙ (rw (c, q, e2, e1) refl))
                    (join_solid got blk b o)
                    (FreeInv-rest _ _ _ (λ a. omega (arith, join-cover got blk b k a)) f) refl
                    (omega (arith, d))
            ]
      ]
    ]

merge_behind_alone :
    (blk : Block) (edge : ℕ) (h : Heap)
    → find_ge (start_key blk) h.tree_start ≡ none
    → merge_behind blk edge h ≡ some (merged blk edge h)
unfolding merge_behind
merge_behind_alone blk edge h e = rw (e, merge_behind) refl

merge_behind_found :
    (blk : Block) (edge : ℕ) (h : Heap) (p : Loc ByStart)
    → find_ge (start_key blk) h.tree_start ≡ some p
    → merge_behind blk edge h ≡ (
        let got = (get_key p).block in
        if ltb got.start (end_of blk)
        then some invalid
        else if end_of blk == got.start
        then (do
          by_start ← erase p
          by_size ← erase_at (find_ge (record { block = got }) h.tree_size)
          some (
              merged
                (record blk { size = word (blk.size + got.size) })
                (min (get_aligned edge 12) (end_of blk))
                (record h { tree_start = by_start; tree_size = by_size })))
        else some (merged blk edge h))
unfolding merge_behind
merge_behind_found blk edge h p e = rw (e, merge_behind) refl

merge_behind-Merges :
    (blk : Block) (edge : ℕ) (h : Heap) (rest : ℕ → ℕ)
    → blk.size ≢ 0
    → FreeInv h (λ a. cover blk a + rest a)
    → Merges rest h (merge_behind blk edge h)
merge_behind-Merges blk edge h rest n v =
    elim (find_ge-FoundGe (start_key blk) h.tree_start v.start_tree.sorted) [
      | none_ge e a ↦ merges blk edge h (merge_behind_alone blk edge h e) n v refl (omega arith)
      | first_ge p e l a m ↦ elim (drop-by_start p h (λ a. cover blk a + rest a) l v) [
        | drops t s e1 e2 g d f ↦
            let got = (get_key p).block in
            let b : Beside blk got = record {
              apart = λ a. omega (arith, f.conserved a);
              got_solid = n;
              blk_solid = g;
            } in
            let o = Beside-order blk got b (ground (arith, m)) in
            let w : end_of blk ≡ blk.start + blk.size = omega (arith, Beside-ends blk got b) in
            let c : ltb got.start (end_of blk) ≡ false = ground (arith, w, o) in
            elim (Bool-cases (end_of blk == got.start)) [
              | inr q ↦
                  merges blk edge h (merge_behind_found blk edge h p e ∙ (rw (c, q) refl)) n v refl
                    (omega arith)
              | inl q ↦
                  let k : blk.start + blk.size ≡ got.start = ground (arith, q, w) in
                  let z : word (got.size + blk.size) ≡ word (blk.size + got.size) = omega arith in
                  merges (record blk { size = word (blk.size + got.size) })
                    (min (get_aligned edge 12) (end_of blk))
                    (record h { tree_start = s; tree_size = t })
                    (merge_behind_found blk edge h p e ∙ (rw (c, q, e2, e1) refl))
                    (rw (← z) (join_solid blk got b o))
                    (FreeInv-rest _ _ _ (λ a. rw (← z) (omega (arith, join-cover blk got b k a))) f)
                    refl (omega (arith, d))
            ]
      ]
    ]

-- The end of `kfree` made the block free.
data Returns (rest : ℕ → ℕ) (h : Heap) (call : Option Heap) : Type 0 where
  returns :
      (h' : Heap) → call ≡ some h' → FreeInv h' rest → h'.header ≡ h.header → Returns rest h call

put_back-Returns :
    (blk : Block) (first last : ℕ) (h : Heap) (rest : ℕ → ℕ)
    → blk.size ≢ 0
    → FreeInv h (λ a. cover blk a + rest a)
    → nodes h < 1022
    → Returns rest h (put_back blk first last h)
unfolding put_back
put_back-Returns blk first last h rest n v m =
    elim (insert-Gains (start_key blk) h.tree_start v.start_tree) [
      | gains s e j g ↦ elim (insert-Gains (size_key blk) h.tree_size v.size_tree) [
        | gains t e' i f ↦
            returns
              (record h {
                tree_start = s;
                tree_size = t;
                pages = free_interval (get_aligned first 12) (page_floor last) ∷ h.pages;
              })
              (rw (enough_nodes h m, e, e') refl)
              (record {
                size_tree = i;
                start_tree = j;
                same = λ w.
                    f (λ k. w k.block) ∙ ap (λ x. w blk + x) (v.same w) ∙ sym (g (λ k. w k.block));
                solid = ground (arith, g (λ k. is_empty k.block), v.solid);
                conserved = λ a. omega (arith, g (λ k. cover k.block a), v.conserved a);
              })
              refl
      ]
    ]

kfree-steps :
    (addr : ℕ) (h h1 h2 h3 : Heap) (blk blk1 blk2 : Block) (first last : ℕ)
    → h.header (word (addr + 2 ^ 32 - 8)) ≡ blk
    → (ltb blk.start kernel_heap_begin || ltb kernel_heap_end (end_of blk)) ≡ false
    → merge_before blk h ≡ some (merged blk1 first h1)
    → merge_behind blk1 (end_of blk) h1 ≡ some (merged blk2 last h2)
    → put_back blk2 first last h2 ≡ some h3
    → kfree addr h ≡ some (released h3)
unfolding kfree
kfree-steps addr h h1 h2 h3 blk blk1 blk2 first last e g a b c =
    rw (e, g, a) (rw e (rw (b, c) refl))

-- `kfree` of the address fails no check and no search of a tree, and the heap that it leaves is in
-- order with the allocations `used`.
pub data Frees (used : List Chunk) (call : Option Release) : Type 0 where
  frees : (h' : Heap) → call ≡ some (released h') → HeapInv h' used → Frees used call

-- In a heap in order with fewer than 1022 nodes of its pool in use, `kfree` of the address of an
-- allocation does not panic: the addresses of its block are free again, the other allocations stay
-- with their blocks and headers, and the heap is in order.
pub kfree-Frees :
    (h : Heap) (xs : List Chunk) (c : Chunk) (ys : List Chunk)
    → HeapInv h (xs ++ (c ∷ ys))
    → nodes h < 1022
    → Frees (xs ++ ys) (kfree c.addr h)
kfree-Frees h xs c ys v m =
    let (before, (at, behind)) = All-split (IsChunk h) xs (c ∷ ys) v.chunks in
    let n : c.block.size ≢ 0 = omega (arith, at.header_inside, at.memory_inside) in
    let f =
      FreeInv-rest h _ (λ a. cover c.block a + used_at (xs ++ ys) a)
        (λ a. omega (arith, used_at-append xs (c ∷ ys) a, used_at-append xs ys a)) v.free in
    let (lo, hi) = block_bounds c.block n (λ a. omega (arith, f.conserved a)) in
    let w : word (c.addr + 2 ^ 32 - 8) ≡ c.addr - 8 =
      omega (arith, at.header_inside, at.memory_inside, hi) in
    let q : end_of c.block ≡ c.block.start + c.block.size = omega (arith, hi) in
    let g : (ltb c.block.start kernel_heap_begin || ltb kernel_heap_end (end_of c.block)) ≡ false =
      ground (arith, lo, hi, q) in
    elim (merge_before-Merges c.block h (used_at (xs ++ ys)) n f) [
      | merges blk1 first h1 e1 n1 f1 r1 d1 ↦
          elim (merge_behind-Merges blk1 (end_of c.block) h1 (used_at (xs ++ ys)) n1 f1) [
            | merges blk2 last h2 e2 n2 f2 r2 d2 ↦
                elim (put_back-Returns blk2 first last h2 (used_at (xs ++ ys)) n2 f2
                  (omega (arith, m, d1, d2))) [
                    | returns h3 e3 f3 r3 ↦
                        frees h3
                          (kfree-steps c.addr h h1 h2 h3 c.block blk1 blk2 first last
                            (ap (λ a. h.header a) w ∙ at.recorded) g e1 e2 e3)
                          (record {
                            free = f3;
                            chunks =
                                same-IsChunk h h3 (xs ++ ys) (r3 ∙ r2 ∙ r1)
                                  (All-append (IsChunk h) xs ys before behind);
                          })
                  ]
          ]
    ]
