-- ===== src/Kheap/Alloc.antt =====
-- core/kheap.cpp: `kmalloc` takes a block of the free addresses and leaves the heap in order.
use jkos.Base.{
  ℕ, ◌+◌, ◌-◌, ◌≡◌, ◌≤◌, ◌<◌, ◌^◌, ◌%◌, refl, sym, ◌∙◌, ap, false, Option, none, some, List, [],
  ◌∷◌, arith, update, All,
}
use jkos.Rbt.{Loc, get_key, loc_tree, walk}
use jkos.Rbt.Bag.{sum, All-splits}
use jkos.Rbt.Erase.{keys_before, keys_after, walk-loc_tree}
use jkos.Common.{word, get_aligned, page_floor, kernel_heap_begin, kernel_heap_end}
use jkos.Common.Align.{Aligned, get_aligned-Aligned}
use jkos.Kheap.{
  Block, BySize, size_lt, PageCall, lazy_alloc_interval, Heap, size_order, start_order, give_maybe,
  end_of, nodes,
}
use jkos.Kheap.Malloc.{
  fits, out_of_memory, fit, take, kmalloc, Allocation, no_memory, memory, tail_of, head_of,
  without_tail, without_head, start_in, is_short,
}
use jkos.Kheap.Carve.{cover, cover_maybe, Inside, carve-Cuts, IsSolid, carve-IsSolid}
use jkos.Kheap.Fit.{key, Unfit, no_fit, first_fit, count_ge, HasNext, fit-FirstFit}
use jkos.Kheap.State.{
  FreeInv, FreeInv-rest, Keeps, keeps, give-Keeps, drops, drop-by_size, free_bounds,
}
use jkos.Kheap.Chunks.{Chunk, used_at, IsChunk, HeapInv, update-IsChunk, same-IsChunk}

give_maybe-Keeps :
    (b : Option Block) (h : Heap) (rest : ℕ → ℕ)
    → IsSolid b
    → FreeInv h (λ a. cover_maybe b a + rest a)
    → nodes h < 1022
    → Keeps rest h (give_maybe b h)
give_maybe-Keeps none h rest n v m =
    keeps h refl (FreeInv-rest h _ rest (λ a. omega arith) v) refl (omega arith)
give_maybe-Keeps (some b) h rest n v m = give-Keeps b h rest n v m

-- The trees alone matter.
pub FreeInv-record :
    (h : Heap) (header : ℕ → Block) (pages : List PageCall) (rest : ℕ → ℕ)
    → FreeInv h rest
    → FreeInv (record h { header = header; pages = pages }) rest
FreeInv-record h header pages rest v = record {
  size_tree = v.size_tree;
  start_tree = v.start_tree;
  same = v.same;
  solid = v.solid;
  conserved = v.conserved;
}

-- The outcome of `take`.
data Takes (size start : ℕ) (used : List Chunk) (call : Option Heap) : Type 0 where
  takes :
      (c : Chunk) (h' : Heap)
      → call ≡ some h'
      → c.addr ≡ start
      → c.size ≡ size
      → HeapInv h' (c ∷ used)
      → Takes size start used call

-- The heap behind `take`, for the block of the allocation and the heap with the free blocks.
abbrev finished : ℕ → ℕ → Block → Heap → Heap
finished size start blk h2 = record h2 {
  pages =
      lazy_alloc_interval (page_floor (word (start + 2 ^ 32 - 8)))
        (get_aligned (word (start + size)) 12)
      ∷ h2.pages;
  header = update h2.header (word (start + 2 ^ 32 - 8)) blk;
}

finished-HeapInv :
    (size start : ℕ) (blk : Block) (h2 : Heap) (used : List Chunk)
    → start < 2 ^ 32
    → blk.start + 8 ≤ start
    → start + size ≤ blk.start + blk.size
    → FreeInv h2 (λ a. cover blk a + used_at used a)
    → All (IsChunk h2) used
    → HeapInv
        (finished size start blk h2)
        (record { addr = start; size = size; block = blk } ∷ used)
finished-HeapInv size start blk h2 used lt lo hi v c =
    let w : word (start + 2 ^ 32 - 8) ≡ start - 8 = omega (arith, lo, lt) in
    let z : used_at used (start - 8) ≡ 0 = ground (arith, v.conserved (start - 8), lo, hi) in
    record {
      free = FreeInv-record h2 _ _ _ v;
      chunks = (
        record { header_inside = lo; memory_inside = hi; recorded = rw w (ground arith) },
        update-IsChunk h2 (finished size start blk h2) (word (start + 2 ^ 32 - 8)) blk used refl
            (rw w z) c,
      );
    }

take-Takes :
    (size : ℕ) (p : Loc BySize) (start : ℕ) (h : Heap) (used : List Chunk)
    → loc_tree p ≡ h.tree_size
    → Inside size start (get_key p).block
    → HeapInv h used
    → nodes h < 1022
    → Takes size start used (take size p start h)
unfolding take
take-Takes size p start h used l i v m =
    let got = (get_key p).block in
    let tail = tail_of size start got in
    let rest = without_tail got tail in
    let head = head_of start rest in
    let blk = without_head rest head in
    let cuts = carve-Cuts size start got i in
    let solid = carve-IsSolid size start got i in
    elim (drop-by_size p h (used_at used) l v.free) [
      | drops t s e e' n d f ↦
          let h0 = record h { tree_size = t; tree_start = s } in
          elim (give_maybe-Keeps tail h0 (λ a. cover_maybe head a + (cover blk a + used_at used a))
            solid.0 (FreeInv-rest h0 _ _ (λ a. omega (arith, cuts.covers a)) f)
            (omega (arith, m, d))) [
              | keeps h1 q1 f1 r1 d1 ↦
                  elim (give_maybe-Keeps head h1 (λ a. cover blk a + used_at used a) solid.1 f1
                    (omega (arith, m, d, d1))) [
                      | keeps h2 q2 f2 r2 d2 ↦
                          takes (record { addr = start; size = size; block = blk })
                            (finished size start blk h2) (rw (e, e', q1, q2) refl) refl refl
                            (finished-HeapInv size start blk h2 used
                              (omega (arith, i.low, i.high, i.few)) cuts.header_inside
                              cuts.memory_inside f2 (same-IsChunk h h2 used (r2 ∙ r1) v.chunks))
                    ]
            ]
    ]

-- The block that the search found holds the memory and its header, and the memory is aligned.
fit-Inside :
    (size palign : ℕ) (got : Block)
    → size + 8 < 2 ^ 32
    → 2 ^ palign ≤ 0x1000
    → kernel_heap_begin ≤ got.start
    → got.start + got.size ≤ kernel_heap_end
    → size_lt (key got) (key (record { start = 0; size = word (size + 8) })) ≡ false
    → is_short size palign got ≡ false
    → Inside size (start_in palign got) got × (start_in palign got % 2 ^ palign ≡ 0)
fit-Inside size palign got few small lo hi l f =
    let w : word (size + 8) ≡ size + 8 = omega (arith, few) in
    let n : size + 8 ≤ got.size = ground (arith, w, l) in
    let q : word (got.start + 8) ≡ got.start + 8 = omega (arith, n, hi) in
    let al : Aligned (got.start + 8) palign (start_in palign got) =
      rw q
        (get_aligned-Aligned (got.start + 8) palign (omega arith) (omega (arith, n, hi, small))) in
    let e : end_of got ≡ got.start + got.size = omega (arith, hi) in
    let z : word (start_in palign got + size) ≡ start_in palign got + size =
      omega (arith, al.high, n, hi, small) in
    let c : start_in palign got + size ≤ got.start + got.size = ground (arith, f, e, z) in
    (record { low = al.low; high = c; few = omega (arith, hi) }, al.multiple)

-- How many blocks are free.
abbrev pub free_blocks : Heap → ℕ
free_blocks h = sum (λ (k : BySize). 1) (walk h.tree_size)

count_ge-le-sum : (req : Block) (ks : List BySize) → count_ge req ks ≤ sum (λ (k : BySize). 1) ks
count_ge-le-sum req [] = omega arith
count_ge-le-sum req (k ∷ ks) = ground (arith, count_ge-le-sum req ks)

-- How `kmalloc` ends: no free block can hold the memory, or there is a new allocation.
pub data Mallocs (size palign : ℕ) (h : Heap) (used : List Chunk) (call : Option Allocation)
    : Type 0 where
  exhausted :
      call ≡ some no_memory
      → Unfit size palign (record { start = 0; size = size + 8 }) (walk h.tree_size)
      → Mallocs size palign h used call
  granted :
      (c : Chunk) (h' : Heap)
      → call ≡ some (memory c.addr h')
      → c.size ≡ size
      → c.addr % 2 ^ palign ≡ 0
      → HeapInv h' (c ∷ used)
      → Mallocs size palign h used call

kmalloc-out :
    (fuel size palign : ℕ) (h : Heap)
    → fit fuel size palign (record { start = 0; size = word (size + 8) }) h.tree_size
      ≡ some out_of_memory
    → kmalloc fuel size palign h ≡ some no_memory
unfolding kmalloc
kmalloc-out fuel size palign h e = rw e refl

kmalloc-fits :
    (fuel size palign : ℕ) (h h' : Heap) (p : Loc BySize) (start : ℕ)
    → fit fuel size palign (record { start = 0; size = word (size + 8) }) h.tree_size
      ≡ some (fits p start)
    → take size p start h ≡ some h'
    → kmalloc fuel size palign h ≡ some (memory start h')
unfolding kmalloc
kmalloc-fits fuel size palign h h' p start e q = rw (e, q) refl

-- In a heap in order with fewer than 1022 nodes of its pool in use, `kmalloc`, with fuel for the free
-- blocks, for a size that does not wrap with the header and an alignment of at most 4096, fails no
-- search of a tree. It panics only if no free block can hold the memory with its header at the
-- aligned place; else the memory is aligned, the header and the memory are in a block that was
-- free, and the heap with the new allocation is in order.
pub kmalloc-Mallocs :
    (fuel size palign : ℕ) (h : Heap) (used : List Chunk)
    → HeapInv h used
    → size + 8 < 2 ^ 32
    → 2 ^ palign ≤ 0x1000
    → free_blocks h < fuel
    → nodes h < 1022
    → Mallocs size palign h used (kmalloc fuel size palign h)
kmalloc-Mallocs fuel size palign h used v few small f m =
    let w : word (size + 8) ≡ size + 8 = omega (arith, few) in
    let req : Block = record { start = 0; size = word (size + 8) } in
    let next : HasNext (walk h.tree_size) =
      All-splits (λ k. k.block.start + 1 < 2 ^ 32) (walk h.tree_size)
        (λ xs k ys e. omega (arith, free_bounds h (used_at used) xs k ys v.free e)) in
    elim (fit-FirstFit fuel size palign req h.tree_size v.free.size_tree.sorted next
      (omega (arith, f, count_ge-le-sum req (walk h.tree_size)))) [
        | no_fit e u ↦ exhausted (kmalloc-out fuel size palign h e) (rw (← w) u)
        | first_fit p e l u n g ↦
            let b =
              free_bounds h (used_at used) (keys_before p) (get_key p) (keys_after p) v.free
                (ap (λ t. walk t) (sym l) ∙ walk-loc_tree p) in
            let i = fit-Inside size palign (get_key p).block few small b.1 b.2 n g in
            elim (take-Takes size p (start_in palign (get_key p).block) h used l i.0 v m) [
              | takes c h' q a z inv ↦
                  granted c h'
                    (kmalloc-fits fuel size palign h h' p _ e q
                      ∙ ap (λ x. some (memory x h')) (sym a))
                    z (rw a i.1) inv
            ]
      ]
