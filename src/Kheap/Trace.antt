-- ===== src/Kheap/Trace.antt =====
-- core/kheap.cpp: the heap after `kheap_init` and any calls of `kmalloc` and `kfree`.
use jkos.Base.{
  ℕ, ◌+◌, ◌-◌, ◌≡◌, ◌≤◌, ◌<◌, ◌^◌, refl, sym, ◌∙◌, Option, some, List, [], ◌∷◌, ◌++◌, arith,
  if◌then◌else◌, ◌&&◌, ltb, leb, All,
}
use jkos.Rbt.{nil}
use jkos.Common.{kernel_heap_begin, kernel_heap_end}
use jkos.Kheap.{Block, Heap, PageCall, get_pages, kheap_init, size_order, start_order, nodes}
use jkos.Kheap.Malloc.{kmalloc, Allocation, memory}
use jkos.Kheap.Free.{kfree, Release, released}
use jkos.Kheap.Carve.{cover}
use jkos.Kheap.State.{FreeInv, keeps, give-Keeps, in_heap}
use jkos.Kheap.Chunks.{Chunk, used_at, IsChunk, HeapInv}
use jkos.Kheap.Alloc.{FreeInv-record, free_blocks, exhausted, granted, kmalloc-Mallocs}
use jkos.Kheap.Release.{frees, kfree-Frees}

-- The trees that the constructors leave.
abbrev pub empty_heap : (ℕ → Block) → List PageCall → Heap
empty_heap header pages = record {
  tree_size = nil;
  tree_start = nil;
  header = header;
  pages = pages;
}

abbrev whole : Block
whole = record { start = kernel_heap_begin; size = kernel_heap_end - kernel_heap_begin }

empty-FreeInv :
    (header : ℕ → Block) (pages : List PageCall)
    → FreeInv (empty_heap header pages) (λ a. cover whole a + used_at [] a)
empty-FreeInv header pages = record {
  size_tree = record {
    balanced = record { height = 0; rules = refl; root_black = refl };
    sorted = tt;
  };
  start_tree = record {
    balanced = record { height = 0; rules = refl; root_black = refl };
    sorted = tt;
  };
  same = λ w. refl;
  solid = refl;
  conserved = λ a. ground arith;
}

-- `kheap_init` returns, and leaves the heap in order with no allocation.
pub data Inits (call : Option Heap) : Type 0 where
  inits : (h : Heap) → call ≡ some h → HeapInv h [] → Inits call

pub kheap_init-Inits :
    (header : ℕ → Block) (pages : List PageCall) → Inits (kheap_init (empty_heap header pages))
unfolding kheap_init
kheap_init-Inits header pages =
    elim (give-Keeps whole (empty_heap header pages) (used_at []) (omega arith)
      (empty-FreeInv header pages) (omega arith)) [
        | keeps h e v r d ↦
            inits (record h { pages = get_pages kernel_heap_begin kernel_heap_end ∷ h.pages })
              (rw e refl) (record { free = FreeInv-record h _ _ _ v; chunks = tt })
      ]

-- A call of the kernel, with fewer than 1022 nodes of the pool in use: `kmalloc` that does not panic,
-- for a size that does not wrap with the header and an alignment of at most 4096, or `kfree` of an
-- address in use. The block of a new allocation is in its header.
pub data Step (h : Heap) (used : List Chunk) (h' : Heap) (used' : List Chunk) : Type 0 where
  malloc :
      (fuel size palign addr : ℕ)
      → size + 8 < 2 ^ 32
      → 2 ^ palign ≤ 0x1000
      → free_blocks h < fuel
      → nodes h < 1022
      → kmalloc fuel size palign h ≡ some (memory addr h')
      → used' ≡ record { addr = addr; size = size; block = h'.header (addr - 8) } ∷ used
      → Step h used h' used'
  free :
      (xs : List Chunk) (c : Chunk) (ys : List Chunk)
      → used ≡ xs ++ (c ∷ ys)
      → nodes h < 1022
      → kfree c.addr h ≡ some (released h')
      → used' ≡ xs ++ ys
      → Step h used h' used'

pub data Reach : Heap → List Chunk → Type 0 where
  start :
      (header : ℕ → Block) (pages : List PageCall) {h : Heap}
      → kheap_init (empty_heap header pages) ≡ some h
      → Reach h []
  next :
      {h h' : Heap} {used used' : List Chunk} → Reach h used → Step h used h' used' → Reach h' used'

chunk_eq :
    (addr size : ℕ) (h k : Heap) (c : Chunk)
    → addr ≡ c.addr
    → c.size ≡ size
    → h ≡ k
    → k.header (c.addr - 8) ≡ c.block
    → record { addr = addr; size = size; block = h.header (addr - 8) } ≡ c
chunk_eq addr size h k c a z e r =
    let b : h.header (addr - 8) ≡ c.block = rw (e, a) r in cc (a, z, b)

Step-HeapInv :
    {h h' : Heap} {used used' : List Chunk}
    → Step h used h' used'
    → HeapInv h used
    → HeapInv h' used'
Step-HeapInv {h} {h'} {used} (malloc fuel size palign addr few small f m e u) v =
    elim (kmalloc-Mallocs fuel size palign h used v few small f m) [
      | exhausted q _ ↦ cc (e, q)
      | granted c k q z _ i ↦
          let t : ◌≡◌ {A = Option Allocation} (some (memory addr h')) (some (memory c.addr k)) =
            sym e ∙ q in
          let a : addr ≡ c.addr = cc (t) in
          let w : h' ≡ k = cc (t) in
          rw (u, chunk_eq addr size h' k c a z w i.chunks.0.recorded, w) i
    ]
Step-HeapInv {h} {h'} (free xs c ys u m e u') v = elim (kfree-Frees h xs c ys (rw (← u) v) m) [
  | frees k q i ↦
      let t : ◌≡◌ {A = Option Release} (some (released h')) (some (released k)) = sym e ∙ q in
      let w : h' ≡ k = cc (t) in rw (u', w) i
]

pub Reach-HeapInv : {h : Heap} {used : List Chunk} → Reach h used → HeapInv h used
Reach-HeapInv {h} (start header pages e) = elim (kheap_init-Inits header pages) [
  | inits k q v ↦ let w : h ≡ k = cc (e, q) in rw w v
]
Reach-HeapInv (next r st) = Step-HeapInv st (Reach-HeapInv r)

-- How many of the allocations have the address in their memory or in the header before it.
abbrev pub held : List Chunk → ℕ → ℕ
held [] a = 0
held (c ∷ cs) a = (if leb (c.addr - 8) a && ltb a (c.addr + c.size) then 1 else 0) + held cs a

held-le :
    (h : Heap) (used : List Chunk) (a : ℕ) → All (IsChunk h) used → held used a ≤ used_at used a
held-le h [] a v = omega arith
held-le h (c ∷ cs) a v = ground (arith, held-le h cs a v.1, v.0.header_inside, v.0.memory_inside)

-- After `kheap_init` and any calls that return, with fewer than 1022 nodes of the pool in use at each,
-- of `kmalloc` for a size that does not wrap with the header and an alignment of at most 4096, and
-- of `kfree` of an address in use, no address is in the memory or the header of two allocations in
-- use, and none outside the heap is in one.
pub Reach-held : {h : Heap} {used : List Chunk} → Reach h used → (a : ℕ) → held used a ≤ in_heap a
Reach-held {h} {used} r a =
    let v = Reach-HeapInv r in omega (arith, held-le h used a v.chunks, v.free.conserved a)
