-- ===== src/Kheap/Chunks.antt =====
-- core/kheap.cpp: the allocations in use, and the invariant of the heap.
use jkos.Base.{ℕ, ◌+◌, ◌-◌, ◌≡◌, ◌≤◌, ◌∙◌, ap, List, [], ◌∷◌, ◌++◌, arith, All, update}
use jkos.Kheap.{Block, Heap}
use jkos.Kheap.Carve.{cover}
use jkos.Kheap.State.{FreeInv}

-- An allocation: the address and size of its memory, and its block.
pub record Chunk : Type 0 where
  pub addr : ℕ
  pub size : ℕ
  pub block : Block

-- How many of the allocations have the address in their block.
abbrev pub used_at : List Chunk → ℕ → ℕ
used_at [] a = 0
used_at (c ∷ cs) a = cover c.block a + used_at cs a

-- The header and the memory lie in the block, which the header tells.
pub record IsChunk (h : Heap) (c : Chunk) : Type 0 where
  pub header_inside : c.block.start + 8 ≤ c.addr
  pub memory_inside : c.addr + c.size ≤ c.block.start + c.block.size
  pub recorded : h.header (c.addr - 8) ≡ c.block

-- The free blocks and the blocks of the allocations make up the heap, each address once.
pub record HeapInv (h : Heap) (used : List Chunk) : Type 0 where
  pub free : FreeInv h (used_at used)
  pub chunks : All (IsChunk h) used

-- A new header outside the blocks in use.
pub update-IsChunk :
    (h h' : Heap) (a : ℕ) (b : Block) (used : List Chunk)
    → h'.header ≡ update h.header a b
    → used_at used a ≡ 0
    → All (IsChunk h) used
    → All (IsChunk h') used
update-IsChunk h h' a b [] e z v = tt
update-IsChunk h h' a b (c ∷ cs) e z v = (
  record {
    header_inside = v.0.header_inside;
    memory_inside = v.0.memory_inside;
    recorded =
        ap (λ (f : ℕ → Block). f (c.addr - 8)) e
        ∙ (ground (arith, v.0.header_inside, v.0.memory_inside, v.0.recorded, z));
  },
  update-IsChunk h h' a b cs e (ground (arith, z)) v.1,
)

pub same-IsChunk :
    (h h' : Heap) (used : List Chunk)
    → h'.header ≡ h.header
    → All (IsChunk h) used
    → All (IsChunk h') used
same-IsChunk h h' [] e v = tt
same-IsChunk h h' (c ∷ cs) e v = (
  record {
    header_inside = v.0.header_inside;
    memory_inside = v.0.memory_inside;
    recorded = ap (λ (f : ℕ → Block). f (c.addr - 8)) e ∙ v.0.recorded;
  },
  same-IsChunk h h' cs e v.1,
)

pub used_at-append :
    (xs ys : List Chunk) (a : ℕ) → used_at (xs ++ ys) a ≡ used_at xs a + used_at ys a
used_at-append [] ys a = omega arith
used_at-append (x ∷ xs) ys a = omega (arith, used_at-append xs ys a)
