-- ===== src/Kheap.antt =====
-- core/kheap.cpp: the kernel heap. Free blocks stand in two trees, by size and by start; the block
-- of an allocation is kept in the 8 bytes before it. Calls to the page directory are recorded in
-- `pages`, the last one first.
pub mod Malloc
pub mod Free
pub mod Carve
pub mod State
pub mod Chunks
pub mod Alloc
pub mod Release
pub mod Trace
pub mod Pool
pub mod Fit
mod Tests
use jkos.Base.{
  ℕ, zero, suc, ◌+◌, ◌-◌, ◌*◌, ◌≡◌, Bool, true, false, Option, none, some, List, ◌∷◌, ◌==◌, ◌&&◌,
  ◌||◌, if◌then◌else◌, update, ltb, leb, arith, ◌>>=◌, not,
}
use jkos.Base.Order.{Order, IsWeak}
use jkos.Rbt.{Rbt, nil, node, Loc, get_key, find_ge, find_le, insert, erase}
use jkos.Common.{word, get_aligned, max, min, page_floor, kernel_heap_begin, kernel_heap_end}

pub record Block : Type 0 where
  pub start : ℕ
  pub size : ℕ

-- `Block_size_t`
pub record BySize : Type 0 where
  pub block : Block

-- `Block_start_t`
pub record ByStart : Type 0 where
  pub block : Block

abbrev pub size_lt : BySize → BySize → Bool
size_lt a b =
    ltb a.block.size b.block.size
    || (a.block.size == b.block.size && ltb a.block.start b.block.start)

-- `Block_size_t` has no `<=`; no code asks for it.
abbrev pub size_le : BySize → BySize → Bool
size_le a b = not (size_lt b a)

abbrev pub start_lt : ByStart → ByStart → Bool
start_lt a b =
    ltb a.block.start b.block.start
    || (a.block.start == b.block.start && ltb a.block.size b.block.size)

abbrev pub start_le : ByStart → ByStart → Bool
start_le a b =
    ltb a.block.start b.block.start
    || (a.block.start == b.block.start && leb a.block.size b.block.size)

pub size-IsWeak : IsWeak size_lt size_le
size-IsWeak = ground arith

pub start-IsWeak : IsWeak start_lt start_le
start-IsWeak = ground arith

instance abbrev pub size_order : Order BySize
size_order = record { lt = size_lt; le = size_le; weak = size-IsWeak }

instance abbrev pub start_order : Order ByStart
start_order = record { lt = start_lt; le = start_le; weak = start-IsWeak }

-- A call to `Page::current_page_dir`, with the ends of the interval; `get_pages` stands for the calls
-- of `get_page(i, true)` for each page of the interval.
pub data PageCall : Type 0 where
  lazy_alloc_interval free_interval get_pages : ℕ → ℕ → PageCall

pub record Heap : Type 0 where
  pub tree_size : Rbt BySize
  pub tree_start : Rbt ByStart
  pub header : ℕ → Block
  pub pages : List PageCall

-- The first address behind a block.
abbrev pub end_of : Block → ℕ
end_of b = word (b.start + b.size)

-- `tree.erase(ptr)`; a null pointer is an error.
abbrev pub erase_at {ℓ} : {K : Type ℓ} → Option (Loc K) → Option (Rbt K)
erase_at none = none
erase_at (some p) = erase p

-- The nodes of a tree. Each is a node of the pool `Tree_mm`, from which `insert` takes one and to which
-- `erase` gives one back.
abbrev pub count {ℓ} : {K : Type ℓ} → Rbt K → ℕ
count nil = 0
count (node c l k r) = count l + (1 + count r)

abbrev pub nodes : Heap → ℕ
nodes h = count h.tree_size + count h.tree_start

-- `Tree_mm::alloc` panics without a free node; as it leaves the last of its 1024 places unused, it has
-- one for each of two calls of `insert` as long as fewer than 1022 are in the trees.
abbrev pub has_two_nodes : Heap → Bool
has_two_nodes h = ltb (nodes h) 1022

-- A new free block goes into both trees; `none` is also the panic of `Tree_mm::alloc`.
unfoldable pub give : Block → Heap → Option Heap
give b h =
    if has_two_nodes h
    then (do
      by_size ← insert (record { block = b }) h.tree_size
      by_start ← insert (record { block = b }) h.tree_start
      some (record h { tree_size = by_size; tree_start = by_start }))
    else none

abbrev pub give_maybe : Option Block → Heap → Option Heap
give_maybe none h = some h
give_maybe (some b) h = give b h

-- `kheap_init` on trees that the constructors have set up: the heap is one free block.
unfoldable pub kheap_init : Heap → Option Heap
unfolding give
kheap_init h = do
  h' ← give (record { start = kernel_heap_begin; size = kernel_heap_end - kernel_heap_begin }) h
  some (record h' { pages = get_pages kernel_heap_begin kernel_heap_end ∷ h'.pages })

-- `kheap_finish_init`: `USER_MEM_LOW` and `USER_MEM_HIGH` from `kheap_static_end`.
unfoldable pub kheap_finish_init : ℕ → ℕ × ℕ
kheap_finish_init kheap_static_end = (get_aligned kheap_static_end 22, kernel_heap_begin - 1)
