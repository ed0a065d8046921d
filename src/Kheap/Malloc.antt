-- ===== src/Kheap/Malloc.antt =====
-- core/kheap.cpp: `kmalloc`.
use jkos.Base.{
  ℕ, zero, suc, ◌^◌, ◌+◌, ◌-◌, Bool, Option, none, some, ◌∷◌, if◌then◌else◌, update, ltb, ◌>>=◌,
}
use jkos.Rbt.{Rbt, Loc, get_key, find_ge, erase}
use jkos.Common.{word, get_aligned, page_floor}
use jkos.Kheap.{
  Block, BySize, size_order, start_order, lazy_alloc_interval, Heap, end_of, erase_at, give_maybe,
}

-- The outcome of the search of `kmalloc`: the node of the block that is taken, and the start of the
-- memory in it.
pub data Search : Type 0 where
  out_of_memory : Search
  fits : Loc BySize → ℕ → Search

-- The start of the memory in the free block.
abbrev pub start_in : ℕ → Block → ℕ
start_in palign got = get_aligned (word (got.start + 8)) palign

-- `start + size > got.start + got.size`
abbrev pub is_short : ℕ → ℕ → Block → Bool
is_short size palign got = ltb (end_of got) (word (start_in palign got + size))

-- The loop of `kmalloc`; `none` means that the fuel ran out.
unfoldable pub fit : ℕ → ℕ → ℕ → Block → Rbt BySize → Option Search
fit zero size palign req t = none
fit (suc fuel) size palign req t = elim (find_ge (record { block = req }) t) [
  | none ↦ some out_of_memory
  | some p ↦
      let got = (get_key p).block in
      let rest = fit fuel size palign (record got { start = word (got.start + 1) }) t in
      if is_short size palign got then rest else some (fits p (start_in palign got))
]

-- The free block behind the allocated memory, if it is worth its header.
abbrev pub tail_of : ℕ → ℕ → Block → Option Block
tail_of size start got =
    if ltb (word (start + size + 16)) (end_of got)
    then some (record {
      start = word (start + size);
      size = word (end_of got + 2 ^ 32 - word (start + size));
    })
    else none

-- The free block before it.
abbrev pub head_of : ℕ → Block → Option Block
head_of start got =
    if ltb 24 (word (start + 2 ^ 32 - got.start))
    then some (record { start = got.start; size = word (start + 2 ^ 33 - got.start - 8) })
    else none

-- `got.size -= nblk.size`, for the tail; for the head the start moves too.
abbrev pub without_tail : Block → Option Block → Block
without_tail got none = got
without_tail got (some b) = record got { size = word (got.size + 2 ^ 32 - b.size) }

abbrev pub without_head : Block → Option Block → Block
without_head got none = got
without_head got (some b) = record {
  start = word (got.start + b.size);
  size = word (got.size + 2 ^ 32 - b.size);
}

-- `kmalloc` from the found node on.
unfoldable pub take : ℕ → Loc BySize → ℕ → Heap → Option Heap
take size p start h = do
  let got = (get_key p).block
  by_size ← erase p
  by_start ← erase_at (find_ge (record { block = got }) h.tree_start)
  let tail = tail_of size start got
  let got1 = without_tail got tail
  h1 ← give_maybe tail (record h { tree_size = by_size; tree_start = by_start })
  let head = head_of start got1
  h2 ← give_maybe head h1
  some (record h2 {
    pages =
        lazy_alloc_interval (page_floor (word (start + 2 ^ 32 - 8)))
          (get_aligned (word (start + size)) 12)
        ∷ h2.pages;
    header = update h2.header (word (start + 2 ^ 32 - 8)) (without_head got1 head);
  })

-- The address that `kmalloc` returns, or its panic.
pub data Allocation : Type 0 where
  no_memory : Allocation
  memory : ℕ → Heap → Allocation

-- `kmalloc` after `kheap_finish_init`.
unfoldable pub kmalloc : ℕ → ℕ → ℕ → Heap → Option Allocation
unfolding fit take
kmalloc fuel size palign h =
    fit fuel size palign (record { start = 0; size = word (size + 8) }) h.tree_size >>= λ s.
    elim s [
      | out_of_memory ↦ some no_memory
      | fits p start ↦ take size p start h >>= λ h'. some (memory start h')
    ]
