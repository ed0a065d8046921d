-- ===== src/Kheap/Free.antt =====
-- core/kheap.cpp: `kfree`.
use jkos.Base.{ℕ, ◌^◌, ◌+◌, ◌-◌, Option, none, some, ◌∷◌, ◌==◌, ◌||◌, if◌then◌else◌, ltb, ◌>>=◌}
use jkos.Rbt.{get_key, find_ge, find_le, insert, erase}
use jkos.Common.{word, get_aligned, max, min, page_floor, kernel_heap_begin, kernel_heap_end}
use jkos.Kheap.{
  Block, size_order, start_order, free_interval, Heap, end_of, erase_at, has_two_nodes,
}

-- A block on its way back, with the range of the pages that are freed later; or the panic.
pub data Merge : Type 0 where
  invalid : Merge
  merged : Block → ℕ → Heap → Merge

-- The part of `kfree` that joins the block with the free block before it: the block, `free_start`
-- and the heap.
unfoldable pub merge_before : Block → Heap → Option Merge
merge_before blk h = elim (find_le (record { block = blk }) h.tree_start) [
  | none ↦ some (merged blk blk.start h)
  | some p ↦
      let got = (get_key p).block in
      if ltb blk.start (end_of got)
      then some invalid
      else if end_of got == blk.start
      then (do
        by_start ← erase p
        by_size ← erase_at (find_ge (record { block = got }) h.tree_size)
        some (
            merged (record { start = got.start; size = word (blk.size + got.size) })
              (max (page_floor blk.start) got.start)
              (record h { tree_start = by_start; tree_size = by_size })))
      else some (merged blk blk.start h)
]

-- The part that joins it with the free block behind it: the block, `free_end` and the heap.
unfoldable pub merge_behind : Block → ℕ → Heap → Option Merge
merge_behind blk free_end h = elim (find_ge (record { block = blk }) h.tree_start) [
  | none ↦ some (merged blk free_end h)
  | some p ↦
      let got = (get_key p).block in
      if ltb got.start (end_of blk)
      then some invalid
      else if end_of blk == got.start
      then (do
        by_start ← erase p
        by_size ← erase_at (find_ge (record { block = got }) h.tree_size)
        some (
            merged (record blk { size = word (blk.size + got.size) })
              (min (get_aligned free_end 12) (end_of blk))
              (record h { tree_start = by_start; tree_size = by_size })))
      else some (merged blk free_end h)
]

-- The end of `kfree`; `none` is also the panic of `Tree_mm::alloc`.
unfoldable pub put_back : Block → ℕ → ℕ → Heap → Option Heap
put_back blk free_start free_end h =
    if has_two_nodes h
    then (do
      by_start ← insert (record { block = blk }) h.tree_start
      by_size ← insert (record { block = blk }) h.tree_size
      some (record h {
        tree_start = by_start;
        tree_size = by_size;
        pages = free_interval (get_aligned free_start 12) (page_floor free_end) ∷ h.pages;
      }))
    else none

pub data Release : Type 0 where
  bad_address : Release
  released : Heap → Release

unfoldable pub kfree : ℕ → Heap → Option Release
unfolding merge_before merge_behind put_back
kfree addr h =
    let blk = h.header (word (addr + 2 ^ 32 - 8)) in
    if ltb blk.start kernel_heap_begin || ltb kernel_heap_end (end_of blk)
    then some bad_address
    else (merge_before blk h >>= λ b. elim b [
      | invalid ↦ some bad_address
      | merged blk1 free_start h1 ↦ merge_behind blk1 (end_of blk) h1 >>= λ a. elim a [
        | invalid ↦ some bad_address
        | merged blk2 free_end h2 ↦
            put_back blk2 free_start free_end h2 >>= λ h3. some (released h3)
      ]
    ])
