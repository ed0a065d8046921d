-- ===== src/Kheap/Tests.antt =====
-- Runs of the heap on one free block, and the properties of `kmalloc` there.
use jkos.Base.{update, ◌≤◌, ℕ, ◌≡◌, refl, Option, some, none, [], ◌∷◌, arith}
use jkos.Rbt.{
  Rbt, nil, node, black, plug, find_ge, do_find_ge, insert, erase, descend, insert_fix,
  remove_bottom, delete_fix,
}
use jkos.Common.{get_aligned}
use jkos.Kheap.{
  Block, BySize, ByStart, size_order, start_order, Heap, lazy_alloc_interval, get_pages, give,
  kheap_init,
}
use jkos.Kheap.Malloc.{
  fit, take, kmalloc, Allocation, memory, tail_of, head_of, without_tail, without_head,
}
use jkos.Kheap.Fit.{FirstFit, fit-FirstFit}
use jkos.Kheap.Carve.{Cuts, carve-Cuts}
use jkos.Kheap.Free.{kfree}
use jkos.Kheap.State.{in_heap}
use jkos.Kheap.Chunks.{Chunk}
use jkos.Kheap.Alloc.{Mallocs, kmalloc-Mallocs}
use jkos.Kheap.Release.{Frees, kfree-Frees}
use jkos.Kheap.Trace.{Reach, start, next, malloc, Reach-HeapInv, held, Reach-held}

abbrev free_block : Block
free_block = record { start = 0xEF_C0_00_00; size = 0x10_00_00_00 }

abbrev sizes : Rbt BySize
sizes = node black nil (record { block = free_block }) nil

abbrev heap : Heap
heap = record {
  tree_size = sizes;
  tree_start = node black nil (record { block = free_block }) nil;
  header = λ a. record { start = 0; size = 0 };
  pages = [];
}

abbrev after : Heap
after = record {
  tree_size =
      node black nil (record { block = record { start = 0xEF_C0_00_6C; size = 0x0F_FF_FF_94 } })
        nil;
  tree_start =
      node black nil (record { block = record { start = 0xEF_C0_00_6C; size = 0x0F_FF_FF_94 } })
        nil;
  header = λ a. record { start = 0; size = 0 };
  pages = lazy_alloc_interval 0xEF_C0_00_00 0xEF_C0_10_00 ∷ [];
}

fit-FirstFit_example :
    FirstFit 100 0
      (record { start = 0; size = 108 })
      sizes
      (fit 2 100 0 (record { start = 0; size = 108 }) sizes)
fit-FirstFit_example =
    fit-FirstFit 2 100 0 (record { start = 0; size = 108 }) sizes (ground arith) (ground arith)
      (ground arith)

carve-Cuts_example :
    let tail = tail_of 100 0xEF_C0_00_40 free_block in
    let rest = without_tail free_block tail in
    let head = head_of 0xEF_C0_00_40 rest in
    Cuts 100 0xEF_C0_00_40 free_block tail head (without_head rest head)
carve-Cuts_example =
    carve-Cuts 100 0xEF_C0_00_40 free_block
      (record { low = ground arith; high = ground arith; few = ground arith })

-- An allocation of 100 bytes: its address, the free block that is left, and the pages.
abbrev outcome : Option Allocation → Option (ℕ × Rbt BySize × Rbt ByStart)
outcome (some (memory a h)) = some (a, h.tree_size, h.tree_start)
outcome (some Allocation.no_memory) = none
outcome none = none

kmalloc_run :
    outcome (kmalloc 2 100 0 heap) ≡ some (0xEF_C0_00_08, after.tree_size, after.tree_start)
unfolding kmalloc fit take find_ge do_find_ge give get_aligned plug insert erase descend insert_fix
    remove_bottom delete_fix
kmalloc_run = refl

-- A request of nearly 2^32 bytes, whose sum with the header wraps, is granted.
abbrev wrapped : Block
wrapped = record { start = 0xEF_C0_00_03; size = 0x0F_FF_FF_FD }

kmalloc_wraps :
    outcome (kmalloc 2 0xFF_FF_FF_FB 0 heap)
    ≡ some (
      0xEF_C0_00_08,
      node black nil (record { block = wrapped }) nil,
      node black nil (record { block = wrapped }) nil,
    )
unfolding kmalloc fit take find_ge do_find_ge give get_aligned plug insert erase descend insert_fix
    remove_bottom delete_fix
kmalloc_wraps = refl

-- The heap after `kheap_init`.
abbrev fresh : Heap
fresh = record {
  tree_size = sizes;
  tree_start = node black nil (record { block = free_block }) nil;
  header = λ a. record { start = 0; size = 0 };
  pages = get_pages 0xEF_C0_00_00 0xFF_C0_00_00 ∷ [];
}

fresh-Reach : Reach fresh []
unfolding kheap_init give insert descend insert_fix plug
fresh-Reach = start (λ a. record { start = 0; size = 0 }) [] refl

-- With an allocation of 100 bytes.
abbrev taken : Block
taken = record { start = 0xEF_C0_00_00; size = 108 }

abbrev filled : Heap
filled = record after {
  header = update (λ a. record { start = 0; size = 0 }) 0xEF_C0_00_00 taken;
  pages =
      lazy_alloc_interval 0xEF_C0_00_00 0xEF_C0_10_00 ∷ get_pages 0xEF_C0_00_00 0xFF_C0_00_00 ∷ [];
}

abbrev chunk : Chunk
chunk = record { addr = 0xEF_C0_00_08; size = 100; block = taken }

filled_run : kmalloc 2 100 0 fresh ≡ some (memory 0xEF_C0_00_08 filled)
unfolding kmalloc fit take find_ge do_find_ge give get_aligned plug insert erase descend insert_fix
    remove_bottom delete_fix
filled_run = refl

filled-Reach : Reach filled (chunk ∷ [])
filled-Reach = next fresh-Reach (
    malloc 2 100 0 0xEF_C0_00_08 (omega arith) (omega arith) (omega arith) (omega arith) filled_run
      refl)

kmalloc-Mallocs_example : Mallocs 100 0 fresh [] (kmalloc 2 100 0 fresh)
kmalloc-Mallocs_example =
    kmalloc-Mallocs 2 100 0 fresh [] (Reach-HeapInv fresh-Reach) (omega arith) (omega arith)
      (omega arith) (omega arith)

kfree-Frees_example : Frees [] (kfree 0xEF_C0_00_08 filled)
kfree-Frees_example = kfree-Frees filled [] chunk [] (Reach-HeapInv filled-Reach) (omega arith)

Reach-held_example : held (chunk ∷ []) 0xEF_C0_00_10 ≤ in_heap 0xEF_C0_00_10
Reach-held_example = Reach-held filled-Reach 0xEF_C0_00_10
