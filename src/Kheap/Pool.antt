-- ===== src/Kheap/Pool.antt =====
-- core/kheap.cpp: the memory that is given out before the heap is set up, and the pool of the tree
-- nodes.
use jkos.Base.{ℕ, ◌+◌, ◌*◌, ◌≡◌, refl, Option, none, some, List, [], ◌∷◌, if◌then◌else◌, ltb, leb}
use jkos.Common.{word, get_aligned}

-- `kmalloc_pre_init` at the value of `kheap_static_end`: the address and the new value.
unfoldable pub kmalloc_pre_init : ℕ → ℕ → ℕ → ℕ × ℕ
kmalloc_pre_init size palign static_end =
    let ret = get_aligned static_end palign in (ret, word (ret + size))

unfoldable pub kheap_preserve_mem : ℕ → ℕ → ℕ
kheap_preserve_mem addr static_end = if ltb static_end addr then addr else static_end

-- `Tree_mm`: the stack `freed`, and the bytes of `static_mem` in use.
pub record Pool : Type 0 where
  pub freed : List ℕ
  pub nstatic_mem : ℕ

-- `Tree_mm::alloc`, for nodes of `node_size` bytes and the pool at `static_mem`; `none` is its panic.
unfoldable pub alloc_node : ℕ → ℕ → Pool → Option (ℕ × Pool)
alloc_node node_size static_mem p = elim p.freed [
  | ptr ∷ ptrs ↦ some (ptr, record p { freed = ptrs })
  | [] ↦
      if leb (1024 * node_size) (p.nstatic_mem + node_size)
      then none
      else some (static_mem + p.nstatic_mem, record p { nstatic_mem = p.nstatic_mem + node_size })
]

-- `Tree_mm::free`
unfoldable pub free_node : ℕ → Pool → Pool
free_node ptr p = record p { freed = ptr ∷ p.freed }

-- A node that goes back to the pool is the next one that it gives out, and the pool is then as it
-- was.
pub alloc_node-free_node :
    (node_size static_mem ptr : ℕ) (p : Pool)
    → alloc_node node_size static_mem (free_node ptr p) ≡ some (ptr, p)
unfolding alloc_node free_node
alloc_node-free_node node_size static_mem ptr p = refl
