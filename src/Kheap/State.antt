-- ===== src/Kheap/State.antt =====
-- core/kheap.cpp: the two trees hold the same free blocks, and each address of the heap is in one
-- free block or in the rest.
use jkos.Base.{
  ℕ, ◌+◌, ◌-◌, ◌≡◌, ◌≢◌, ◌≤◌, ◌<◌, refl, sym, ◌∙◌, ap, true, false, Option, some, List, ◌∷◌, ◌++◌,
  arith, if◌then◌else◌, ◌==◌, ◌&&◌, ltb, leb,
}
use jkos.Rbt.{Rbt, nil, node, Loc, get_key, loc_tree, walk, erase, find_ge}
use jkos.Rbt.Bag.{
  sum, sum-append, sum-middle, split, sum-Split, IsTree, gains, loses, insert-Gains, erase-Loses,
  FoundAt, found_at, find_ge-FoundAt,
}
use jkos.Common.{kernel_heap_begin, kernel_heap_end}
use jkos.Kheap.{
  Block, BySize, ByStart, size_lt, start_lt, size_order, start_order, Heap, give, erase_at, count,
  nodes, has_two_nodes,
}
use jkos.Kheap.Carve.{cover}

abbrev pub size_key : Block → BySize
size_key b = record { block = b }

abbrev pub start_key : Block → ByStart
start_key b = record { block = b }

-- The weight of the free blocks, in each of the trees.
abbrev pub by_size : (Block → ℕ) → Heap → ℕ
by_size w h = sum (λ (k : BySize). w k.block) (walk h.tree_size)

abbrev pub by_start : (Block → ℕ) → Heap → ℕ
by_start w h = sum (λ (k : ByStart). w k.block) (walk h.tree_start)

-- 1 for an address of the heap.
abbrev pub in_heap : ℕ → ℕ
in_heap a = if leb kernel_heap_begin a && ltb a kernel_heap_end then 1 else 0

-- 1 for an empty block.
abbrev pub is_empty : Block → ℕ
is_empty b = if b.size == 0 then 1 else 0

-- Both trees are in order and hold the same blocks, none of them empty. `rest` counts how often an
-- address is in use: with the free blocks, each address of the heap is there once, and no other.
pub record FreeInv (h : Heap) (rest : ℕ → ℕ) : Type 0 where
  pub size_tree : IsTree h.tree_size
  pub start_tree : IsTree h.tree_start
  pub same : (w : Block → ℕ) → by_size w h ≡ by_start w h
  pub solid : by_start is_empty h ≡ 0
  pub conserved : (a : ℕ) → by_start (λ b. cover b a) h + rest a ≡ in_heap a

pub FreeInv-rest :
    (h : Heap) (rest rest' : ℕ → ℕ)
    → ((a : ℕ) → rest a ≡ rest' a)
    → FreeInv h rest
    → FreeInv h rest'
FreeInv-rest h rest rest' e v = record {
  size_tree = v.size_tree;
  start_tree = v.start_tree;
  same = v.same;
  solid = v.solid;
  conserved = λ a. omega (arith, e a, v.conserved a);
}

-- The nodes of a tree are as many as its keys.
count-sum {ℓ} : {K : Type ℓ} → (t : Rbt K) → count t ≡ sum (λ k. 1) (walk t)
count-sum nil = refl
count-sum (node c l k r) =
    omega (arith, count-sum l, count-sum r, sum-append (λ k. 1) (walk l) (k ∷ walk r))

-- Where each of the trees of `h'` has a key more, there are two nodes more.
pub nodes-more :
    (h h' : Heap)
    → 1 + sum (λ k. 1) (walk h.tree_size) ≡ sum (λ k. 1) (walk h'.tree_size)
    → 1 + sum (λ k. 1) (walk h.tree_start) ≡ sum (λ k. 1) (walk h'.tree_start)
    → nodes h' ≡ nodes h + 2
nodes-more h h' f g = omega (
  arith,
  f,
  g,
  count-sum h.tree_size,
  count-sum h.tree_start,
  count-sum h'.tree_size,
  count-sum h'.tree_start,
)

pub enough_nodes : (h : Heap) → nodes h < 1022 → has_two_nodes h ≡ true
enough_nodes h m = ground (arith, m)

-- What the call gives back has the free blocks in order, with the addresses `rest` in use.
pub data Keeps (rest : ℕ → ℕ) (h : Heap) (call : Option Heap) : Type 0 where
  keeps :
      (h' : Heap)
      → call ≡ some h'
      → FreeInv h' rest
      → h'.header ≡ h.header
      → nodes h' ≤ nodes h + 2
      → Keeps rest h call

pub give-Keeps :
    (b : Block) (h : Heap) (rest : ℕ → ℕ)
    → b.size ≢ 0
    → FreeInv h (λ a. cover b a + rest a)
    → nodes h < 1022
    → Keeps rest h (give b h)
unfolding give
give-Keeps b h rest n v m = elim (insert-Gains (size_key b) h.tree_size v.size_tree) [
  | gains t e i f ↦ elim (insert-Gains (start_key b) h.tree_start v.start_tree) [
    | gains s e' j g ↦
        keeps (record h { tree_size = t; tree_start = s }) (rw (enough_nodes h m, e, e') refl)
          (record {
            size_tree = i;
            start_tree = j;
            same =
                λ w. f (λ k. w k.block) ∙ ap (λ x. w b + x) (v.same w) ∙ sym (g (λ k. w k.block));
            solid = ground (arith, g (λ k. is_empty k.block), v.solid);
            conserved = λ a. omega (arith, g (λ k. cover k.block a), v.conserved a);
          })
          refl
          (omega (
            arith,
            nodes-more h (record h { tree_size = t; tree_start = s }) (sym (f (λ k. 1)))
                (sym (g (λ k. 1))),
          ))
  ]
]

-- 1 for the block itself.
abbrev is_block : Block → Block → ℕ
is_block got b = if b.start == got.start && b.size == got.size then 1 else 0

is_block-eq : (got b : Block) → is_block got b ≢ 0 → b ≡ got
is_block-eq got b n =
    let e : b.start ≡ got.start = ground (arith, n) in
    let z : b.size ≡ got.size = ground (arith, n) in cc (e, z)

is_block_self : (got : Block) → is_block got got ≡ 1
is_block_self got = ground arith

size_anti : (a b : BySize) → size_lt a b ≡ false → size_lt b a ≡ false → a ≡ b
size_anti a b h k =
    let z : a.block.size ≡ b.block.size = ground (arith, h, k) in
    let e : a.block.start ≡ b.block.start = ground (arith, h, k) in cc (e, z)

start_anti : (a b : ByStart) → start_lt a b ≡ false → start_lt b a ≡ false → a ≡ b
start_anti a b h k =
    let e : a.block.start ≡ b.block.start = ground (arith, h, k) in
    let z : a.block.size ≡ b.block.size = ground (arith, h, k) in cc (e, z)

find-by_start :
    (got : Block) (h : Heap)
    → IsTree h.tree_start
    → by_start (is_block got) h ≢ 0
    → FoundAt (start_key got) h.tree_start (find_ge (start_key got) h.tree_start)
find-by_start got h i n =
    elim (sum-Split (λ (k : ByStart). is_block got k.block) (walk h.tree_start) n) [
      | split xs k ys e m ↦
          let q : k ≡ start_key got = ap (λ b. start_key b) (is_block-eq got k.block m) in
          find_ge-FoundAt start_anti (start_key got) h.tree_start xs ys i.sorted
            (e ∙ ap (λ x. xs ++ (x ∷ ys)) q)
    ]

find-by_size :
    (got : Block) (h : Heap)
    → IsTree h.tree_size
    → by_size (is_block got) h ≢ 0
    → FoundAt (size_key got) h.tree_size (find_ge (size_key got) h.tree_size)
find-by_size got h i n =
    elim (sum-Split (λ (k : BySize). is_block got k.block) (walk h.tree_size) n) [
      | split xs k ys e m ↦
          let q : k ≡ size_key got = ap (λ b. size_key b) (is_block-eq got k.block m) in
          find_ge-FoundAt size_anti (size_key got) h.tree_size xs ys i.sorted
            (e ∙ ap (λ x. xs ++ (x ∷ ys)) q)
    ]

-- The free block is out of both trees.
pub data Drops (got : Block) (rest : ℕ → ℕ) (h : Heap) (size_call : Option (Rbt BySize))
    (start_call : Option (Rbt ByStart)) : Type 0 where
  drops :
      (t : Rbt BySize) (s : Rbt ByStart)
      → size_call ≡ some t
      → start_call ≡ some s
      → got.size ≢ 0
      → nodes h ≡ nodes (record h { tree_size = t; tree_start = s }) + 2
      → FreeInv (record h { tree_size = t; tree_start = s }) (λ a. cover got a + rest a)
      → Drops got rest h size_call start_call

dropped :
    (got : Block) (h : Heap) (rest : ℕ → ℕ) (t : Rbt BySize) (s : Rbt ByStart)
    → FreeInv h rest
    → IsTree t
    → IsTree s
    → ((w : BySize → ℕ) → w (size_key got) + sum w (walk t) ≡ sum w (walk h.tree_size))
    → ((w : ByStart → ℕ) → w (start_key got) + sum w (walk s) ≡ sum w (walk h.tree_start))
    → FreeInv (record h { tree_size = t; tree_start = s }) (λ a. cover got a + rest a)
dropped got h rest t s v i j f g = record {
  size_tree = i;
  start_tree = j;
  same = λ w. omega (arith, f (λ k. w k.block), g (λ k. w k.block), v.same w);
  solid = ground (arith, g (λ k. is_empty k.block), v.solid);
  conserved = λ a. omega (arith, g (λ k. cover k.block a), v.conserved a);
}

erase_found {ℓ} :
    {K : Type ℓ} (answer : Option (Loc K)) (p : Loc K) → answer ≡ some p → erase_at answer ≡ erase p
erase_found answer p e = rw e refl

-- The block of a node of the size tree goes out of both trees.
pub drop-by_size :
    (p : Loc BySize) (h : Heap) (rest : ℕ → ℕ)
    → loc_tree p ≡ h.tree_size
    → FreeInv h rest
    → Drops
        (get_key p).block
        rest
        h
        (erase p)
        (erase_at (find_ge (start_key (get_key p).block) h.tree_start))
drop-by_size p h rest l v = elim (erase-Loses p h.tree_size l v.size_tree) [
  | loses t e i f ↦
      let n : by_start (is_block (get_key p).block) h ≢ 0 = omega (
        arith,
        f (λ k. is_block (get_key p).block k.block),
        v.same (is_block (get_key p).block),
        is_block_self (get_key p).block,
      ) in
      elim (find-by_start (get_key p).block h v.start_tree n) [
        | found_at q a m r ↦ elim (erase-Loses q h.tree_start m v.start_tree) [
          | loses s e' j g ↦
              drops t s e (erase_found _ q a ∙ e')
                (ground
                  (arith, g (λ k. is_empty k.block), v.solid, ap (λ (k : ByStart). k.block.size) r))
                (nodes-more (record h { tree_size = t; tree_start = s }) h (f (λ k. 1))
                  (g (λ k. 1)))
                (dropped (get_key p).block h rest t s v i j f (λ w. rw (← r) (g w)))
        ]
      ]
]

-- The block of a node of the start tree goes out of both trees.
pub drop-by_start :
    (p : Loc ByStart) (h : Heap) (rest : ℕ → ℕ)
    → loc_tree p ≡ h.tree_start
    → FreeInv h rest
    → Drops
        (get_key p).block
        rest
        h
        (erase_at (find_ge (size_key (get_key p).block) h.tree_size))
        (erase p)
drop-by_start p h rest l v = elim (erase-Loses p h.tree_start l v.start_tree) [
  | loses s e j g ↦
      let n : by_size (is_block (get_key p).block) h ≢ 0 = omega (
        arith,
        g (λ k. is_block (get_key p).block k.block),
        v.same (is_block (get_key p).block),
        is_block_self (get_key p).block,
      ) in
      elim (find-by_size (get_key p).block h v.size_tree n) [
        | found_at q a m r ↦ elim (erase-Loses q h.tree_size m v.size_tree) [
          | loses t e' i f ↦
              drops t s (erase_found _ q a ∙ e') e
                (ground (arith, g (λ k. is_empty k.block), v.solid))
                (nodes-more (record h { tree_size = t; tree_start = s }) h (f (λ k. 1))
                  (g (λ k. 1)))
                (dropped (get_key p).block h rest t s v i j (λ w. rw (← r) (f w)) g)
        ]
      ]
]

-- Where the addresses of a block are those of the heap, its ends lie in the heap.
pub block_bounds :
    (b : Block)
    → b.size ≢ 0
    → ((a : ℕ) → cover b a ≤ in_heap a)
    → (kernel_heap_begin ≤ b.start) × (b.start + b.size ≤ kernel_heap_end)
block_bounds b n h = (ground (arith, h b.start), ground (arith, h (b.start + b.size - 1)))

-- A free block is in the heap and not empty.
pub free_bounds :
    (h : Heap) (rest : ℕ → ℕ) (xs : List BySize) (k : BySize) (ys : List BySize)
    → FreeInv h rest
    → walk h.tree_size ≡ xs ++ (k ∷ ys)
    → (k.block.size ≢ 0)
      × (kernel_heap_begin ≤ k.block.start)
      × (k.block.start + k.block.size ≤ kernel_heap_end)
free_bounds h rest xs k ys v e =
    let m : (w : Block → ℕ)
        → by_start w h ≡ w k.block + sum (λ (j : BySize). w j.block) (xs ++ ys) =
      λ w.
        sym (v.same w)
        ∙ ap (λ l. sum (λ (j : BySize). w j.block) l) e
        ∙ sum-middle (λ (j : BySize). w j.block) xs k ys in
    let n : k.block.size ≢ 0 = ground (arith, m is_empty, v.solid) in
    let b = block_bounds k.block n (λ a. omega (arith, m (λ b. cover b a), v.conserved a)) in
    (n, b.0, b.1)
