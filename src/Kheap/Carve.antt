-- ===== src/Kheap/Carve.antt =====
-- core/kheap.cpp: how `kmalloc` cuts the free block that it takes.
use jkos.Base.{
  ℕ, ◌+◌, ◌-◌, ◌^◌, ◌≤◌, ◌<◌, ◌≡◌, ◌≢◌, refl, Bool-cases, inl, inr, Option, none, some,
  if◌then◌else◌, leb, ltb, ◌&&◌, arith,
}
use jkos.Common.{word}
use jkos.Kheap.{Block, end_of}
use jkos.Kheap.Malloc.{tail_of, head_of, without_tail, without_head}

-- 1 for an address of the block.
abbrev pub cover : Block → ℕ → ℕ
cover b a = if leb b.start a && ltb a (b.start + b.size) then 1 else 0

abbrev pub cover_maybe : Option Block → ℕ → ℕ
cover_maybe none a = 0
cover_maybe (some b) a = cover b a

-- The memory at `start` lies in the free block, with its header, below the addresses where a sum
-- would wrap.
pub record Inside (size start : ℕ) (got : Block) : Type 0 where
  pub low : got.start + 8 ≤ start
  pub high : start + size ≤ got.start + got.size
  pub few : got.start + got.size + 16 < 2 ^ 32

abbrev cut_tail : ℕ → ℕ → Block → Option Block
cut_tail size start got =
    if ltb (start + size + 16) (got.start + got.size)
    then some (record { start = start + size; size = got.start + got.size - (start + size) })
    else none

tail_of-lem :
    (size start : ℕ) (got : Block)
    → Inside size start got
    → tail_of size start got ≡ cut_tail size start got
tail_of-lem size start got i =
    let a : word (start + size + 16) ≡ start + size + 16 = omega (arith, i.low, i.high, i.few) in
    let b : end_of got ≡ got.start + got.size = omega (arith, i.low, i.high, i.few) in
    let c : word (start + size) ≡ start + size = omega (arith, i.low, i.high, i.few) in
    let d : word (got.start + got.size + 2 ^ 32 - (start + size))
        ≡ got.start + got.size - (start + size) =
      omega (arith, i.low, i.high, i.few) in
    rw (a, b, c, d) refl

abbrev cut_head : ℕ → Block → Option Block
cut_head start got =
    if ltb (got.start + 24) start
    then some (record { start = got.start; size = start - got.start - 8 })
    else none

head_of-lem :
    (size start : ℕ) (got : Block) → Inside size start got → head_of start got ≡ cut_head start got
head_of-lem size start got i =
    let d : word (start + 2 ^ 33 - got.start - 8) ≡ start - got.start - 8 =
      omega (arith, i.low, i.high, i.few) in
    let b : ltb 24 (word (start + 2 ^ 32 - got.start)) ≡ ltb (got.start + 24) start =
      ground (arith, i.low, i.high, i.few) in
    rw (b, d) refl

-- What `kmalloc` makes of a free block: the block of the allocation, and the free blocks behind and
-- before it.
pub record Cuts (size start : ℕ) (got : Block) (tail head : Option Block) (blk : Block)
    : Type 0 where
  pub covers : (a : ℕ) → cover got a ≡ cover blk a + cover_maybe tail a + cover_maybe head a
  pub header_inside : blk.start + 8 ≤ start
  pub memory_inside : start + size ≤ blk.start + blk.size

without_tail-lem :
    (size start : ℕ) (got : Block)
    → Inside size start got
    → without_tail got (cut_tail size start got) ≡ record got {
      size =
          if ltb (start + size + 16) (got.start + got.size)
          then start + size - got.start
          else got.size;
    }
without_tail-lem size start got i =
    let d : word (got.size + 2 ^ 32 - (got.start + got.size - (start + size)))
        ≡ start + size - got.start =
      omega (arith, i.low, i.high, i.few) in
    elim (Bool-cases (ltb (start + size + 16) (got.start + got.size))) [
      | inl e ↦ rw (e, d) refl
      | inr e ↦ rw e refl
    ]

without_head-lem :
    (size start : ℕ) (got : Block)
    → Inside size start got
    → without_head got (cut_head start got) ≡ (
        if ltb (got.start + 24) start
        then record { start = start - 8; size = got.start + got.size - (start - 8) }
        else got)
without_head-lem size start got i = elim (Bool-cases (ltb (got.start + 24) start)) [
  | inl e ↦
      let d : word (got.start + (start - got.start - 8)) ≡ start - 8 =
        omega (arith, i.low, i.high, i.few) in
      let c : word (got.size + 2 ^ 32 - (start - got.start - 8))
          ≡ got.start + got.size - (start - 8) =
        omega (arith, i.low, i.high, i.few) in
      rw (e, d, c) refl
  | inr e ↦ rw e refl
]

abbrev rest_of : ℕ → ℕ → Block → Block
rest_of size start got = record got {
  size =
      if ltb (start + size + 16) (got.start + got.size) then start + size - got.start else got.size;
}

rest_of-Inside :
    (size start : ℕ) (got : Block)
    → Inside size start got
    → Inside size start (rest_of size start got)
rest_of-Inside size start got i = record {
  low = i.low;
  high = ground (arith, i.low, i.high);
  few = ground (arith, i.low, i.high, i.few);
}

abbrev shifted : ℕ → Block → Block
shifted start got =
    if ltb (got.start + 24) start
    then record { start = start - 8; size = got.start + got.size - (start - 8) }
    else got

cut-Cuts :
    (size start : ℕ) (got : Block)
    → Inside size start got
    → Cuts size start got
        (cut_tail size start got)
        (cut_head start (rest_of size start got))
        (shifted start (rest_of size start got))
cut-Cuts size start got i = elim (Bool-cases (ltb (start + size + 16) (got.start + got.size))) [
  | inl e ↦ rw e (elim (Bool-cases (ltb (got.start + 24) start)) [
    | inl f ↦ rw f (record {
      covers = λ a. ground (arith, i.low, i.high, e, f);
      header_inside = omega (arith, i.low);
      memory_inside = omega (arith, i.low, i.high);
    })
    | inr f ↦ rw f (record {
      covers = λ a. ground (arith, i.low, i.high, e, f);
      header_inside = omega (arith, i.low);
      memory_inside = omega (arith, i.low, i.high);
    })
  ])
  | inr e ↦ rw e (elim (Bool-cases (ltb (got.start + 24) start)) [
    | inl f ↦ rw f (record {
      covers = λ a. ground (arith, i.low, i.high, e, f);
      header_inside = omega (arith, i.low);
      memory_inside = omega (arith, i.low, i.high);
    })
    | inr f ↦ rw f (record {
      covers = λ a. ground (arith, i.low, i.high, e, f);
      header_inside = omega (arith, i.low);
      memory_inside = omega (arith, i.low, i.high);
    })
  ])
]

-- `kmalloc` cuts the free block that the memory and its header lie in, with 16 addresses to spare
-- below 2^32: each address of the block is in exactly one of the block of the allocation and the
-- free blocks that go back, and the header and the memory are in the block of the allocation.
pub carve-Cuts :
    (size start : ℕ) (got : Block)
    → Inside size start got
    → let tail = tail_of size start got in
      let rest = without_tail got tail in
      let head = head_of start rest in Cuts size start got tail head (without_head rest head)
carve-Cuts size start got i =
    let j = rest_of-Inside size start got i in
    rw
      (
        tail_of-lem size start got i,
        without_tail-lem size start got i,
        head_of-lem size start (rest_of size start got) j,
        without_head-lem size start (rest_of size start got) j,
      )
      (cut-Cuts size start got i)

-- A block that goes back is not empty.
abbrev pub IsSolid : Option Block → Type 0
IsSolid none = Unit
IsSolid (some b) = b.size ≢ 0

cut_tail-IsSolid : (size start : ℕ) (got : Block) → IsSolid (cut_tail size start got)
cut_tail-IsSolid size start got =
    elim (Bool-cases (ltb (start + size + 16) (got.start + got.size))) [
      | inl e ↦ rw e (ground (arith, e))
      | inr e ↦ rw e tt
    ]

cut_head-IsSolid : (start : ℕ) (got : Block) → IsSolid (cut_head start got)
cut_head-IsSolid start got = elim (Bool-cases (ltb (got.start + 24) start)) [
  | inl e ↦ rw e (ground (arith, e))
  | inr e ↦ rw e tt
]

pub carve-IsSolid :
    (size start : ℕ) (got : Block)
    → Inside size start got
    → let tail = tail_of size start got in
      IsSolid tail × IsSolid (head_of start (without_tail got tail))
carve-IsSolid size start got i =
    let j = rest_of-Inside size start got i in
    rw
      (
        tail_of-lem size start got i,
        without_tail-lem size start got i,
        head_of-lem size start (rest_of size start got) j,
      )
      (cut_tail-IsSolid size start got, cut_head-IsSolid start (rest_of size start got))
