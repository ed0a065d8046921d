-- ===== src/Kheap/Fit.antt =====
-- core/kheap.cpp: the search of `kmalloc` ends, and finds a block if one is fit.
use jkos.Base.{
  ℕ, zero, suc, ◌+◌, ◌<◌, ◌≤◌, ◌^◌, ◌≡◌, refl, sym, ◌∙◌, ap, inl, inr, Bool, not, Bool-cases, true,
  false, Option, none, some, List, [], ◌∷◌, ◌++◌, ◌==◌, ◌||◌, ◌&&◌, if◌then◌else◌, ltb, arith, All,
  All-append, All-split, All-imp,
}
use jkos.Rbt.{Rbt, Loc, get_key, loc_tree, find_ge, walk}
use jkos.Rbt.Sorted.{IsSorted, AllLt, AllGe, IsSorted-split}
use jkos.Rbt.Erase.{keys_before, keys_after, walk-loc_tree}
use jkos.Rbt.Find.{first_ge, none_ge, find_ge-FoundGe}
use jkos.Common.{word}
use jkos.Kheap.{Block, BySize, size_lt, size_order, size-IsWeak}
use jkos.Kheap.Malloc.{Search, out_of_memory, fits, fit, is_short, start_in}

abbrev pub key : Block → BySize
key b = record { block = b }

-- The block is less than `req`, or too short for the memory asked for.
abbrev pub Unfit : ℕ → ℕ → Block → List BySize → Type 0
Unfit size palign req = All (λ b. (size_lt b (key req) || is_short size palign b.block) ≡ true)

-- How the search ends: with the first fit block, or without a fit block.
pub data FirstFit (size palign : ℕ) (req : Block) (t : Rbt BySize) (answer : Option Search)
    : Type 0 where
  no_fit :
      answer ≡ some out_of_memory
      → Unfit size palign req (walk t)
      → FirstFit size palign req t answer
  first_fit :
      (p : Loc BySize)
      → answer ≡ some (fits p (start_in palign (get_key p).block))
      → loc_tree p ≡ t
      → Unfit size palign req (keys_before p)
      → size_lt (get_key p) (key req) ≡ false
      → is_short size palign (get_key p).block ≡ false
      → FirstFit size palign req t answer

-- The number of the keys that are not less than `req`.
abbrev pub count_ge : Block → List BySize → ℕ
count_ge req [] = 0
count_ge req (b ∷ bs) = if size_lt b (key req) then count_ge req bs else suc (count_ge req bs)

-- No start is the last address.
abbrev pub HasNext : List BySize → Type 0
HasNext = All (λ b. b.block.start + 1 < 2 ^ 32)

-- `req ++`
abbrev next : Block → Block
next got = record got { start = word (got.start + 1) }

lt-next :
    (got : Block) (b : BySize)
    → got.start + 1 < 2 ^ 32
    → size_lt b (key (next got)) ≡ true
    → size_lt b (key got) ≡ false
    → b ≡ key got
lt-next got b h l n =
    let w : word (got.start + 1) ≡ got.start + 1 = omega arith in
    let m : (ltb b.block.size got.size
          || (b.block.size == got.size && ltb b.block.start (got.start + 1)))
        ≡ true =
      rw (← w) l in
    let z : b.block.size ≡ got.size = ground (arith, m) in
    let a : b.block.start ≡ got.start = ground (arith, m) in cc (z, a)

next-lt :
    (req got : Block) (b : BySize)
    → got.start + 1 < 2 ^ 32
    → size_lt (key got) (key req) ≡ false
    → size_lt b (key req) ≡ true
    → size_lt b (key (next got)) ≡ true
next-lt req got b h g l =
    let w : word (got.start + 1) ≡ got.start + 1 = omega arith in rw w (ground arith)

got-lt : (got : Block) → got.start + 1 < 2 ^ 32 → size_lt (key got) (key (next got)) ≡ true
got-lt got h = let w : word (got.start + 1) ≡ got.start + 1 = omega arith in rw w (ground arith)

or-inr : (a b : Bool) → b ≡ true → (a || b) ≡ true
or-inr a b h = ground arith

or-rest : (a b : Bool) → (a || b) ≡ true → a ≡ false → b ≡ true
or-rest a b h n = ground arith

not-true : (a : Bool) → not a ≡ true → a ≡ false
not-true a h = ground arith

-- A key that is less than `req`, or not less than `got`.
abbrev Gap : Block → Block → BySize → Type 0
Gap req got b = (size_lt b (key req) || not (size_lt b (key got))) ≡ true

Unfit-next :
    (size palign : ℕ) (req got : Block) (ks : List BySize)
    → got.start + 1 < 2 ^ 32
    → is_short size palign got ≡ true
    → All (Gap req got) ks
    → Unfit size palign (next got) ks
    → Unfit size palign req ks
Unfit-next size palign req got [] h s g u = tt
Unfit-next size palign req got (b ∷ ks) h s g u = (
  elim (Bool-cases (size_lt b (key req))) [
    | inl e ↦ rw e refl
    | inr e ↦ elim (Bool-cases (size_lt b (key (next got)))) [
      | inl l ↦
          let n = not-true _ (or-rest _ _ g.0 e) in
          or-inr _ _ (ap (λ (x : BySize). is_short size palign x.block) (lt-next got b h l n) ∙ s)
      | inr l ↦ or-inr _ _ (or-rest _ _ u.0 l)
    ]
  ],
  Unfit-next size palign req got ks h s g.1 u.1,
)

count_ge-le :
    (req got : Block) (ks : List BySize)
    → got.start + 1 < 2 ^ 32
    → size_lt (key got) (key req) ≡ false
    → count_ge (next got) ks ≤ count_ge req ks
count_ge-le req got [] h g = ground arith
count_ge-le req got (b ∷ ks) h g = elim (Bool-cases (size_lt b (key req))) [
  | inl e ↦ rw (next-lt req got b h g e, e) (count_ge-le req got ks h g)
  | inr e ↦ elim (Bool-cases (size_lt b (key (next got)))) [
    | inl l ↦ rw (l, e) (omega (arith, count_ge-le req got ks h g))
    | inr l ↦ rw (l, e) (omega (arith, count_ge-le req got ks h g))
  ]
]

count_ge-less :
    (req got : Block) (ks ks' : List BySize)
    → got.start + 1 < 2 ^ 32
    → size_lt (key got) (key req) ≡ false
    → count_ge (next got) (ks ++ (key got ∷ ks')) < count_ge req (ks ++ (key got ∷ ks'))
count_ge-less req got [] ks' h g = rw (got-lt got h, g) (omega (arith, count_ge-le req got ks' h g))
count_ge-less req got (b ∷ ks) ks' h g = elim (Bool-cases (size_lt b (key req))) [
  | inl e ↦ rw (next-lt req got b h g e, e) (count_ge-less req got ks ks' h g)
  | inr e ↦ elim (Bool-cases (size_lt b (key (next got)))) [
    | inl l ↦ rw (l, e) (omega (arith, count_ge-less req got ks ks' h g))
    | inr l ↦ rw (l, e) (omega (arith, count_ge-less req got ks ks' h g))
  ]
]

fit-none :
    (fuel size palign : ℕ) (req : Block) (t : Rbt BySize)
    → find_ge (key req) t ≡ none
    → fit (suc fuel) size palign req t ≡ some out_of_memory
unfolding fit
fit-none fuel size palign req t e = rw (e, fit) refl

fit-some :
    (fuel size palign : ℕ) (req : Block) (t : Rbt BySize) (p : Loc BySize)
    → find_ge (key req) t ≡ some p
    → fit (suc fuel) size palign req t ≡ (
        if is_short size palign (get_key p).block
        then fit fuel size palign (next (get_key p).block) t
        else some (fits p (start_in palign (get_key p).block)))
unfolding fit
fit-some fuel size palign req t p e = rw (e, fit) refl

walk-at :
    (t : Rbt BySize) (p : Loc BySize)
    → loc_tree p ≡ t
    → walk t ≡ keys_before p ++ (get_key p ∷ keys_after p)
walk-at t p e = ap (λ x. walk x) (sym e) ∙ walk-loc_tree p

Gap-All :
    (req got : Block) (ks ks' : List BySize)
    → AllLt (key req) ks
    → AllGe (key got) ks'
    → All (Gap req got) (ks ++ (key got ∷ ks'))
Gap-All req got ks ks' l g =
    All-append (Gap req got) ks (key got ∷ ks')
      (All-imp (λ b. size_lt b (key req) ≡ true) (Gap req got) ks (λ b e. rw e refl) l)
      (
        or-inr _ _ (ap not (size-IsWeak.lt_irrefl (key got))),
        All-imp (λ b. size_lt b (key got) ≡ false) (Gap req got) ks' (λ b e. or-inr _ _ (ap not e))
            g,
      )

FirstFit-next :
    (size palign : ℕ) (req got : Block) (t : Rbt BySize) (answer : Option Search)
    → got.start + 1 < 2 ^ 32
    → size_lt (key got) (key req) ≡ false
    → is_short size palign got ≡ true
    → All (Gap req got) (walk t)
    → FirstFit size palign (next got) t answer
    → FirstFit size palign req t answer
FirstFit-next size palign req got t answer h g s a (no_fit e u) =
    no_fit e (Unfit-next size palign req got (walk t) h s a u)
FirstFit-next size palign req got t answer h g s a (first_fit p e l u n f) =
    let b : All (Gap req got) (keys_before p ++ (get_key p ∷ keys_after p)) =
      rw (← walk-at t p l) a in
    first_fit p e l
      (Unfit-next size palign req got (keys_before p) h s
        (All-split (Gap req got) (keys_before p) _ b).0 u)
      (elim (Bool-cases (size_lt (get_key p) (key req))) [
        | inl q ↦ let c = next-lt req got (get_key p) h g q in cc (c, n)
        | inr q ↦ q
      ])
      f

-- The search of `kmalloc` in a sorted tree, with fuel for the blocks that are not less than `req`,
-- ends. It finds the first of these blocks that is long enough for the memory at its aligned start,
-- or reports that no block of the tree is.
pub fit-FirstFit :
    (fuel size palign : ℕ) (req : Block) (t : Rbt BySize)
    → IsSorted (walk t)
    → HasNext (walk t)
    → count_ge req (walk t) < fuel
    → FirstFit size palign req t (fit fuel size palign req t)
fit-FirstFit zero size palign req t s h c = ground arith
fit-FirstFit (suc fuel) size palign req t s h c = elim (find_ge-FoundGe (key req) t s) [
  | none_ge e a ↦
      no_fit (fit-none fuel size palign req t e)
        (All-imp (λ b. size_lt b (key req) ≡ true) _ (walk t) (λ b q. rw q refl) a)
  | first_ge p e l a n ↦
      let got = (get_key p).block in
      let w = walk-at t p l in
      elim (Bool-cases (is_short size palign got)) [
        | inr f ↦
            first_fit p (fit-some fuel size palign req t p e ∙ (rw f refl)) l
              (All-imp (λ b. size_lt b (key req) ≡ true) _ (keys_before p) (λ b q. rw q refl) a) n f
        | inl f ↦
            let v = IsSorted-split (keys_before p) (get_key p) (keys_after p) (rw (← w) s) in
            let k : got.start + 1 < 2 ^ 32 =
              (All-split (λ b. b.block.start + 1 < 2 ^ 32) (keys_before p)
                (get_key p ∷ keys_after p) (rw (← w) h)).1.0 in
            let d : count_ge (next got) (walk t) < count_ge req (walk t) =
              rw w (count_ge-less req got (keys_before p) (keys_after p) k n) in
            rw (fit-some fuel size palign req t p e, f)
              (FirstFit-next size palign req got t _ k n f
                (rw w (Gap-All req got (keys_before p) (keys_after p) a v.1))
                (fit-FirstFit fuel size palign (next got) t s h (omega (arith, c, d))))
      ]
]
