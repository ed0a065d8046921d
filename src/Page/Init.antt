-- ===== src/Page/Init.antt =====
-- core/page.cpp: `init_frames`, the stack of free frames from the memory map of the boot loader.
use jkos.Base.{
  not, ℕ, zero, suc, ◌+◌, ◌-◌, ◌*◌, ◌/◌, ◌^◌, ◌≤◌, ◌<◌, ◌≡◌, ◌≢◌, ◌⊎◌, inl, inr, refl, ◌∙◌, ap,
  Bool, Bool-cases, true, false, Option, none, some, List, [], ◌∷◌, ◌==◌, ◌&&◌, ◌||◌, if◌then◌else◌,
  ltb, leb, arith, All, ◌>>=◌,
}
use jkos.Common.{word}
use jkos.Page.{Memory}
use jkos.Page.Refs.{RefInv, occurrences}

-- `Multiboot_mmap_entry_t`; `available` is the test of its type.
pub record Region : Type 0 where
  pub addr : ℕ
  pub len : ℕ
  pub available : Bool

-- The first loop: `memsize`, or `none` for the panic "physical memory too large".
unfoldable pub memory_size : List Region → ℕ → Option ℕ
memory_size [] memsize = some memsize
memory_size (r ∷ rs) memsize =
    let end = r.addr + r.len in
    let rest = memory_size rs (if r.available && ltb memsize end then end else memsize) in
    if r.available && (leb 0xFFFFFFFF r.addr || leb 0xFFFFFFFF r.len || ltb 0xFFFFFFFF end)
    then none
    else rest

-- The first whole page of a region, and the one behind the last.
abbrev pub first_page : Region → ℕ
first_page r = if r.addr == 0 then 0 else (r.addr - 1) / 2 ^ 12 + 1

abbrev pub page_end : Region → ℕ
page_end r = word (r.addr + r.len) / 2 ^ 12

-- The loop over the frames of a region, downwards from before `i`; `none` means that the fuel ran out.
unfoldable pub push_frames : ℕ → ℕ → ℕ → ℕ → List ℕ → Option (List ℕ)
push_frames zero i start kernel_end frames = none
push_frames (suc fuel) i start kernel_end frames =
    let i' = word (i + 2 ^ 32 - 1) in
    let rest = push_frames fuel i' start kernel_end (i' ∷ frames) in
    if leb start i' && ltb kernel_end i' then rest else some frames

unfoldable pub push_regions : ℕ → ℕ → List Region → List ℕ → Option (List ℕ)
unfolding push_frames
push_regions fuel kernel_end [] frames = some frames
push_regions fuel kernel_end (r ∷ rs) frames =
    if r.available
    then (push_frames fuel (word (page_end r + 2 ^ 32 - 1)) (first_page r) kernel_end frames
        >>= λ frames'. push_regions fuel kernel_end rs frames')
    else push_regions fuel kernel_end rs frames

-- `init_frames`, with `kernel_end` for `kheap_get_size_pre_init() >> 12`: the size of the memory and
-- the stack, last pushed first.
unfoldable pub init_frames : ℕ → ℕ → List Region → Option (ℕ × List ℕ)
unfolding memory_size push_regions
init_frames fuel kernel_end mmap = do
  memsize ← memory_size mmap 0
  frames ← push_regions fuel kernel_end mmap []
  some (memsize, frames)

-- The frames that a region gives: whole pages behind the kernel, but the last one.
abbrev pub gives : ℕ → Region → ℕ → Bool
gives kernel_end r a =
    r.available && leb (first_page r) a && ltb (a + 1) (page_end r) && ltb kernel_end a

abbrev one_if : Bool → ℕ
one_if b = if b then 1 else 0

abbrev pub given : ℕ → List Region → ℕ → ℕ
given kernel_end [] a = 0
given kernel_end (r ∷ rs) a = one_if (gives kernel_end r a) + given kernel_end rs a

data Pushes (n : ℕ → ℕ) (frames : List ℕ) (call : Option (List ℕ)) : Type 0 where
  pushes :
      (out : List ℕ)
      → call ≡ some out
      → ((a : ℕ) → occurrences a out ≡ n a + occurrences a frames)
      → Pushes n frames call

push_frames-Pushes :
    (fuel i start kernel_end : ℕ) (frames : List ℕ)
    → 0 < i
    → i < 2 ^ 32
    → i < fuel
    → Pushes
        (λ a. one_if (leb start a && ltb a i && ltb kernel_end a))
        frames
        (push_frames fuel i start kernel_end frames)
unfolding push_frames
push_frames-Pushes zero i start kernel_end frames z h k = ground arith
push_frames-Pushes (suc fuel) i start kernel_end frames z h k =
    let w : word (i + 2 ^ 32 - 1) ≡ i - 1 = omega arith in
    elim (Bool-cases (leb start (i - 1) && ltb kernel_end (i - 1))) [
      | inr e ↦ pushes frames (rw (w, e) refl) (λ a. ground arith)
      | inl e ↦
          elim (push_frames-Pushes fuel (i - 1) start kernel_end ((i - 1) ∷ frames) (ground arith)
            (omega arith) (omega arith)) [
              | pushes out q f ↦ pushes out (rw (w, e) q) (λ a. f a ∙ ground arith)
            ]
    ]

-- An available region lies in the memory of 32 bits, and ends behind the first two pages.
pub record IsUsable (r : Region) : Type 0 where
  pub start_small : r.addr < 0xFFFFFFFF
  pub len_small : r.len < 0xFFFFFFFF
  pub end_small : r.addr + r.len ≤ 0xFFFFFFFF
  pub two_pages : 2 ≤ page_end r

abbrev pub AllUsable : List Region → Type 0
AllUsable = All (λ r. r.available ≡ true → IsUsable r)

-- No region overlaps an available one behind it.
abbrev pub IsApart : List Region → Type 0
IsApart [] = Unit
IsApart (r ∷ rs) =
    All (λ q. q.available ≡ true → (r.addr + r.len ≤ q.addr) ⊎ (q.addr + q.len ≤ r.addr)) rs
    × IsApart rs

data Sizes (call : Option ℕ) : Type 0 where
  sizes : (n : ℕ) → call ≡ some n → Sizes call

memory_size-Sizes : (rs : List Region) (memsize : ℕ) → AllUsable rs → Sizes (memory_size rs memsize)
unfolding memory_size
memory_size-Sizes [] memsize h = sizes memsize refl
memory_size-Sizes (r ∷ rs) memsize h =
    elim (memory_size-Sizes rs
      (if r.available && ltb memsize (r.addr + r.len) then r.addr + r.len else memsize) (h.1)) [
        | sizes n e ↦ elim (Bool-cases r.available) [
          | inr b ↦ sizes n (ground (arith, e, b))
          | inl b ↦
              let u = h.0 b in
              let c : (r.available
                    && (leb 0xFFFFFFFF r.addr
                        || leb 0xFFFFFFFF r.len
                        || ltb 0xFFFFFFFF (r.addr + r.len)))
                  ≡ false =
                ground (arith, u.start_small, u.len_small, u.end_small) in
              sizes n (rw c e)
        ]
      ]

region_gives_lem :
    (kernel_end a first end : ℕ) (available : Bool)
    → available ≡ true
    → 2 ≤ end
    → one_if (leb first a && ltb a (end - 1) && ltb kernel_end a)
      ≡ one_if (available && leb first a && ltb (a + 1) end && ltb kernel_end a)
region_gives_lem kernel_end a first end available b h = ground arith

region_gives :
    (kernel_end a : ℕ) (r : Region)
    → r.available ≡ true
    → 2 ≤ page_end r
    → one_if (leb (first_page r) a && ltb a (page_end r - 1) && ltb kernel_end a)
      ≡ one_if (gives kernel_end r a)
region_gives kernel_end a r b h =
    region_gives_lem kernel_end a (first_page r) (page_end r) r.available b h

push_regions-Pushes :
    (fuel kernel_end : ℕ) (rs : List Region) (frames : List ℕ)
    → 2 ^ 20 < fuel
    → AllUsable rs
    → Pushes (given kernel_end rs) frames (push_regions fuel kernel_end rs frames)
unfolding push_regions
push_regions-Pushes fuel kernel_end [] frames k h = pushes frames refl (λ a. omega arith)
push_regions-Pushes fuel kernel_end (r ∷ rs) frames k h = elim (Bool-cases r.available) [
  | inr b ↦ elim (push_regions-Pushes fuel kernel_end rs frames k (h.1)) [
    | pushes out e f ↦ pushes out (rw b e) (λ a. f a ∙ ground (arith, b))
  ]
  | inl b ↦
      let u = h.0 b in
      let w : word (page_end r + 2 ^ 32 - 1) ≡ page_end r - 1 = omega (arith, u.two_pages) in
      elim (push_frames-Pushes fuel (page_end r - 1) (first_page r) kernel_end frames
        (omega (arith, u.two_pages)) (omega arith) (omega (arith, k))) [
          | pushes mid q g ↦ elim (push_regions-Pushes fuel kernel_end rs mid k (h.1)) [
            | pushes out e f ↦
                pushes out (rw (b, w, q) e)
                  (λ a. omega (arith, f a, g a, region_gives kernel_end a r b u.two_pages))
          ]
        ]
]

-- The page of a frame that a region gives is in the region.
bounds_lem :
    (kernel_end a first end : ℕ) (available : Bool)
    → (available && leb first a && ltb (a + 1) end && ltb kernel_end a) ≡ true
    → (first ≤ a) × (a + 1 < end) × (kernel_end < a)
bounds_lem kernel_end a first end available h = (ground arith, ground arith, ground arith)

first_page-le : (r : Region) → r.addr ≤ first_page r * 4096
first_page-le r = ground arith

gives_bounds :
    (kernel_end a : ℕ) (r : Region)
    → IsUsable r
    → gives kernel_end r a ≡ true
    → (r.addr ≤ a * 4096) × (a * 4096 < r.addr + r.len) × (kernel_end < a) × (a < 2 ^ 20)
gives_bounds kernel_end a r u h =
    let w : word (r.addr + r.len) ≡ r.addr + r.len = omega (arith, u.end_small) in
    let e : page_end r ≡ (r.addr + r.len) / 4096 = ap (λ x. x / 4096) w in
    let b = bounds_lem kernel_end a (first_page r) (page_end r) r.available h in
    (
      omega (arith, b.0, first_page-le r),
      omega (arith, b.1, e),
      b.2,
      omega (arith, b.1, e, u.end_small),
    )

available_lem : (a b c d : Bool) → (a && b && c && d) ≡ true → a ≡ true
available_lem a b c d h = ground arith

gives_available : (kernel_end a : ℕ) (r : Region) → gives kernel_end r a ≡ true → r.available ≡ true
gives_available kernel_end a r h = available_lem r.available _ _ _ h

apart_none :
    (kernel_end a : ℕ) (r : Region) (rs : List Region)
    → IsUsable r
    → AllUsable rs
    → All (λ q. q.available ≡ true → (r.addr + r.len ≤ q.addr) ⊎ (q.addr + q.len ≤ r.addr)) rs
    → gives kernel_end r a ≡ true
    → given kernel_end rs a ≡ 0
apart_none kernel_end a r [] u us h g = refl
apart_none kernel_end a r (q ∷ rs) u us h g = elim (Bool-cases (gives kernel_end q a)) [
  | inr b ↦ omega (arith, ap (λ x. one_if x) b, apart_none kernel_end a r rs u (us.1) (h.1) g)
  | inl b ↦
      let v = gives_available kernel_end a q b in
      let x = gives_bounds kernel_end a r u g in
      let y = gives_bounds kernel_end a q (us.0 v) b in
      absurd (omega (arith, h.0 v, x.0, x.1, y.0, y.1))
]

given_once :
    (kernel_end a : ℕ) (rs : List Region) → AllUsable rs → IsApart rs → given kernel_end rs a ≤ 1
given_once kernel_end a [] us h = omega arith
given_once kernel_end a (r ∷ rs) us h = elim (Bool-cases (gives kernel_end r a)) [
  | inr b ↦ omega (arith, ap (λ x. one_if x) b, given_once kernel_end a rs (us.1) (h.1))
  | inl b ↦ omega (
    arith,
    ap (λ x. one_if x) b,
    apart_none kernel_end a r rs (us.0 (gives_available kernel_end a r b)) (us.1) (h.0) b,
  )
]

given_bounds :
    (kernel_end a : ℕ) (rs : List Region)
    → AllUsable rs
    → given kernel_end rs a ≢ 0
    → (kernel_end < a) × (a < 2 ^ 20)
given_bounds kernel_end a [] us h = absurd (h refl)
given_bounds kernel_end a (r ∷ rs) us h = elim (Bool-cases (gives kernel_end r a)) [
  | inl b ↦
      let x = gives_bounds kernel_end a r (us.0 (gives_available kernel_end a r b)) b in (x.2, x.3)
  | inr b ↦ given_bounds kernel_end a rs (us.1) (λ e. h (omega (arith, ap (λ x. one_if x) b, e)))
]

-- The frames that the memory map gives.
abbrev pub pool_of : ℕ → List Region → ℕ → Bool
pool_of kernel_end mmap a = not (given kernel_end mmap a == 0)

pub data Inits (kernel_end : ℕ) (mmap : List Region) (call : Option (ℕ × List ℕ)) : Type 0 where
  inits :
      (memsize : ℕ) (frames : List ℕ)
      → call ≡ some (memsize, frames)
      → ((m : Memory) → m.frames ≡ frames → RefInv (pool_of kernel_end mmap) m [])
      → Inits kernel_end mmap call

pool-lem : (n : ℕ) → not (n == 0) ≡ true → n ≢ 0
pool-lem n h e = ground arith

null_lem : (n : ℕ) → (n ≢ 0 → ⊥) → not (n == 0) ≡ false
null_lem n h = ground (arith, h)

once_lem : (n : ℕ) → n ≤ 1 → n ≡ one_if (not (n == 0) && (0 == 0))
once_lem n h = ground arith

-- For a memory map in which no region overlaps an available one behind it in the map, and whose available
-- regions lie in 32 bits and end behind the first two pages, and with fuel for the frames of 32 bits,
-- `init_frames` does not panic. With the stack that it makes and no entry in use the invariant of the
-- reference counts holds for the whole pages of the available regions behind the kernel, but the last
-- one of each.
pub init_frames-Inits :
    (fuel kernel_end : ℕ) (mmap : List Region)
    → 2 ^ 20 < fuel
    → AllUsable mmap
    → IsApart mmap
    → Inits kernel_end mmap (init_frames fuel kernel_end mmap)
unfolding init_frames
init_frames-Inits fuel kernel_end mmap k us h = elim (memory_size-Sizes mmap 0 us) [
  | sizes n e ↦ elim (push_regions-Pushes fuel kernel_end mmap [] k us) [
    | pushes out q f ↦ inits n out (rw (e, q) refl) (λ m w. record {
      no_null = null_lem _ (λ (d : given kernel_end mmap 0 ≢ 0).
          omega (arith, (given_bounds kernel_end 0 mmap us d).0));
      in_bits = λ a p. (given_bounds kernel_end a mmap us (pool-lem _ p)).1;
      few = omega arith;
      conserved = λ a.
          ap (λ x. occurrences a x) w
          ∙ omega
              (arith, f a, once_lem (given kernel_end mmap a) (given_once kernel_end a mmap us h));
      counted = λ a z d. absurd (d refl);
    })
  ]
]
