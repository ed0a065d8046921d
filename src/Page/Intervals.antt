-- ===== src/Page/Intervals.antt =====
-- core/page.cpp: which pages the interval operations touch.
use jkos.Base.{
  ℕ, zero, suc, ◌+◌, ◌*◌, ◌/◌, ◌%◌, ◌^◌, ◌≤◌, ◌≡◌, ◌≢◌, refl, inl, inr, ap, ◌∙◌, Bool, Bool-cases,
  Option-cases, true, false, Option, none, some, ◌==◌, ltb, leb, if◌then◌else◌, ◌&&◌, arith,
}
use jkos.Common.{kernel_heap_begin, kernel_heap_end}
use jkos.Page.{Entry, empty_entry, Memory, lazy_alloc}
use jkos.Page.Directory.{
  Directory, TableSource, add_table, tb_idx, tb_offset, page_of, make_page, put_page,
  lazy_alloc_loop, lazy_alloc_interval, get_physical_addr, rounds, is_aligned,
}

-- The entry that an access to the address finds; a missing table reads like an empty one.
abbrev pub entry_of : Directory → ℕ → Entry
entry_of d b = elim (page_of d b) [ none ↦ empty_entry | some e ↦ e ]

-- Outside of the heap `kmalloc` changes no entry.
abbrev pub in_heap : ℕ → Bool
in_heap b = leb kernel_heap_begin b && ltb b kernel_heap_end

abbrev pub KeepsEntries : TableSource → Type 0
KeepsEntries new_table =
    (d d' : Directory) (m m' : Memory) (frame b : ℕ)
    → new_table d m ≡ some (frame, d', m')
    → in_heap b ≡ false
    → entry_of d' b ≡ entry_of d b

-- A write to the page in a directory that has its table: the other address is on the page, or has
-- another entry.
entry_of-put_page :
    (d : Directory) (a b : ℕ) (e : Entry) (t : ℕ → Entry)
    → d.tables (tb_idx a) ≡ some t
    → entry_of (put_page d a e) b ≡ (if a / 2 ^ 12 == b / 2 ^ 12 then e else entry_of d b)
unfolding put_page
entry_of-put_page d a b e t r = elim (Bool-cases (tb_idx a == tb_idx b)) [
  | inl q ↦ ground arith
  | inr q ↦ ground arith
]

-- An empty table in place of a missing one is read alike, but for what `kmalloc` changes.
entry_of-add_table :
    (d d' : Directory) (i frame b : ℕ)
    → d.tables i ≡ none
    → entry_of d' b ≡ entry_of d b
    → entry_of (add_table d' i frame) b ≡ entry_of d b
entry_of-add_table d d' i frame b r h = elim (Bool-cases (tb_idx b == i)) [
  | inl q ↦ ground arith
  | inr q ↦ ground arith
]

-- `get_page(a, true)` gives the entry of the address and the same entries outside of the heap, or `kmalloc`
-- panicked.
data Makes (new_table : TableSource) (d : Directory) (a : ℕ)
    (call : Option (Entry × Directory × Memory)) : Type 0 where
  no_table :
      (d1 : Directory) (m1 : Memory)
      → new_table d1 m1 ≡ none
      → call ≡ none
      → Makes new_table d a call
  makes :
      (e : Entry) (d' : Directory) (m' : Memory) (t : ℕ → Entry)
      → call ≡ some (e, d', m')
      → e ≡ entry_of d a
      → d'.tables (tb_idx a) ≡ some t
      → ((b : ℕ) → in_heap b ≡ false → entry_of d' b ≡ entry_of d b)
      → Makes new_table d a call

make_page-Makes :
    (new_table : TableSource) (d : Directory) (m : Memory) (a : ℕ)
    → KeepsEntries new_table
    → Makes new_table d a (make_page new_table d m a)
unfolding make_page
make_page-Makes new_table d m a k = elim (Option-cases (d.tables (tb_idx a))) [
  | inr (t, r) ↦
      makes (t (tb_offset a)) d m t (rw (make_page, r) refl) (rw (entry_of, r) refl) r (λ b h. refl)
  | inl r ↦ elim (Option-cases (new_table d m)) [
    | inl q ↦ no_table d m q (rw (make_page, r, q) refl)
    | inr (x, q) ↦
        makes empty_entry (add_table (x.1) (tb_idx a) (x.0)) (x.2) (λ j. empty_entry)
          (rw (make_page, r, q) refl) (rw (entry_of, r) refl) (ground arith)
          (λ b h. entry_of-add_table d (x.1) (tb_idx a) (x.0) b r (k d _ m _ (x.0) b q h))
  ]
]

-- What `lazy_alloc` makes of an entry; the memory does not matter.
abbrev pub lazy_entry : Bool → Bool → Bool → Entry → Entry
lazy_entry user writable fill_zero e =
    if e.addr == 0
    then record e { rw = writable; user = user; allocable = true; alloc_fill = fill_zero }
    else record e { rw = writable; user = user }

lazy_alloc-lazy_entry :
    (user writable fill_zero : Bool) (e : Entry) (m : Memory)
    → (lazy_alloc user writable fill_zero e m).0 ≡ lazy_entry user writable fill_zero e
unfolding lazy_alloc
lazy_alloc-lazy_entry user writable fill_zero e m = elim (Bool-cases (e.addr == 0)) [
  | inl q ↦ rw q
  | inr q ↦ rw q
]

-- The page of the address is one of the `k` pages from `i` on.
abbrev pub in_pages : ℕ → ℕ → ℕ → Bool
in_pages i k b = leb (i / 2 ^ 12) (b / 2 ^ 12) && ltb (b / 2 ^ 12) (i / 2 ^ 12 + k)

-- One round of a loop that applies `f` to the page of `i`.
round_step :
    (f : Entry → Entry) (k i b : ℕ) (x y z : Entry)
    → x ≡ (if i / 2 ^ 12 == b / 2 ^ 12 then f y else z)
    → (i / 2 ^ 12 ≡ b / 2 ^ 12 → y ≡ z)
    → (if in_pages (i + 0x1000) k b then f x else x) ≡ (if in_pages i (suc k) b then f z else z)
round_step f k i b x y z e h = elim (Bool-cases (i / 2 ^ 12 == b / 2 ^ 12)) [
  | inl q ↦
      let u : in_pages (i + 0x1000) k b ≡ false = ground arith in
      let v : in_pages i (suc k) b ≡ true = ground arith in rw (u, v, e, q, h (ground arith))
  | inr q ↦ let u : in_pages (i + 0x1000) k b ≡ in_pages i (suc k) b = ground arith in rw (u, e, q)
]

entry_of_same_page :
    (d : Directory) (a b : ℕ) → a / 2 ^ 12 ≡ b / 2 ^ 12 → entry_of d a ≡ entry_of d b
entry_of_same_page d a b e =
    ap
      (λ (p : ℕ).
        let page : Option Entry = elim (d.tables (p / 2 ^ 10)) [
          | none ↦ none
          | some t ↦ some (t (p % 2 ^ 10))
        ] in
        let entry : Entry = elim page [ none ↦ empty_entry | some e' ↦ e' ] in entry)
      e

-- How an interval is prepared: outside of the heap, the addresses for which `p` holds have the entries of
-- lazy allocation, and all others are as they were; or `kmalloc` panicked.
pub data Prepares (new_table : TableSource) (f : Entry → Entry) (p : ℕ → Bool) (d : Directory)
    (call : Option (Directory × Memory)) : Type 0 where
  no_memory :
      (d1 : Directory) (m1 : Memory)
      → new_table d1 m1 ≡ none
      → call ≡ none
      → Prepares new_table f p d call
  prepares :
      (d' : Directory) (m' : Memory)
      → call ≡ some (d', m')
      → ((b : ℕ)
          → in_heap b ≡ false
          → entry_of d' b ≡ (if p b then f (entry_of d b) else entry_of d b))
      → Prepares new_table f p d call

in_rounds :
    (begin end b : ℕ)
    → begin ≤ end
    → begin % 0x1000 ≡ 0
    → end % 0x1000 ≡ 0
    → in_pages begin (rounds begin end) b ≡ (leb begin b && ltb b end)
in_rounds begin end b o g h = ground arith

module _ (new_table : TableSource) (user writable fill_zero : Bool)
    (keeps : KeepsEntries new_table) where
  lazy_alloc_loop-Prepares :
      (k i : ℕ) (d : Directory) (m : Memory)
      → Prepares new_table
          (lazy_entry user writable fill_zero)
          (in_pages i k)
          d
          (lazy_alloc_loop new_table user writable fill_zero k i d m)
  unfolding lazy_alloc_loop
  lazy_alloc_loop-Prepares zero i d m = prepares d m refl (λ b h. ground arith)
  lazy_alloc_loop-Prepares (suc k) i d m = elim (make_page-Makes new_table d m i keeps) [
    | no_table d1 m1 n e ↦ no_memory d1 m1 n (rw e refl)
    | makes page d' m' t e v s o ↦
        let q = lazy_alloc user writable fill_zero page m' in
        elim (lazy_alloc_loop-Prepares k (i + 0x1000) (put_page d' i (q.0)) (q.1)) [
          | no_memory d1 m1 n c ↦ no_memory d1 m1 n (rw e c)
          | prepares d2 m2 c z ↦ prepares d2 m2 (rw e c) (λ b h.
              z b h
              ∙ round_step (lazy_entry user writable fill_zero) k i b
                  (entry_of (put_page d' i (q.0)) b) page (entry_of d b)
                  (entry_of-put_page d' i b (q.0) t s
                    ∙ (rw (lazy_alloc-lazy_entry user writable fill_zero page m', o b h) refl))
                  (λ g. v ∙ entry_of_same_page d i b g))
        ]
  ]

  -- With a `kmalloc` that changes no entry outside of the heap of the kernel, `lazy_alloc_interval` at
  -- aligned ends panics only if `kmalloc` does. Else, among the addresses outside of the heap, it sets the
  -- permissions of exactly those in [begin, end) and makes their pages that have no frame allocable; the
  -- entry of every other one is as it was.
  pub lazy_alloc_interval-Prepares :
      (begin end : ℕ) (d : Directory) (m : Memory)
      → begin ≤ end
      → begin % 0x1000 ≡ 0
      → end % 0x1000 ≡ 0
      → Prepares new_table
          (lazy_entry user writable fill_zero)
          (λ b. leb begin b && ltb b end)
          d
          (lazy_alloc_interval new_table begin end user writable fill_zero d m)
  unfolding lazy_alloc_interval
  lazy_alloc_interval-Prepares begin end d m o g h =
      let a : (is_aligned begin && is_aligned end) ≡ true = ground (arith, g, h) in
      let r : (b : ℕ) → in_pages begin (rounds begin end) b ≡ (leb begin b && ltb b end) =
        λ b. in_rounds begin end b o g h in
      elim (lazy_alloc_loop-Prepares (rounds begin end) begin d m) [
        | no_memory d1 m1 n c ↦ no_memory d1 m1 n (rw a c)
        | prepares d2 m2 c z ↦ prepares d2 m2 (rw a c) (λ b k. rw (← r b) (z b k))
      ]

-- `get_physical_addr` without allocation keeps the offset in the page and looks the frame up: for a
-- page with a frame the result is on that frame, and for any other page it is 0.
pub get_physical_addr_lem :
    (user writable : Bool) (d : Directory) (m : Memory) (a : ℕ)
    → (r : ℕ) × (get_physical_addr false user writable d m a ≡ some (r, d, m))
      × ((entry_of d a).addr ≢ 0 → (r / 2 ^ 12 ≡ (entry_of d a).addr) × (r % 2 ^ 12 ≡ a % 2 ^ 12))
      × ((entry_of d a).addr ≡ 0 → r ≡ 0)
unfolding get_physical_addr
get_physical_addr_lem user writable d m a = (
  if (entry_of d a).addr == 0 then 0 else (entry_of d a).addr * 2 ^ 12 + a % 2 ^ 12,
  ground arith,
  ground arith,
  ground arith,
)
