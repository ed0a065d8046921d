-- ===== src/Page.antt =====
-- core/page.cpp and include/page.h: page table entries, the stack of free frames with the reference
-- counts, and the page fault handler. A method of an entry returns the entry as it leaves it.
pub mod Frames
pub mod Refs
pub mod Clone
pub mod Fault
pub mod Directory
pub mod Intervals
pub mod Init
mod Tests
use jkos.Base.{
  update, ℕ, suc, ◌+◌, ◌-◌, ◌%◌, ◌/◌, ◌*◌, ◌^◌, Bool, true, false, Option, none, some, List, [],
  ◌∷◌, ◌==◌, ltb, leb, not, ◌&&◌, ◌||◌, if◌then◌else◌, ◌>>=◌,
}

-- `Table_entry_t`; `addr` is a frame number of 20 bits, and 0 stands for no frame.
pub record Entry : Type 0 where
  pub present : Bool
  pub rw : Bool
  pub user : Bool
  pub wrt_thr : Bool
  pub cache_dis : Bool
  pub accessed : Bool
  pub dirty : Bool
  pub global : Bool
  pub allocable : Bool
  pub alloc_fill : Bool
  pub addr : ℕ

-- An entry after `memset` to 0.
abbrev pub empty_entry : Entry
empty_entry = record {
  present = false;
  rw = false;
  user = false;
  wrt_thr = false;
  cache_dis = false;
  accessed = false;
  dirty = false;
  global = false;
  allocable = false;
  alloc_fill = false;
  addr = 0;
}

-- The statics of page.cpp: the stack `frames`, last pushed first, with `nframes` its length;
-- `frame_ref_cnt`; the frames under the two windows `empty_page0_ptr` and `empty_page1_ptr`; and the
-- words of every frame of physical memory.
pub record Memory : Type 0 where
  pub frames : List ℕ
  pub ref_cnt : ℕ → ℕ
  pub window0 : ℕ
  pub window1 : ℕ
  pub words : ℕ → ℕ → ℕ

-- The frame on the top of the stack goes to an entry; `none` is the panic "no free frame".
unfoldable pub take_frame : Entry → Memory → List ℕ → Option (Entry × Memory)
take_frame e m [] = none
take_frame e m (a ∷ rest) = some (
  record e { addr = a % 2 ^ 20; allocable = true; present = true },
  record m { frames = rest; ref_cnt = update m.ref_cnt (a % 2 ^ 20) 1 },
)

-- `Table_entry_t::alloc`; `none` is its panic.
unfoldable pub alloc : Bool → Bool → Entry → Memory → Option (Entry × Memory)
unfolding take_frame
alloc user writable e m =
    let e' = record e { rw = writable; user = user } in
    if e.addr == 0 then take_frame e' m m.frames else some (e', m)

-- `Table_entry_t::fill_uint32`: 1024 words through the first window.
unfoldable pub fill_uint32 : ℕ → Entry → Memory → Memory
fill_uint32 val e m = record m {
  window0 = e.addr;
  words = update m.words e.addr (λ i. if ltb i 1024 then val else m.words e.addr i);
}

-- `Table_entry_t::lazy_alloc`
unfoldable pub lazy_alloc : Bool → Bool → Bool → Entry → Memory → Entry × Memory
unfolding fill_uint32
lazy_alloc user writable fill_zero e m =
    let e' = record e { rw = writable; user = user } in
    if e.addr == 0
    then (record e' { allocable = true; alloc_fill = fill_zero }, m)
    else (e', if fill_zero then fill_uint32 0 e' m else m)

-- `-- frame_ref_cnt[a]`, on 32 bits
abbrev pub decrement : ℕ → ℕ
decrement n = (n + 2 ^ 32 - 1) % 2 ^ 32

-- `Table_entry_t::free`
unfoldable pub free : Entry → Memory → Entry × Memory
free e m = if e.addr == 0 then (e, m) else (
  record e { addr = 0; present = false; allocable = false },
  record m {
    ref_cnt = update m.ref_cnt e.addr (decrement (m.ref_cnt e.addr));
    frames = if decrement (m.ref_cnt e.addr) == 0 then e.addr ∷ m.frames else m.frames;
  },
)

-- `copy_page_physical`, on frame numbers
unfoldable pub copy_page_physical : ℕ → ℕ → Memory → Memory
copy_page_physical dest src m = record m {
  window0 = src;
  window1 = dest;
  words = update m.words dest (λ i. if ltb i 1024 then m.words src i else m.words dest i);
}

-- The body of the loop of `clone_table`: the entry that both tables get, and the memory.
unfoldable pub share : Entry → Memory → Entry × Memory
share e m = if e.addr == 0 then (e, m) else (
  record e { rw = false },
  record m { ref_cnt = update m.ref_cnt e.addr ((m.ref_cnt e.addr + 1) % 2 ^ 32) },
)

-- The loop of `clone_table`, for the table that `kmalloc` gave: the source, the copy, and the memory.
unfoldable pub clone_table : List Entry → Memory → List Entry × List Entry × Memory
clone_table [] m = ([], [], m)
clone_table (e ∷ src) m =
    let (e', m1) = share e m in
    let (src', dest', m2) = clone_table src m1 in (e' ∷ src', e' ∷ dest', m2)

-- What `page_fault` reads of `Isr_registers_t`.
pub record FaultRegisters : Type 0 where
  pub eip : ℕ
  pub err_code : ℕ

-- The bit of `err_code` with the value `2 ^ k`.
abbrev pub bit : ℕ → ℕ → Bool
bit k n = (n / 2 ^ k) % 2 == 1

-- The part of `page_fault` for a write to a present page of the user, copy-on-write.
unfoldable pub copy_on_write : Entry → Memory → Option (Entry × Memory)
unfolding alloc copy_page_physical
copy_on_write page m =
    if page.addr == 0 || m.ref_cnt page.addr == 0
    then none
    else if m.ref_cnt page.addr == 1
    then some (record page { rw = true }, m)
    else (do
      (page', m') ←
          alloc true true (record page { addr = 0 })
            (record m { ref_cnt = update m.ref_cnt page.addr (decrement (m.ref_cnt page.addr)) })
      some (page', copy_page_physical page'.addr page.addr m'))

-- The part for a page that is not present, lazy allocation.
unfoldable pub lazy_fault : Entry → Memory → Option (Entry × Memory)
unfolding alloc fill_uint32
lazy_fault page m = do
  (page', m') ← alloc page.user page.rw page m
  some (page', if page'.alloc_fill then fill_uint32 0 page' m' else m')

-- `page_fault` at the entry that `get_page` finds; `none` is its panic.
unfoldable pub page_fault : ℕ → FaultRegisters → Option Entry → Memory → Option (Entry × Memory)
page_fault code_end reg none m = none
page_fault code_end reg (some page) m =
    if not page.allocable
    then none
    else if not page.user && leb code_end reg.eip
    then none
    else if not (bit 0 reg.err_code)
    then lazy_fault page m
    else if bit 1 reg.err_code && page.user
    then copy_on_write page m
    else none
