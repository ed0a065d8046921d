-- ===== src/Page/Directory.antt =====
-- core/page.cpp: `Directory_t`, with the table that each pointer of `tables` leads to as a value, for the
-- current directory. `get_page` asks `kmalloc` for a new table, which changes the pages of the heap and
-- may take frames: what `kmalloc`, the `memset` of the table and `get_physical_addr` do is the parameter
-- `new_table`, which gives the frame of the table, the directory and the memory, or none for a panic.
use jkos.Base.{
  update, ℕ, zero, suc, ◌+◌, ◌*◌, ◌/◌, ◌%◌, ◌-◌, ◌^◌, Bool, true, Option, none, some, ◌==◌,
  if◌then◌else◌, ◌&&◌, ◌>>=◌,
}
use jkos.Page.{Entry, empty_entry, Memory, alloc, lazy_alloc, free}

-- `Directory_entry_t`
pub record DirectoryEntry : Type 0 where
  pub present : Bool
  pub rw : Bool
  pub user : Bool
  pub addr : ℕ

pub record Directory : Type 0 where
  pub tables : ℕ → Option (ℕ → Entry)
  pub entries : ℕ → DirectoryEntry
  pub phyaddr : ℕ

-- `addr >> 12 >> 10` and `addr >> 12 & 0x3FF`
abbrev pub tb_idx : ℕ → ℕ
tb_idx addr = addr / 2 ^ 12 / 2 ^ 10

abbrev pub tb_offset : ℕ → ℕ
tb_offset addr = addr / 2 ^ 12 % 2 ^ 10

-- `get_page(addr)`: the entry, or `none` for a null pointer.
abbrev pub page_of : Directory → ℕ → Option Entry
page_of d addr = elim (d.tables (tb_idx addr)) [ none ↦ none | some t ↦ some (t (tb_offset addr)) ]

-- The new table of `get_page(addr, true)`, in the frame.
abbrev pub add_table : Directory → ℕ → ℕ → Directory
add_table d i frame = record d {
  tables = update d.tables i (some (λ j. empty_entry));
  entries =
      update d.entries i (record { present = true; rw = true; user = true; addr = frame % 2 ^ 20 });
}

-- What `kmalloc` gives and leaves.
abbrev pub TableSource : Type 0
TableSource = Directory → Memory → Option (ℕ × Directory × Memory)

-- `get_page(addr, true)`: the entry, the directory that has it, and the memory.
unfoldable pub make_page :
    TableSource → Directory → Memory → ℕ → Option (Entry × Directory × Memory)
make_page new_table d m addr = elim (d.tables (tb_idx addr)) [
  | none ↦ new_table d m >>= λ r. some (empty_entry, add_table (r.1) (tb_idx addr) (r.0), r.2)
  | some t ↦ some (t (tb_offset addr), d, m)
]

-- The entry of an address is written in place.
unfoldable pub put_page : Directory → ℕ → Entry → Directory
put_page d addr e = record d {
  tables = λ i. elim (d.tables i) [
    | none ↦ none
    | some t ↦ some (if tb_idx addr == i then update t (tb_offset addr) e else t)
  ];
}

-- `get_physical_addr(addr, alloc, user, writable)` once `init_finished` is set. The fields of the
-- result do not overlap, so `|` is a sum; 0 stands for no address.
unfoldable pub get_physical_addr :
    Bool → Bool → Bool → Directory → Memory → ℕ → Option (ℕ × Directory × Memory)
get_physical_addr make user writable d m addr = elim (page_of d addr) [
  | none ↦ some (0, d, m)
  | some page ↦
      if page.addr == 0
      then (if make
          then (do
            (page', m') ← alloc user writable page m
            some (page'.addr * 2 ^ 12 + addr % 2 ^ 12, put_page d addr page', m'))
          else some (0, d, m))
      else some (page.addr * 2 ^ 12 + addr % 2 ^ 12, d, m)
]

module _ (new_table : TableSource) where
  -- The loops over `[begin, end)`, on the number of pages that are left. The assertions ask for
  -- aligned ends.
  unfoldable pub lazy_alloc_loop :
      Bool → Bool → Bool → ℕ → ℕ → Directory → Memory → Option (Directory × Memory)
  unfolding make_page put_page lazy_alloc
  lazy_alloc_loop user writable fill_zero zero i d m = some (d, m)
  lazy_alloc_loop user writable fill_zero (suc k) i d m = make_page new_table d m i >>= λ p.
      let (page, m') = lazy_alloc user writable fill_zero (p.0) (p.2) in
      lazy_alloc_loop user writable fill_zero k (i + 0x1000) (put_page (p.1) i page) m'

  unfoldable pub alloc_loop : Bool → Bool → ℕ → ℕ → Directory → Memory → Option (Directory × Memory)
  unfolding make_page put_page alloc
  alloc_loop user writable zero i d m = some (d, m)
  alloc_loop user writable (suc k) i d m = make_page new_table d m i >>= λ p. do
    (page, m') ← alloc user writable (p.0) (p.2)
    alloc_loop user writable k (i + 0x1000) (put_page (p.1) i page) m'

-- `page && page->present`, then `free`.
unfoldable pub free_page : Directory → Memory → ℕ → Directory × Memory
unfolding free put_page
free_page d m i = elim (page_of d i) [
  | none ↦ (d, m)
  | some page ↦ if page.present then (put_page d i (free page m).0, (free page m).1) else (d, m)
]

unfoldable pub free_loop : ℕ → ℕ → Directory → Memory → Directory × Memory
unfolding free_page
free_loop zero i d m = (d, m)
free_loop (suc k) i d m = let (d', m') = free_page d m i in free_loop k (i + 0x1000) d' m'

-- The rounds of `for (i = begin; i < end; i += 0x1000)` between aligned ends.
abbrev pub rounds : ℕ → ℕ → ℕ
rounds begin end = (end - begin) / 0x1000

abbrev pub is_aligned : ℕ → Bool
is_aligned a = a % 0x1000 == 0

-- `none` is a failed `kassert`, or the panic of `alloc` or of `kmalloc`.
unfoldable pub lazy_alloc_interval :
    TableSource → ℕ → ℕ → Bool → Bool → Bool → Directory → Memory → Option (Directory × Memory)
lazy_alloc_interval new_table begin end user writable fill_zero d m =
    if is_aligned begin && is_aligned end
    then lazy_alloc_loop new_table user writable fill_zero (rounds begin end) begin d m
    else none

unfoldable pub alloc_interval :
    TableSource → ℕ → ℕ → Bool → Bool → Directory → Memory → Option (Directory × Memory)
alloc_interval new_table begin end user writable d m =
    if is_aligned begin && is_aligned end
    then alloc_loop new_table user writable (rounds begin end) begin d m
    else none

unfoldable pub free_interval : ℕ → ℕ → Directory → Memory → Option (Directory × Memory)
free_interval begin end d m =
    if is_aligned begin && is_aligned end
    then some (free_loop (rounds begin end) begin d m)
    else none
