-- ===== src/Page/Tests.antt =====
-- The properties of paging at a small memory: the pool has the frames 5, 6 and 7.
use jkos.Base.{
  ℕ, ◌+◌, ◌≡◌, ◌^◌, refl, Bool, true, false, none, some, List, [], ◌∷◌, arith, leb, ◌&&◌, ◌==◌,
  if◌then◌else◌, update, ltb, ◌++◌,
}
use jkos.Page.{
  Entry, Memory, empty_entry, FaultRegisters, clone_table, copy_page_physical, copy_on_write,
  page_fault,
}
use jkos.Page.Refs.{RefInv}
use jkos.Page.Fault.{Copied, copy_on_write-Copied, page_fault-RefInv}
use jkos.Page.Clone.{Forall2, IsShared, clone_table_shares, clone_table-RefInv}
use jkos.Page.Directory.{Directory, TableSource, tb_idx, lazy_alloc_interval}
use jkos.Page.Init.{Region, AllUsable, Inits, push_frames, init_frames, init_frames-Inits}
use jkos.Page.Intervals.{entry_of, KeepsEntries, Prepares, lazy_entry, lazy_alloc_interval-Prepares}

abbrev pool : ℕ → Bool
pool a = leb 5 a && leb a 7

-- Frame 5 is shared by two entries.
abbrev mem : Memory
mem = record {
  frames = 6 ∷ 7 ∷ [];
  ref_cnt = λ a. if a == 5 then 2 else 0;
  window0 = 0;
  window1 = 0;
  words = λ a i. a;
}

abbrev mapped : Entry
mapped = record empty_entry { present = true; user = true; allocable = true; addr = 5 }

mem-RefInv : RefInv pool mem (mapped ∷ mapped ∷ [])
mem-RefInv = record {
  no_null = refl;
  in_bits = λ a h. ground arith;
  few = omega arith;
  conserved = λ a. ground arith;
  counted = λ a n h. ground arith;
}

empty-RefInv : RefInv pool mem (empty_entry ∷ mapped ∷ mapped ∷ [])
empty-RefInv = record {
  no_null = refl;
  in_bits = λ a h. ground arith;
  few = omega arith;
  conserved = λ a. ground arith;
  counted = λ a n h. ground arith;
}

copy_on_write-Copied_example : Copied pool (mapped ∷ []) mapped mem (copy_on_write mapped mem)
copy_on_write-Copied_example = copy_on_write-Copied pool (mapped ∷ []) mapped mem mem-RefInv

-- A write to the shared page, from user code.
abbrev write_fault : FaultRegisters
write_fault = record { eip = 0x40_0000; err_code = 7 }

abbrev own : Entry
own = record mapped { rw = true; addr = 6 }

abbrev after_write : Memory
after_write = copy_page_physical 6 5 (record mem {
  frames = 7 ∷ [];
  ref_cnt = λ b. if 6 == b then 1 else (if 5 == b then 1 else mem.ref_cnt b);
})

page_fault-RefInv_example : RefInv pool after_write (own ∷ mapped ∷ [])
unfolding page_fault copy_on_write
page_fault-RefInv_example =
    page_fault-RefInv pool (mapped ∷ []) 0x11_0000 write_fault mapped mem mem-RefInv refl

clone_table_shares_example :
    let (src, dest, m) = clone_table (empty_entry ∷ mapped ∷ []) mem in
    (dest ≡ src) × Forall2 IsShared (empty_entry ∷ mapped ∷ []) src
clone_table_shares_example = clone_table_shares (empty_entry ∷ mapped ∷ []) mem

clone_table-RefInv_example :
    let (src, dest, m) = clone_table (empty_entry ∷ mapped ∷ []) mem in
    RefInv pool m (src ++ (dest ++ (mapped ∷ [])))
clone_table-RefInv_example =
    clone_table-RefInv pool (empty_entry ∷ mapped ∷ []) mem (mapped ∷ []) (omega arith) empty-RefInv

abbrev bare : Directory
bare = record {
  tables = λ i. none;
  entries = λ i. record { present = false; rw = false; user = false; addr = 0 };
  phyaddr = 0;
}

-- A heap whose page of the address 0xEFC00000 becomes present when a table is made in it.
abbrev heap_table : TableSource
heap_table d m = some (
  9,
  record d {
    tables = update d.tables 0x3BF (some (λ j. record empty_entry { present = j == 0; addr = 9 }));
  },
  m,
)

away :
    (d : Directory) (b : ℕ)
    → (0x3BF == tb_idx b) ≡ false
    → entry_of
        (record d {
          tables =
              update d.tables 0x3BF (some (λ j. record empty_entry { present = j == 0; addr = 9 }));
        })
        b
      ≡ entry_of d b
away d b n = ground (arith, n)

heap_table-KeepsEntries : KeepsEntries heap_table
heap_table-KeepsEntries d d' m m' frame b e h =
    let q : d' ≡ record d {
      tables =
          update d.tables 0x3BF (some (λ j. record empty_entry { present = j == 0; addr = 9 }));
    } =
      cc (e) in
    rw q (away d b (ground (arith, h)))

lazy_alloc_interval-Prepares_example :
    Prepares heap_table
      (lazy_entry true true true)
      (λ b. leb 0x1000 b && ltb b 0x3000)
      bare
      (lazy_alloc_interval heap_table 0x1000 0x3000 true true true bare mem)
lazy_alloc_interval-Prepares_example =
    lazy_alloc_interval-Prepares heap_table true true true heap_table-KeepsEntries 0x1000 0x3000
      bare mem (omega arith) refl refl

-- The memory map of a machine with 2 MB; the kernel ends at 1.5 MB.
abbrev low_memory : Region
low_memory = record { addr = 0; len = 0x9F000; available = true }

abbrev reserved : Region
reserved = record { addr = 0x9F000; len = 0x61000; available = false }

abbrev high_memory : Region
high_memory = record { addr = 0x100000; len = 0x100000; available = true }

abbrev mmap : List Region
mmap = low_memory ∷ reserved ∷ high_memory ∷ []

mmap-AllUsable : AllUsable mmap
mmap-AllUsable = (
  λ e. record {
    start_small = ground arith;
    len_small = ground arith;
    end_small = ground arith;
    two_pages = ground arith;
  },
  (
    λ e. ground arith,
    (
      λ e. record {
        start_small = ground arith;
        len_small = ground arith;
        end_small = ground arith;
        two_pages = ground arith;
      },
      tt,
    ),
  ),
)

init_frames-Inits_example : Inits 0x180 mmap (init_frames (2 ^ 20 + 1) 0x180 mmap)
init_frames-Inits_example =
    init_frames-Inits (2 ^ 20 + 1) 0x180 mmap (ground arith) mmap-AllUsable (ground arith)

-- The last page of the region is not on the stack.
frames_of_region : push_frames 9 4 2 0 [] ≡ some (2 ∷ 3 ∷ [])
unfolding push_frames
frames_of_region = refl
