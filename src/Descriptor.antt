-- ===== src/Descriptor.antt =====
-- core/descriptor_table.cpp with include/descriptor_table.h: the entries of the descriptor tables,
-- the table of interrupt handlers and the writes to the interrupt controllers.
pub mod Encode
mod Tests
use jkos.Base.{
  ℕ, zero, suc, ◌+◌, ◌*◌, ◌/◌, ◌%◌, ◌^◌, Bool, true, false, ◌&&◌, ◌||◌, ◌==◌, if◌then◌else◌, List,
  [], ◌∷◌, ◌++◌, Option, none, some, update, ltb, leb,
}
use jkos.Base.Int.{ℤ, pos, negsuc, ltb_ℤ}

-- `GDT_entry_t`
pub record GdtEntry : Type 0 where
  pub limit_low : ℕ
  pub base_low : ℕ
  pub base_middle : ℕ
  pub access : ℕ
  pub limit_high_and_flag : ℕ
  pub base_high : ℕ

-- `GDT_entry_t::set`
unfoldable pub set_gdt : ℕ → ℕ → ℕ → ℕ → GdtEntry
set_gdt base limit access flag = record {
  limit_low = limit % 2 ^ 16;
  base_low = base % 2 ^ 16;
  base_middle = base / 2 ^ 16 % 2 ^ 8;
  access = access;
  limit_high_and_flag = limit / 2 ^ 16 % 2 ^ 4 + flag % 2 ^ 4 * 2 ^ 4;
  base_high = base / 2 ^ 24 % 2 ^ 8;
}

-- `IDT_entry_t`
pub record IdtEntry : Type 0 where
  pub offset_low : ℕ
  pub selector : ℕ
  pub zero_byte : ℕ
  pub flag : ℕ
  pub offset_high : ℕ

-- `IDT_entry_t::set`
unfoldable pub set_idt : ℕ → ℕ → ℕ → IdtEntry
set_idt offset sel flag = record {
  offset_low = offset % 2 ^ 16;
  selector = sel;
  zero_byte = 0;
  flag = flag;
  offset_high = offset / 2 ^ 16 % 2 ^ 16;
}

-- The table that `init_gdt` makes, for a task state segment at `tss` of `tss_size` bytes.
unfoldable pub init_gdt : ℕ → ℕ → List GdtEntry
unfolding set_gdt
init_gdt tss tss_size =
    set_gdt 0 0 0 0
    ∷ set_gdt 0 0xFF_FF_FF_FF 0b1001_1010 0b1100
    ∷ set_gdt 0 0xFF_FF_FF_FF 0b1001_0010 0b1100
    ∷ set_gdt 0 0xFF_FF_FF_FF 0b1111_1010 0b1100
    ∷ set_gdt 0 0xFF_FF_FF_FF 0b1111_0010 0b1100
    ∷ set_gdt tss ((tss + tss_size) % 2 ^ 32) 0b1110_1001 0
    ∷ []

-- The handlers of `isr_callback_table`.
abbrev pub Handlers : Type 0
Handlers = ℕ → ℕ

-- The loop of `init_idt`: each empty place below `n` gets the handler `isr_unhandled`.
unfoldable pub fill_handlers : ℕ → ℕ → Handlers → Handlers
fill_handlers unhandled zero table = table
fill_handlers unhandled (suc n) table =
    let table' = fill_handlers unhandled n table in
    if table' n == 0 then update table' n unhandled else table'

unfoldable pub isr_register : ℤ → ℕ → Handlers → Handlers
isr_register (pos n) callback table = if ltb n 256 then update table n callback else table
isr_register (negsuc n) callback table = table

-- What the code does to a port.
pub data PortCall : Type 0 where
  outb : ℕ → ℕ → PortCall
  wait : PortCall

-- `isr_eoi`
unfoldable pub isr_eoi : ℕ → List PortCall
isr_eoi int_no =
    let master = outb 0x20 0x20 ∷ [] in if leb 40 int_no then outb 0xA0 0x20 ∷ master else master

-- `isr_unhandled`: the writes, or its panic.
unfoldable pub isr_unhandled : ℕ → Option (List PortCall)
unfolding isr_eoi
isr_unhandled int_no = if leb 32 int_no && leb int_no 47 then some (isr_eoi int_no) else none

-- `remap_PIC`, for the masks that `inb` reads.
unfoldable pub remap_pic : ℕ → ℕ → ℕ → ℕ → List PortCall
remap_pic offset1 offset2 mask1 mask2 =
    outb 0x20 0x11
    ∷ wait
    ∷ outb 0xA0 0x11
    ∷ wait
    ∷ outb 0x21 offset1
    ∷ wait
    ∷ outb 0xA1 offset2
    ∷ wait
    ∷ outb 0x21 4
    ∷ wait
    ∷ outb 0xA1 2
    ∷ wait
    ∷ outb 0x21 1
    ∷ wait
    ∷ outb 0xA1 1
    ∷ wait
    ∷ outb 0x21 mask1
    ∷ outb 0xA1 mask2
    ∷ []
