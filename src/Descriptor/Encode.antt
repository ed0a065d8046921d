-- ===== src/Descriptor/Encode.antt =====
-- core/descriptor_table.cpp: what the processor reads from the entries, and the handlers in use.
use jkos.Base.{
  ℕ, zero, suc, ◌+◌, ◌*◌, ◌/◌, ◌%◌, ◌^◌, ◌<◌, ◌≡◌, refl, ◌==◌, if◌then◌else◌, arith, ltb,
}
use jkos.Descriptor.{GdtEntry, IdtEntry, set_gdt, set_idt, Handlers, fill_handlers}

-- The fields that the processor puts together from an entry.
abbrev pub base_of : GdtEntry → ℕ
base_of e = e.base_low + e.base_middle * 2 ^ 16 + e.base_high * 2 ^ 24

abbrev pub limit_of : GdtEntry → ℕ
limit_of e = e.limit_low + e.limit_high_and_flag % 2 ^ 4 * 2 ^ 16

abbrev pub flag_of : GdtEntry → ℕ
flag_of e = e.limit_high_and_flag / 2 ^ 4

abbrev pub offset_of : IdtEntry → ℕ
offset_of e = e.offset_low + e.offset_high * 2 ^ 16

-- From an entry that `set` made for a base below 2^32 and a flag of four bits the processor reads
-- the same base, flag and access byte, and the low 20 bits of the limit; from an entry of the
-- interrupt table, the same offset and selector.
pub set-decode :
    (base limit access flag offset sel idt_flag : ℕ)
    → base < 2 ^ 32
    → flag < 2 ^ 4
    → offset < 2 ^ 32
    → let e = set_gdt base limit access flag in
      let i = set_idt offset sel idt_flag in
      (base_of e ≡ base)
      × (limit_of e ≡ limit % 2 ^ 20)
      × (flag_of e ≡ flag)
      × (e.access ≡ access)
      × (offset_of i ≡ offset)
      × (i.selector ≡ sel)
unfolding set_gdt set_idt
set-decode base limit access flag offset sel idt_flag b f o =
    (omega (arith, b), omega arith, omega (arith, f), refl, omega (arith, o), refl)

-- After the loop over `n` places each of them has a handler: the one that it had, or
-- `isr_unhandled`; the places from `n` on are as they were.
pub fill_handlers_lem :
    (unhandled n : ℕ) (table : Handlers) (i : ℕ)
    → fill_handlers unhandled n table i
      ≡ (if ltb i n then (if table i == 0 then unhandled else table i) else table i)
unfolding fill_handlers
fill_handlers_lem unhandled zero table i = ground arith
fill_handlers_lem unhandled (suc n) table i =
    ground (arith, fill_handlers_lem unhandled n table i, fill_handlers_lem unhandled n table n)
