-- ===== src/Descriptor/Tests.antt =====
-- The entries and handlers at concrete values.
use jkos.Base.{◌≡◌, ◌%◌, ◌^◌, arith}
use jkos.Descriptor.{set_gdt, set_idt}
use jkos.Descriptor.Encode.{base_of, limit_of, flag_of, offset_of, set-decode}

set-decode_example :
    let e = set_gdt 0x12_34_56_78 0xFF_FF_FF_FF 0b1001_1010 0b1100 in
    let i = set_idt 0x10_20_30 8 0b1000_1110 in
    (base_of e ≡ 0x12_34_56_78)
    × (limit_of e ≡ 0xFF_FF_FF_FF % 2 ^ 20)
    × (flag_of e ≡ 0b1100)
    × (e.access ≡ 0b1001_1010)
    × (offset_of i ≡ 0x10_20_30)
    × (i.selector ≡ 8)
set-decode_example =
    set-decode 0x12_34_56_78 0xFF_FF_FF_FF 0b1001_1010 0b1100 0x10_20_30 8 0b1000_1110
      (ground arith) (ground arith) (ground arith)
