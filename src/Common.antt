-- ===== src/Common.antt =====
-- include/common.h: `get_aligned`, `min` and `max` on 32-bit words, the bounds of the heap, and the top of
-- the kernel's stack.
pub mod Align
use jkos.Base.{ℕ, ◌+◌, ◌-◌, ◌*◌, ◌/◌, ◌%◌, ◌^◌, ◌==◌, if◌then◌else◌, ltb}

-- A `uint32_t`, with the wrap-around.
abbrev pub word : ℕ → ℕ
word n = n % 2 ^ 32

unfoldable pub get_aligned : ℕ → ℕ → ℕ
get_aligned addr palign = if addr == 0 then 0 else word (((addr - 1) / 2 ^ palign + 1) * 2 ^ palign)

abbrev pub max : ℕ → ℕ → ℕ
max a b = if ltb b a then a else b

abbrev pub min : ℕ → ℕ → ℕ
min a b = if ltb a b then a else b

-- `addr & 0xFFFFF000`
abbrev pub page_floor : ℕ → ℕ
page_floor addr = addr / 4096 * 4096

abbrev pub kernel_stack_pos : ℕ
kernel_stack_pos = 0xFF_FF_F0_00

abbrev pub kernel_heap_end : ℕ
kernel_heap_end = 0xFF_C0_00_00

abbrev pub kernel_heap_begin : ℕ
kernel_heap_begin = 0xEF_C0_00_00
