-- ===== src/Kmain.antt =====
-- core/main.cpp and core/common.cpp: the handlers of the timer and of the keyboard, the programming of the
-- timer, and the end of a panic. The writes to ports are a list, the last one at its end; what a read of
-- a port gives is an argument.
pub mod Interrupts
mod Tests
use jkos.Base.{ℕ, ◌+◌, ◌*◌, ◌/◌, ◌%◌, ◌^◌, List, [], ◌∷◌, ◌++◌}
use jkos.Base.Int.{pos}
use jkos.Descriptor.{Handlers, PortCall, outb, wait, isr_eoi, isr_register}
use jkos.Task.Kernel.{Kernel, Registers, schedule}

abbrev pub clock_tick_rate : ℕ
clock_tick_rate = 1193180

abbrev pub kernel_hz : ℕ
kernel_hz = 50

-- The state that the handlers change: the scheduler, the static `tick` of `timer_tick`, `last_key`, and
-- the writes to ports so far.
pub record Machine : Type 0 where
  pub kernel : Kernel
  pub tick : ℕ
  pub last_key : ℕ
  pub ports : List PortCall

-- `ISR_GET_NUM_BY_IRQ`
abbrev pub isr_get_num_by_irq : ℕ → ℕ
isr_get_num_by_irq irq = irq + 32

-- `init_timer`, with the handler `timer_tick` at its address.
unfoldable pub init_timer : ℕ → Handlers → List PortCall → Handlers × List PortCall
unfolding isr_register
init_timer timer_tick table ports =
    let divisor = clock_tick_rate / kernel_hz in
    (
      isr_register (pos (isr_get_num_by_irq 0)) timer_tick table,
      ports
          ++ (outb 0x43 0b0011_0110
              ∷ wait
              ∷ outb 0x40 (divisor % 2 ^ 8)
              ∷ wait
              ∷ outb 0x40 (divisor / 2 ^ 8 % 2 ^ 8)
              ∷ []),
    )

-- `timer_tick`
unfoldable pub timer_tick : ℕ → Registers → Machine → Machine
unfolding isr_eoi schedule
timer_tick int_no regs m = record m {
  tick = (m.tick + 1) % 2 ^ 32;
  ports = m.ports ++ isr_eoi int_no;
  kernel = schedule regs m.kernel;
}

-- `isr_kbd`, for the byte that `inb` reads.
unfoldable pub isr_kbd : ℕ → ℕ → Machine → Machine
unfolding isr_eoi
isr_kbd int_no code m = record m { last_key = code; ports = m.ports ++ isr_eoi int_no }

-- `die` up to the halt, for the byte that `inb` reads.
unfoldable pub die : ℕ → List PortCall → List PortCall
die port_0x61_val ports =
    let count = clock_tick_rate / 2000 in
    let old = port_0x61_val / 2 ^ 2 * 2 ^ 2 in
    ports
    ++ (wait
        ∷ outb 0x43 0xB6
        ∷ outb 0x42 (count % 2 ^ 8)
        ∷ outb 0x42 (count / 2 ^ 8)
        ∷ outb 0x61 (old + 3)
        ∷ [])
