-- ===== src/Kmain/Tests.antt =====
-- Interrupts of a machine with the two running tasks 10 and 20.
use jkos.Base.{ℕ, ◌+◌, ◌*◌, ◌≡◌, refl, true, [], ◌∷◌, ◌==◌, if◌then◌else◌, arith, List}
use jkos.Rbt.{nil, node, red, black, find_ge, do_find_ge}
use jkos.Descriptor.{outb, wait}
use jkos.Task.{Task, running}
use jkos.Task.Ring.{has}
use jkos.Task.Kernel.{Kernel, Registers, id2task}
use jkos.Task.Valid.{IsValid}
use jkos.Kmain.{Machine, init_timer, die}
use jkos.Kmain.Interrupts.{
  Interrupt, timer, keyboard, serve_all, Served, TurnWithin, serve_all-Served, serve_all-TurnWithin,
}

abbrev plain : Task
plain = record {
  id = 0;
  esp = 0;
  ebp = 0;
  eip = 0;
  page_dir = 4096;
  state = running;
  uid = 0;
  gid = 0;
  errno = 0;
  par = 0;
  queue_next = 0;
  queue_prev = 0;
  sig_wakeup = 0;
}

abbrev kernel : Kernel
kernel = record {
  task = λ a.
      if a == 10
      then record plain { queue_next = 20; queue_prev = 20 }
      else record plain { id = 1; queue_next = 10; queue_prev = 10 };
  current = 10;
  running_queue = 10;
  sleeping_queue = 0;
  ids =
      node black nil (record { id = 0; task = 10 })
        (node red nil (record { id = 1; task = 20 }) nil);
  next_pid = 2;
  current_page_dir = 4096;
}

kernel-known : (pid : ℕ) → has (id2task kernel.ids pid) (0 ∷ 10 ∷ 20 ∷ []) ≡ true
unfolding id2task find_ge do_find_ge
kernel-known pid = ground arith

kernel-IsValid : IsValid kernel (10 ∷ 20 ∷ []) []
kernel-IsValid = record {
  running_ring = ground arith;
  sleeping_ring = ground arith;
  is_running = λ c h. ground arith;
  is_sleeping = λ c h. ground arith;
  known = kernel-known;
}

abbrev machine : Machine
machine = record { kernel = kernel; tick = 0; last_key = 0; ports = [] }

abbrev regs : Registers
regs = record { esp = 100; ebp = 200; eip = 300 }

abbrev interrupts : List Interrupt
interrupts = keyboard 30 ∷ timer regs ∷ keyboard 158 ∷ []

serve_all-Served_example :
    Served interrupts (10 ∷ 20 ∷ []) [] machine (serve_all interrupts machine)
serve_all-Served_example = serve_all-Served interrupts (10 ∷ 20 ∷ []) [] machine kernel-IsValid refl

serve_all-TurnWithin_example : TurnWithin interrupts machine 20
serve_all-TurnWithin_example =
    serve_all-TurnWithin interrupts (10 ∷ 20 ∷ []) [] machine 20 kernel-IsValid refl refl
      (omega arith)

-- The timer gets the divisor 23863, low byte first.
timer_ports :
    (init_timer 4096 (λ i. 0) []).1 ≡ outb 0x43 54 ∷ wait ∷ outb 0x40 55 ∷ wait ∷ outb 0x40 93 ∷ []
unfolding init_timer
timer_ports = refl

timer_divisor : 93 * 256 + 55 ≡ 23863
timer_divisor = refl

-- A panic turns the speaker on.
die_ports : die 0x31 [] ≡ wait ∷ outb 0x43 0xB6 ∷ outb 0x42 84 ∷ outb 0x42 2 ∷ outb 0x61 0x33 ∷ []
unfolding die
die_ports = refl
