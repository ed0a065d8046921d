-- ===== src/Kmain/Interrupts.antt =====
-- core/main.cpp: any sequence of interrupts of the timer and of the keyboard.
use jkos.Base.{
  ℕ, zero, suc, ◌+◌, ◌≤◌, ◌≡◌, refl, sym, ap, ◌∙◌, subst, List, [], ◌∷◌, ◌++◌, append_assoc,
  append-nil, length, true, arith, replicate,
}
use jkos.Descriptor.{PortCall, outb, isr_eoi}
use jkos.Task.Ring.{has, has-append}
use jkos.Task.Kernel.{Kernel, Registers, schedule}
use jkos.Task.Valid.{IsValid, split, has-Split}
use jkos.Task.Schedule.{behind, schedule-GivesWay}
use jkos.Task.Turns.{turns, has_turn, schedule-HasTurn}
use jkos.Kmain.{Machine, timer_tick, isr_kbd, isr_get_num_by_irq}

-- An interrupt, with the registers of the task that it finds, or with the code of the key.
pub data Interrupt : Type 0 where
  timer : Registers → Interrupt
  keyboard : ℕ → Interrupt

abbrev pub serve : Interrupt → Machine → Machine
serve (timer regs) m = timer_tick (isr_get_num_by_irq 0) regs m
serve (keyboard code) m = isr_kbd (isr_get_num_by_irq 1) code m

abbrev pub serve_all : List Interrupt → Machine → Machine
serve_all [] m = m
serve_all (i ∷ is) m = serve_all is (serve i m)

abbrev pub ticks : List Interrupt → ℕ
ticks [] = 0
ticks (timer regs ∷ is) = suc (ticks is)
ticks (keyboard code ∷ is) = ticks is

-- The code of the last key of the sequence, after the key `old`.
abbrev pub key_after : ℕ → List Interrupt → ℕ
key_after old [] = old
key_after old (timer regs ∷ is) = key_after old is
key_after old (keyboard code ∷ is) = key_after code is

-- The registers at the tick `n`.
abbrev pub regs_at : List Interrupt → ℕ → Registers
regs_at [] n = record { esp = 0; ebp = 0; eip = 0 }
regs_at (timer regs ∷ is) zero = regs
regs_at (timer regs ∷ is) (suc n) = regs_at is n
regs_at (keyboard code ∷ is) n = regs_at is n

-- The end of interrupt for the first controller.
abbrev pub eoi : PortCall
eoi = outb 0x20 0x20

turns-first :
    (regs : ℕ → Registers) (n : ℕ) (k : Kernel)
    → turns regs (suc n) k ≡ turns (λ j. regs (suc j)) n (schedule (regs 0) k)
turns-first regs zero k = refl
turns-first regs (suc n) k = ap (schedule (regs (suc n))) (turns-first regs n k)

has-behind : (c : ℕ) (xs ys : List ℕ) → has (behind c (ys ++ xs)) (xs ++ (c ∷ ys)) ≡ true
has-behind c [] [] = ground arith
has-behind c (x ∷ xs) [] = ground arith
has-behind c xs (y ∷ ys) = ground (arith, has-append y xs (c ∷ y ∷ ys))

-- `schedule` keeps the queues, and the task that it makes current is in the running one.
schedule-here :
    (regs : Registers) (k : Kernel) (rs ss : List ℕ)
    → IsValid k rs ss
    → has k.current rs ≡ true
    → IsValid (schedule regs k) rs ss × (has (schedule regs k).current rs ≡ true)
schedule-here regs k rs ss v h = elim (has-Split k.current rs h) [
  | split xs ys q ↦
      let g = schedule-GivesWay regs k xs ys ss (subst (λ x. IsValid k x ss) q v) in
      (
        subst (λ x. IsValid (schedule regs k) x ss) (sym q) (g.0),
        ap (λ x. has x rs) (g.1.current) ∙ ap (has _) q ∙ has-behind k.current xs ys,
      )
]

-- What a sequence of interrupts leaves.
pub record Served (is : List Interrupt) (rs ss : List ℕ) (m m' : Machine) : Type 0 where
  pub valid : IsValid m'.kernel rs ss
  pub current : has m'.kernel.current rs ≡ true
  pub kernel : m'.kernel ≡ turns (regs_at is) (ticks is) m.kernel
  pub ports : m'.ports ≡ m.ports ++ replicate (length is) eoi
  pub last_key : m'.last_key ≡ key_after m.last_key is

-- In a valid kernel whose current task is in the running queue, any interrupts of the timer and of the
-- keyboard leave the queues valid and a task of the running queue current, in the kernel after one
-- `schedule` for each tick; each interrupt is acknowledged once, and the last key is that of the last
-- interrupt of the keyboard.
pub serve_all-Served :
    (is : List Interrupt) (rs ss : List ℕ) (m : Machine)
    → IsValid m.kernel rs ss
    → has m.kernel.current rs ≡ true
    → Served is rs ss m (serve_all is m)
unfolding timer_tick isr_kbd isr_eoi
serve_all-Served [] rs ss m v h = record {
  valid = v;
  current = h;
  kernel = refl;
  ports = sym (append-nil m.ports);
  last_key = refl;
}
serve_all-Served (timer regs ∷ is) rs ss m v h =
    let s = schedule-here regs m.kernel rs ss v h in
    let g = serve_all-Served is rs ss (serve (timer regs) m) (s.0) (s.1) in
    record {
      valid = g.valid;
      current = g.current;
      kernel = g.kernel ∙ sym (turns-first (regs_at (timer regs ∷ is)) (ticks is) m.kernel);
      ports = g.ports ∙ append_assoc m.ports (eoi ∷ []) (replicate (length is) eoi);
      last_key = g.last_key;
    }
serve_all-Served (keyboard code ∷ is) rs ss m v h =
    let g = serve_all-Served is rs ss (serve (keyboard code) m) v h in
    record {
      valid = g.valid;
      current = g.current;
      kernel = g.kernel;
      ports = g.ports ∙ append_assoc m.ports (eoi ∷ []) (replicate (length is) eoi);
      last_key = g.last_key;
    }

-- The interrupts up to a tick.
data UpTo (is : List Interrupt) (n : ℕ) (m : Machine) : Type 0 where
  up_to :
      (before after : List Interrupt)
      → is ≡ before ++ after
      → (serve_all before m).kernel ≡ turns (regs_at is) n m.kernel
      → UpTo is n m

serve_all-UpTo : (is : List Interrupt) (n : ℕ) (m : Machine) → n ≤ ticks is → UpTo is n m
unfolding timer_tick isr_kbd
serve_all-UpTo is zero m h = up_to [] is refl refl
serve_all-UpTo [] (suc n) m h = absurd (omega (arith, h))
serve_all-UpTo (timer regs ∷ is) (suc n) m h =
    elim (serve_all-UpTo is n (serve (timer regs) m) (omega (arith, h))) [
      | up_to before after e q ↦
          up_to (timer regs ∷ before) after (ap (λ xs. timer regs ∷ xs) e)
            (q ∙ sym (turns-first (regs_at (timer regs ∷ is)) n m.kernel))
    ]
serve_all-UpTo (keyboard code ∷ is) (suc n) m h =
    elim (serve_all-UpTo is (suc n) (serve (keyboard code) m) h) [
      | up_to before after e q ↦
          up_to (keyboard code ∷ before) after (ap (λ xs. keyboard code ∷ xs) e) q
    ]

-- The task is current after some of the interrupts.
pub data TurnWithin (is : List Interrupt) (m : Machine) (t : ℕ) : Type 0 where
  turn_within :
      (before after : List Interrupt)
      → is ≡ before ++ after
      → (serve_all before m).kernel.current ≡ t
      → TurnWithin is m t

-- In a valid kernel whose current task is in the running queue, each task of that queue is current after
-- some of the interrupts of a sequence of the timer's and the keyboard's, if all but one of the tasks of
-- the queue have a tick in it.
pub serve_all-TurnWithin :
    (is : List Interrupt) (rs ss : List ℕ) (m : Machine) (t : ℕ)
    → IsValid m.kernel rs ss
    → has m.kernel.current rs ≡ true
    → has t rs ≡ true
    → length rs ≤ ticks is + 1
    → TurnWithin is m t
serve_all-TurnWithin is rs ss m t v h i enough =
    elim (schedule-HasTurn (regs_at is) m.kernel rs ss t v h i) [
      | has_turn n l w c ↦ elim (serve_all-UpTo is n m (omega (arith, l, enough))) [
        | up_to before after e q ↦ turn_within before after e (ap (λ k. k.current) q ∙ c)
      ]
    ]
