-- ===== src/Task/Schedule.antt =====
-- core/task.cpp: `schedule`, and the switch to another task.
use jkos.Base.{ℕ, ◌≡◌, refl, ap, List, [], ◌∷◌, ◌++◌, arith}
use jkos.Task.{Tasks}
use jkos.Task.Frame.{Starts-IsRing, Starts-frame}
use jkos.Task.Kernel.{Kernel, schedule, save, switch_task, Registers}
use jkos.Task.Ring.{IsRing}
use jkos.Task.Valid.{IsValid}

pub save-IsValid :
    (regs : Registers) (k : Kernel) (rs ss : List ℕ) → IsValid k rs ss → IsValid (save regs k) rs ss
save-IsValid regs k rs ss v = record {
  running_ring =
      Starts-frame k.task (save regs k).task _ _ (λ c h. (ground arith, ground arith))
        v.running_ring;
  sleeping_ring =
      Starts-frame k.task (save regs k).task _ _ (λ c h. (ground arith, ground arith))
        v.sleeping_ring;
  is_running = λ c h. ground (arith, v.is_running c h);
  is_sleeping = λ c h. ground (arith, v.is_sleeping c h);
  known = v.known;
}

pub switch_task-IsValid :
    (t : ℕ) (k : Kernel) (rs ss : List ℕ) → IsValid k rs ss → IsValid (switch_task t k) rs ss
switch_task-IsValid t k rs ss v = record {
  running_ring = v.running_ring;
  sleeping_ring = v.sleeping_ring;
  is_running = v.is_running;
  is_sleeping = v.is_sleeping;
  known = v.known;
}

-- The task behind `t` in a ring that goes on with `zs`.
abbrev pub behind : ℕ → List ℕ → ℕ
behind t [] = t
behind t (z ∷ zs) = z

pub next-behind :
    (m : Tasks) (t : ℕ) (zs : List ℕ) → IsRing m (t ∷ zs) → (m t).queue_next ≡ behind t zs
next-behind m t [] r = r.0.0
next-behind m t (z ∷ zs) r = r.0.0

-- The current task gave way to the task `next` and is to go on with the registers `regs`.
pub record GivesWay (next : ℕ) (regs : Registers) (k k' : Kernel) : Type 0 where
  pub current : k'.current ≡ next
  pub ids : k'.ids ≡ k.ids
  pub next_pid : k'.next_pid ≡ k.next_pid
  pub directory : k'.current_page_dir ≡ (k'.task next).page_dir
  pub esp : (k'.task k.current).esp ≡ regs.esp
  pub ebp : (k'.task k.current).ebp ≡ regs.ebp
  pub eip : (k'.task k.current).eip ≡ regs.eip

-- `schedule` of a task of the running queue gives way to the task behind it, round robin, saves
-- the registers and keeps the kernel valid.
pub schedule-GivesWay :
    (regs : Registers) (k : Kernel) (xs ys ss : List ℕ)
    → IsValid k (xs ++ (k.current ∷ ys)) ss
    → IsValid (schedule regs k) (xs ++ (k.current ∷ ys)) ss
      × GivesWay (behind k.current (ys ++ xs)) regs k (schedule regs k)
unfolding schedule
schedule-GivesWay regs k xs ys ss v =
    let e =
      next-behind k.task k.current (ys ++ xs)
        (Starts-IsRing k.task k.running_queue xs k.current ys v.running_ring) in
    (
      switch_task-IsValid (k.task k.current).queue_next (save regs k) _ ss
          (save-IsValid regs k _ ss v),
      record {
        current = e;
        ids = refl;
        next_pid = refl;
        directory = ap (λ a. ((save regs k).task a).page_dir) e;
        esp = ground arith;
        ebp = ground arith;
        eip = ground arith;
      },
    )
