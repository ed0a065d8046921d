-- ===== src/Task/Birth.antt =====
-- core/task.cpp: the steps of `fork`.
use jkos.Base.{ℕ, ◌≡◌, ◌≢◌, ap, true, false, List, arith}
use jkos.Rbt.{Rbt}
use jkos.Task.{running, queue_insert, PairIdTask, pair_order}
use jkos.Task.Ring.{has, Starts}
use jkos.Task.Queue.{behind_first, insert-Starts}
use jkos.Task.Frame.{SameBodies, insert-SameBodies, insert_outside, Starts-frame}
use jkos.Task.Kernel.{Kernel, Registers, construct, adopt, enqueue, set_registers}

-- A child as `fork` sets it before it is in the queue.
pub record IsBorn (fresh dir : ℕ) (k k1 : Kernel) : Type 0 where
  pub id : (k1.task fresh).id ≡ k.next_pid
  pub page_dir : (k1.task fresh).page_dir ≡ dir
  pub state : (k1.task fresh).state ≡ running
  pub par : (k1.task fresh).par ≡ k.current
  pub uid : (k1.task fresh).uid ≡ (k.task k.current).uid
  pub gid : (k1.task fresh).gid ≡ (k.task k.current).gid
  pub errno : (k1.task fresh).errno ≡ 0
  pub others : (c : ℕ) → c ≢ fresh → k1.task c ≡ k.task c

pub adopt-IsBorn :
    (fresh dir : ℕ) (ids : Rbt PairIdTask) (k : Kernel)
    → k.current ≢ fresh
    → IsBorn fresh dir k (adopt fresh (construct k.next_pid fresh dir ids k))
unfolding adopt construct
adopt-IsBorn fresh dir ids k n = record {
  id = ground arith;
  page_dir = ground arith;
  state = ground arith;
  par = ground arith;
  uid = ground arith;
  gid = ground arith;
  errno = ground arith;
  others = λ c m. ground arith;
}

pub enqueue-rings :
    (t : ℕ) (k : Kernel) (rs ss : List ℕ)
    → t ≢ 0
    → has t rs ≡ false
    → has t ss ≡ false
    → ((c : ℕ) → has c ss ≡ true → has c rs ≡ false)
    → Starts k.task k.running_queue rs
    → Starts k.task k.sleeping_queue ss
    → Starts (enqueue t k).task (enqueue t k).running_queue (behind_first t rs)
      × Starts (enqueue t k).task k.sleeping_queue ss
      × SameBodies k.task (enqueue t k).task
unfolding enqueue
enqueue-rings t k rs ss nz r s apart u v =
    let still : (c : ℕ) → has c ss ≡ true → (queue_insert k.running_queue t k.task).1 c ≡ k.task c =
      λ c h.
        insert_outside k.task k.running_queue t rs c u (λ q. ground (arith, ap (λ x. has x ss) q))
          (apart c h) in
    (
      insert-Starts k.task k.running_queue t rs nz r u,
      Starts-frame k.task (queue_insert k.running_queue t k.task).1 k.sleeping_queue ss
          (λ c h. (ap (λ x. x.queue_next) (still c h), ap (λ x. x.queue_prev) (still c h))) v,
      insert-SameBodies k.task k.running_queue t,
    )

-- The registers leave the rest of a task alone.
pub set_registers-links :
    (t : ℕ) (regs : Registers) (k : Kernel) (c : ℕ)
    → (((set_registers t regs k).task c).queue_next ≡ (k.task c).queue_next)
      × (((set_registers t regs k).task c).queue_prev ≡ (k.task c).queue_prev)
      × (((set_registers t regs k).task c).state ≡ (k.task c).state)
unfolding set_registers
set_registers-links t regs k c = (ground arith, ground arith, ground arith)

pub set_registers-Starts :
    (t : ℕ) (regs : Registers) (k : Kernel) (ptr : ℕ) (xs : List ℕ)
    → Starts k.task ptr xs
    → Starts (set_registers t regs k).task ptr xs
set_registers-Starts t regs k ptr xs s =
    Starts-frame k.task (set_registers t regs k).task ptr xs
      (λ c h. ((set_registers-links t regs k c).0, (set_registers-links t regs k c).1)) s
