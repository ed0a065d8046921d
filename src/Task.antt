-- ===== src/Task.antt =====
-- core/task.cpp: tasks at addresses in memory, the circular queues that link them, the table of
-- process ids and the operations of the scheduler. An operation returns the kernel that it leaves.
-- Saved registers come as the argument `Registers`; the jump to a task is the change of `current`.
pub mod Ring
pub mod Queue
pub mod Kernel
pub mod Ids
pub mod Frame
pub mod Move
pub mod Valid
pub mod Schedule
pub mod Wakeup
pub mod Sleep
pub mod System
pub mod Birth
pub mod Fork
pub mod Trace
pub mod Turns
pub mod Stack
mod Tests
use jkos.Base.{
  ℕ, zero, suc, ◌+◌, ◌%◌, ◌^◌, ◌≡◌, Bool, true, false, not, Option, none, some, ◌==◌, ◌&&◌, ◌||◌,
  if◌then◌else◌, update, ltb, leb, arith,
}
use jkos.Base.Order.{Order, IsWeak}
use jkos.Rbt.{Rbt, Loc, get_key, find_ge, insert}

-- `Task_state_t`
pub data TaskState : Type 0 where
  running sleeping zombie : TaskState

-- `Task_t`; a null pointer is 0.
pub record Task : Type 0 where
  pub id : ℕ
  pub esp : ℕ
  pub ebp : ℕ
  pub eip : ℕ
  pub page_dir : ℕ
  pub state : TaskState
  pub uid : ℕ
  pub gid : ℕ
  pub errno : ℕ
  pub par : ℕ
  pub queue_next : ℕ
  pub queue_prev : ℕ
  pub sig_wakeup : ℕ

abbrev pub Tasks : Type 0
Tasks = ℕ → Task

abbrev pub set_next : Tasks → ℕ → ℕ → Tasks
set_next m a b = update m a (record (m a) { queue_next = b })

abbrev pub set_prev : Tasks → ℕ → ℕ → Tasks
set_prev m a b = update m a (record (m a) { queue_prev = b })

-- `Task_queue::insert` at the pointer `ptr` of a queue: the new pointer, and the tasks.
unfoldable pub queue_insert : ℕ → ℕ → Tasks → ℕ × Tasks
queue_insert ptr task m =
    if ptr == 0
    then (task, set_next (set_prev m task task) task task)
    else (let m1 = set_next m task (m ptr).queue_next in
        let m2 = set_prev m1 (m1 task).queue_next task in
        let m3 = set_next m2 ptr task in (ptr, set_prev m3 task ptr))

-- `Task_queue::remove`; `none` is its failed assertion.
unfoldable pub queue_remove : ℕ → ℕ → Tasks → Option (ℕ × Tasks)
queue_remove ptr task m =
    if (m ptr).queue_next == ptr
    then (if ptr == task then some (0, m) else none)
    else (let m1 = set_next m (m task).queue_prev (m task).queue_next in
        let m2 = set_prev m1 (m1 task).queue_next (m1 task).queue_prev in
        some
          (if ptr == task then (m ptr).queue_next else ptr, set_prev (set_next m2 task 0) task 0))

-- `Pair_id_task`, ordered by the id alone.
pub record PairIdTask : Type 0 where
  pub id : ℕ
  pub task : ℕ

abbrev pub pair_lt : PairIdTask → PairIdTask → Bool
pair_lt a b = ltb a.id b.id

abbrev pub pair_le : PairIdTask → PairIdTask → Bool
pair_le a b = leb a.id b.id

pub pair-IsWeak : IsWeak pair_lt pair_le
pair-IsWeak = ground arith

instance abbrev pub pair_order : Order PairIdTask
pair_order = record { lt = pair_lt; le = pair_le; weak = pair-IsWeak }
