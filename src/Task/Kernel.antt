-- ===== src/Task/Kernel.antt =====
-- core/task.cpp and core/user.cpp: the statics of the scheduler, and its operations.
use jkos.Base.{
  ℕ, zero, suc, ◌+◌, ◌%◌, ◌^◌, Bool, true, false, not, Option, none, some, ◌==◌, ◌&&◌, ◌||◌,
  if◌then◌else◌, update, ◌>>=◌,
}
use jkos.Rbt.{Rbt, get_key, find_ge, insert}
use jkos.Task.{
  TaskState, running, sleeping, zombie, Tasks, queue_insert, queue_remove, PairIdTask, pair_order,
}

-- `current_task`, the pointers of the two queues in use, `rbt_id2task`, the static `next` of
-- `get_next_pid`, `Page::current_page_dir`, and the tasks in memory.
pub record Kernel : Type 0 where
  pub task : Tasks
  pub current : ℕ
  pub running_queue : ℕ
  pub sleeping_queue : ℕ
  pub ids : Rbt PairIdTask
  pub next_pid : ℕ
  pub current_page_dir : ℕ

-- The registers of the caller, with the address that `read_eip` gives.
pub record Registers : Type 0 where
  pub esp : ℕ
  pub ebp : ℕ
  pub eip : ℕ

-- The result of a call that returns 0 or -1.
pub data Reply : Type 0 where
  success failure : Reply

abbrev pub eperm : ℕ
eperm = 1

abbrev pub esrch : ℕ
esrch = 3

-- `set_errno`
abbrev pub set_errno : ℕ → Kernel → Kernel
set_errno e k = record k {
  task = update k.task k.current (record (k.task k.current) { errno = e });
}

-- `User::cap_test`
abbrev pub cap_test : ℕ → Bool
cap_test uid = uid == 0

-- `id2task`: the task of the node that `find_ge` gives, or null.
unfoldable pub id2task : Rbt PairIdTask → ℕ → ℕ
id2task ids pid = elim (find_ge (record { id = pid; task = 0 }) ids) [
  | none ↦ 0
  | some node ↦ (get_key node).task
]

-- The loop of `get_next_pid`; `none` means that the fuel ran out.
unfoldable pub get_next_pid : ℕ → Rbt PairIdTask → ℕ → Option ℕ
get_next_pid zero ids next = none
get_next_pid (suc fuel) ids next =
    let rest = get_next_pid fuel ids ((next + 1) % 2 ^ 32) in
    if id2task ids next == 0 then some next else rest

-- What the constructor of `Task_t` sets at the address `fresh`, with the tree of ids that has it; it
-- does not set `uid`, `gid` and `sig_wakeup`.
unfoldable pub construct : ℕ → ℕ → ℕ → Rbt PairIdTask → Kernel → Kernel
construct pid fresh dir ids k = record k {
  next_pid = (pid + 1) % 2 ^ 32;
  ids = ids;
  task = update k.task fresh (record (k.task fresh) {
    id = pid;
    esp = 0;
    ebp = 0;
    eip = 0;
    page_dir = dir;
    state = running;
    errno = 0;
    par = 0;
    queue_next = 0;
    queue_prev = 0;
  });
}

-- The constructor of `Task_t` at the address `fresh`.
unfoldable pub new_task : ℕ → ℕ → ℕ → Kernel → Option Kernel
new_task fuel fresh dir k = do
  pid ← get_next_pid fuel k.ids k.next_pid
  ids ← insert (record { id = pid; task = fresh }) k.ids
  some (construct pid fresh dir ids k)

-- `Queue::running.insert(task)`
unfoldable pub enqueue : ℕ → Kernel → Kernel
enqueue t k =
    let (ptr, m) = queue_insert k.running_queue t k.task in
    record k { running_queue = ptr; task = m }

-- The child gets its parent, the current task, and the parent's user and group.
unfoldable pub adopt : ℕ → Kernel → Kernel
adopt fresh k = record k {
  task = update k.task fresh (record (k.task fresh) {
    par = k.current;
    uid = (k.task k.current).uid;
    gid = (k.task k.current).gid;
  });
}

-- The registers with which the child starts.
unfoldable pub set_registers : ℕ → Registers → Kernel → Kernel
set_registers t regs k = record k {
  task = update k.task t (record (k.task t) { esp = regs.esp; ebp = regs.ebp; eip = regs.eip });
}

-- `fork` as the parent runs it: the child's id, and the kernel. `dir` is the cloned directory.
unfoldable pub fork : ℕ → ℕ → ℕ → Registers → Kernel → Option (ℕ × Kernel)
unfolding new_task
fork fuel fresh dir regs k = do
  k1 ← new_task fuel fresh dir k
  let k2 = enqueue fresh (adopt fresh k1)
  some ((k2.task fresh).id, set_registers fresh regs k2)

-- The registers of the current task are saved for its next turn.
abbrev pub save : Registers → Kernel → Kernel
save regs k = record k {
  task =
      update k.task k.current
        (record (k.task k.current) { esp = regs.esp; ebp = regs.ebp; eip = regs.eip });
}

-- `switch_task`
abbrev pub switch_task : ℕ → Kernel → Kernel
switch_task t k = record k { current = t; current_page_dir = (k.task t).page_dir }

-- `schedule`; `get_next_task` is the task behind the current one.
unfoldable pub schedule : Registers → Kernel → Kernel
schedule regs k = switch_task (k.task k.current).queue_next (save regs k)

abbrev pub is_zombie : TaskState → Bool
is_zombie running = false
is_zombie sleeping = false
is_zombie zombie = true

abbrev pub is_running : TaskState → Bool
is_running running = true
is_running sleeping = false
is_running zombie = false

abbrev pub is_sleeping : TaskState → Bool
is_sleeping running = false
is_sleeping sleeping = true
is_sleeping zombie = false

-- `GET_TASK_BY_ID_NOZOMBIE` fails.
abbrev pub is_missing : ℕ → Kernel → Bool
is_missing t k = t == 0 || is_zombie (k.task t).state

-- `CHECK_PERM` fails.
abbrev pub is_denied : ℕ → Kernel → Bool
is_denied t k =
    not ((k.task t).uid == (k.task k.current).uid) && not (cap_test (k.task k.current).uid)

-- The move of a running task to the sleeping queue; `none` is the failed assertion of `remove`.
unfoldable pub suspend : ℕ → ℕ → Kernel → Option Kernel
suspend t sig k = do
  (ptr, m) ← queue_remove k.running_queue t k.task
  let (sptr, m') = queue_insert k.sleeping_queue t m
  some (record k {
    running_queue = ptr;
    sleeping_queue = sptr;
    task = update m' t (record (m' t) { state = sleeping; sig_wakeup = sig });
  })

-- `sleep`. A task that puts itself to sleep saves its registers and gives way to the task that was
-- behind it; its call returns 0 when it runs again.
unfoldable pub sleep : ℕ → ℕ → Registers → Kernel → Option (Reply × Kernel)
sleep pid sig regs k =
    let t = id2task k.ids pid in
    let next = (k.task k.current).queue_next in
    if is_missing t k
    then some (failure, set_errno esrch k)
    else if is_denied t k
    then some (failure, set_errno eperm k)
    else if is_running (k.task t).state
    then (do
      k' ← suspend t sig k
      some (success, if t == k.current then switch_task next (save regs k') else k'))
    else some (success, k)

-- The move of a sleeping task to the running queue.
unfoldable pub resume : ℕ → Kernel → Option Kernel
resume t k = do
  (sptr, m) ← queue_remove k.sleeping_queue t k.task
  let (ptr, m') = queue_insert k.running_queue t m
  some (record k {
    running_queue = ptr;
    sleeping_queue = sptr;
    task = update m' t (record (m' t) { state = running });
  })

-- `wakeup`
unfoldable pub wakeup : ℕ → Kernel → Option (Reply × Kernel)
wakeup pid k =
    let t = id2task k.ids pid in
    if is_missing t k
    then some (failure, set_errno esrch k)
    else if is_denied t k
    then some (failure, set_errno eperm k)
    else if is_sleeping (k.task t).state
    then (do k' ← resume t k; some (success, k'))
    else some (success, k)

-- `Task::init` from the new task on: the kernel task, with the directory in use.
unfoldable pub init : ℕ → ℕ → Registers → Kernel → Option Kernel
unfolding new_task schedule
init fuel fresh regs k = do
  k1 ← new_task fuel fresh k.current_page_dir k
  let k2 = record k1 {
    current = fresh;
    task = update k1.task fresh (record (k1.task fresh) { uid = 0; gid = 0 });
  }
  some (schedule regs (enqueue fresh k2))
