-- ===== src/Task/Tests.antt =====
-- The properties of tasks at three tasks: 10 and 20 run, 30 sleeps.
use jkos.Base.{
  ℕ, ◌≡◌, refl, true, [], ◌∷◌, ◌==◌, if◌then◌else◌, arith, ap, sym, ◌∙◌, some, List, false,
}
use jkos.Rbt.{Rbt, nil, node, red, black, find_ge, do_find_ge, insert, insert_fix, plug}
use jkos.Task.{Task, Tasks, running, sleeping, queue_insert, queue_remove, PairIdTask, pair_order}
use jkos.Task.Ring.{has, Starts, has-append}
use jkos.Task.Queue.{insert-Starts, Leaves, remove-Leaves}
use jkos.Task.Kernel.{
  Kernel, Registers, id2task, get_next_pid, wakeup, sleep, schedule, fork, enqueue, construct,
}
use jkos.Task.Valid.{IsValid}
use jkos.Task.Wakeup.{WakesUp, wakeup-WakesUp}
use jkos.Task.Sleep.{Sleeps, sleep-Sleeps}
use jkos.Task.Schedule.{GivesWay, schedule-GivesWay}
use jkos.Task.Stack.{Words, Moved, move_stack, move_stack-Moved}
use jkos.Task.Ids.{Fresh, id2task-first, get_next_pid-Fresh}
use jkos.Task.System.{IsSystem}
use jkos.Task.Fork.{Forks, fork-Forks, forked, fork-eq}
use jkos.Task.Trace.{
  boot, rooted, init-eq, Reach, start, next, schedules, splits, Ordered, Reach-Ordered,
}

abbrev plain : Task
plain = record {
  id = 0;
  esp = 0;
  ebp = 0;
  eip = 0;
  page_dir = 4096;
  state = running;
  uid = 0;
  gid = 0;
  errno = 0;
  par = 0;
  queue_next = 0;
  queue_prev = 0;
  sig_wakeup = 0;
}

abbrev tasks : Tasks
tasks = λ a.
    if a == 10
    then record plain { queue_next = 20; queue_prev = 20 }
    else if a == 20
    then record plain { id = 1; queue_next = 10; queue_prev = 10 }
    else if a == 30
    then record plain { id = 2; state = sleeping; queue_next = 30; queue_prev = 30 }
    else plain

insert-Starts_example : let (ptr, m) = queue_insert 10 30 tasks in Starts m ptr (10 ∷ 30 ∷ 20 ∷ [])
insert-Starts_example = insert-Starts tasks 10 30 (10 ∷ 20 ∷ []) (ground arith) refl (ground arith)

remove-Leaves_example : Leaves (20 ∷ []) (queue_remove 10 10 tasks)
remove-Leaves_example = remove-Leaves tasks 10 [] 10 (20 ∷ []) (ground arith)

abbrev pair : ℕ → ℕ → PairIdTask
pair pid t = record { id = pid; task = t }

abbrev ids : Rbt PairIdTask
ids = node black (node red nil (pair 0 10) nil) (pair 1 20) (node red nil (pair 2 30) nil)

abbrev kernel : Kernel
kernel = record {
  task = tasks;
  current = 10;
  running_queue = 10;
  sleeping_queue = 30;
  ids = ids;
  next_pid = 3;
  current_page_dir = 4096;
}

kernel-known : (pid : ℕ) → has (id2task ids pid) (0 ∷ 10 ∷ 20 ∷ 30 ∷ []) ≡ true
unfolding id2task find_ge do_find_ge
kernel-known pid = ground arith

kernel-IsValid : IsValid kernel (10 ∷ 20 ∷ []) (30 ∷ [])
kernel-IsValid = record {
  running_ring = ground arith;
  sleeping_ring = ground arith;
  is_running = λ c h. ground arith;
  is_sleeping = λ c h. ground arith;
  known = kernel-known;
}

abbrev regs : Registers
regs = record { esp = 100; ebp = 200; eip = 300 }

wakeup-WakesUp_example : WakesUp (id2task ids 2) kernel (10 ∷ 20 ∷ []) (30 ∷ []) (wakeup 2 kernel)
wakeup-WakesUp_example = wakeup-WakesUp 2 kernel (10 ∷ 20 ∷ []) (30 ∷ []) kernel-IsValid

sleep-Sleeps_example :
    Sleeps (id2task ids 0) 4 regs kernel (10 ∷ 20 ∷ []) (30 ∷ []) (sleep 0 4 regs kernel)
sleep-Sleeps_example = sleep-Sleeps 0 4 regs kernel (10 ∷ 20 ∷ []) (30 ∷ []) kernel-IsValid

schedule-GivesWay_example :
    IsValid (schedule regs kernel) (10 ∷ 20 ∷ []) (30 ∷ [])
    × GivesWay 20 regs kernel (schedule regs kernel)
schedule-GivesWay_example = schedule-GivesWay regs kernel [] (20 ∷ []) (30 ∷ []) kernel-IsValid

id2task-first_example : id2task ids 1 ≡ 20
id2task-first_example =
    id2task-first 1 ids (pair 0 10 ∷ []) (pair 1 20) (pair 2 30 ∷ []) (ground arith) refl
      (ground arith) (ground arith)

get_next_pid-Fresh_example : Fresh ids 3 (get_next_pid 4 ids 0)
get_next_pid-Fresh_example =
    get_next_pid-Fresh 4 ids 3 0 (ground arith) (ground arith) (ground arith) (ground arith)
      (ground arith) (ground arith)

-- `id2task` of an id that no task has: a call with the id 1 reaches the task of the id 2.
id2task_of_missing : id2task (node black (node red nil (pair 0 10) nil) (pair 2 30) nil) 1 ≡ 30
unfolding id2task find_ge do_find_ge
id2task_of_missing = refl

kernel-IsSystem : IsSystem kernel (10 ∷ 20 ∷ []) (30 ∷ [])
kernel-IsSystem = record {
  valid = kernel-IsValid;
  tree = record {
    balanced = record { height = 1; rules = ground arith; root_black = refl };
    sorted = ground arith;
  };
  entries = ground arith;
}

fork-Forks_example : Forks 50 8192 regs kernel (10 ∷ 20 ∷ []) (30 ∷ []) (fork 1 50 8192 regs kernel)
fork-Forks_example =
    fork-Forks 0 50 8192 regs kernel (10 ∷ 20 ∷ []) (30 ∷ []) kernel-IsSystem (ground arith) refl
      (ground arith) (ground arith)

abbrev root : Rbt PairIdTask
root = node black nil (pair 0 40) nil

abbrev two : Rbt PairIdTask
two = node black nil (pair 0 40) (node red nil (pair 1 50) nil)

-- The kernel task forks and gives way to its child.
abbrev k0 : Kernel
k0 = schedule regs (enqueue 40 (rooted 0 40 4096 root (boot (λ a. plain) 4096)))

abbrev k1 : Kernel
k1 = forked 50 8192 regs two k0

abbrev k2 : Kernel
k2 = schedule regs k1

k0-fields :
    (k0.next_pid ≡ 1)
    × (k0.ids ≡ root)
    × (k0.current ≡ 40)
    × (k0.running_queue ≡ 40)
    × (k0.sleeping_queue ≡ 0)
    × ((k0.task 40).queue_next ≡ 40)
unfolding schedule enqueue construct queue_insert
k0-fields = (refl, refl, refl, refl, refl, refl)

alone :
    (m : Tasks) (p : ℕ) (rs : List ℕ)
    → p ≡ 40
    → (m 40).queue_next ≡ 40
    → Starts m p rs
    → has 50 rs ≡ false
alone m p [] e q s = refl
alone m p (x ∷ []) e q s = ground (arith, s.0)
alone m p (x ∷ y ∷ rs) e q s =
    let f : x ≡ 40 = sym (s.0) ∙ e in
    let g : (m x).queue_next ≡ x = ap (λ a. (m a).queue_next) f ∙ q ∙ sym f in
    ground (arith, g, s.1.0.0, s.1.1.0)

none_asleep : (m : Tasks) (p : ℕ) (ss : List ℕ) → p ≡ 0 → Starts m p ss → has 50 ss ≡ false
none_asleep m p [] e s = refl
none_asleep m p (x ∷ ss) e s = ground (arith, s.0, s.1.2)

root-pid : get_next_pid 1 root 1 ≡ some 1
unfolding get_next_pid id2task find_ge do_find_ge
root-pid = refl

root-insert : insert (pair 1 50) root ≡ some two
unfolding insert insert_fix plug
root-insert = refl

start-insert : insert (pair 0 40) nil ≡ some root
unfolding insert insert_fix
start-insert = refl

start-pid : get_next_pid 1 nil 0 ≡ some 0
unfolding get_next_pid id2task find_ge do_find_ge
start-pid = refl

k0-Reach : Reach k0
k0-Reach =
    start (λ a. plain) 4096 0 40 regs (ground arith)
      (init-eq 1 40 regs (boot (λ a. plain) 4096) root start-pid start-insert)

k2-Reach : Reach k2
k2-Reach =
    let f = k0-fields in
    next {k = k1} {k' = k2}
      (next {k = k0} {k' = k1} k0-Reach (
        splits 0 50 8192 regs _ (ground arith)
          (λ rs ss r s. ground (
            arith,
            has-append 50 rs ss,
            alone k0.task k0.running_queue rs (f.3) (f.5) r,
            none_asleep k0.task k0.sleeping_queue ss (f.4) s,
          ))
          (λ q. ground (arith, sym q ∙ f.2)) (ground (arith, f.0))
          (fork-eq 1 50 8192 regs k0 two (rw (f.0, f.1) root-pid) (rw (f.0, f.1) root-insert))))
      (schedules regs refl)

Reach-Ordered_example : Ordered k2
Reach-Ordered_example = Reach-Ordered k2 k2-Reach

-- A stack of three words: the second one leads to the third.
abbrev old_stack : Words
old_stack = λ a. if a == 1001 then 4008 else a

move_stack-Moved_example : Moved 1003 1000 old_stack (move_stack 1003 1000 old_stack)
move_stack-Moved_example = move_stack-Moved 1003 1000 old_stack (omega arith) (omega arith)
