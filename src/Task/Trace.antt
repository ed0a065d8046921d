-- ===== src/Task/Trace.antt =====
-- core/task.cpp: every kernel that the operations reach from `init` is in order.
use jkos.Base.{
  ℕ, suc, ◌+◌, ◌%◌, ◌^◌, ◌<◌, ◌≡◌, ◌≢◌, refl, sym, subst, ◌∙◌, ap, true, false, Option, none, some,
  List, [], ◌∷◌, ◌++◌, arith, update, All, All-imp,
}
use jkos.Rbt.{Rbt, nil, walk, insert}
use jkos.Rbt.Bag.{IsTree}
use jkos.Task.{Task, Tasks, running, PairIdTask, pair_order}
use jkos.Task.Ring.{has, Starts}
use jkos.Task.Queue.{behind_first}
use jkos.Task.Kernel.{
  Kernel, Registers, Reply, id2task, get_next_pid, construct, enqueue, schedule, save, switch_task,
  sleep, wakeup, fork, init,
}
use jkos.Task.Valid.{IsValid, has-moved}
use jkos.Task.Wakeup.{WakesUp, woken, wakeup-WakesUp}
use jkos.Task.Schedule.{save-IsValid, switch_task-IsValid}
use jkos.Task.Sleep.{Sleeps, suspended, yields, sleep-Sleeps, has_asleep}
use jkos.Task.System.{IsEntry, IsSystem, known-IsEntry}
use jkos.Task.Birth.{enqueue-rings}
use jkos.Task.Ids.{get_next_pid-now, id2task-beyond}
use jkos.Rbt.Balance.{gives}
use jkos.Rbt.Descend.{insert-Gives}
use jkos.Rbt.Sorted.{IsSorted, insert_sorted-IsSorted, All-insert_sorted}
use jkos.Task.Fork.{forks, fork-Forks}

-- One call of an operation of the scheduler, of the current task or of the timer. A new task stands at an address that
-- no task has.
pub data Step (k k' : Kernel) : Type 0 where
  schedules : (regs : Registers) → k' ≡ schedule regs k → Step k k'
  sleeps :
      (pid sig : ℕ) (regs : Registers) (reply : Reply)
      → sleep pid sig regs k ≡ some (reply, k')
      → Step k k'
  wakes : (pid : ℕ) (reply : Reply) → wakeup pid k ≡ some (reply, k') → Step k k'
  splits :
      (fuel fresh dir : ℕ) (regs : Registers) (pid : ℕ)
      → fresh ≢ 0
      → ((rs ss : List ℕ)
          → Starts k.task k.running_queue rs
          → Starts k.task k.sleeping_queue ss
          → has fresh (rs ++ ss) ≡ false)
      → k.current ≢ fresh
      → k.next_pid + 1 < 2 ^ 32
      → fork (suc fuel) fresh dir regs k ≡ some (pid, k')
      → Step k k'

-- The statics before `init`, for any memory.
abbrev pub boot : Tasks → ℕ → Kernel
boot m dir = record {
  task = m;
  current = 0;
  running_queue = 0;
  sleeping_queue = 0;
  ids = nil;
  next_pid = 0;
  current_page_dir = dir;
}

pub data Reach : Kernel → Type 0 where
  start :
      (m : Tasks) (dir fuel fresh : ℕ) (regs : Registers) {k : Kernel}
      → fresh ≢ 0
      → init (suc fuel) fresh regs (boot m dir) ≡ some k
      → Reach k
  next : {k k' : Kernel} → Reach k → Step k k' → Reach k'

pub data Ordered (k : Kernel) : Type 0 where
  ordered : (rs ss : List ℕ) → IsSystem k rs ss → Ordered k

-- The ids are as before, and the tasks of the queues too.
moved-Ordered :
    (k k' : Kernel) (rs ss rs' ss' : List ℕ)
    → IsSystem k rs ss
    → IsValid k' rs' ss'
    → k'.ids ≡ k.ids
    → k'.next_pid ≡ k.next_pid
    → ((c : ℕ) → has c (rs ++ ss) ≡ has c (rs' ++ ss'))
    → Ordered k'
moved-Ordered k k' rs ss rs' ss' v w i n h = ordered rs' ss' (record {
  valid = w;
  tree = subst (λ t. IsTree t) (sym i) v.tree;
  entries =
      subst (λ t. All (IsEntry k'.next_pid (rs' ++ ss')) (walk t)) (sym i)
        (All-imp (IsEntry k.next_pid (rs ++ ss)) (IsEntry k'.next_pid (rs' ++ ss')) (walk k.ids)
          (λ p e. (sym (h p.task) ∙ e.0, subst (λ x. p.id < x) (sym n) e.1)) v.entries);
})

schedule-Ordered :
    (regs : Registers) (k : Kernel) (rs ss : List ℕ) → IsSystem k rs ss → Ordered (schedule regs k)
unfolding schedule
schedule-Ordered regs k rs ss v =
    moved-Ordered k (switch_task (k.task k.current).queue_next (save regs k)) rs ss rs ss v
      (switch_task-IsValid (k.task k.current).queue_next (save regs k) rs ss
        (save-IsValid regs k rs ss v.valid))
      refl refl (λ c. refl)

-- Two results of one call.
ends :
    (call : Option (Reply × Kernel)) (r r' : Reply) (a b : Kernel)
    → call ≡ some (r, a)
    → call ≡ some (r', b)
    → b ≡ a
ends call r r' a b e q =
    let w : some (r', b) ≡ some (r, a) = sym q ∙ e in
    ap (λ x. elim x as (λ y. Kernel) [ none ↦ a | some z ↦ z.1 ]) w

moved_to :
    (k a b : Kernel) (rs ss rs' ss' : List ℕ)
    → IsSystem k rs ss
    → IsValid a rs' ss'
    → a.ids ≡ k.ids
    → a.next_pid ≡ k.next_pid
    → ((c : ℕ) → has c (rs ++ ss) ≡ has c (rs' ++ ss'))
    → b ≡ a
    → Ordered b
moved_to k a b rs ss rs' ss' v w i n h e =
    subst (λ x. Ordered x) (sym e) (moved-Ordered k a rs ss rs' ss' v w i n h)

wakeup-Ordered :
    (pid : ℕ) (reply : Reply) (k k' : Kernel) (rs ss : List ℕ)
    → IsSystem k rs ss
    → wakeup pid k ≡ some (reply, k')
    → Ordered k'
wakeup-Ordered pid reply k k' rs ss v e = elim (wakeup-WakesUp pid k rs ss v.valid) [
  | WakesUp.missing m q w ↦
      moved_to k _ k' rs ss rs ss v w refl refl (λ c. refl) (ends _ _ _ _ _ q e)
  | WakesUp.denied d q w ↦
      moved_to k _ k' rs ss rs ss v w refl refl (λ c. refl) (ends _ _ _ _ _ q e)
  | WakesUp.awake d h q ↦ subst (λ x. Ordered x) (sym (ends _ _ _ _ _ q e)) (ordered rs ss v)
  | woken xs ys k2 d s q r ↦
      moved_to k k2 k' rs ss _ _ v r.valid r.ids r.next_pid
        (λ c. ap (λ x. has c (rs ++ x)) s ∙ has-moved c _ rs xs ys) (ends _ _ _ _ _ q e)
]

sleep-Ordered :
    (pid sig : ℕ) (regs : Registers) (reply : Reply) (k k' : Kernel) (rs ss : List ℕ)
    → IsSystem k rs ss
    → sleep pid sig regs k ≡ some (reply, k')
    → Ordered k'
sleep-Ordered pid sig regs reply k k' rs ss v e = elim (sleep-Sleeps pid sig regs k rs ss v.valid) [
  | Sleeps.missing m q w ↦
      moved_to k _ k' rs ss rs ss v w refl refl (λ c. refl) (ends _ _ _ _ _ q e)
  | Sleeps.denied d q w ↦ moved_to k _ k' rs ss rs ss v w refl refl (λ c. refl) (ends _ _ _ _ _ q e)
  | Sleeps.asleep d h q ↦ subst (λ x. Ordered x) (sym (ends _ _ _ _ _ q e)) (ordered rs ss v)
  | suspended xs ys k2 d n s q r w ↦
      moved_to k k2 k' rs ss _ _ v r.valid r.ids r.next_pid
        (λ c. ap (λ x. has c (x ++ ss)) s ∙ has_asleep c _ xs ys ss) (ends _ _ _ _ _ q e)
  | yields xs ys k2 d n s q r g w ↦
      moved_to k k2 k' rs ss _ _ v r g.ids g.next_pid
        (λ c. ap (λ x. has c (x ++ ss)) s ∙ has_asleep c _ xs ys ss) (ends _ _ _ _ _ q e)
]

Step-Ordered : (k k' : Kernel) → Step k k' → Ordered k → Ordered k'
Step-Ordered k k' (schedules regs e) (ordered rs ss v) =
    subst (λ x. Ordered x) (sym e) (schedule-Ordered regs k rs ss v)
Step-Ordered k k' (sleeps pid sig regs reply e) (ordered rs ss v) =
    sleep-Ordered pid sig regs reply k k' rs ss v e
Step-Ordered k k' (wakes pid reply e) (ordered rs ss v) = wakeup-Ordered pid reply k k' rs ss v e
Step-Ordered k k' (splits fuel fresh dir regs pid nz o n lim e) (ordered rs ss v) =
    elim (fork-Forks fuel fresh dir regs k rs ss v nz
      (o rs ss v.valid.running_ring v.valid.sleeping_ring) n lim) [
        | forks k2 q w c s t u ↦
            subst (λ x. Ordered x)
              (sym (ap (λ x. elim x as (λ y. Kernel) [ none ↦ k2 | some z ↦ z.1 ]) (sym e ∙ q)))
              (ordered (behind_first fresh rs) ss w)
      ]

-- The kernel task before it is in the queue.
abbrev pub rooted : ℕ → ℕ → ℕ → Rbt PairIdTask → Kernel → Kernel
rooted pid fresh dir ids k =
    let k1 = construct pid fresh dir ids k in
    record k1 {
      current = fresh;
      task = update k1.task fresh (record (k1.task fresh) { uid = 0; gid = 0 });
    }

pub init-eq :
    (fuel fresh : ℕ) (regs : Registers) (k : Kernel) (ids : Rbt PairIdTask)
    → get_next_pid fuel k.ids k.next_pid ≡ some k.next_pid
    → insert (record { id = k.next_pid; task = fresh }) k.ids ≡ some ids
    → init fuel fresh regs k
      ≡ some (schedule regs (enqueue fresh (rooted k.next_pid fresh k.current_page_dir ids k)))
unfolding init
init-eq fuel fresh regs k ids e q = rw (e, q) refl

rooted-fields :
    (fresh dir : ℕ) (ids : Rbt PairIdTask) (k : Kernel)
    → let k1 = rooted k.next_pid fresh dir ids k in
      let k' = enqueue fresh k1 in
      (k1.running_queue ≡ k.running_queue)
      × (k1.sleeping_queue ≡ k.sleeping_queue)
      × (k'.sleeping_queue ≡ k.sleeping_queue)
      × (k'.ids ≡ ids)
      × (k'.next_pid ≡ (k.next_pid + 1) % 2 ^ 32)
      × ((k1.task fresh).state ≡ running)
unfolding enqueue construct
rooted-fields fresh dir ids k = (refl, refl, refl, refl, refl, ground arith)

rooted-IsValid :
    (fresh dir : ℕ) (ids : Rbt PairIdTask) (m : Tasks)
    → fresh ≢ 0
    → ((pid : ℕ) → has (id2task ids pid) (0 ∷ (fresh ∷ [])) ≡ true)
    → IsValid (enqueue fresh (rooted 0 fresh dir ids (boot m dir))) (fresh ∷ []) []
rooted-IsValid fresh dir ids m nz known =
    let k1 = rooted 0 fresh dir ids (boot m dir) in
    let fields = rooted-fields fresh dir ids (boot m dir) in
    let rings = enqueue-rings fresh k1 [] [] nz refl refl (λ c h. refl) (fields.0) (fields.1) in
    record {
      running_ring = rings.0;
      sleeping_ring = fields.2;
      is_running = λ c h.
          let q : c ≡ fresh = ground arith in
          ap (λ (x : Task). x.state) (rings.2 c) ∙ ap (λ x. (k1.task x).state) q ∙ fields.5;
      is_sleeping = λ c h. ground arith;
      known = λ pid. ap (λ t. has (id2task t pid) (0 ∷ (fresh ∷ []))) (fields.3) ∙ known pid;
    }

init-Ordered :
    (m : Tasks) (dir fuel fresh : ℕ) (regs : Registers) (k : Kernel)
    → fresh ≢ 0
    → init (suc fuel) fresh regs (boot m dir) ≡ some k
    → Ordered k
init-Ordered m dir fuel fresh regs k nz e =
    let g = get_next_pid-now fuel nil 0 (id2task-beyond 0 nil tt tt) in
    let root : PairIdTask = record { id = 0; task = fresh } in
    elim (insert-Gives root nil (record { height = 0; rules = refl; root_black = refl }) tt) [
      | gives ids q b w ↦
          let k2 = enqueue fresh (rooted 0 fresh dir ids (boot m dir)) in
          let fields = rooted-fields fresh dir ids (boot m dir) in
          let sorted : IsSorted (walk ids) = rw w (insert_sorted-IsSorted root [] tt) in
          let entries : All (IsEntry 1 (fresh ∷ [])) (walk ids) =
            rw w
              (All-insert_sorted (IsEntry 1 (fresh ∷ [])) root [] (ground arith, omega arith) tt) in
          let valid =
            rooted-IsValid fresh dir ids m nz
              (λ pid. known-IsEntry ids 1 (fresh ∷ []) pid sorted entries) in
          subst (λ x. Ordered x)
            (ap (λ x. elim x as (λ y. Kernel) [ none ↦ k | some z ↦ z ])
              (sym (init-eq (suc fuel) fresh regs (boot m dir) ids g q) ∙ e))
            (schedule-Ordered regs k2 (fresh ∷ []) [] (record {
              valid = valid;
              tree =
                  subst (λ t. IsTree t) (sym (fields.3)) (record { balanced = b; sorted = sorted });
              entries =
                  subst (λ t. All (IsEntry k2.next_pid (fresh ∷ [])) (walk t)) (sym (fields.3))
                    (subst (λ x. All (IsEntry x (fresh ∷ [])) (walk ids)) (sym (fields.4)) entries);
            }))
    ]

-- In a kernel that `init` and any calls of `schedule`, `sleep`, `wakeup` and `fork` reach, the two
-- queues are rings of the running and of the sleeping tasks, and the tree of ids is balanced and
-- sorted, with entries only for tasks of the queues and with ids below the next one.
pub Reach-Ordered : (k : Kernel) → Reach k → Ordered k
Reach-Ordered k (start m dir fuel fresh regs nz e) = init-Ordered m dir fuel fresh regs k nz e
Reach-Ordered k (next {k = j} r s) = Step-Ordered j k s (Reach-Ordered j r)
