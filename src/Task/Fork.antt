-- ===== src/Task/Fork.antt =====
-- core/task.cpp: `fork` puts a child behind the first running task and leaves the kernel in order.
use jkos.Base.{
  ℕ, suc, ◌+◌, ◌%◌, ◌^◌, ◌<◌, ◌≡◌, ◌≢◌, refl, sym, subst, ◌∙◌, ap, true, false, Option, some, List,
  ◌∷◌, ◌++◌, arith, All, All-imp,
}
use native.Mathlib.Decide.{ℕ_discrete}
use jkos.Rbt.{Rbt, walk, insert}
use jkos.Rbt.Sorted.{IsSorted, insert_sorted, insert_sorted-IsSorted, All-insert_sorted}
use jkos.Rbt.Bag.{IsTree}
use jkos.Rbt.Balance.{gives}
use jkos.Rbt.Descend.{insert-Gives}
use jkos.Task.{Task, PairIdTask, pair_order}
use jkos.Task.Ring.{has, Starts, has-append}
use jkos.Task.Queue.{behind_first}
use jkos.Task.Frame.{SameBodies, unlink, Starts-frame}
use jkos.Task.Kernel.{
  Kernel, Registers, id2task, get_next_pid, construct, adopt, enqueue, set_registers, fork,
}
use jkos.Task.Valid.{IsValid, has-behind_first, apart_ss}
use jkos.Task.Ids.{id2task-beyond, get_next_pid-now}
use jkos.Task.System.{IsEntry, IsSystem, known-IsEntry, entries_below}
use jkos.Task.Birth.{IsBorn, adopt-IsBorn, enqueue-rings, set_registers-links, set_registers-Starts}

abbrev pub forked : ℕ → ℕ → Registers → Rbt PairIdTask → Kernel → Kernel
forked fresh dir regs ids k =
    set_registers fresh regs (enqueue fresh (adopt fresh (construct k.next_pid fresh dir ids k)))

pub fork-eq :
    (fuel fresh dir : ℕ) (regs : Registers) (k : Kernel) (ids : Rbt PairIdTask)
    → get_next_pid fuel k.ids k.next_pid ≡ some k.next_pid
    → insert (record { id = k.next_pid; task = fresh }) k.ids ≡ some ids
    → fork fuel fresh dir regs k
      ≡ some (
        ((enqueue fresh (adopt fresh (construct k.next_pid fresh dir ids k))).task fresh).id,
        forked fresh dir regs ids k,
      )
unfolding fork
fork-eq fuel fresh dir regs k ids e q = rw (e, q) refl

-- The child that `fork` made: what it has of its parent, and where it starts.
pub record IsChild (fresh dir : ℕ) (regs : Registers) (k k' : Kernel) : Type 0 where
  pub id : (k'.task fresh).id ≡ k.next_pid
  pub par : (k'.task fresh).par ≡ k.current
  pub uid : (k'.task fresh).uid ≡ (k.task k.current).uid
  pub gid : (k'.task fresh).gid ≡ (k.task k.current).gid
  pub page_dir : (k'.task fresh).page_dir ≡ dir
  pub errno : (k'.task fresh).errno ≡ 0
  pub esp : (k'.task fresh).esp ≡ regs.esp
  pub ebp : (k'.task fresh).ebp ≡ regs.ebp
  pub eip : (k'.task fresh).eip ≡ regs.eip

set_registers-IsChild :
    (fresh dir : ℕ) (regs : Registers) (k k1 k2 : Kernel)
    → IsBorn fresh dir k k1
    → unlink (k2.task fresh) ≡ unlink (k1.task fresh)
    → IsChild fresh dir regs k (set_registers fresh regs k2)
unfolding set_registers
set_registers-IsChild fresh dir regs k k1 k2 b e = record {
  id = ground (arith, ap (λ (t : Task). t.id) e, b.id);
  par = ground (arith, ap (λ (t : Task). t.par) e, b.par);
  uid = ground (arith, ap (λ (t : Task). t.uid) e, b.uid);
  gid = ground (arith, ap (λ (t : Task). t.gid) e, b.gid);
  page_dir = ground (arith, ap (λ (t : Task). t.page_dir) e, b.page_dir);
  errno = ground (arith, ap (λ (t : Task). t.errno) e, b.errno);
  esp = ground arith;
  ebp = ground arith;
  eip = ground arith;
}

set_registers-unlink :
    (t : ℕ) (regs : Registers) (k : Kernel) (c : ℕ)
    → c ≢ t
    → unlink ((set_registers t regs k).task c) ≡ unlink (k.task c)
unfolding set_registers
set_registers-unlink t regs k c n = ground arith

-- The statics that the steps of `fork` leave.
forked-fields :
    (fresh dir : ℕ) (regs : Registers) (ids : Rbt PairIdTask) (k : Kernel)
    → let k1 = adopt fresh (construct k.next_pid fresh dir ids k) in
      let k' = forked fresh dir regs ids k in
      (k1.running_queue ≡ k.running_queue)
      × (k1.sleeping_queue ≡ k.sleeping_queue)
      × (k'.sleeping_queue ≡ k.sleeping_queue)
      × (k'.running_queue ≡ (enqueue fresh k1).running_queue)
      × (k'.ids ≡ ids)
      × (k'.next_pid ≡ (k.next_pid + 1) % 2 ^ 32)
      × (k'.current ≡ k.current)
unfolding set_registers enqueue adopt construct
forked-fields fresh dir regs ids k = (refl, refl, refl, refl, refl, refl, refl)

-- How `fork` ends: with the id of the child, which is behind the first running task.
pub data Forks (fresh dir : ℕ) (regs : Registers) (k : Kernel) (rs ss : List ℕ)
    (call : Option (ℕ × Kernel)) : Type 0 where
  forks :
      (k' : Kernel)
      → call ≡ some (k.next_pid, k')
      → IsSystem k' (behind_first fresh rs) ss
      → IsChild fresh dir regs k k'
      → k'.current ≡ k.current
      → k'.next_pid ≡ k.next_pid + 1
      → ((c : ℕ) → c ≢ fresh → unlink (k'.task c) ≡ unlink (k.task c))
      → Forks fresh dir regs k rs ss call

entries_more :
    (next fresh : ℕ) (rs ss : List ℕ) (ks : List PairIdTask)
    → All (IsEntry next (rs ++ ss)) ks
    → All
        (IsEntry (next + 1) (behind_first fresh rs ++ ss))
        (insert_sorted (record { id = next; task = fresh }) ks)
entries_more next fresh rs ss ks h =
    All-insert_sorted (IsEntry (next + 1) (behind_first fresh rs ++ ss))
      (record { id = next; task = fresh }) ks
      (
        ground
            (arith, has-append fresh (behind_first fresh rs) ss, has-behind_first fresh fresh rs),
        omega arith,
      )
      (All-imp (IsEntry next (rs ++ ss)) (IsEntry (next + 1) (behind_first fresh rs ++ ss)) ks
        (λ p e. (
          ground (
            arith,
            e.0,
            has-append p.task rs ss,
            has-append p.task (behind_first fresh rs) ss,
            has-behind_first p.task fresh rs,
          ),
          omega (arith, e.1),
        ))
        h)

forked-IsValid :
    (fresh dir : ℕ) (regs : Registers) (ids : Rbt PairIdTask) (k : Kernel) (rs ss : List ℕ)
    → IsValid k rs ss
    → fresh ≢ 0
    → has fresh (rs ++ ss) ≡ false
    → k.current ≢ fresh
    → ((pid : ℕ) → has (id2task ids pid) (0 ∷ (behind_first fresh rs ++ ss)) ≡ true)
    → IsValid (forked fresh dir regs ids k) (behind_first fresh rs) ss
      × SameBodies
          (adopt fresh (construct k.next_pid fresh dir ids k)).task
          (enqueue fresh (adopt fresh (construct k.next_pid fresh dir ids k))).task
forked-IsValid fresh dir regs ids k rs ss v nz o n known =
    let k1 = adopt fresh (construct k.next_pid fresh dir ids k) in
    let k2 = enqueue fresh k1 in
    let born = adopt-IsBorn fresh dir ids k n in
    let fields = forked-fields fresh dir regs ids k in
    let r : has fresh rs ≡ false = ground (arith, o, has-append fresh rs ss) in
    let s : has fresh ss ≡ false = ground (arith, o, has-append fresh rs ss) in
    let ne : (xs : List ℕ) → has fresh xs ≡ false → (c : ℕ) → has c xs ≡ true → c ≢ fresh =
      λ xs z c h q. ground (arith, ap (λ x. has x xs) q) in
    let old : (ptr : ℕ) (xs : List ℕ)
        → has fresh xs ≡ false
        → Starts k.task ptr xs
        → Starts k1.task ptr xs =
      λ ptr xs z. Starts-frame k.task k1.task ptr xs (λ c h. (
        ap (λ x. x.queue_next) (born.others c (ne xs z c h)),
        ap (λ x. x.queue_prev) (born.others c (ne xs z c h)),
      )) in
    let rings =
      enqueue-rings fresh k1 rs ss nz r s (λ c h. apart_ss k rs ss c v h)
        (rw (fields.0) (old k.running_queue rs r v.running_ring))
        (rw (fields.1) (old k.sleeping_queue ss s v.sleeping_ring)) in
    let state : (c : ℕ) → ((set_registers fresh regs k2).task c).state ≡ (k1.task c).state =
      λ c. (set_registers-links fresh regs k2 c).2 ∙ ap (λ (x : Task). x.state) (rings.2 c) in
    (
      record {
        running_ring =
            rw (fields.3) (set_registers-Starts fresh regs k2 k2.running_queue _ rings.0);
        sleeping_ring =
            subst (λ q. Starts (set_registers fresh regs k2).task q ss) (fields.1 ∙ sym (fields.2))
              (set_registers-Starts fresh regs k2 k1.sleeping_queue ss rings.1);
        is_running = λ c h. state c ∙ elim (ℕ_discrete c fresh) [
          | yes e ↦ ap (λ x. (k1.task x).state) e ∙ born.state
          | no m ↦
              ap (λ (x : Task). x.state) (born.others c m)
              ∙ v.is_running c (ground (arith, has-behind_first c fresh rs))
        ];
        is_sleeping = λ c h.
            state c ∙ ap (λ (x : Task). x.state) (born.others c (ne ss s c h)) ∙ v.is_sleeping c h;
        known = λ pid.
            ap (λ t. has (id2task t pid) (0 ∷ (behind_first fresh rs ++ ss))) (fields.4)
            ∙ known pid;
      },
      rings.2,
    )

-- In a kernel in order `fork`, for an address that is not a task and an id that does not wrap,
-- returns the next id. The child is behind the first running task, with the ids of its parent, its
-- own directory and the registers given; every other task changes in its links only, the current
-- task stays, and the kernel is in order.
pub fork-Forks :
    (fuel fresh dir : ℕ) (regs : Registers) (k : Kernel) (rs ss : List ℕ)
    → IsSystem k rs ss
    → fresh ≢ 0
    → has fresh (rs ++ ss) ≡ false
    → k.current ≢ fresh
    → k.next_pid + 1 < 2 ^ 32
    → Forks fresh dir regs k rs ss (fork (suc fuel) fresh dir regs k)
fork-Forks fuel fresh dir regs k rs ss v nz o n lim =
    let e = get_next_pid-now fuel k.ids k.next_pid (
      id2task-beyond k.next_pid k.ids v.tree.sorted
        (entries_below k.next_pid (rs ++ ss) (walk k.ids) v.entries)) in
    elim (insert-Gives (record { id = k.next_pid; task = fresh }) k.ids v.tree.balanced
      v.tree.sorted) [
        | gives ids q b w ↦
            let k' = forked fresh dir regs ids k in
            let k1 = adopt fresh (construct k.next_pid fresh dir ids k) in
            let fields = forked-fields fresh dir regs ids k in
            let born = adopt-IsBorn fresh dir ids k n in
            let step : k'.next_pid ≡ k.next_pid + 1 = fields.5 ∙ (omega (arith, lim)) in
            let sorted : IsSorted (walk ids) = rw w (
              insert_sorted-IsSorted (record { id = k.next_pid; task = fresh }) (walk k.ids)
                v.tree.sorted) in
            let entries : All (IsEntry (k.next_pid + 1) (behind_first fresh rs ++ ss)) (walk ids) =
              rw w (entries_more k.next_pid fresh rs ss (walk k.ids) v.entries) in
            let valid = forked-IsValid fresh dir regs ids k rs ss v.valid nz o n (λ pid.
              known-IsEntry ids (k.next_pid + 1) (behind_first fresh rs ++ ss) pid sorted
                entries) in
            let id : ((enqueue fresh k1).task fresh).id ≡ k.next_pid =
              ap (λ (t : Task). t.id) (valid.1 fresh) ∙ born.id in
            forks k' (fork-eq (suc fuel) fresh dir regs k ids e q ∙ ap (λ x. some (x, k')) id)
              (record {
                valid = valid.0;
                tree =
                    subst (λ t. IsTree t) (sym (fields.4))
                      (record { balanced = b; sorted = sorted });
                entries =
                    subst (λ t. All (IsEntry k'.next_pid (behind_first fresh rs ++ ss)) (walk t))
                      (sym (fields.4))
                      (subst (λ x. All (IsEntry x (behind_first fresh rs ++ ss)) (walk ids))
                        (sym step) entries);
              })
              (set_registers-IsChild fresh dir regs k k1 (enqueue fresh k1) born (valid.1 fresh))
              (fields.6) step
              (λ c m.
                set_registers-unlink fresh regs (enqueue fresh k1) c m
                ∙ valid.1 c
                ∙ ap (λ (t : Task). unlink t) (born.others c m))
      ]
