-- ===== src/Task/Sleep.antt =====
-- core/task.cpp: `sleep`.
use jkos.Base.{
  ℕ, ◌≡◌, ◌||◌, ◌≢◌, refl, sym, ◌∙◌, ap, true, false, Option, some, List, ◌∷◌, ◌++◌, ◌==◌, arith,
  update,
}
use jkos.Task.{Task, Tasks, running, sleeping, queue_insert}
use jkos.Task.Ring.{has, has-append}
use jkos.Task.Queue.{behind_first}
use jkos.Task.Frame.{Starts-IsRing, unlink, Starts-frame}
use jkos.Task.Move.{moved, move-Moved, ring_facts}
use jkos.Task.Kernel.{
  Kernel, Reply, success, failure, eperm, esrch, set_errno, id2task, is_missing, is_denied, suspend,
  sleep, save, switch_task, Registers,
}
use jkos.Task.Valid.{
  IsValid, apart_rs, Requeued, set_state, has-behind_first, states_joined, states_left, others_kept,
  split, has-Split, set_errno-IsValid, Target, target,
}
use native.Mathlib.Decide.{ℕ_discrete}
use jkos.Task.Schedule.{save-IsValid, switch_task-IsValid, behind, next-behind, GivesWay}

-- The tasks as `suspend` leaves them: `t` has its new state and its signals.
abbrev put_to_sleep : Tasks → ℕ → ℕ → Tasks
put_to_sleep m t sig = update m t (record (m t) { state = sleeping; sig_wakeup = sig })

pub has_asleep :
    (i t : ℕ) (xs ys ss : List ℕ)
    → has i ((xs ++ (t ∷ ys)) ++ ss) ≡ has i ((xs ++ ys) ++ behind_first t ss)
has_asleep i t xs ys ss = ground (
  arith,
  has-append i (xs ++ (t ∷ ys)) ss,
  has-append i xs (t ∷ ys),
  has-append i (xs ++ ys) (behind_first t ss),
  has-append i xs ys,
  has-behind_first i t ss,
)

known_asleep :
    (i t : ℕ) (xs ys ss : List ℕ)
    → has i (0 ∷ ((xs ++ (t ∷ ys)) ++ ss)) ≡ has i (0 ∷ ((xs ++ ys) ++ behind_first t ss))
known_asleep i t xs ys ss = ap (λ b. (i == 0) || b) (has_asleep i t xs ys ss)

-- `t` moved to the sleeping queue, with the signals that wake it.
data Suspends (t sig : ℕ) (rs ss : List ℕ) (k : Kernel) (call : Option Kernel) : Type 0 where
  suspends :
      (k' : Kernel)
      → call ≡ some k'
      → Requeued t rs ss k k'
      → (k'.task t).sig_wakeup ≡ sig
      → Suspends t sig rs ss k call

suspend-Suspends :
    (k : Kernel) (sig : ℕ) (xs : List ℕ) (t : ℕ) (ys ss : List ℕ)
    → IsValid k (xs ++ (t ∷ ys)) ss
    → Suspends t sig (xs ++ ys) (behind_first t ss) k (suspend t sig k)
unfolding suspend
suspend-Suspends k sig xs t ys ss v =
    elim (move-Moved k.task k.running_queue k.sleeping_queue xs t ys ss v.running_ring
      v.sleeping_ring (λ c. apart_rs k (xs ++ (t ∷ ys)) ss c v)) [
        | moved ptr m1 e f u b ↦
            let m2 = (queue_insert k.sleeping_queue t m1).1 in
            let m3 = put_to_sleep m2 t sig in
            let o = ring_facts k.task k.running_queue xs t ys v.running_ring in
            let e3 : (c : ℕ) → (m3 c).state ≡ (set_state m2 t sleeping c).state =
              λ c. ground arith in
            suspends
              (record k {
                running_queue = ptr;
                sleeping_queue = (queue_insert k.sleeping_queue t m1).0;
                task = m3;
              })
              (rw e refl)
              (record {
                valid = record {
                  running_ring = Starts-frame m2 m3 _ _ (λ c h. (ground arith, ground arith)) f;
                  sleeping_ring = Starts-frame m2 m3 _ _ (λ c h. (ground arith, ground arith)) u;
                  is_running = λ c h.
                      e3 c ∙ states_left k.task m2 t sleeping running xs ys b o.1 v.is_running c h;
                  is_sleeping =
                      λ c h. e3 c ∙ states_joined k.task m2 t sleeping ss b v.is_sleeping c h;
                  known = λ pid. sym (known_asleep _ t xs ys ss) ∙ v.known pid;
                };
                current = refl;
                ids = refl;
                next_pid = refl;
                others = λ c n.
                    let q : m3 c ≡ set_state m2 t sleeping c = ground arith in
                    ap (λ (x : Task). unlink x) q ∙ others_kept k.task m2 t sleeping b c n;
              })
              (ground arith)
      ]

yields-GivesWay :
    (regs : Registers) (k k' : Kernel) (xs : List ℕ) (t : ℕ) (ys ss : List ℕ)
    → t ≡ k.current
    → IsValid k (xs ++ (t ∷ ys)) ss
    → k'.current ≡ k.current
    → k'.ids ≡ k.ids
    → k'.next_pid ≡ k.next_pid
    → GivesWay
        (behind t (ys ++ xs))
        regs
        k
        (switch_task (k.task k.current).queue_next (save regs k'))
yields-GivesWay regs k k' xs t ys ss c v q i n =
    let e : (k.task k.current).queue_next ≡ behind t (ys ++ xs) = rw (← c) (
      next-behind k.task t (ys ++ xs)
        (Starts-IsRing k.task k.running_queue xs t ys v.running_ring)) in
    record {
      current = e;
      ids = i;
      next_pid = n;
      directory = ap (λ a. ((save regs k').task a).page_dir) e;
      esp = ground (arith, q);
      ebp = ground (arith, q);
      eip = ground (arith, q);
    }

test_true : (a b : ℕ) → a ≡ b → (a == b) ≡ true
test_true a b e = ground arith

saved-sig_wakeup :
    (regs : Registers) (k : Kernel) (c : ℕ)
    → ((save regs k).task c).sig_wakeup ≡ (k.task c).sig_wakeup
saved-sig_wakeup regs k c = ground arith

-- How `sleep` ends for the task `t` of its id.
pub data Sleeps (t sig : ℕ) (regs : Registers) (k : Kernel) (rs ss : List ℕ)
    (call : Option (Reply × Kernel)) : Type 0 where
  missing :
      is_missing t k ≡ true
      → call ≡ some (failure, set_errno esrch k)
      → IsValid (set_errno esrch k) rs ss
      → Sleeps t sig regs k rs ss call
  denied :
      is_denied t k ≡ true
      → call ≡ some (failure, set_errno eperm k)
      → IsValid (set_errno eperm k) rs ss
      → Sleeps t sig regs k rs ss call
  asleep :
      is_denied t k ≡ false
      → has t ss ≡ true
      → call ≡ some (success, k)
      → Sleeps t sig regs k rs ss call
  suspended :
      (xs ys : List ℕ) (k' : Kernel)
      → is_denied t k ≡ false
      → t ≢ k.current
      → rs ≡ xs ++ (t ∷ ys)
      → call ≡ some (success, k')
      → Requeued t (xs ++ ys) (behind_first t ss) k k'
      → (k'.task t).sig_wakeup ≡ sig
      → Sleeps t sig regs k rs ss call
  yields :
      (xs ys : List ℕ) (k' : Kernel)
      → is_denied t k ≡ false
      → t ≡ k.current
      → rs ≡ xs ++ (t ∷ ys)
      → call ≡ some (success, k')
      → IsValid k' (xs ++ ys) (behind_first t ss)
      → GivesWay (behind t (ys ++ xs)) regs k k'
      → (k'.task t).sig_wakeup ≡ sig
      → Sleeps t sig regs k rs ss call

-- In a valid kernel `sleep` fails no assertion. It fails with ESRCH or EPERM and changes only
-- `errno`, or does nothing for a sleeping task, or takes the running task out of its place in the
-- running queue and puts it behind the first task of the sleeping queue, with the signals that
-- wake it; the kernel stays valid. If the task is the current one, its registers are saved and the
-- task that was behind it in the ring is the current one, which is the task itself if it was alone.
pub sleep-Sleeps :
    (pid sig : ℕ) (regs : Registers) (k : Kernel) (rs ss : List ℕ)
    → IsValid k rs ss
    → Sleeps (id2task k.ids pid) sig regs k rs ss (sleep pid sig regs k)
unfolding sleep
sleep-Sleeps pid sig regs k rs ss v = elim (target pid k rs ss v) [
  | Target.missing m ↦ Sleeps.missing m (rw m refl) (set_errno-IsValid esrch k rs ss v)
  | Target.denied m d ↦ Sleeps.denied d (rw (m, d) refl) (set_errno-IsValid eperm k rs ss v)
  | Target.asleep m d h ↦ Sleeps.asleep d h (rw (m, d, v.is_sleeping _ h) refl)
  | Target.awake m d h ↦ elim (has-Split _ rs h) [
    | split xs ys q ↦ elim (suspend-Suspends k sig xs _ ys ss (rw (← q) v)) [
      | suspends k' e r w ↦ elim (ℕ_discrete (id2task k.ids pid) k.current) [
        | no n ↦
            let b : (id2task k.ids pid == k.current) ≡ false = ground arith in
            suspended xs ys k' d n q (rw (m, d, v.is_running _ h, e, b) refl) r w
        | yes c ↦
            let b = test_true (id2task k.ids pid) k.current c in
            yields xs ys (switch_task (k.task k.current).queue_next (save regs k')) d c q
              (rw (m, d, v.is_running _ h, e, b) refl)
              (switch_task-IsValid _ _ _ _ (save-IsValid regs k' _ _ r.valid))
              (yields-GivesWay regs k k' xs _ ys ss c (rw (← q) v) r.current r.ids r.next_pid)
              (saved-sig_wakeup regs k' _ ∙ w)
      ]
    ]
  ]
]
