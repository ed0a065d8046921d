-- ===== src/Task/Wakeup.antt =====
-- core/task.cpp: `wakeup`.
use jkos.Base.{ℕ, ◌≡◌, refl, sym, ◌∙◌, true, false, Option, some, List, ◌∷◌, ◌++◌, arith}
use jkos.Task.{running, sleeping, queue_insert}
use jkos.Task.Ring.{has}
use jkos.Task.Queue.{behind_first}
use jkos.Task.Frame.{Starts-frame}
use jkos.Task.Move.{moved, move-Moved, ring_facts}
use jkos.Task.Kernel.{
  Kernel, Reply, success, failure, eperm, esrch, set_errno, id2task, is_missing, is_denied, resume,
  wakeup,
}
use jkos.Task.Valid.{
  IsValid, apart_ss, Requeued, Requeues, requeues, set_state, known_moved, states_joined,
  states_left, others_kept, split, has-Split, set_errno-IsValid, Target, target,
}

resume-Requeues :
    (k : Kernel) (rs xs : List ℕ) (t : ℕ) (ys : List ℕ)
    → IsValid k rs (xs ++ (t ∷ ys))
    → Requeues t (behind_first t rs) (xs ++ ys) k (resume t k)
unfolding resume
resume-Requeues k rs xs t ys v =
    elim (move-Moved k.task k.sleeping_queue k.running_queue xs t ys rs v.sleeping_ring
      v.running_ring (λ c. apart_ss k rs (xs ++ (t ∷ ys)) c v)) [
        | moved ptr m1 e f u b ↦
            let m2 = (queue_insert k.running_queue t m1).1 in
            let m3 = set_state m2 t running in
            let o = ring_facts k.task k.sleeping_queue xs t ys v.sleeping_ring in
            requeues
              (record k {
                running_queue = (queue_insert k.running_queue t m1).0;
                sleeping_queue = ptr;
                task = m3;
              })
              (rw e refl)
              (record {
                valid = record {
                  running_ring = Starts-frame m2 m3 _ _ (λ c h. (ground arith, ground arith)) u;
                  sleeping_ring = Starts-frame m2 m3 _ _ (λ c h. (ground arith, ground arith)) f;
                  is_running = states_joined k.task m2 t running rs b v.is_running;
                  is_sleeping = states_left k.task m2 t running sleeping xs ys b o.1 v.is_sleeping;
                  known = λ pid. sym (known_moved _ t rs xs ys) ∙ v.known pid;
                };
                current = refl;
                ids = refl;
                next_pid = refl;
                others = others_kept k.task m2 t running b;
              })
      ]

-- How `wakeup` ends for the task `t` of its id.
pub data WakesUp (t : ℕ) (k : Kernel) (rs ss : List ℕ) (call : Option (Reply × Kernel))
    : Type 0 where
  missing :
      is_missing t k ≡ true
      → call ≡ some (failure, set_errno esrch k)
      → IsValid (set_errno esrch k) rs ss
      → WakesUp t k rs ss call
  denied :
      is_denied t k ≡ true
      → call ≡ some (failure, set_errno eperm k)
      → IsValid (set_errno eperm k) rs ss
      → WakesUp t k rs ss call
  awake :
      is_denied t k ≡ false → has t rs ≡ true → call ≡ some (success, k) → WakesUp t k rs ss call
  woken :
      (xs ys : List ℕ) (k' : Kernel)
      → is_denied t k ≡ false
      → ss ≡ xs ++ (t ∷ ys)
      → call ≡ some (success, k')
      → Requeued t (behind_first t rs) (xs ++ ys) k k'
      → WakesUp t k rs ss call

-- In a valid kernel `wakeup` fails no assertion. It fails with ESRCH or EPERM and changes only
-- `errno`, or does nothing for a running task, or moves the sleeping task from its place in the
-- sleeping queue to the place behind the first task of the running queue, with its new state;
-- the kernel stays valid, the current task stays, and the other tasks change in their links only.
pub wakeup-WakesUp :
    (pid : ℕ) (k : Kernel) (rs ss : List ℕ)
    → IsValid k rs ss
    → WakesUp (id2task k.ids pid) k rs ss (wakeup pid k)
unfolding wakeup
wakeup-WakesUp pid k rs ss v = elim (target pid k rs ss v) [
  | Target.missing m ↦ WakesUp.missing m (rw m refl) (set_errno-IsValid esrch k rs ss v)
  | Target.denied m d ↦ WakesUp.denied d (rw (m, d) refl) (set_errno-IsValid eperm k rs ss v)
  | Target.awake m d h ↦ WakesUp.awake d h (rw (m, d, v.is_running _ h) refl)
  | Target.asleep m d h ↦ elim (has-Split _ ss h) [
    | split xs ys q ↦ elim (resume-Requeues k rs xs _ ys (rw (← q) v)) [
      | requeues k' e r ↦ woken xs ys k' d q (rw (m, d, v.is_sleeping _ h, e) refl) r
    ]
  ]
]
