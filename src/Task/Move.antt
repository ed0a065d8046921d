-- ===== src/Task/Move.antt =====
-- core/task.cpp: a task moved from one queue to another, as `sleep` and `wakeup` do it.
use jkos.Base.{ℕ, ◌≡◌, ◌≢◌, ◌∙◌, ap, true, false, some, List, [], ◌∷◌, ◌++◌, arith}
use jkos.Task.{Tasks, queue_insert, queue_remove}
use jkos.Task.Ring.{has, IsDistinct, Starts, has-append}
use jkos.Task.Queue.{behind_first, insert-Starts, leaves, remove-Leaves}
use jkos.Task.Frame.{
  SameBodies, insert-SameBodies, remove-SameBodies, insert_outside, remove_outside, Starts-frame,
}

-- The move of `t` out of the queue at `fp` and into the queue at `tp`.
pub data Moved (m : Tasks) (fp tp t : ℕ) (from to : List ℕ) : Type 0 where
  moved :
      (ptr : ℕ) (m1 : Tasks)
      → queue_remove fp t m ≡ some (ptr, m1)
      → Starts (queue_insert tp t m1).1 ptr from
      → Starts (queue_insert tp t m1).1 (queue_insert tp t m1).0 to
      → SameBodies m (queue_insert tp t m1).1
      → Moved m fp tp t from to

has-middle : (t : ℕ) (xs ys : List ℕ) → has t (xs ++ (t ∷ ys)) ≡ true
has-middle t [] ys = ground arith
has-middle t (x ∷ xs) ys = ground (arith, has-middle t xs ys)

Distinct-middle : (t : ℕ) (xs ys : List ℕ) → IsDistinct (xs ++ (t ∷ ys)) → has t (xs ++ ys) ≡ false
Distinct-middle t [] ys d = d.0
Distinct-middle t (x ∷ xs) ys d =
    ground (arith, Distinct-middle t xs ys d.1, has-append x xs (t ∷ ys))

pub has-around :
    (c t : ℕ) (xs ys : List ℕ) → has c (xs ++ ys) ≡ true → has c (xs ++ (t ∷ ys)) ≡ true
has-around c t xs ys h = ground (arith, has-append c xs ys, has-append c xs (t ∷ ys))

-- The facts on a queue that has a task.
pub ring_facts :
    (m : Tasks) (ptr : ℕ) (xs : List ℕ) (t : ℕ) (ys : List ℕ)
    → Starts m ptr (xs ++ (t ∷ ys))
    → (has t (xs ++ (t ∷ ys)) ≡ true) × (has t (xs ++ ys) ≡ false) × (t ≢ 0)
ring_facts m ptr [] t ys s = (has-middle t [] ys, Distinct-middle t [] ys s.1.1, ground arith)
ring_facts m ptr (x ∷ xs) t ys s = (
  has-middle t (x ∷ xs) ys,
  Distinct-middle t (x ∷ xs) ys s.1.1,
  ground (arith, has-append 0 xs (t ∷ ys)),
)

pub move-Moved :
    (m : Tasks) (fp tp : ℕ) (xs : List ℕ) (t : ℕ) (ys to : List ℕ)
    → Starts m fp (xs ++ (t ∷ ys))
    → Starts m tp to
    → ((c : ℕ) → has c (xs ++ (t ∷ ys)) ≡ true → has c to ≡ false)
    → Moved m fp tp t (xs ++ ys) (behind_first t to)
move-Moved m fp tp xs t ys to s u apart =
    let (inside, outside, nz) = ring_facts m fp xs t ys s in
    elim (remove-Leaves m fp xs t ys s) [
      | leaves ptr m1 e l ↦
          let kept : (c : ℕ) → has c to ≡ true → m1 c ≡ m c =
            λ c h. remove_outside m fp xs t ys c s (ground (arith, apart c)) e in
          let u1 : Starts m1 tp to =
            Starts-frame m m1 tp to
              (λ c h. (ap (λ x. x.queue_next) (kept c h), ap (λ x. x.queue_prev) (kept c h))) u in
          let still : (c : ℕ) → has c (xs ++ ys) ≡ true → (queue_insert tp t m1).1 c ≡ m1 c = λ c h.
            insert_outside m1 tp t to c u1 (λ q. ground (arith, ap (λ x. has x (xs ++ ys)) q))
              (apart c (has-around c t xs ys h)) in
          moved ptr m1 e
            (Starts-frame m1 (queue_insert tp t m1).1 ptr (xs ++ ys)
              (λ c h. (ap (λ x. x.queue_next) (still c h), ap (λ x. x.queue_prev) (still c h))) l)
            (insert-Starts m1 tp t to nz (apart t inside) u1)
            (λ c. insert-SameBodies m1 tp t c ∙ remove-SameBodies m fp t e c)
    ]
