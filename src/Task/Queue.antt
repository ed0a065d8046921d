-- ===== src/Task/Queue.antt =====
-- core/task.cpp: `Task_queue::insert` and `Task_queue::remove` on a ring of tasks.
use jkos.Base.{
  ℕ, ◌≡◌, ◌≢◌, refl, ◌∙◌, sym, ap, subst, ◌⊎◌, inl, inr, true, false, Option, some, List, [], ◌∷◌,
  ◌++◌, append-nil, ◌==◌, if◌then◌else◌, arith,
}
use mathlib.Core.Option.{some-injective}
use native.Mathlib.Decide.{ℕ_discrete}
use jkos.Task.{Tasks, set_next, set_prev, queue_insert, queue_remove}
use jkos.Task.Ring.{
  has, IsDistinct, Linked, IsRing, Starts, Linked-frame, has-append, rotate-IsRing,
}

-- The links of `queue_insert`, for a queue that is not empty.
insert_links :
    (m : Tasks) (p t : ℕ) (xs : List ℕ)
    → IsRing m (p ∷ xs)
    → has t (p ∷ xs) ≡ false
    → Linked (queue_insert p t m).1 p (t ∷ xs) p
unfolding queue_insert
insert_links m p t [] r n = ground arith
insert_links m p t (x ∷ xs) r n = (
  ground arith,
  ground arith,
  (
    ground arith,
    ground arith,
    Linked-frame m (queue_insert p t m).1 x xs p (λ c h. ground arith) (λ c h. ground arith) r.0.2,
  ),
)

-- The queue with a task put behind the first.
abbrev pub behind_first : ℕ → List ℕ → List ℕ
behind_first t [] = t ∷ []
behind_first t (p ∷ xs) = p ∷ t ∷ xs

queue_insert-zero :
    (m : Tasks) (t : ℕ) → t ≢ 0 → Starts (queue_insert 0 t m).1 (queue_insert 0 t m).0 (t ∷ [])
unfolding queue_insert
queue_insert-zero m t nz = ground arith

queue_insert-ptr : (m : Tasks) (p t : ℕ) → p ≢ 0 → (queue_insert p t m).0 ≡ p
unfolding queue_insert
queue_insert-ptr m p t n = ground arith

-- `insert` of a task that is not in a ring of tasks puts it behind the first task, or makes it the ring,
-- and keeps the other tasks in order and the pointer at the first.
pub insert-Starts :
    (m : Tasks) (ptr t : ℕ) (xs : List ℕ)
    → t ≢ 0
    → has t xs ≡ false
    → Starts m ptr xs
    → let (ptr', m') = queue_insert ptr t m in Starts m' ptr' (behind_first t xs)
insert-Starts m ptr t [] nz n s = rw s (queue_insert-zero m t nz)
insert-Starts m ptr t (p ∷ xs) nz n (e, r) =
    subst (λ q. Starts (queue_insert q t m).1 (queue_insert q t m).0 (p ∷ t ∷ xs)) (sym e)
      (
        queue_insert-ptr m p t (ground arith),
        (insert_links m p t xs r n, ground arith, ground arith),
      )

-- The last task before `b`.
pub prev-has :
    (m : Tasks) (a : ℕ) (xs : List ℕ) (b : ℕ)
    → Linked m a xs b
    → has (m b).queue_prev (a ∷ xs) ≡ true
prev-has m a [] b l = ground arith
prev-has m a (x ∷ xs) b l = ground (arith, prev-has m x xs b l.2)

-- The last link of a chain, bent from `t` to `v`.
relink :
    (m m' : Tasks) (a : ℕ) (xs : List ℕ) (t v u : ℕ)
    → Linked m a xs t
    → (m t).queue_prev ≡ u
    → IsDistinct (a ∷ xs)
    → ((c : ℕ)
        → has c (a ∷ xs) ≡ true
        → (m' c).queue_next ≡ (if c == u then v else (m c).queue_next))
    → ((c : ℕ) → has c xs ≡ true → (m' c).queue_prev ≡ (m c).queue_prev)
    → (m' v).queue_prev ≡ u
    → Linked m' a xs v
relink m m' a [] t v u l e d f g w = (f a (ground arith) ∙ (ground arith), w ∙ (ground arith))
relink m m' a (x ∷ xs) t v u l e d f g w = (
  f a (ground arith) ∙ (ground (arith, prev-has m x xs t l.2)),
  g x (ground arith) ∙ l.1,
  relink m m' x xs t v u l.2 e d.1 (λ c h. f c (ground arith)) (λ c h. g c (ground arith)) w,
)

-- The tasks as `queue_remove` leaves them, if `t` is not alone.
abbrev pub unlinked : Tasks → ℕ → Tasks
unlinked m t =
    let m1 = set_next m (m t).queue_prev (m t).queue_next in
    let m2 = set_prev m1 (m1 t).queue_next (m1 t).queue_prev in set_prev (set_next m2 t 0) t 0

unlinked-IsRing :
    (m : Tasks) (t v : ℕ) (vs : List ℕ) → IsRing m (t ∷ v ∷ vs) → IsRing (unlinked m t) (v ∷ vs)
unlinked-IsRing m t v vs r = (
  relink m (unlinked m t) v vs t v (m t).queue_prev r.0.2 refl r.1.1
      (λ c h. ground (arith, prev-has m v vs t r.0.2))
      (λ c h. ground (arith, prev-has m v vs t r.0.2)) (ground (arith, prev-has m v vs t r.0.2)),
  r.1.1,
  ground arith,
)

queue_remove-last : (m : Tasks) (t : ℕ) → (m t).queue_next ≡ t → queue_remove t t m ≡ some (0, m)
unfolding queue_remove
queue_remove-last m t e = ground arith

queue_remove-some :
    (m : Tasks) (ptr t : ℕ)
    → (m ptr).queue_next ≢ ptr
    → queue_remove ptr t m ≡ some (if ptr == t then (m ptr).queue_next else ptr, unlinked m t)
unfolding queue_remove
queue_remove-some m ptr t n = ground arith

queue_remove_at-last :
    (m : Tasks) (ptr t : ℕ) {ptr' : ℕ} {m' : Tasks}
    → (m ptr).queue_next ≡ ptr
    → queue_remove ptr t m ≡ some (ptr', m')
    → m' ≡ m
unfolding queue_remove
queue_remove_at-last m ptr t e h = ground arith

pub queue_remove-cases :
    (m : Tasks) (ptr t : ℕ) {ptr' : ℕ} {m' : Tasks}
    → queue_remove ptr t m ≡ some (ptr', m')
    → (m' ≡ m) ⊎ (m' ≡ unlinked m t)
queue_remove-cases m ptr t {ptr'} {m'} h = elim (ℕ_discrete (m ptr).queue_next ptr) [
  | no n ↦ inr (
      ap (λ (r : ℕ × Tasks). r.1)
        (some-injective (ptr', m') _ (sym h ∙ queue_remove-some m ptr t n)))
  | yes e ↦ inl (queue_remove_at-last m ptr t e h)
]

-- The outcome of `queue_remove`: no assertion fails, and the queue is `ys`.
pub data Leaves (ys : List ℕ) (call : Option (ℕ × Tasks)) : Type 0 where
  leaves : (ptr : ℕ) (m : Tasks) → call ≡ some (ptr, m) → Starts m ptr ys → Leaves ys call

next_ne :
    (m : Tasks) (p : ℕ) (xs : List ℕ) (t : ℕ) (ys : List ℕ)
    → IsRing m (p ∷ (xs ++ (t ∷ ys)))
    → ((m p).queue_next ≢ p) × (p ≢ t)
next_ne m p [] t ys r = (ground arith, ground arith)
next_ne m p (x ∷ xs) t ys r = (ground arith, ground (arith, has-append p xs (t ∷ ys)))

without-IsRing :
    (m : Tasks) (p : ℕ) (xs : List ℕ) (t : ℕ) (ys : List ℕ)
    → IsRing m (p ∷ (xs ++ (t ∷ ys)))
    → IsRing (unlinked m t) (p ∷ (xs ++ ys))
without-IsRing m p xs t [] r =
    rw append-nil (unlinked-IsRing m t p xs (rotate-IsRing m (p ∷ xs) t [] r))
without-IsRing m p xs t (y ∷ ys) r =
    rotate-IsRing (unlinked m t) (y ∷ ys) p xs
      (unlinked-IsRing m t y (ys ++ (p ∷ xs)) (rotate-IsRing m (p ∷ xs) t (y ∷ ys) r))

-- `remove` of a task of a ring fails no assertion: it takes out that task and keeps the other tasks in
-- order, and the pointer moves on if it was at the task.
pub remove-Leaves :
    (m : Tasks) (ptr : ℕ) (xs : List ℕ) (t : ℕ) (ys : List ℕ)
    → Starts m ptr (xs ++ (t ∷ ys))
    → Leaves (xs ++ ys) (queue_remove ptr t m)
remove-Leaves m ptr [] t [] (e, r) = rw e (leaves 0 m (queue_remove-last m t r.0.0) refl)
remove-Leaves m ptr [] t (v ∷ vs) (e, r) = rw e (
    leaves v (unlinked m t) (queue_remove-some m t t (ground arith) ∙ (ground arith))
      (refl, unlinked-IsRing m t v vs r))
remove-Leaves m ptr (p ∷ xs) t ys (e, r) = rw e (
    leaves p (unlinked m t)
      (queue_remove-some m p t (next_ne m p xs t ys r).0 ∙ (ground (arith, next_ne m p xs t ys r)))
      (refl, without-IsRing m p xs t ys r))
