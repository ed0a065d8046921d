-- ===== src/Task/Frame.antt =====
-- core/task.cpp: what the queue operations leave alone.
use jkos.Base.{ℕ, ◌≡◌, ◌≢◌, ap, ◌∙◌, inl, inr, true, false, some, List, [], ◌∷◌, ◌++◌, arith}
use jkos.Task.{Task, Tasks, set_next, set_prev, queue_insert, queue_remove}
use jkos.Task.Ring.{has, IsRing, Starts, Linked-frame, has-append, rotate-IsRing}
use jkos.Task.Queue.{prev-has, unlinked, queue_remove-cases}

-- A task without its links.
abbrev pub unlink : Task → Task
unlink t = record t { queue_next = 0; queue_prev = 0 }

-- Only links differ.
abbrev pub SameBodies : Tasks → Tasks → Type 0
SameBodies m m' = (c : ℕ) → unlink (m' c) ≡ unlink (m c)

pub insert-SameBodies : (m : Tasks) (ptr t : ℕ) → SameBodies m (queue_insert ptr t m).1
unfolding queue_insert
insert-SameBodies m ptr t c = ground arith

unlink-set_next : (m : Tasks) (a b c : ℕ) → unlink (set_next m a b c) ≡ unlink (m c)
unlink-set_next m a b c = ground arith

unlink-set_prev : (m : Tasks) (a b c : ℕ) → unlink (set_prev m a b c) ≡ unlink (m c)
unlink-set_prev m a b c = ground arith

pub remove-SameBodies :
    (m : Tasks) (ptr t : ℕ) {ptr' : ℕ} {m' : Tasks}
    → queue_remove ptr t m ≡ some (ptr', m')
    → SameBodies m m'
remove-SameBodies m ptr t h c = elim (queue_remove-cases m ptr t h) [
  | inl e ↦ rw e
  | inr e ↦
      let m1 = set_next m (m t).queue_prev (m t).queue_next in
      let m2 = set_prev m1 (m1 t).queue_next (m1 t).queue_prev in
      let m3 = set_next m2 t 0 in
      ap (λ (f : Tasks). unlink (f c)) e
      ∙ unlink-set_prev m3 t 0 c
      ∙ unlink-set_next m2 t 0 c
      ∙ unlink-set_prev m1 (m1 t).queue_next (m1 t).queue_prev c
      ∙ unlink-set_next m (m t).queue_prev (m t).queue_next c
]

unlinked_outside :
    (m : Tasks) (t c : ℕ)
    → c ≢ t
    → c ≢ (m t).queue_next
    → c ≢ (m t).queue_prev
    → unlinked m t c ≡ m c
unlinked_outside m t c a b d = ground arith

has-ne : (a b : ℕ) (xs : List ℕ) → has a xs ≡ true → has b xs ≡ false → b ≢ a
has-ne a b xs h k = λ e. cc (h, k, ap (λ c. has c xs) e)

-- The tasks outside the queue keep their links too.
pub insert_outside :
    (m : Tasks) (ptr t : ℕ) (xs : List ℕ) (c : ℕ)
    → Starts m ptr xs
    → c ≢ t
    → has c xs ≡ false
    → (queue_insert ptr t m).1 c ≡ m c
unfolding queue_insert
insert_outside m ptr t [] c s n h = ground arith
insert_outside m ptr t (p ∷ []) c s n h = ground arith
insert_outside m ptr t (p ∷ x ∷ xs) c s n h = ground arith

-- The neighbours of a task of a ring are in the ring.
neighbours :
    (m : Tasks) (t : ℕ) (xs : List ℕ)
    → IsRing m (t ∷ xs)
    → (has (m t).queue_next (t ∷ xs) ≡ true) × (has (m t).queue_prev (t ∷ xs) ≡ true)
neighbours m t [] r = ground arith
neighbours m t (x ∷ xs) r = (ground arith, prev-has m t (x ∷ xs) t r.0)

pub Starts-IsRing :
    (m : Tasks) (ptr : ℕ) (xs : List ℕ) (t : ℕ) (ys : List ℕ)
    → Starts m ptr (xs ++ (t ∷ ys))
    → IsRing m (t ∷ (ys ++ xs))
Starts-IsRing m ptr [] t ys s = rotate-IsRing m [] t ys s.1
Starts-IsRing m ptr (x ∷ xs) t ys s = rotate-IsRing m (x ∷ xs) t ys s.1

pub remove_outside :
    (m : Tasks) (ptr : ℕ) (xs : List ℕ) (t : ℕ) (ys : List ℕ) {ptr' : ℕ} {m' : Tasks} (c : ℕ)
    → Starts m ptr (xs ++ (t ∷ ys))
    → has c (xs ++ (t ∷ ys)) ≡ false
    → queue_remove ptr t m ≡ some (ptr', m')
    → m' c ≡ m c
remove_outside m ptr xs t ys c s h q = elim (queue_remove-cases m ptr t q) [
  | inl e ↦ rw e
  | inr e ↦
      let n = neighbours m t (ys ++ xs) (Starts-IsRing m ptr xs t ys s) in
      let o : has c (t ∷ (ys ++ xs)) ≡ false =
        ground (arith, has-append c xs (t ∷ ys), has-append c ys xs) in
      ap (λ (f : Tasks). f c) e
      ∙ unlinked_outside m t c (ground (arith, o))
          (has-ne (m t).queue_next c (t ∷ (ys ++ xs)) n.0 o)
          (has-ne (m t).queue_prev c (t ∷ (ys ++ xs)) n.1 o)
]

-- A queue is as it was, if its tasks are.
pub Starts-frame :
    (m m' : Tasks) (ptr : ℕ) (xs : List ℕ)
    → ((c : ℕ)
        → has c xs ≡ true
        → ((m' c).queue_next ≡ (m c).queue_next) × ((m' c).queue_prev ≡ (m c).queue_prev))
    → Starts m ptr xs
    → Starts m' ptr xs
Starts-frame m m' ptr [] f s = s
Starts-frame m m' ptr (x ∷ xs) f s =
    (s.0, (Linked-frame m m' x xs x (λ c h. (f c h).0) (λ c h. (f c h).1) s.1.0, s.1.1, s.1.2))
