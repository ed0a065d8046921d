-- ===== src/Task/Valid.antt =====
-- core/task.cpp: the invariant of the two queues, and the task that an id leads to.
use jkos.Base.{
  ℕ, ◌≡◌, ◌≢◌, refl, sym, ◌∙◌, ap, inl, inr, Bool-cases, true, false, Option, some, List, [], ◌∷◌,
  ◌++◌, ◌||◌, ◌==◌, arith, update,
}
use jkos.Task.{Task, Tasks, TaskState, running, sleeping}
use jkos.Task.Ring.{has, Starts, has-append}
use jkos.Task.Queue.{behind_first}
use jkos.Task.Frame.{SameBodies, unlink, Starts-frame}
use jkos.Task.Move.{has-around}
use jkos.Task.Kernel.{Kernel, set_errno, id2task, is_missing, is_denied}

-- The queues hold the tasks `rs` and `ss` in the order of the links, from the pointers on; the
-- states agree with the queues; an id leads to a task of a queue, if to any.
pub record IsValid (k : Kernel) (rs ss : List ℕ) : Type 0 where
  pub running_ring : Starts k.task k.running_queue rs
  pub sleeping_ring : Starts k.task k.sleeping_queue ss
  pub is_running : (c : ℕ) → has c rs ≡ true → (k.task c).state ≡ running
  pub is_sleeping : (c : ℕ) → has c ss ≡ true → (k.task c).state ≡ sleeping
  pub known : (pid : ℕ) → has (id2task k.ids pid) (0 ∷ (rs ++ ss)) ≡ true

-- A task is in one queue at most.
pub apart_rs :
    (k : Kernel) (rs ss : List ℕ) (c : ℕ) → IsValid k rs ss → has c rs ≡ true → has c ss ≡ false
apart_rs k rs ss c v h = ground (arith, v.is_running c h, v.is_sleeping c)

pub apart_ss :
    (k : Kernel) (rs ss : List ℕ) (c : ℕ) → IsValid k rs ss → has c ss ≡ true → has c rs ≡ false
apart_ss k rs ss c v h = ground (arith, v.is_running c, v.is_sleeping c h)

-- The task `t` was moved, and the queues are `rs` and `ss`; no task but `t` changed more than its
-- links.
pub record Requeued (t : ℕ) (rs ss : List ℕ) (k k' : Kernel) : Type 0 where
  pub valid : IsValid k' rs ss
  pub current : k'.current ≡ k.current
  pub ids : k'.ids ≡ k.ids
  pub next_pid : k'.next_pid ≡ k.next_pid
  pub others : (c : ℕ) → c ≢ t → unlink (k'.task c) ≡ unlink (k.task c)

pub data Requeues (t : ℕ) (rs ss : List ℕ) (k : Kernel) (call : Option Kernel) : Type 0 where
  requeues : (k' : Kernel) → call ≡ some k' → Requeued t rs ss k k' → Requeues t rs ss k call

abbrev pub set_state : Tasks → ℕ → TaskState → Tasks
set_state m t s = update m t (record (m t) { state = s })

pub has-behind_first : (c t : ℕ) (xs : List ℕ) → has c (behind_first t xs) ≡ has c (t ∷ xs)
has-behind_first c t [] = refl
has-behind_first c t (x ∷ xs) = ground arith

-- A move keeps the tasks of the two queues.
pub has-moved :
    (i t : ℕ) (rs xs ys : List ℕ)
    → has i (rs ++ (xs ++ (t ∷ ys))) ≡ has i (behind_first t rs ++ (xs ++ ys))
has-moved i t rs xs ys = ground (
  arith,
  has-append i rs (xs ++ (t ∷ ys)),
  has-append i xs (t ∷ ys),
  has-append i (behind_first t rs) (xs ++ ys),
  has-append i xs ys,
  has-behind_first i t rs,
)

pub known_moved :
    (i t : ℕ) (rs xs ys : List ℕ)
    → has i (0 ∷ (rs ++ (xs ++ (t ∷ ys)))) ≡ has i (0 ∷ (behind_first t rs ++ (xs ++ ys)))
known_moved i t rs xs ys = ap (λ b. (i == 0) || b) (has-moved i t rs xs ys)

pub states_joined :
    (m m2 : Tasks) (t : ℕ) (s : TaskState) (to : List ℕ)
    → SameBodies m m2
    → ((c : ℕ) → has c to ≡ true → (m c).state ≡ s)
    → (c : ℕ) → has c (behind_first t to) ≡ true
    → (set_state m2 t s c).state ≡ s
states_joined m m2 t s to b f c h =
    let e : (m2 c).state ≡ (m c).state = ap (λ (x : Task). x.state) (b c) in
    let g = sym (has-behind_first c t to) ∙ h in ground (arith, e, g, f c)

pub states_left :
    (m m2 : Tasks) (t : ℕ) (s z : TaskState) (xs ys : List ℕ)
    → SameBodies m m2
    → has t (xs ++ ys) ≡ false
    → ((c : ℕ) → has c (xs ++ (t ∷ ys)) ≡ true → (m c).state ≡ z)
    → (c : ℕ) → has c (xs ++ ys) ≡ true
    → (set_state m2 t s c).state ≡ z
states_left m m2 t s z xs ys b o f c h =
    let e : (m2 c).state ≡ (m c).state = ap (λ (x : Task). x.state) (b c) in
    let n : c ≢ t = λ q. ground (arith, ap (λ x. has x (xs ++ ys)) q) in
    ground (arith, e, f c (has-around c t xs ys h))

pub others_kept :
    (m m2 : Tasks) (t : ℕ) (s : TaskState)
    → SameBodies m m2
    → (c : ℕ) → c ≢ t
    → unlink (set_state m2 t s c) ≡ unlink (m c)
others_kept m m2 t s b c n =
    let e : set_state m2 t s c ≡ m2 c = ground arith in ap (λ (x : Task). unlink x) e ∙ b c

pub data Split (t : ℕ) (ss : List ℕ) : Type 0 where
  split : (xs ys : List ℕ) → ss ≡ xs ++ (t ∷ ys) → Split t ss

pub has-Split : (t : ℕ) (ss : List ℕ) → has t ss ≡ true → Split t ss
has-Split t [] h = ground arith
has-Split t (x ∷ ss) h = elim (Bool-cases (t == x)) [
  | inl e ↦ split [] ss (ground arith)
  | inr e ↦ elim (has-Split t ss (ground arith)) [
    | split xs ys q ↦ split (x ∷ xs) ys (ap (λ zs. x ∷ zs) q)
  ]
]

pub set_errno-IsValid :
    (e : ℕ) (k : Kernel) (rs ss : List ℕ) → IsValid k rs ss → IsValid (set_errno e k) rs ss
set_errno-IsValid e k rs ss v = record {
  running_ring =
      Starts-frame k.task (set_errno e k).task _ _ (λ c h. (ground arith, ground arith))
        v.running_ring;
  sleeping_ring =
      Starts-frame k.task (set_errno e k).task _ _ (λ c h. (ground arith, ground arith))
        v.sleeping_ring;
  is_running = λ c h. ground (arith, v.is_running c h);
  is_sleeping = λ c h. ground (arith, v.is_sleeping c h);
  known = v.known;
}

-- Where the id of a call leads in a valid kernel.
pub data Target (t : ℕ) (k : Kernel) (rs ss : List ℕ) : Type 0 where
  missing : is_missing t k ≡ true → Target t k rs ss
  denied : is_missing t k ≡ false → is_denied t k ≡ true → Target t k rs ss
  awake : is_missing t k ≡ false → is_denied t k ≡ false → has t rs ≡ true → Target t k rs ss
  asleep : is_missing t k ≡ false → is_denied t k ≡ false → has t ss ≡ true → Target t k rs ss

pub target :
    (pid : ℕ) (k : Kernel) (rs ss : List ℕ) → IsValid k rs ss → Target (id2task k.ids pid) k rs ss
target pid k rs ss v = elim (Bool-cases (is_missing (id2task k.ids pid) k)) [
  | inl m ↦ missing m
  | inr m ↦ elim (Bool-cases (is_denied (id2task k.ids pid) k)) [
    | inl d ↦ denied m d
    | inr d ↦ elim (Bool-cases (has (id2task k.ids pid) rs)) [
      | inl h ↦ awake m d h
      | inr h ↦ asleep m d (ground (arith, v.known pid, has-append (id2task k.ids pid) rs ss))
    ]
  ]
]
