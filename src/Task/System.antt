-- ===== src/Task/System.antt =====
-- core/task.cpp: the tree of ids in order with the queues.
use jkos.Base.{
  ℕ, ◌<◌, ◌≡◌, refl, sym, ◌∙◌, ap, Bool, true, List, ◌∷◌, ◌++◌, ◌||◌, arith, All, All-imp,
  All-split,
}
use jkos.Rbt.{Rbt, walk, get_key}
use jkos.Rbt.Sorted.{AllLt, IsSorted}
use jkos.Rbt.Bag.{IsTree}
use jkos.Rbt.Erase.{keys_before, keys_after, walk-loc_tree}
use jkos.Rbt.Find.{none_ge, first_ge, find_ge-FoundGe}
use jkos.Task.{PairIdTask, pair_lt, pair_order}
use jkos.Task.Ring.{has}
use jkos.Task.Kernel.{Kernel, id2task}
use jkos.Task.Valid.{IsValid}
use jkos.Task.Ids.{pid_key, id2task-some, id2task-none}

or-inr : (a b : Bool) → b ≡ true → (a || b) ≡ true
or-inr a b h = ground arith

-- The queues are valid, and the tree of ids is in order: each entry leads to a task of a queue, and
-- its id is below the next one.
abbrev pub IsEntry : ℕ → List ℕ → PairIdTask → Type 0
IsEntry next tasks p = (has p.task tasks ≡ true) × (p.id < next)

pub record IsSystem (k : Kernel) (rs ss : List ℕ) : Type 0 where
  pub valid : IsValid k rs ss
  pub tree : IsTree k.ids
  pub entries : All (IsEntry k.next_pid (rs ++ ss)) (walk k.ids)

-- An id leads to a task of the entries, or to none.
pub known-IsEntry :
    (ids : Rbt PairIdTask) (next : ℕ) (ts : List ℕ) (pid : ℕ)
    → IsSorted (walk ids)
    → All (IsEntry next ts) (walk ids)
    → has (id2task ids pid) (0 ∷ ts) ≡ true
known-IsEntry ids next ts pid s h = elim (find_ge-FoundGe (pid_key pid) ids s) [
  | none_ge e a ↦ rw (id2task-none ids pid e) refl
  | first_ge p e t a n ↦
      let w = ap (λ x. walk x) (sym t) ∙ walk-loc_tree p in
      let q =
        (All-split (IsEntry next ts) (keys_before p) (get_key p ∷ keys_after p) (rw (← w) h)).1.0 in
      let g : has (get_key p).task (0 ∷ ts) ≡ true = or-inr _ _ q.0 in
      ap (λ x. has x (0 ∷ ts)) (id2task-some ids pid p e) ∙ g
]

pub entries_below :
    (next : ℕ) (ts : List ℕ) (ks : List PairIdTask)
    → All (IsEntry next ts) ks
    → AllLt (pid_key next) ks
entries_below next ts ks h =
    All-imp (IsEntry next ts) (λ p. pair_lt p (pid_key next) ≡ true) ks (λ p e. ground (arith, e.1))
      h
