-- ===== src/Task/Ids.antt =====
-- core/task.cpp: `id2task` and `get_next_pid` on the tree of the ids in use.
use jkos.Base.{
  ℕ, zero, suc, ◌+◌, ◌%◌, ◌^◌, ◌≤◌, ◌<◌, ◌≡◌, ◌≢◌, refl, sym, ◌∙◌, ap, true, false, Option, none,
  some, List, [], ◌∷◌, ◌++◌, ◌==◌, arith, All,
}
use jkos.Rbt.{Rbt, Loc, get_key, find_ge, walk}
use jkos.Rbt.Sorted.{IsSorted, AllLt}
use jkos.Rbt.Erase.{keys_before, keys_after, walk-loc_tree}
use jkos.Rbt.Find.{first_ge, none_ge, find_ge-FoundGe}
use native.Mathlib.Decide.{ℕ_discrete}
use jkos.Task.{PairIdTask, pair_lt, pair_order}
use jkos.Task.Kernel.{id2task, get_next_pid}

abbrev pub pid_key : ℕ → PairIdTask
pid_key pid = record { id = pid; task = 0 }

pub id2task-some :
    (ids : Rbt PairIdTask) (pid : ℕ) (p : Loc PairIdTask)
    → find_ge (pid_key pid) ids ≡ some p
    → id2task ids pid ≡ (get_key p).task
unfolding id2task
id2task-some ids pid p e =
    ap
      (λ (x : Option (Loc PairIdTask)). elim x as (λ y. ℕ) [
        | none ↦ 0
        | some node ↦ (get_key node).task
      ])
      e

pub id2task-none :
    (ids : Rbt PairIdTask) (pid : ℕ) → find_ge (pid_key pid) ids ≡ none → id2task ids pid ≡ 0
unfolding id2task
id2task-none ids pid e =
    ap
      (λ (x : Option (Loc PairIdTask)). elim x as (λ y. ℕ) [
        | none ↦ 0
        | some node ↦ (get_key node).task
      ])
      e

-- Two readings of a list that agree on the first entry that is not less than `v`.
first_unique :
    (v : PairIdTask) (ps : List PairIdTask) (a : PairIdTask) (ps' qs : List PairIdTask)
    (b : PairIdTask) (qs' : List PairIdTask)
    → ps ++ (a ∷ ps') ≡ qs ++ (b ∷ qs')
    → AllLt v ps
    → pair_lt a v ≡ false
    → AllLt v qs
    → pair_lt b v ≡ false
    → a ≡ b
first_unique v [] a ps' [] b qs' e h g i j = ground arith
first_unique v [] a ps' (y ∷ qs) b qs' e h g i j =
    let q : a ≡ y = ground arith in cc (i.0, g, ap (λ x. pair_lt x v) q)
first_unique v (x ∷ ps) a ps' [] b qs' e h g i j =
    let q : x ≡ b = ground arith in cc (h.0, j, ap (λ x. pair_lt x v) q)
first_unique v (x ∷ ps) a ps' (y ∷ qs) b qs' e h g i j =
    let q : ps ++ (a ∷ ps') ≡ qs ++ (b ∷ qs') = ground arith in
    first_unique v ps a ps' qs b qs' q h.1 g i.1 j

AllLt-middle :
    (v : PairIdTask) (qs : List PairIdTask) (b : PairIdTask) (qs' : List PairIdTask)
    → AllLt v (qs ++ (b ∷ qs'))
    → pair_lt b v ≡ true
AllLt-middle v [] b qs' h = h.0
AllLt-middle v (x ∷ qs) b qs' h = AllLt-middle v qs b qs' h.1

-- On a sorted tree `id2task` gives the task of the first entry whose id is not less than the one asked for, which
-- is the task of that id if there is one.
pub id2task-first :
    (pid : ℕ) (ids : Rbt PairIdTask) (qs : List PairIdTask) (b : PairIdTask) (qs' : List PairIdTask)
    → IsSorted (walk ids)
    → walk ids ≡ qs ++ (b ∷ qs')
    → AllLt (pid_key pid) qs
    → pid ≤ b.id
    → id2task ids pid ≡ b.task
id2task-first pid ids qs b qs' s w l h =
    let g : pair_lt b (pid_key pid) ≡ false = ground arith in
    elim (find_ge-FoundGe (pid_key pid) ids s) [
      | none_ge e a ↦ let c = AllLt-middle (pid_key pid) qs b qs' (rw (← w) a) in cc (c, g)
      | first_ge p e t a n ↦
          let q =
            first_unique (pid_key pid) (keys_before p) (get_key p) (keys_after p) qs b qs'
              (sym (walk-loc_tree p) ∙ ap (λ x. walk x) t ∙ w) a n l g in
          id2task-some ids pid p e ∙ ap (λ x. x.task) q
    ]

-- Every entry has a task.
abbrev pub HasTask : List PairIdTask → Type 0
HasTask = All (λ p. p.task ≢ 0)

HasTask-middle :
    (qs : List PairIdTask) (b : PairIdTask) (qs' : List PairIdTask)
    → HasTask (qs ++ (b ∷ qs'))
    → b.task ≢ 0
HasTask-middle [] b qs' h = h.0
HasTask-middle (x ∷ qs) b qs' h = HasTask-middle qs b qs' h.1

id2task-null :
    (pid : ℕ) (ids : Rbt PairIdTask)
    → IsSorted (walk ids)
    → HasTask (walk ids)
    → id2task ids pid ≡ 0
    → AllLt (pid_key pid) (walk ids)
id2task-null pid ids s h z = elim (find_ge-FoundGe (pid_key pid) ids s) [
  | none_ge e a ↦ a
  | first_ge p e t a n ↦
      let w : walk ids ≡ keys_before p ++ (get_key p ∷ keys_after p) =
        ap (λ x. walk x) (sym t) ∙ walk-loc_tree p in
      let k = HasTask-middle (keys_before p) (get_key p) (keys_after p) (rw (← w) h) in
      elim (k (sym (id2task-some ids pid p e) ∙ z)) [ ]
]

pub id2task-beyond :
    (pid : ℕ) (ids : Rbt PairIdTask)
    → IsSorted (walk ids)
    → AllLt (pid_key pid) (walk ids)
    → id2task ids pid ≡ 0
id2task-beyond pid ids s h = elim (find_ge-FoundGe (pid_key pid) ids s) [
  | none_ge e a ↦ id2task-none ids pid e
  | first_ge p e t a n ↦
      let w : walk ids ≡ keys_before p ++ (get_key p ∷ keys_after p) =
        ap (λ x. walk x) (sym t) ∙ walk-loc_tree p in
      let c = AllLt-middle (pid_key pid) (keys_before p) (get_key p) (keys_after p) (rw (← w) h) in
      cc (c, n)
]

-- The id that `get_next_pid` gives: it is greater than every id in use, and not beyond `bound`.
pub data Fresh (ids : Rbt PairIdTask) (bound : ℕ) (call : Option ℕ) : Type 0 where
  fresh : (n : ℕ) → call ≡ some n → AllLt (pid_key n) (walk ids) → n ≤ bound → Fresh ids bound call

pub get_next_pid-now :
    (fuel : ℕ) (ids : Rbt PairIdTask) (next : ℕ)
    → id2task ids next ≡ 0
    → get_next_pid (suc fuel) ids next ≡ some next
unfolding get_next_pid
get_next_pid-now fuel ids next e = rw e refl

get_next_pid-later :
    (fuel : ℕ) (ids : Rbt PairIdTask) (next : ℕ)
    → id2task ids next ≢ 0
    → next + 1 < 2 ^ 32
    → get_next_pid (suc fuel) ids next ≡ get_next_pid fuel ids (next + 1)
unfolding get_next_pid
get_next_pid-later fuel ids next e h =
    let b : (id2task ids next == 0) ≡ false = ground arith in
    let w : (next + 1) % 2 ^ 32 ≡ next + 1 = omega arith in rw (b, w) refl

-- From `next` on, with all ids in use below a bound that is below 2^32, and fuel for the way to
-- the bound, `get_next_pid` returns an id that is greater than every id in use.
pub get_next_pid-Fresh :
    (fuel : ℕ) (ids : Rbt PairIdTask) (bound next : ℕ)
    → IsSorted (walk ids)
    → HasTask (walk ids)
    → AllLt (pid_key bound) (walk ids)
    → bound < 2 ^ 32
    → next ≤ bound
    → bound < next + fuel
    → Fresh ids bound (get_next_pid fuel ids next)
get_next_pid-Fresh zero ids bound next s h l b n f = ground arith
get_next_pid-Fresh (suc fuel) ids bound next s h l b n f = elim (ℕ_discrete (id2task ids next) 0) [
  | yes e ↦ fresh next (get_next_pid-now fuel ids next e) (id2task-null next ids s h e) n
  | no e ↦
      let q : next ≢ bound = λ d. e (ap (λ x. id2task ids x) d ∙ id2task-beyond bound ids s l) in
      rw (get_next_pid-later fuel ids next e (ground arith))
        (get_next_pid-Fresh fuel ids bound (next + 1) s h l b (ground arith) (ground arith))
]
