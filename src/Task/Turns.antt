-- ===== src/Task/Turns.antt =====
-- core/task.cpp: `schedule` at every tick of the timer gives each running task its turn.
use jkos.Base.{
  Bool-cases, inl, inr, ℕ, zero, suc, ◌+◌, ◌<◌, ◌≡◌, refl, sym, ◌∙◌, ap, subst, true, List, [], ◌∷◌,
  ◌++◌, length, length-append, append_assoc, ◌==◌, arith,
}
use jkos.Task.Ring.{has, has-append}
use jkos.Task.Kernel.{Kernel, Registers, schedule}
use jkos.Task.Valid.{IsValid, split, has-Split}
use jkos.Task.Schedule.{behind, schedule-GivesWay}

-- The kernel after `n` ticks; the task that is current at a tick has the registers `regs` of it.
abbrev pub turns : (ℕ → Registers) → ℕ → Kernel → Kernel
turns regs zero k = k
turns regs (suc n) k = schedule (regs n) (turns regs n k)

-- The current task after `n` ticks is `t`, and the queues are us they were.
record Turn (regs : ℕ → Registers) (n : ℕ) (k : Kernel) (rs ss : List ℕ) (t : ℕ) : Type 0 where
  valid : IsValid (turns regs n k) rs ss
  current : (turns regs n k).current ≡ t

next-Turn :
    (regs : ℕ → Registers) (n : ℕ) (k : Kernel) (rs xs : List ℕ) (c : ℕ) (ys ss : List ℕ)
    → rs ≡ xs ++ (c ∷ ys)
    → Turn regs n k rs ss c
    → Turn regs (suc n) k rs ss (behind c (ys ++ xs))
next-Turn regs n k rs xs c ys ss q h =
    let k' = turns regs n k in
    let e : rs ≡ xs ++ (k'.current ∷ ys) = q ∙ ap (λ x. xs ++ (x ∷ ys)) (sym h.current) in
    let g = schedule-GivesWay (regs n) k' xs ys ss (subst (λ x. IsValid k' x ss) e h.valid) in
    record {
      valid = subst (λ x. IsValid (schedule (regs n) k') x ss) (sym e) g.0;
      current = g.1.current ∙ ap (λ x. behind x (ys ++ xs)) h.current;
    }

shift : (rs xs : List ℕ) (c : ℕ) (ys : List ℕ) → rs ≡ xs ++ (c ∷ ys) → rs ≡ (xs ++ (c ∷ [])) ++ ys
shift rs xs c ys q = q ∙ sym (append_assoc xs (c ∷ []) ys)

first_of : (xs : List ℕ) (c z : ℕ) (zs : List ℕ) → xs ++ (c ∷ []) ≡ z ∷ zs → behind c xs ≡ z
first_of [] c z zs q = ground arith
first_of (x ∷ xs) c z zs q = ground arith

-- The tasks further on in the queue come one after the other.
on-Turn :
    (regs : ℕ → Registers) (n : ℕ) (k : Kernel) (rs xs : List ℕ) (c : ℕ) (us : List ℕ) (t : ℕ)
    (ws ss : List ℕ)
    → rs ≡ xs ++ (c ∷ (us ++ (t ∷ ws)))
    → Turn regs n k rs ss c
    → Turn regs (suc (length us) + n) k rs ss t
on-Turn regs n k rs xs c [] t ws ss q h =
    subst (λ x. Turn regs x k rs ss t) (omega arith) (next-Turn regs n k rs xs c (t ∷ ws) ss q h)
on-Turn regs n k rs xs c (a ∷ us) t ws ss q h =
    let g = next-Turn regs n k rs xs c (a ∷ (us ++ (t ∷ ws))) ss q h in
    let w = on-Turn regs (suc n) k rs (xs ++ (c ∷ [])) a us t ws ss (shift rs xs c _ q) g in
    subst (λ x. Turn regs x k rs ss t) (omega arith) w

-- After the last task the first one is next.
around-Turn :
    (regs : ℕ → Registers) (n : ℕ) (k : Kernel) (rs xs : List ℕ) (c : ℕ) (ys : List ℕ) (z : ℕ)
    (zs ss : List ℕ)
    → rs ≡ xs ++ (c ∷ ys)
    → rs ≡ z ∷ zs
    → Turn regs n k rs ss c
    → Turn regs (suc (length ys) + n) k rs ss z
around-Turn regs n k rs xs c [] z zs ss q w h =
    let g = next-Turn regs n k rs xs c [] ss q h in
    let u = subst (λ x. Turn regs (suc n) k rs ss x) (first_of xs c z zs (sym q ∙ w)) g in
    subst (λ x. Turn regs x k rs ss z) (omega arith) u
around-Turn regs n k rs xs c (y ∷ ys) z zs ss q w h =
    let g = next-Turn regs n k rs xs c (y ∷ ys) ss q h in
    let u = around-Turn regs (suc n) k rs (xs ++ (c ∷ [])) y ys z zs ss (shift rs xs c _ q) w g in
    subst (λ x. Turn regs x k rs ss z) (omega arith) u

-- How the task `t` gets its turn: within one round, with the queues us they were.
pub data HasTurn (regs : ℕ → Registers) (k : Kernel) (rs ss : List ℕ) (t : ℕ) : Type 0 where
  has_turn :
      (n : ℕ)
      → n < length rs
      → IsValid (turns regs n k) rs ss
      → (turns regs n k).current ≡ t
      → HasTurn regs k rs ss t

before-HasTurn :
    (regs : ℕ → Registers) (k : Kernel) (rs us : List ℕ) (t : ℕ) (ws : List ℕ) (c : ℕ)
    (ys ss : List ℕ)
    → rs ≡ (us ++ (t ∷ ws)) ++ (c ∷ ys)
    → Turn regs 0 k rs ss c
    → HasTurn regs k rs ss t
before-HasTurn regs k rs [] t ws c ys ss q h =
    let g = around-Turn regs 0 k rs (t ∷ ws) c ys t (ws ++ (c ∷ ys)) ss q q h in
    has_turn _ (omega (arith, ap (λ x. length x) q, length-append ws (c ∷ ys))) g.valid g.current
before-HasTurn regs k rs (z ∷ us) t ws c ys ss q h =
    let w : rs ≡ z ∷ (us ++ (t ∷ (ws ++ (c ∷ ys)))) =
      q ∙ ap (λ x. z ∷ x) (append_assoc us (t ∷ ws) (c ∷ ys)) in
    let g = around-Turn regs 0 k rs (z ∷ (us ++ (t ∷ ws))) c ys z _ ss q w h in
    let u = on-Turn regs _ k rs [] z us t (ws ++ (c ∷ ys)) ss w g in
    has_turn _
      (omega (
        arith,
        ap (λ x. length x) w,
        length-append us (t ∷ (ws ++ (c ∷ ys))),
        length-append ws (c ∷ ys),
      ))
      u.valid u.current

-- In a valid kernel whose current task is in the running queue, each task of that queue is the
-- current one after fewer calls of `schedule` than the queue has tasks, whatever registers the tasks
-- have by then; the queues stay us they are.
pub schedule-HasTurn :
    (regs : ℕ → Registers) (k : Kernel) (rs ss : List ℕ) (t : ℕ)
    → IsValid k rs ss
    → has k.current rs ≡ true
    → has t rs ≡ true
    → HasTurn regs k rs ss t
schedule-HasTurn regs k rs ss t v h i = elim (has-Split k.current rs h) [
  | split xs ys q ↦
      let here : Turn regs 0 k rs ss k.current = record { valid = v; current = refl } in
      elim (Bool-cases (has t xs)) [
        | inl a ↦ elim (has-Split t xs a) [
          | split us ws e ↦
              before-HasTurn regs k rs us t ws k.current ys ss
                (q ∙ ap (λ x. x ++ (k.current ∷ ys)) e) here
        ]
        | inr a ↦ elim (Bool-cases (t == k.current)) [
          | inl e ↦
              has_turn 0 (omega (arith, ap (λ x. length x) q, length-append xs (k.current ∷ ys))) v
                (ground arith)
          | inr e ↦
              elim (has-Split t ys
                (ground (arith, ap (λ x. has t x) q, has-append t xs (k.current ∷ ys)))) [
                  | split us ws w ↦
                      let p : rs ≡ xs ++ (k.current ∷ (us ++ (t ∷ ws))) =
                        q ∙ ap (λ x. xs ++ (k.current ∷ x)) w in
                      let u = on-Turn regs 0 k rs xs k.current us t ws ss p here in
                      has_turn _
                        (omega (
                          arith,
                          ap (λ x. length x) p,
                          length-append xs (k.current ∷ (us ++ (t ∷ ws))),
                          length-append us (t ∷ ws),
                        ))
                        u.valid u.current
                ]
        ]
      ]
]
