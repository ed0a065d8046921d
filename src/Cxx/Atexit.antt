-- ===== src/Cxx/Atexit.antt =====
-- lib/cxxsupport.cpp: the table of exit functions is a stack of registrations.
use jkos.Base.{
  update, ℕ, zero, suc, ◌+◌, ◌-◌, ◌<◌, ◌≤◌, ◌≡◌, ◌⊎◌, inl, inr, Bool-cases, refl, sym, ap, ◌∙◌,
  List, [], ◌∷◌, ◌++◌, append_assoc, append-nil, true, false, ◌==◌, if◌then◌else◌, arith,
}
use native.Mathlib.Decide.{ℕ_discrete}
use jkos.Cxx.{AtexitFunc, AtexitTable, shift_down, run_all, run_matching, cxa_finalize}
use jkos.Base.Slice.{slice, slice_ext, slice_last}

-- The registrations, oldest first.
abbrev pub registered : AtexitTable → List AtexitFunc
registered s = slice s.funcs 0 s.natexit

-- Those of a function, and the others.
abbrev pub with_func : ℕ → List AtexitFunc → List AtexitFunc
with_func f [] = []
with_func f (e ∷ es) = let rest = with_func f es in if e.func == f then e ∷ rest else rest

abbrev pub without_func : ℕ → List AtexitFunc → List AtexitFunc
without_func f [] = []
without_func f (e ∷ es) = let rest = without_func f es in if e.func == f then rest else e ∷ rest

with_func-append :
    (f : ℕ) (xs ys : List AtexitFunc) → with_func f (xs ++ ys) ≡ with_func f xs ++ with_func f ys
with_func-append f [] ys = refl
with_func-append f (x ∷ xs) ys = elim (Bool-cases (x.func == f)) [
  | inl h ↦ rw (h, with_func-append f xs ys) refl
  | inr h ↦ rw (h, with_func-append f xs ys) refl
]

without_func-append :
    (f : ℕ) (xs ys : List AtexitFunc)
    → without_func f (xs ++ ys) ≡ without_func f xs ++ without_func f ys
without_func-append f [] ys = refl
without_func-append f (x ∷ xs) ys = elim (Bool-cases (x.func == f)) [
  | inl h ↦ rw (h, without_func-append f xs ys) refl
  | inr h ↦ rw (h, without_func-append f xs ys) refl
]

-- `shift_down` moves its entries and leaves the others.
shift_down-outside :
    (k j : ℕ) (t : ℕ → AtexitFunc) (c : ℕ) → (c < j) ⊎ (j + k ≤ c) → shift_down k j t c ≡ t c
unfolding shift_down
shift_down-outside zero j t c h = refl
shift_down-outside (suc k) j t c h =
    shift_down-outside k (j + 1) (update t j (t (j + 1))) c (ground (arith, h)) ∙ ground (arith, h)

shift_down-inside :
    (k j : ℕ) (t : ℕ → AtexitFunc) (c : ℕ) → j ≤ c → c < j + k → shift_down k j t c ≡ t (c + 1)
unfolding shift_down
shift_down-inside zero j t c h l = absurd (omega (arith, h, l))
shift_down-inside (suc k) j t c h l = elim (ℕ_discrete c j) [
  | no n ↦
      shift_down-inside k (j + 1) (update t j (t (j + 1))) c (omega (arith, h, n))
        (omega (arith, l))
      ∙ ground (arith, h)
  | yes e ↦
      shift_down-outside k (j + 1) (update t j (t (j + 1))) c (inl (omega (arith, e)))
      ∙ ground (arith, e)
]

module _ {W : Type 0} (run : ℕ → ℕ → W → W) where
  -- The calls of a list of registrations, the youngest first.
  abbrev pub unwind : List AtexitFunc → W → W
  unwind [] w = w
  unwind (e ∷ es) w = run e.func e.arg (unwind es w)

  unwind-append : (xs ys : List AtexitFunc) (w : W) → unwind (xs ++ ys) w ≡ unwind xs (unwind ys w)
  unwind-append [] ys w = refl
  unwind-append (x ∷ xs) ys w = ap (run x.func x.arg) (unwind-append xs ys w)

  run_all-unwind : (i : ℕ) (t : ℕ → AtexitFunc) (w : W) → run_all run i t w ≡ unwind (slice t 0 i) w
  unfolding run_all slice
  run_all-unwind zero t w = refl
  run_all-unwind (suc i) t w =
      run_all-unwind i t (run (t i).func (t i).arg w)
      ∙ sym (unwind-append (slice t 0 i) (t i ∷ []) w)
      ∙ ap (λ xs. unwind xs w) (sym (slice_last t i))

  -- What the loop leaves with `i` entries to go through.
  pub record Matched (f i : ℕ) (s : AtexitTable) (w : W) (r : AtexitTable × W) : Type 0 where
    pub table :
        registered r.0 ≡ without_func f (slice s.funcs 0 i) ++ slice s.funcs i (s.natexit - i)
    pub calls : r.1 ≡ unwind (with_func f (slice s.funcs 0 i)) w

  -- The entry at hand is one of the function: it is called and the entries behind it move down.
  Matched-hit :
      (f i : ℕ) (s : AtexitTable) (w : W) (r : AtexitTable × W)
      → suc i ≤ s.natexit
      → ((s.funcs i).func == f) ≡ true
      → Matched f i
          (record { funcs = shift_down (s.natexit - (i + 1)) i s.funcs; natexit = s.natexit - 1 })
          (run (s.funcs i).func (s.funcs i).arg w)
          r
      → Matched f (suc i) s w r
  Matched-hit f i s w r l h g =
      let t = s.funcs in
      let k = s.natexit - (i + 1) in
      let below : slice (shift_down k i t) 0 i ≡ slice t 0 i =
        slice_ext (shift_down k i t) t 0 0 i
          (λ c l1 l2. shift_down-outside k i t c (inl (omega (arith, l2))) ∙ ap t (omega arith)) in
      let above : slice (shift_down k i t) i (s.natexit - 1 - i)
          ≡ slice t (suc i) (s.natexit - suc i) =
        slice_ext (shift_down k i t) t 1 i (s.natexit - 1 - i)
          (λ c l1 l2. shift_down-inside k i t c l1 (omega (arith, l2)))
        ∙ ap (λ x. slice t x (s.natexit - 1 - i)) {y = suc i} (omega arith)
        ∙ ap (slice t (suc i)) (omega arith) in
      let last : without_func f (slice t 0 (suc i)) ≡ without_func f (slice t 0 i) =
        ap (without_func f) (slice_last t i)
        ∙ without_func-append f (slice t 0 i) (t i ∷ [])
        ∙ rw h (append-nil _) in
      let one : with_func f (slice t 0 (suc i)) ≡ with_func f (slice t 0 i) ++ (t i ∷ []) =
        ap (with_func f) (slice_last t i)
        ∙ with_func-append f (slice t 0 i) (t i ∷ [])
        ∙ rw h refl in
      record {
        table = rw last (rw (← below, ← above) g.table);
        calls =
            rw one
              (g.calls ∙ rw below (sym (unwind-append (with_func f (slice t 0 i)) (t i ∷ []) w)));
      }

  -- It is not: nothing happens.
  Matched-miss :
      (f i : ℕ) (s : AtexitTable) (w : W) (r : AtexitTable × W)
      → suc i ≤ s.natexit
      → ((s.funcs i).func == f) ≡ false
      → Matched f i s w r
      → Matched f (suc i) s w r
  unfolding slice
  Matched-miss f i s w r l h g =
      let t = s.funcs in
      let xs = slice t 0 i in
      let last : without_func f (slice t 0 (suc i)) ≡ without_func f xs ++ (t i ∷ []) =
        ap (without_func f) (slice_last t i) ∙ without_func-append f xs (t i ∷ []) ∙ rw h refl in
      let one : with_func f (slice t 0 (suc i)) ≡ with_func f xs =
        ap (with_func f) (slice_last t i)
        ∙ with_func-append f xs (t i ∷ [])
        ∙ rw h (append-nil _) in
      let rest : slice t i (s.natexit - i) ≡ t i ∷ slice t (suc i) (s.natexit - suc i) =
        ap (slice t i) {x = s.natexit - i} {y = suc (s.natexit - suc i)} (omega (arith, l))
        ∙ ap (λ x. t i ∷ slice t x (s.natexit - suc i)) {x = i + 1} (omega arith) in
      record {
        table =
            g.table
            ∙ rw (last, rest)
                (sym (
                  append_assoc (without_func f xs) (t i ∷ [])
                    (slice t (suc i) (s.natexit - suc i))));
        calls = g.calls ∙ rw one refl;
      }

  run_matching-Matched :
      (f i : ℕ) (s : AtexitTable) (w : W)
      → i ≤ s.natexit
      → Matched f i s w (run_matching run f i s w)
  unfolding run_matching slice
  run_matching-Matched f zero s w l = record {
    table = ap (slice s.funcs 0) (omega arith);
    calls = refl;
  }
  run_matching-Matched f (suc i) s w l = elim (Bool-cases ((s.funcs i).func == f)) [
    | inl h ↦ rw h (Matched-hit f i s w _ l h (run_matching-Matched f i _ _ (omega (arith, l))))
    | inr h ↦ rw h (Matched-miss f i s w _ l h (run_matching-Matched f i s w (omega (arith, l))))
  ]

  -- `__cxa_finalize(f)` calls the registrations of `f`, youngest first, and keeps the others; with NULL
  -- it calls all of them and keeps none.
  abbrev pub finalized : ℕ → List AtexitFunc → W → List AtexitFunc × W
  finalized f es w =
      if f == 0 then ([], unwind es w) else (without_func f es, unwind (with_func f es) w)

  pub cxa_finalize-finalized :
      (f : ℕ) (s : AtexitTable) (w : W)
      → (registered (cxa_finalize run f s w).0, (cxa_finalize run f s w).1)
        ≡ finalized f (registered s) w
  unfolding cxa_finalize slice
  cxa_finalize-finalized f s w = elim (Bool-cases (f == 0)) [
    | inl h ↦ rw (h, run_all-unwind s.natexit s.funcs w) refl
    | inr h ↦
        let g = run_matching-Matched f s.natexit s w (omega arith) in
        let z : slice s.funcs s.natexit (s.natexit - s.natexit) ≡ [] =
          ap (slice s.funcs s.natexit) {y = 0} (omega arith) in
        rw (h, g.calls, g.table, z)
          (ap (λ xs. (xs, unwind (with_func f (registered s)) w)) (append-nil _))
  ]
