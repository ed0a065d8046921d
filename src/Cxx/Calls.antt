-- ===== src/Cxx/Calls.antt =====
-- lib/cxxsupport.cpp: any calls of `__cxa_atexit` and `__cxa_finalize` on the table, and on a list.
use jkos.Base.{
  ℕ, ◌≡◌, inl, inr, Bool-cases, refl, ap, ◌∙◌, List, [], ◌∷◌, ◌++◌, Option, none, some, ◌==◌, ◌>>=◌,
  if◌then◌else◌, length,
}
use jkos.Cxx.{AtexitFunc, AtexitTable, natexit_max, cxa_atexit, cxa_finalize}
use jkos.Base.Slice.{slice-update, length-slice}
use jkos.Cxx.Atexit.{registered, finalized, cxa_finalize-finalized}

-- A call of the two functions.
pub data ExitCall : Type 0 where
  register : ℕ → ℕ → ℕ → ExitCall
  finalize : ℕ → ExitCall

-- The list that a table stands for.
abbrev pub forget : {W : Type 0} → Option (AtexitTable × W) → Option (List AtexitFunc × W)
forget none = none
forget (some (s, w)) = some (registered s, w)

module _ {W : Type 0} (run : ℕ → ℕ → W → W) where
  -- The calls on the table; `none` is the panic.
  abbrev pub call_table : List ExitCall → AtexitTable → W → Option (AtexitTable × W)
  call_table [] s w = some (s, w)
  call_table (register func arg dso ∷ cs) s w =
      cxa_atexit func arg dso s >>= λ s'. call_table cs s' w
  call_table (finalize f ∷ cs) s w = let r = cxa_finalize run f s w in call_table cs (r.0) (r.1)

  -- The calls on a list with room for 128 registrations.
  abbrev pub call_list : List ExitCall → List AtexitFunc → W → Option (List AtexitFunc × W)
  call_list [] es w = some (es, w)
  call_list (register func arg dso ∷ cs) es w =
      let rest =
        call_list cs (es ++ (record { func = func; arg = arg; dso_handle = dso } ∷ [])) w in
      if length es == natexit_max then none else rest
  call_list (finalize f ∷ cs) es w = let r = finalized run f es w in call_list cs (r.0) (r.1)

  -- The table after any calls holds the registrations that the list holds, the exit functions were called
  -- alike, and the one panics exactly if the other has no room.
  pub calls-registered :
      (cs : List ExitCall) (s : AtexitTable) (w : W)
      → forget (call_table cs s w) ≡ call_list cs (registered s) w
  unfolding cxa_atexit
  calls-registered [] s w = refl
  calls-registered (register func arg dso ∷ cs) s w = elim (Bool-cases (s.natexit == natexit_max)) [
    | inl h ↦ rw (length-slice s.funcs 0 s.natexit, h) refl
    | inr h ↦
        rw (length-slice s.funcs 0 s.natexit, h)
          (calls-registered cs _ w
            ∙ ap (λ es. call_list cs es w)
                (slice-update s.funcs s.natexit
                  (record { func = func; arg = arg; dso_handle = dso })))
  ]
  calls-registered (finalize f ∷ cs) s w =
      let r = cxa_finalize run f s w in
      calls-registered cs (r.0) (r.1)
      ∙ ap (λ x. call_list cs (x.0) (x.1)) (cxa_finalize-finalized run f s w)
