-- ===== src/Cxx/Tests.antt =====
-- The table of exit functions with two functions, 1 and 2, whose calls are written down.
use jkos.Base.{ℕ, ◌≡◌, refl, List, [], ◌∷◌, some}
use jkos.Cxx.{AtexitTable}
use jkos.Cxx.Calls.{ExitCall, register, finalize, call_table, call_list, forget, calls-registered}
use jkos.Cxx.Atexit.{registered}

abbrev log : ℕ → ℕ → List (ℕ × ℕ) → List (ℕ × ℕ)
log f a w = (f, a) ∷ w

abbrev empty : AtexitTable
empty = record { funcs = λ i. record { func = 0; arg = 0; dso_handle = 0 }; natexit = 0 }

abbrev calls : List ExitCall
calls =
    register 1 10 0
    ∷ register 2 20 0
    ∷ register 1 11 0
    ∷ finalize 1
    ∷ register 1 12 0
    ∷ finalize 0
    ∷ []

-- Last in, first out: the log has the last call first.
calls_in_order : call_list log calls [] [] ≡ some ([], (2, 20) ∷ (1, 12) ∷ (1, 10) ∷ (1, 11) ∷ [])
calls_in_order = refl

calls-registered_example :
    forget (call_table log calls empty []) ≡ call_list log calls (registered empty) []
calls-registered_example = calls-registered log calls empty []
