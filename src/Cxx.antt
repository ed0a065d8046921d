-- ===== src/Cxx.antt =====
-- lib/cxxsupport.cpp: the constructors and destructors of the kernel's statics, and the table of the
-- functions that run at its end. What a call of a function pointer does is the parameter `run`, on the
-- rest of the state; it is taken not to touch the table. The pointers from the linker script are a list.
pub mod Atexit
pub mod Calls
mod Tests
use jkos.Base.{
  update, ℕ, zero, suc, ◌+◌, ◌-◌, List, [], ◌∷◌, Option, none, some, ◌==◌, if◌then◌else◌,
}

-- `Atexit_func_entry_t`
pub record AtexitFunc : Type 0 where
  pub func : ℕ
  pub arg : ℕ
  pub dso_handle : ℕ

-- The statics `atexit_funcs` and `natexit_funcs`.
pub record AtexitTable : Type 0 where
  pub funcs : ℕ → AtexitFunc
  pub natexit : ℕ

abbrev pub natexit_max : ℕ
natexit_max = 128

-- `__cxa_atexit`; `none` is its panic, and it always returns 0.
unfoldable pub cxa_atexit : ℕ → ℕ → ℕ → AtexitTable → Option AtexitTable
cxa_atexit func arg dso s =
    if s.natexit == natexit_max
    then none
    else some (record {
      funcs = update s.funcs s.natexit (record { func = func; arg = arg; dso_handle = dso });
      natexit = s.natexit + 1;
    })

-- The loop that moves `k` entries down by one, from `j` on.
unfoldable pub shift_down : ℕ → ℕ → (ℕ → AtexitFunc) → ℕ → AtexitFunc
shift_down zero j funcs = funcs
shift_down (suc k) j funcs = shift_down k (j + 1) (update funcs j (funcs (j + 1)))

module _ {W : Type 0} (run : ℕ → ℕ → W → W) where
  -- The loop of `__cxa_finalize(NULL)`, with `i` entries left.
  unfoldable pub run_all : ℕ → (ℕ → AtexitFunc) → W → W
  run_all zero funcs w = w
  run_all (suc i) funcs w = run_all i funcs (run (funcs i).func (funcs i).arg w)

  -- The loop of `__cxa_finalize(f)`, with `i` entries left.
  unfoldable pub run_matching : ℕ → ℕ → AtexitTable → W → AtexitTable × W
  unfolding shift_down
  run_matching f zero s w = (s, w)
  run_matching f (suc i) s w =
      let e = s.funcs i in
      let hit = e.func == f in
      run_matching f i
        (if hit
          then record {
            funcs = shift_down (s.natexit - (i + 1)) i s.funcs;
            natexit = s.natexit - 1;
          }
          else s)
        (if hit then run e.func e.arg w else w)

  -- `__cxa_finalize`
  unfoldable pub cxa_finalize : ℕ → AtexitTable → W → AtexitTable × W
  unfolding run_all run_matching
  cxa_finalize f s w =
      if f == 0
      then (record s { natexit = 0 }, run_all s.natexit s.funcs w)
      else run_matching f s.natexit s w

module _ {W : Type 0} (call : ℕ → W → W) where
  -- The loops over the pointers from `start_ctors` and from `start_dtors`.
  unfoldable pub call_each : List ℕ → W → W
  call_each [] w = w
  call_each (ptr ∷ ptrs) w = call_each ptrs (call ptr w)

  unfoldable pub cxxsupport_init : List ℕ → W → W
  unfolding call_each
  cxxsupport_init ctors w = call_each ctors w

  unfoldable pub cxxsupport_finalize : (ℕ → ℕ → W → W) → List ℕ → AtexitTable → W → AtexitTable × W
  unfolding call_each cxa_finalize
  cxxsupport_finalize run dtors s w = cxa_finalize run 0 s (call_each dtors w)
