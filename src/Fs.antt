-- ===== src/Fs.antt =====
-- fs/base.cpp with include/fs/base.h: the operations that a file system inherits when it does not override
-- them. A pointer is an address, and 0 is NULL; the arguments, which no operation names, are left out. The
-- error number goes to the current task, by `set_errno` of core/task.cpp.
pub mod File
pub mod Dir
pub mod Defaults
use jkos.Base.Int.{ℤ, negsuc}
use jkos.Base.{ℕ, Bool, false}
use jkos.Task.Kernel.{Kernel, set_errno}

abbrev pub enotsup : ℕ
enotsup = 35

-- `ERROR_RETURN`
abbrev pub error_return : ℕ → Kernel → ℤ × Kernel
error_return e k = (negsuc 0, set_errno e k)

-- The error number set, and NULL.
abbrev pub error_null : ℕ → Kernel → ℕ × Kernel
error_null e k = (0, set_errno e k)

-- `Dirent_t::next`
abbrev pub next_dirent : Kernel → Bool × Kernel
next_dirent k = (false, set_errno enotsup k)

-- `Fs::mv`
abbrev pub mv : Kernel → ℤ × Kernel
mv = error_return enotsup
