-- ===== src/Fs/Dir.antt =====
-- fs/base.cpp: `Node_dir`.
use jkos.Base.{ℕ, Bool, false}
use jkos.Base.Int.{ℤ, pos}
use jkos.Task.Kernel.{Kernel, set_errno}
use jkos.Fs.{enotsup, error_return, error_null}

-- `Node_dir`
pub record DirBase : Type 0 where
  pub mount_point : ℕ

abbrev pub new_dir : DirBase
new_dir = record { mount_point = 0 }

abbrev pub get_dir_mount : DirBase → ℕ
get_dir_mount d = d.mount_point

abbrev pub set_dir_mount : ℕ → DirBase → DirBase
set_dir_mount ptr d = record d { mount_point = ptr }

abbrev pub openf : Kernel → ℕ × Kernel
openf = error_null enotsup

abbrev pub opend : Kernel → ℕ × Kernel
opend = error_null enotsup

abbrev pub creat : Kernel → ℕ × Kernel
creat = error_null enotsup

-- `chmod` returns NULL as an `int`.
abbrev pub chmod : Kernel → ℤ × Kernel
chmod k = (pos 0, set_errno enotsup k)

abbrev pub unlink_default : Kernel → ℤ × Kernel
unlink_default = error_return enotsup

abbrev pub link : Kernel → ℤ × Kernel
link = error_return enotsup

abbrev pub symlink : Kernel → ℤ × Kernel
symlink = error_return enotsup

abbrev pub mkdir : Kernel → ℕ × Kernel
mkdir = error_null enotsup

abbrev pub rmdir : Kernel → ℤ × Kernel
rmdir = error_return enotsup

abbrev pub mount : Kernel → ℤ × Kernel
mount = error_return enotsup

abbrev pub is_empty : Kernel → Bool × Kernel
is_empty k = (false, set_errno enotsup k)

-- `list`
abbrev pub list_dir : Kernel → ℕ × Kernel
list_dir = error_null enotsup

abbrev pub get_par : Kernel → ℕ × Kernel
get_par = error_null enotsup

abbrev pub close_dir : Kernel → Kernel
close_dir k = k
