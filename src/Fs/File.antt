-- ===== src/Fs/File.antt =====
-- fs/base.cpp: `Node_file`.
use jkos.Base.{ℕ}
use jkos.Base.Int.{ℤ}
use jkos.Task.Kernel.{Kernel}
use jkos.Fs.{enotsup, error_return, error_null}

-- `Node_file`
pub record FileBase : Type 0 where
  pub mount_point : ℕ

abbrev pub new_file : FileBase
new_file = record { mount_point = 0 }

abbrev pub get_file_mount : FileBase → ℕ
get_file_mount f = f.mount_point

abbrev pub set_file_mount : ℕ → FileBase → FileBase
set_file_mount ptr f = record f { mount_point = ptr }

abbrev pub get_dir : Kernel → ℕ × Kernel
get_dir = error_null enotsup

abbrev pub seek_default : Kernel → ℤ × Kernel
seek_default = error_return enotsup

abbrev pub read_default : Kernel → ℤ × Kernel
read_default = error_return enotsup

abbrev pub write_default : Kernel → ℤ × Kernel
write_default = error_return enotsup

abbrev pub ioctl : Kernel → ℤ × Kernel
ioctl = error_return enotsup

abbrev pub stat : Kernel → ℤ × Kernel
stat = error_return enotsup

-- `close` does nothing.
abbrev pub close_file : Kernel → Kernel
close_file k = k
