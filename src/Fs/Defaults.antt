-- ===== src/Fs/Defaults.antt =====
-- fs/base.cpp: `load_elf` of a file that inherits `seek` and `read`.
use jkos.Base.{ℕ, ◌≡◌, Option, none, some, [], arith}
use jkos.Base.Int.{ℤ, pos, negsuc}
use jkos.Task.Kernel.{Kernel}
use jkos.Elf.{NodeFile, Space, failed, load_elf, eio}
use jkos.Elf.Ends.{load_elf-short}
use jkos.Fs.File.{seek_default, read_default}

-- The part of such a file that `load_elf` calls, in the kernel of the caller.
abbrev given : {A : Type 0} → ℤ × Kernel → A → Option (A × Kernel)
given (pos n, k) a = some (a, k)
given (negsuc n, k) a = none

abbrev pub default_node : NodeFile Kernel
default_node = record {
  seek = λ offset whence k. elim (seek_default k).0 [
    | pos n ↦ some (seek_default k).1
    | negsuc n ↦ none
  ];
  read = λ n k. given (read_default k) [];
}

-- `load_elf` of a file that inherits `seek` and `read` fails with EIO and touches nothing.
pub load_elf-default :
    (low high : ℕ) (k : Kernel) (p : Space)
    → load_elf default_node low high (some k) p ≡ failed eio p
load_elf-default low high k p = load_elf-short default_node low high k p (λ r q. ground arith)
