-- ===== src/Ramdisk.antt =====
-- drv/ramdisk.cpp: a file of the RAM disk, in the addresses from `start` to `end` of a memory of
-- bytes. `read` gives the bytes that it copies out, `write` takes those that it copies in.
pub mod Access
mod Tests
use jkos.Base.{
  ℕ, zero, suc, ◌+◌, ◌-◌, ◌^◌, ◌%◌, Bool, true, false, not, ◌||◌, ◌==◌, if◌then◌else◌, List, [],
  ◌∷◌, take, length, update, leb,
}
use jkos.Base.Int.{ℤ, pos, negsuc, ◌+ℤ◌, ◌-ℤ◌, ltb_ℤ}
use jkos.Common.{word}

-- `Ramdisk_file_node`
pub record RamdiskFile : Type 0 where
  pub start : ℕ
  pub end : ℕ
  pub cur_offset : ℤ
  pub closed : Bool

-- The new node of `ramdisk_get_file_node`.
abbrev pub ramdisk_get_file_node : ℕ → ℕ → RamdiskFile
ramdisk_get_file_node start end = record {
  start = start;
  end = end;
  cur_offset = pos 0;
  closed = false;
}

-- The result of a call: an error number, or a value with the new state of the file.
pub data Answer (A : Type 0) : Type 0 where
  failed : ℕ → Answer A
  done : A → RamdiskFile → Answer A

abbrev pub ebadf : ℕ
ebadf = 9

abbrev pub einval : ℕ
einval = 22

-- `end - start`, a `uint32_t`.
abbrev pub file_size : RamdiskFile → ℕ
file_size f = word (f.end + 2 ^ 32 - f.start)

-- The place that `seek` asks for.
abbrev pub target : ℤ → ℕ → RamdiskFile → ℤ
target offset whence f =
    if whence == 0
    then offset
    else if whence == 1
    then offset +ℤ f.cur_offset
    else if whence == 2
    then pos (file_size f) +ℤ offset
    else negsuc 0

unfoldable pub seek : ℤ → ℕ → RamdiskFile → Answer ℤ
seek offset whence f =
    let off1 = target offset whence f in
    if f.closed
    then failed ebadf
    else if ltb_ℤ off1 (pos 0) || not (ltb_ℤ off1 (pos (file_size f)))
    then failed einval
    else done off1 (record f { cur_offset = off1 })

-- The conversion of an `off_t` to a `uint32_t`.
abbrev pub to_word : ℤ → ℕ
to_word (pos n) = word n
to_word (negsuc n) = 2 ^ 32 - 1 - word n

-- The number of bytes that a call may copy.
abbrev pub clip : ℕ → RamdiskFile → ℕ
clip cnt f =
    let left = pos (file_size f) -ℤ f.cur_offset in
    to_word (if ltb_ℤ (pos cnt) left then pos cnt else left)

-- `memcpy` from and to the memory.
unfoldable pub fetch : (ℕ → ℕ) → ℕ → ℕ → List ℕ
fetch mem addr zero = []
fetch mem addr (suc n) = mem addr ∷ fetch mem (addr + 1) n

unfoldable pub store : (ℕ → ℕ) → ℕ → List ℕ → ℕ → ℕ
store mem addr [] = mem
store mem addr (b ∷ bs) = store (update mem addr b) (addr + 1) bs

abbrev pub address : RamdiskFile → ℕ
address f = to_word (pos f.start +ℤ f.cur_offset)

unfoldable pub read : ℕ → RamdiskFile → (ℕ → ℕ) → Answer (List ℕ)
read cnt f mem =
    let n = clip cnt f in
    if f.closed
    then failed ebadf
    else if n == 0
    then done [] f
    else done (fetch mem (address f) n) (record f { cur_offset = f.cur_offset +ℤ pos n })

-- The result has the number of bytes and the memory.
unfoldable pub write : List ℕ → RamdiskFile → (ℕ → ℕ) → Answer (ℕ × (ℕ → ℕ))
write buf f mem =
    let n = clip (length buf) f in
    if f.closed
    then failed ebadf
    else if n == 0
    then done (0, mem) f
    else done (n, store mem (address f) (take n buf))
        (record f { cur_offset = f.cur_offset +ℤ pos n })

abbrev pub close : RamdiskFile → RamdiskFile
close f = record f { closed = true }
