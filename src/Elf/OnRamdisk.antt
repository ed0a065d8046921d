-- ===== src/Elf/OnRamdisk.antt =====
-- core/elf.cpp over drv/ramdisk.cpp: `load_elf` of a file of the RAM disk.
use jkos.Base.{
  from_some, ℕ, zero, suc, ◌+◌, ◌-◌, ◌%◌, ◌≤◌, ◌<◌, ◌^◌, ◌≡◌, refl, sym, ◌∙◌, ap, subst, Bool-cases,
  inl, inr, true, false, not, ◌||◌, Option, none, some, List, length, arith,
}
use jkos.Base.Int.{ℤ, pos, negsuc, ltb_ℤ}
use jkos.Ramdisk.{
  RamdiskFile, Answer, failed, done, file_size, fetch, seek, read, target, einval,
  ramdisk_get_file_node,
}
use jkos.Ramdisk.Access.{OpenAt, at_offset, left_of, read-Reads}
use jkos.Common.{get_aligned}
use jkos.Common.Align.{get_aligned-Aligned}
use jkos.Kheap.{kheap_finish_init}
use jkos.Elf.{NodeFile, Space, load_elf}
use jkos.Elf.Confined.{IsNodeFile, IsUserMemory, Keeps, load_elf-Keeps}

abbrev moved : Answer ℤ → Option RamdiskFile
moved (failed e) = none
moved (done a f) = some f

abbrev given : Answer (List ℕ) → Option (List ℕ × RamdiskFile)
given (failed e) = none
given (done bs f) = some (bs, f)

-- The calls on a file of the RAM disk, as those of any file; the bytes of the disk are in `disk`.
abbrev pub ramdisk_node : (ℕ → ℕ) → NodeFile RamdiskFile
ramdisk_node disk = record {
  seek = λ offset whence f. moved (seek offset whence f);
  read = λ n f. given (read n f disk);
}

pub data Opened (f : RamdiskFile) : Type 0 where
  opened : (c : ℕ) → OpenAt c f → Opened f

length-fetch : (mem : ℕ → ℕ) (a n : ℕ) → length (fetch mem a n) ≡ n
unfolding fetch
length-fetch mem a zero = refl
length-fetch mem a (suc n) = ap suc (length-fetch mem (a + 1) n)

moved-Opened :
    (c : ℕ) (f : RamdiskFile) (t : ℤ)
    → OpenAt c f
    → (ltb_ℤ t (pos 0) || not (ltb_ℤ t (pos (file_size f)))) ≡ false
    → Opened (record f { cur_offset = t })
moved-Opened c f (pos n) o h = opened n (record {
  is_open = o.is_open;
  at = refl;
  in_file = ground arith;
  bounds = o.bounds;
  in_memory = o.in_memory;
})
moved-Opened c f (negsuc n) o h = ground arith

seek-done :
    (offset : ℤ) (whence c : ℕ) (f : RamdiskFile)
    → OpenAt c f
    → (ltb_ℤ (target offset whence f) (pos 0)
        || not (ltb_ℤ (target offset whence f) (pos (file_size f))))
      ≡ false
    → seek offset whence f
      ≡ done (target offset whence f) (record f { cur_offset = target offset whence f })
unfolding seek
seek-done offset whence c f o b = rw (seek, o.is_open, b) refl

seek-failed :
    (offset : ℤ) (whence c : ℕ) (f : RamdiskFile)
    → OpenAt c f
    → (ltb_ℤ (target offset whence f) (pos 0)
        || not (ltb_ℤ (target offset whence f) (pos (file_size f))))
      ≡ true
    → seek offset whence f ≡ failed einval
unfolding seek
seek-failed offset whence c f o b = rw (seek, o.is_open, b) refl

seek-Opened :
    (disk : ℕ → ℕ) (offset : ℤ) (whence : ℕ) (f f' : RamdiskFile)
    → Opened f
    → (ramdisk_node disk).seek offset whence f ≡ some f'
    → Opened f'
seek-Opened disk offset whence f f' (opened c o) e =
    elim (Bool-cases (
      ltb_ℤ (target offset whence f) (pos 0)
      || not (ltb_ℤ (target offset whence f) (pos (file_size f))))) [
        | inl b ↦
            let q : none ≡ some f' = sym (ap moved (seek-failed offset whence c f o b)) ∙ e in
            ground arith
        | inr b ↦
            let q : some (record f { cur_offset = target offset whence f }) ≡ some f' =
              sym (ap moved (seek-done offset whence c f o b)) ∙ e in
            subst (λ x. Opened x) (from_some _ _ q) (moved-Opened c f (target offset whence f) o b)
      ]

left-le :
    (c n : ℕ) (f : RamdiskFile)
    → (left_of c n f ≤ n) × (c + left_of c n f ≤ c + (f.end - f.start - c))
left-le c n f = (ground arith, ground arith)

read-Opened :
    (disk : ℕ → ℕ) (n : ℕ) (f f' : RamdiskFile) (bs : List ℕ)
    → Opened f
    → (ramdisk_node disk).read n f ≡ some (bs, f')
    → Opened f' × (length bs ≤ n)
read-Opened disk n f f' bs (opened c o) e =
    let m = left_of c n f in
    let a : List ℕ × RamdiskFile = (fetch disk (f.start + c) m, at_offset f (c + m)) in
    let b : List ℕ × RamdiskFile = (bs, f') in
    let q : a ≡ b = from_some _ _ (sym (ap given (read-Reads c n f disk o)) ∙ e) in
    let k = left-le c n f in
    let size : file_size f ≡ f.end - f.start = omega (arith, o.bounds, o.in_memory) in
    (
      subst (λ x. Opened x) (ap (λ x. x.1) q)
          (opened (c + m) (record {
            is_open = o.is_open;
            at = refl;
            in_file = omega (arith, k.1, o.in_file, size);
            bounds = o.bounds;
            in_memory = o.in_memory;
          })),
      omega (arith, k.0, length-fetch disk (f.start + c) m, ap (λ x. length (x.0)) q),
    )

ramdisk-IsNodeFile : (disk : ℕ → ℕ) → IsNodeFile (ramdisk_node disk) Opened
ramdisk-IsNodeFile disk = record {
  seek_open = λ offset whence f f' o e. seek-Opened disk offset whence f f' o e;
  read_open = λ n f f' bs o e. read-Opened disk n f f' bs o e;
}

kheap_finish_init-IsUserMemory :
    (static_end : ℕ)
    → 0 < static_end
    → static_end + 2 ^ 22 ≤ 2 ^ 32
    → let (low, high) = kheap_finish_init static_end in IsUserMemory low high
unfolding kheap_finish_init
kheap_finish_init-IsUserMemory static_end z h =
    let v = get_aligned-Aligned static_end 22 z h in
    let q : get_aligned static_end 22 % 4194304 ≡ 0 = v.multiple in
    record {
      positive = omega (arith, v.low, z);
      low_page = omega (arith, q);
      high_page = refl;
      room = ground arith;
    }

-- After `kheap_finish_init`, `load_elf` of a new node for a part of the RAM disk, whatever that part
-- holds and however it ends, changes no byte outside the memory of the user and asks only for pages
-- there.
pub load_elf_ramdisk :
    (disk : ℕ → ℕ) (start end static_end : ℕ) (p : Space)
    → 0 < static_end
    → static_end + 2 ^ 22 ≤ 2 ^ 32
    → start ≤ end
    → end < 2 ^ 32
    → let (low, high) = kheap_finish_init static_end in
      Keeps Opened low high
        (λ (entry : ℤ). Unit)
        p
        (load_elf (ramdisk_node disk) low high (some (ramdisk_get_file_node start end)) p)
load_elf_ramdisk disk start end static_end p z h b m =
    let (low, high) = kheap_finish_init static_end in
    load_elf-Keeps Opened low high (ramdisk_node disk) (ramdisk-IsNodeFile disk)
      (kheap_finish_init-IsUserMemory static_end z h) (some (ramdisk_get_file_node start end)) p
      (λ f e.
        subst (λ x. Opened x) (from_some _ _ e)
          (opened 0 (record {
            is_open = refl;
            at = refl;
            in_file = omega arith;
            bounds = b;
            in_memory = m;
          })))
