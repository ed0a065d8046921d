-- ===== src/Ramdisk/Access.antt =====
-- drv/ramdisk.cpp: reading, writing and seeking in a file.
use jkos.Base.{
  ℕ, ◌+◌, ◌-◌, ◌^◌, ◌≤◌, ◌<◌, ◌≡◌, ◌≢◌, refl, ap, ◌∙◌, false, ◌==◌, if◌then◌else◌, List, [], ◌∷◌,
  take, length, update, ltb, arith,
}
use jkos.Base.Int.{pos, ◌+ℤ◌, ◌-ℤ◌}
use jkos.Common.{word}
use native.Mathlib.Decide.{ℕ_discrete}
use jkos.Ramdisk.{RamdiskFile, done, file_size, clip, fetch, store, address, seek, read, write}

pub store_below : (mem : ℕ → ℕ) (a : ℕ) (bs : List ℕ) (c : ℕ) → c < a → store mem a bs c ≡ mem c
unfolding store
store_below mem a [] c h = refl
store_below mem a (b ∷ bs) c h =
    store_below (update mem a b) (a + 1) bs c (omega (arith, h)) ∙ (ground arith)

pub store_above :
    (mem : ℕ → ℕ) (a : ℕ) (bs : List ℕ) (c : ℕ) → a + length bs ≤ c → store mem a bs c ≡ mem c
unfolding store
store_above mem a [] c h = refl
store_above mem a (b ∷ bs) c h =
    store_above (update mem a b) (a + 1) bs c (omega (arith, h)) ∙ (ground (arith, h))

fetch-store : (mem : ℕ → ℕ) (a : ℕ) (bs : List ℕ) → fetch (store mem a bs) a (length bs) ≡ bs
unfolding store fetch
fetch-store mem a [] = refl
fetch-store mem a (b ∷ bs) =
    let h : store (update mem a b) (a + 1) bs a ≡ b =
      store_below (update mem a b) (a + 1) bs a (ground arith) ∙ (ground arith) in
    rw (h, fetch-store (update mem a b) (a + 1) bs) refl

-- An open file with its offset at `c`, not behind the end.
pub record OpenAt (c : ℕ) (f : RamdiskFile) : Type 0 where
  pub is_open : f.closed ≡ false
  pub at : f.cur_offset ≡ pos c
  pub in_file : c ≤ file_size f
  pub bounds : f.start ≤ f.end
  pub in_memory : f.end < 2 ^ 32

file_size-lem : (c : ℕ) (f : RamdiskFile) → OpenAt c f → file_size f ≡ f.end - f.start
file_size-lem c f o = omega (arith, o.bounds, o.in_memory)

clip-lem :
    (c cnt : ℕ) (f : RamdiskFile)
    → OpenAt c f
    → clip cnt f ≡ (if ltb cnt (f.end - f.start - c) then cnt else f.end - f.start - c)
unfolding ◌-ℤ◌
clip-lem c cnt f o =
    let s = file_size-lem c f o in
    let h : c ≤ f.end - f.start = rw (← s) o.in_file in
    rw (o.at, s) (ground (arith, h, o.in_memory))

address-lem : (c : ℕ) (f : RamdiskFile) → OpenAt c f → address f ≡ f.start + c
unfolding ◌+ℤ◌
address-lem c f o =
    let s = file_size-lem c f o in
    let h : c ≤ f.end - f.start = rw (← s) o.in_file in
    let w : word (f.start + c) ≡ f.start + c = omega (arith, h, o.bounds, o.in_memory) in
    rw o.at (ground (arith, w))

abbrev pub at_offset : RamdiskFile → ℕ → RamdiskFile
at_offset f n = record f { cur_offset = pos n }

-- The number of bytes left at the offset `c`, if fewer than `cnt`.
abbrev pub left_of : ℕ → ℕ → RamdiskFile → ℕ
left_of c cnt f = if ltb cnt (f.end - f.start - c) then cnt else f.end - f.start - c

moved-lem : (c n : ℕ) (f : RamdiskFile) → f.cur_offset ≡ pos c → f.cur_offset +ℤ pos n ≡ pos (c + n)
unfolding ◌+ℤ◌
moved-lem c n f e = rw e (ground arith)

read-lem :
    (c cnt : ℕ) (f : RamdiskFile) (mem : ℕ → ℕ)
    → OpenAt c f
    → left_of c cnt f ≢ 0
    → read cnt f mem
      ≡ done (fetch mem (f.start + c) (left_of c cnt f)) (at_offset f (c + left_of c cnt f))
unfolding read
read-lem c cnt f mem o n =
    let b : (left_of c cnt f == 0) ≡ false = ground arith in
    rw (o.is_open, clip-lem c cnt f o, b, address-lem c f o, moved-lem c (left_of c cnt f) f o.at)
      refl

write-lem :
    (c : ℕ) (buf : List ℕ) (f : RamdiskFile) (mem : ℕ → ℕ)
    → OpenAt c f
    → left_of c (length buf) f ≢ 0
    → write buf f mem
      ≡ done
          (left_of c (length buf) f, store mem (f.start + c) (take (left_of c (length buf) f) buf))
          (at_offset f (c + left_of c (length buf) f))
unfolding write
write-lem c buf f mem o n =
    let b : (left_of c (length buf) f == 0) ≡ false = ground arith in
    rw
      (
        o.is_open,
        clip-lem c (length buf) f o,
        b,
        address-lem c f o,
        moved-lem c (left_of c (length buf) f) f o.at,
      )
      refl

seek-lem :
    (c d : ℕ) (f : RamdiskFile)
    → OpenAt c f
    → d < f.end - f.start
    → seek (pos d) 0 f ≡ done (pos d) (at_offset f d)
unfolding seek
seek-lem c d f o h = let s = file_size-lem c f o in rw (o.is_open, s) (ground (arith, h))

take-all : (bs : List ℕ) → take (length bs) bs ≡ bs
take-all [] = refl
take-all (b ∷ bs) = ap (λ xs. b ∷ xs) (take-all bs)

-- Bytes written at an offset of an open file, where they all fit and there is one at least, are
-- all written and leave the file open behind them; a seek back to the offset and a read of their
-- number give the same bytes, and leave the file as after the write.
pub write-read :
    (c : ℕ) (buf : List ℕ) (f : RamdiskFile) (mem : ℕ → ℕ)
    → OpenAt c f
    → length buf ≢ 0
    → c + length buf ≤ f.end - f.start
    → let mem' = store mem (f.start + c) buf in
      (write buf f mem ≡ done (length buf, mem') (at_offset f (c + length buf)))
      × (seek (pos c) 0 (at_offset f (c + length buf)) ≡ done (pos c) (at_offset f c))
      × (read (length buf) (at_offset f c) mem' ≡ done buf (at_offset f (c + length buf)))
write-read c buf f mem o n h =
    let k : left_of c (length buf) f ≡ length buf = ground (arith, h) in
    let s = file_size-lem c f o in
    let o1 : OpenAt (c + length buf) (at_offset f (c + length buf)) = record {
      is_open = o.is_open;
      at = refl;
      in_file = rw s h;
      bounds = o.bounds;
      in_memory = o.in_memory;
    } in
    let o2 : OpenAt c (at_offset f c) = record {
      is_open = o.is_open;
      at = refl;
      in_file = o.in_file;
      bounds = o.bounds;
      in_memory = o.in_memory;
    } in
    let a = write-lem c buf f mem o (rw k n) in
    let b = read-lem c (length buf) (at_offset f c) (store mem (f.start + c) buf) o2 (rw k n) in
    (
      rw (k, take-all buf) at a,
      seek-lem (c + length buf) c (at_offset f (c + length buf)) o1 (ground (arith, h, n)),
      rw (k, fetch-store mem (f.start + c) buf) at b,
    )

read-none :
    (c cnt : ℕ) (f : RamdiskFile) (mem : ℕ → ℕ)
    → OpenAt c f
    → left_of c cnt f ≡ 0
    → read cnt f mem ≡ done [] f
unfolding read
read-none c cnt f mem o z = rw (o.is_open, clip-lem c cnt f o, z) refl

-- A read of an open file copies the bytes from the offset on, up to the number asked for and no
-- further than the end, and moves the offset behind them; behind the last byte it gives none.
pub read-Reads :
    (c cnt : ℕ) (f : RamdiskFile) (mem : ℕ → ℕ)
    → OpenAt c f
    → read cnt f mem
      ≡ done (fetch mem (f.start + c) (left_of c cnt f)) (at_offset f (c + left_of c cnt f))
unfolding read fetch
read-Reads c cnt f mem o = elim (ℕ_discrete (left_of c cnt f) 0) [
  | no n ↦ read-lem c cnt f mem o n
  | yes z ↦
      let e : c ≡ c + 0 = omega arith in
      rw z (
        read-none c cnt f mem o z
        ∙ ap (λ x. done [] (record f { cur_offset = x })) (o.at ∙ ap pos e))
]
