-- ===== src/Elf.antt =====
-- core/elf.cpp: `load_elf`, over any file with a `seek` and a `read` (include/fs/base.h).
pub mod Confined
pub mod Segment
pub mod Ends
pub mod OnRamdisk
mod Tests
use jkos.Base.{
  ℕ, zero, suc, ◌+◌, ◌-◌, ◌*◌, ◌%◌, ◌^◌, Bool, true, false, not, Option, none, some, List, [], ◌∷◌,
  length, ◌==◌, ◌&&◌, ◌||◌, ltb, leb, if◌then◌else◌,
}
use jkos.Base.Int.{ℤ, pos, negsuc}
use jkos.Common.{word, min, get_aligned, page_floor}
use jkos.Ramdisk.{store}

-- What `load_elf` calls of a `Node_file`: `none` is the result -1, and `read` gives the bytes that it
-- copies to the buffer.
pub record NodeFile (F : Type 0) : Type 0 where
  pub seek : ℤ → ℕ → F → Option F
  pub read : ℕ → F → Option (List ℕ × F)

-- The fields of `Elf32_Ehdr` that the code reads.
pub record ElfHeader : Type 0 where
  pub ident : ℕ → ℕ
  pub type : ℕ
  pub machine : ℕ
  pub version : ℕ
  pub entry : ℕ
  pub phoff : ℕ
  pub phentsize : ℕ
  pub phnum : ℕ

-- The fields of `Elf32_Phdr` that the code reads.
pub record ProgramHeader : Type 0 where
  pub type : ℕ
  pub offset : ℕ
  pub vaddr : ℕ
  pub filesz : ℕ
  pub memsz : ℕ

-- The bytes of the buffer as fields, the lowest byte first.
abbrev pub byte : List ℕ → ℕ → ℕ
byte [] i = 0
byte (b ∷ bs) zero = b
byte (b ∷ bs) (suc i) = byte bs i

abbrev pub half_word : List ℕ → ℕ → ℕ
half_word bs i = byte bs i + byte bs (i + 1) * 2 ^ 8

abbrev pub full_word : List ℕ → ℕ → ℕ
full_word bs i = half_word bs i + half_word bs (i + 2) * 2 ^ 16

unfoldable pub elf_header : List ℕ → ElfHeader
elf_header bs = record {
  ident = byte bs;
  type = half_word bs 16;
  machine = half_word bs 18;
  version = full_word bs 20;
  entry = full_word bs 24;
  phoff = full_word bs 28;
  phentsize = half_word bs 42;
  phnum = half_word bs 44;
}

unfoldable pub program_header : List ℕ → ProgramHeader
program_header bs = record {
  type = full_word bs 0;
  offset = full_word bs 4;
  vaddr = full_word bs 8;
  filesz = full_word bs 16;
  memsz = full_word bs 20;
}

unfoldable pub is_header_valid : ElfHeader → Bool
is_header_valid h =
    h.ident 0 == 0x7F
    && h.ident 1 == 69
    && h.ident 2 == 76
    && h.ident 3 == 70
    && h.ident 4 == 1
    && h.ident 5 == 1
    && h.ident 6 == 1
    && h.type == 2
    && h.machine == 3
    && h.version == 1
    && not (h.entry == 0)
    && not (h.phoff == 0)
    && not (h.phnum == 0)
    && h.phentsize == 32

-- The calls to `Page::current_page_dir`: pages in an interval, the page of an address, and pages that
-- are filled with zeros at their first use.
pub data LoadCall : Type 0 where
  allocates : ℕ → ℕ → LoadCall
  allocates_page : ℕ → LoadCall
  fills_lazily : ℕ → ℕ → LoadCall

-- The bytes of the address space, and the calls made, the last one first.
pub record Space : Type 0 where
  pub memory : ℕ → ℕ
  pub calls : List LoadCall

pub record Loader (F : Type 0) : Type 0 where
  pub file : F
  pub space : Space

-- The end of a part of `load_elf`: `ERROR_RETURN`, or a value.
pub data Outcome (F A : Type 0) : Type 0 where
  failed : ℕ → Space → Outcome F A
  done : A → Loader F → Outcome F A

pub and_then : {F A B : Type 0} → Outcome F A → (A → Loader F → Outcome F B) → Outcome F B
and_then (failed e s) f = failed e s
and_then (done a s) f = f a s

abbrev pub enoent : ℕ
enoent = 2

abbrev pub eio : ℕ
eio = 5

abbrev pub enoexec : ℕ
enoexec = 8

abbrev pub enomem : ℕ
enomem = 12

-- A `uint32_t` that is returned as an `int`.
abbrev pub signed : ℕ → ℤ
signed n = if ltb n (2 ^ 31) then pos n else negsuc (2 ^ 32 - 1 - n)

-- `memset(a, 0, n)`
unfoldable pub zero_bytes : (ℕ → ℕ) → ℕ → ℕ → ℕ → ℕ
zero_bytes m a n x = if leb a x && ltb x (a + n) then 0 else m x

abbrev pub call : LoadCall → Space → Space
call c s = record s { calls = c ∷ s.calls }

-- A part of a page is allocated and cleared, from `a` to `b`, unless it is empty.
unfoldable pub clear_part : ℕ → ℕ → Space → Space
clear_part a b s = if a == b then s else record s {
  memory = zero_bytes s.memory a (word (b + 2 ^ 32 - a));
  calls = allocates_page a ∷ s.calls;
}

-- The bytes of the segment from `start` to `end`, which are not in the file.
unfoldable pub clear_rest : ℕ → ℕ → Space → Space
unfolding clear_part
clear_rest start end s =
    let start_alg = get_aligned start 12 in
    let end_alg = page_floor end in
    if ltb start end
    then call (fills_lazily start_alg end_alg)
        (clear_part end_alg end (clear_part start start_alg s))
    else s

module _ {F : Type 0} (node : NodeFile F) where
  -- A read that fails unless it gives all bytes asked for.
  unfoldable pub read_all : ℕ → Loader F → Outcome F (List ℕ)
  read_all n s = elim (node.read n s.file) [
    | none ↦ failed eio s.space
    | some r ↦
        let s' = record s { file = r.1 } in
        if length (r.0) == n then done (r.0) s' else failed eio s'.space
  ]

  unfoldable pub seek_to : ℕ → Loader F → Outcome F Unit
  seek_to offset s = elim (node.seek (pos offset) 0 s.file) [
    | none ↦ failed eio s.space
    | some f ↦ done tt (record s { file = f })
  ]

  -- The read of the part of a segment that is in the file, to the memory.
  unfoldable pub read_to : ℕ → ℕ → Loader F → Outcome F Unit
  read_to a n s = elim (node.read n s.file) [
    | none ↦ failed eio s.space
    | some r ↦
        let s' = record s {
          file = r.1;
          space = record s.space { memory = store s.space.memory a (r.0) };
        } in
        if length (r.0) == n then done tt s' else failed eio s'.space
  ]

  -- The end of the bytes that come from the file.
  unfoldable pub load_file : ProgramHeader → Loader F → Outcome F ℕ
  unfolding seek_to read_to
  load_file h s =
      let n = min h.filesz h.memsz in
      if h.filesz == 0
      then done h.vaddr s
      else and_then (seek_to h.offset s) (λ u s1.
        and_then
          (read_to h.vaddr n (record s1 {
            space =
                call (allocates (page_floor h.vaddr) (get_aligned (word (h.vaddr + h.memsz)) 12))
                  s1.space;
          }))
          (λ v s2. done (word (h.vaddr + n)) s2))

  -- One program header; the result tells whether it was loaded.
  unfoldable pub load_segment : ℕ → ℕ → ProgramHeader → Loader F → Outcome F Bool
  unfolding load_file clear_rest
  load_segment low high h s =
      if not (h.type == 1) || h.memsz == 0
      then done false s
      else if ltb h.vaddr low || ltb high (h.vaddr + h.memsz)
      then failed enomem s.space
      else and_then (load_file h s) (λ start s1.
        done true (record s1 { space = clear_rest start (word (h.vaddr + h.memsz)) s1.space }))

  -- The loop over the headers `i` to `i + n - 1`.
  unfoldable pub load_segments : ℕ → ℕ → ElfHeader → ℕ → ℕ → Bool → Loader F → Outcome F Bool
  unfolding read_all seek_to load_segment
  load_segments low high h zero i load_done s = done load_done s
  load_segments low high h (suc n) i load_done s =
      and_then (seek_to (word (i * 32 + h.phoff)) s) (λ u s1. and_then (read_all 32 s1) (λ bs s2.
        and_then (load_segment low high (program_header bs) s2)
          (λ b s3. load_segments low high h n (i + 1) (b || load_done) s3)))

  -- `load_elf`; the result is `e_entry`, as an `int`.
  unfoldable pub load_elf : ℕ → ℕ → Option F → Space → Outcome F ℤ
  unfolding read_all load_segments
  load_elf low high none p = failed enoent p
  load_elf low high (some file) p =
      and_then (read_all 52 (record { file = file; space = p })) (λ bs s1.
        let h = elf_header bs in
        if not (is_header_valid h)
        then failed enoexec s1.space
        else and_then (load_segments low high h h.phnum 0 false s1) (λ load_done s2.
          if load_done then done (signed h.entry) s2 else failed enoexec s2.space))
