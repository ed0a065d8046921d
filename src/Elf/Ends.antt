-- ===== src/Elf/Ends.antt =====
-- core/elf.cpp: how `load_elf` ends, and with which error.
use jkos.Base.{
  ℕ, ◌<◌, ◌≡◌, ◌≢◌, ◌⊎◌, refl, ◌∙◌, ap, Bool, Option-cases, inl, inr, true, false, not, Option,
  none, some, List, length, ◌==◌, if◌then◌else◌, arith,
}
use jkos.Base.Int.{ℤ, pos}
use jkos.Elf.{
  NodeFile, ElfHeader, Space, Loader, Outcome, failed, done, and_then, call, read_all,
  load_segments, load_elf, is_header_valid, signed, elf_header, enoent, eio, enoexec, enomem,
}

-- A part of `load_elf` fails with EIO or ENOMEM, or gives a value with the property `V`.
abbrev Gives : {F A : Type 0} → (A → Space → Type 0) → Outcome F A → Type 0
Gives V (failed e q) = (e ≡ eio) ⊎ (e ≡ enomem)
Gives V (done a s) = V a s.space

-- Segments were loaded, and pages asked for, or nothing was touched.
data Loads (p : Space) (load_done : Bool) (q : Space) : Type 0 where
  untouched : load_done ≡ false → q ≡ p → Loads p load_done q
  loads : load_done ≡ true → length p.calls < length q.calls → Loads p load_done q

module _ {F : Type 0} (node : NodeFile F) where
  -- The first 52 bytes of the file are a header that `is_header_valid` accepts.
  pub record IsElf (f : F) (bs : List ℕ) : Type 0 where
    pub rest : F
    pub read : node.read 52 f ≡ some (bs, rest)
    pub size : length bs ≡ 52
    pub valid : is_header_valid (elf_header bs) ≡ true

  pub data Ends (file : Option F) (p : Space) (call : Outcome F ℤ) : Type 0 where
    null : file ≡ none → call ≡ failed enoent p → Ends file p call
    short :
        (f : F)
        → file ≡ some f
        → ((r : List ℕ × F) → node.read 52 f ≡ some r → length (r.0) ≢ 52)
        → call ≡ failed eio p
        → Ends file p call
    refused :
        (f f' : F) (bs : List ℕ)
        → file ≡ some f
        → node.read 52 f ≡ some (bs, f')
        → length bs ≡ 52
        → is_header_valid (elf_header bs) ≡ false
        → call ≡ failed enoexec p
        → Ends file p call
    stopped :
        (f : F) (bs : List ℕ)
        → file ≡ some f
        → IsElf f bs
        → (e : ℕ) (q : Space) → call ≡ failed e q
        → (e ≡ eio) ⊎ (e ≡ enomem)
        → Ends file p call
    empty :
        (f : F) (bs : List ℕ)
        → file ≡ some f
        → IsElf f bs
        → call ≡ failed enoexec p
        → Ends file p call
    loaded :
        (f : F) (bs : List ℕ)
        → file ≡ some f
        → IsElf f bs
        → (s : Loader F) → call ≡ done (signed (elf_header bs).entry) s
        → signed (elf_header bs).entry ≢ pos 0
        → length p.calls < length s.space.calls
        → Ends file p call

  read_all-failed :
      (n : ℕ) (s : Loader F)
      → ((r : List ℕ × F) → node.read n s.file ≡ some r → length (r.0) ≢ n)
      → read_all node n s ≡ failed eio s.space
  unfolding read_all
  read_all-failed n s h = elim (Option-cases (node.read n s.file)) [
    | inl e ↦ rw (read_all, e) refl
    | inr r ↦
        let l = h (r.0) (r.1) in
        let b : (length (r.0.0) == n) ≡ false = ground arith in rw (read_all, r.1, b) refl
  ]

  -- `load_elf` after the header was read.
  abbrev loading : ℕ → ℕ → ElfHeader → Loader F → Outcome F ℤ
  loading low high h s1 =
      if not (is_header_valid h)
      then failed enoexec s1.space
      else and_then (load_segments node low high h h.phnum 0 false s1)
          (λ load_done s2. if load_done then done (signed h.entry) s2 else failed enoexec s2.space)

  load_elf-some :
      (low high : ℕ) (f : F) (p : Space)
      → load_elf node low high (some f) p
        ≡ and_then
            (read_all node 52 (record { file = f; space = p }))
            (λ bs s1. loading low high (elf_header bs) s1)
  unfolding load_elf
  load_elf-some low high f p = refl

  pub load_elf-short :
      (low high : ℕ) (f : F) (p : Space)
      → ((r : List ℕ × F) → node.read 52 f ≡ some r → length (r.0) ≢ 52)
      → load_elf node low high (some f) p ≡ failed eio p
  unfolding and_then
  load_elf-short low high f p h =
      load_elf-some low high f p
      ∙ ap (λ o. and_then o (λ bs s1. loading low high (elf_header bs) s1))
          (read_all-failed 52 (record { file = f; space = p }) h)
