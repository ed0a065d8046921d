-- ===== src/Elf/Confined.antt =====
-- core/elf.cpp: `load_elf` stays in the memory of the user.
use jkos.Base.{
  ℕ, zero, suc, ◌+◌, ◌-◌, ◌*◌, ◌%◌, ◌^◌, ◌≤◌, ◌<◌, ◌≡◌, refl, sym, ◌∙◌, ap, Bool, Bool-cases,
  Option-cases, ◌≢◌, inl, inr, false, not, Option, none, some, List, [], ◌∷◌, ◌++◌, length, All,
  All-append, append_assoc, ◌==◌, ◌||◌, ltb, arith,
}
use jkos.Base.Int.{ℤ, pos}
use jkos.Common.{word, min, get_aligned, page_floor}
use jkos.Common.Align.{Aligned, get_aligned-Aligned}
use jkos.Ramdisk.{store}
use jkos.Ramdisk.Access.{store_below, store_above}
use jkos.Elf.{
  NodeFile, ProgramHeader, ElfHeader, LoadCall, allocates, allocates_page, fills_lazily, Space,
  Loader, Outcome, failed, done, and_then, call, zero_bytes, clear_part, clear_rest, read_all,
  seek_to, read_to, load_file, load_segment, load_segments, load_elf, is_header_valid, elf_header,
  program_header,
}

-- A file gives no more bytes than it is asked for, as long as it is open.
pub record IsNodeFile {F : Type 0} (node : NodeFile F) (IsOpen : F → Type 0) : Type 0 where
  pub seek_open :
      (offset : ℤ) (whence : ℕ) (f f' : F)
      → IsOpen f
      → node.seek offset whence f ≡ some f'
      → IsOpen f'
  pub read_open :
      (n : ℕ) (f f' : F) (bs : List ℕ)
      → IsOpen f
      → node.read n f ≡ some (bs, f')
      → IsOpen f' × (length bs ≤ n)

-- The bounds of the memory of the user are those of pages, in 32 bits.
pub record IsUserMemory (low high : ℕ) : Type 0 where
  pub positive : 0 < low
  pub low_page : low % 4096 ≡ 0
  pub high_page : (high + 1) % 4096 ≡ 0
  pub room : high + 1 + 4096 ≤ 2 ^ 32

abbrev pub InRange : ℕ → ℕ → LoadCall → Type 0
InRange low high (allocates b e) = (low ≤ b) × (e ≤ high + 1)
InRange low high (allocates_page a) = (low ≤ a) × (a ≤ high)
InRange low high (fills_lazily b e) = (low ≤ b) × (e ≤ high + 1)

-- From one space to the next only bytes of `low` to `high` changed, and calls were made for pages
-- there.
pub record Confined (low high : ℕ) (p q : Space) : Type 0 where
  pub below : (a : ℕ) → a < low → q.memory a ≡ p.memory a
  pub above : (a : ℕ) → high < a → q.memory a ≡ p.memory a
  pub made : List LoadCall
  pub calls : q.calls ≡ made ++ p.calls
  pub in_range : All (InRange low high) made

Confined-refl : (low high : ℕ) (p : Space) → Confined low high p p
Confined-refl low high p = record {
  below = λ a h. refl;
  above = λ a h. refl;
  made = [];
  calls = refl;
  in_range = tt;
}

Confined-trans :
    (low high : ℕ) (p q r : Space)
    → Confined low high p q
    → Confined low high q r
    → Confined low high p r
Confined-trans low high p q r u v = record {
  below = λ a h. v.below a h ∙ u.below a h;
  above = λ a h. v.above a h ∙ u.above a h;
  made = v.made ++ u.made;
  calls = v.calls ∙ ap (λ x. v.made ++ x) u.calls ∙ sym (append_assoc v.made u.made p.calls);
  in_range = All-append (InRange low high) v.made u.made v.in_range u.in_range;
}

call-Confined :
    (low high : ℕ) (c : LoadCall) (p : Space) → InRange low high c → Confined low high p (call c p)
call-Confined low high c p h = record {
  below = λ a h. refl;
  above = λ a h. refl;
  made = c ∷ [];
  calls = refl;
  in_range = (h, tt);
}

-- The start and the end of a part of a page, in the memory of the user.
clear_part-Confined :
    (low high a b : ℕ) (p : Space)
    → low ≤ a
    → a ≤ high
    → a ≤ b
    → b ≤ high + 1
    → high + 1 < 2 ^ 32
    → Confined low high p (clear_part a b p)
unfolding clear_part zero_bytes
clear_part-Confined low high a b p l i h k w = elim (Bool-cases (a == b)) [
  | inl e ↦ rw e (Confined-refl low high p)
  | inr e ↦
      let n : word (b + 2 ^ 32 - a) ≡ b - a = omega arith in
      rw (e, n)
        (record {
          below = λ x h. ground arith;
          above = λ x h. ground arith;
          made = allocates_page a ∷ [];
          calls = refl;
          in_range = ((l, i), tt);
        })
]

clear_rest-Confined :
    (low high start end : ℕ) (p : Space)
    → IsUserMemory low high
    → low ≤ start
    → end ≤ high
    → Confined low high p (clear_rest start end p)
unfolding clear_rest
clear_rest-Confined low high start end p u l h = elim (Bool-cases (ltb start end)) [
  | inr e ↦ rw e (Confined-refl low high p)
  | inl e ↦
      let e_lt : start < end = ground arith in
      let sa = get_aligned start 12 in
      let ea = page_floor end in
      let v : Aligned start 12 sa =
        get_aligned-Aligned start 12 (omega (arith, u.positive)) (ground (arith, u.room)) in
      let s_high : sa ≤ high + 1 = omega (arith, l, h, e_lt, v.high, v.multiple, u.high_page) in
      let e_low : low ≤ ea = omega (arith, l, e_lt, u.low_page) in
      let q = clear_part start sa p in
      let r = clear_part ea end q in
      rw e (
        Confined-trans low high p r _
          (Confined-trans low high p q r
            (clear_part-Confined low high start sa p l (ground arith) v.low s_high
              (omega (arith, u.room)))
            (clear_part-Confined low high ea end q e_low (omega arith) (omega arith) (omega arith)
              (omega (arith, u.room))))
          (call-Confined low high (fills_lazily sa ea) r (omega (arith, v.low), omega arith)))
]

module _ {F : Type 0} (IsOpen : F → Type 0) (low high : ℕ) where
  -- Both ends of a part stay in the memory of the user; a file that goes on is open, and the value has
  -- the property `V`.
  abbrev pub Keeps : {A : Type 0} → (A → Type 0) → Space → Outcome F A → Type 0
  Keeps V p (failed e q) = Confined low high p q
  Keeps V p (done a s) = V a × Confined low high p s.space × IsOpen s.file

  Keeps-trans :
      {B : Type 0} (W : B → Type 0) (p q : Space) (o : Outcome F B)
      → Confined low high p q
      → Keeps W q o
      → Keeps W p o
  Keeps-trans W p q (failed e r) u v = Confined-trans low high p q r u v
  Keeps-trans W p q (done b s) u v = (v.0, Confined-trans low high p q s.space u (v.1), v.2)

  and_then-Keeps :
      {A B : Type 0} (V : A → Type 0) (W : B → Type 0) (p : Space) (o : Outcome F A)
      (f : A → Loader F → Outcome F B)
      → Keeps V p o
      → ((a : A) (s : Loader F) → V a → IsOpen s.file → Keeps W s.space (f a s))
      → Keeps W p (and_then o f)
  unfolding and_then
  and_then-Keeps V W p (failed e q) f h g = h
  and_then-Keeps V W p (done a s) f h g = Keeps-trans W p s.space (f a s) (h.1) (g a s (h.0) (h.2))

  module _ (node : NodeFile F) (l : IsNodeFile node IsOpen) (u : IsUserMemory low high) where
    seek_to-Keeps :
        (offset : ℕ) (s : Loader F)
        → IsOpen s.file
        → Keeps (λ (v : Unit). Unit) s.space (seek_to node offset s)
    unfolding seek_to
    seek_to-Keeps offset s o = elim (Option-cases (node.seek (pos offset) 0 s.file)) [
      | inl e ↦ rw (Keeps, e) (Confined-refl low high s.space)
      | inr r ↦ rw (Keeps, r.1) (tt, Confined-refl low high s.space, l.seek_open _ _ _ _ o (r.1))
    ]

    read_all-Keeps :
        (n : ℕ) (s : Loader F)
        → IsOpen s.file
        → Keeps (λ (v : List ℕ). Unit) s.space (read_all node n s)
    unfolding read_all
    read_all-Keeps n s o = elim (Option-cases (node.read n s.file)) [
      | inl e ↦ rw (Keeps, e) (Confined-refl low high s.space)
      | inr r ↦
          rw (Keeps, r.1)
            (elim (Bool-cases (length (r.0.0) == n)) [
              | inl b ↦ rw b (
                tt,
                Confined-refl low high s.space,
                (l.read_open n s.file (r.0.1) (r.0.0) o (r.1)).0,
              )
              | inr b ↦ rw b (Confined-refl low high s.space)
            ])
    ]

    stored-Confined :
        (a n : ℕ) (bs : List ℕ) (p : Space)
        → low ≤ a
        → a + n ≤ high + 1
        → length bs ≤ n
        → Confined low high p (record p { memory = store p.memory a bs })
    stored-Confined a n bs p h k w = record {
      below = λ x i. store_below p.memory a bs x (omega (arith, h));
      above = λ x i. store_above p.memory a bs x (omega (arith, k, w));
      made = [];
      calls = refl;
      in_range = tt;
    }

    read_to-Keeps :
        (a n : ℕ) (s : Loader F)
        → low ≤ a
        → a + n ≤ high + 1
        → IsOpen s.file
        → Keeps (λ (v : Unit). Unit) s.space (read_to node a n s)
    unfolding read_to
    read_to-Keeps a n s h k o = elim (Option-cases (node.read n s.file)) [
      | inl e ↦ rw (Keeps, e) (Confined-refl low high s.space)
      | inr r ↦
          let w = l.read_open n s.file (r.0.1) (r.0.0) o (r.1) in
          let c = stored-Confined a n (r.0.0) s.space h k (w.1) in
          rw (Keeps, r.1)
            (elim (Bool-cases (length (r.0.0) == n)) [ inl b ↦ rw b (tt, c, w.0) | inr b ↦ rw b c ])
    ]

    load_file-Keeps :
        (h : ProgramHeader) (s : Loader F)
        → low ≤ h.vaddr
        → h.vaddr + h.memsz ≤ high
        → h.memsz ≢ 0
        → IsOpen s.file
        → Keeps (λ start. low ≤ start) s.space (load_file node h s)
    unfolding load_file
    load_file-Keeps h s k i z o = elim (Bool-cases (h.filesz == 0)) [
      | inl e ↦ rw e (k, Confined-refl low high s.space, o)
      | inr e ↦
          let n = min h.filesz h.memsz in
          let n_le : n ≤ h.memsz = ground arith in
          let c = allocates (page_floor h.vaddr) (get_aligned (word (h.vaddr + h.memsz)) 12) in
          let v =
            get_aligned-Aligned (h.vaddr + h.memsz) 12 (omega (arith, u.positive, k))
              (ground (arith, u.room, i)) in
          let w : word (h.vaddr + h.memsz) ≡ h.vaddr + h.memsz = omega (arith, u.room, i) in
          let x : word (h.vaddr + n) ≡ h.vaddr + n = omega (arith, u.room, i, n_le) in
          let e_high : get_aligned (word (h.vaddr + h.memsz)) 12 ≤ high + 1 =
            rw w (omega (arith, i, v.high, v.multiple, u.high_page)) in
          let r : InRange low high c = (omega (arith, k, u.low_page), e_high) in
          rw e (
            and_then-Keeps (λ v. Unit) (λ start. low ≤ start) s.space (seek_to node h.offset s) _
              (seek_to-Keeps h.offset s o)
              (λ y s1 y' o1.
                and_then-Keeps (λ v. Unit) (λ start. low ≤ start) s1.space _ _
                  (Keeps-trans (λ v. Unit) s1.space (call c s1.space) _
                    (call-Confined low high c s1.space r)
                    (read_to-Keeps h.vaddr n (record s1 { space = call c s1.space }) k
                      (omega (arith, i, n_le)) o1))
                  (λ z s2 z' o2. (rw x (omega (arith, k)), Confined-refl low high s2.space, o2))))
    ]

    load_segment-Keeps :
        (h : ProgramHeader) (s : Loader F)
        → IsOpen s.file
        → Keeps (λ (b : Bool). Unit) s.space (load_segment node low high h s)
    unfolding load_segment
    load_segment-Keeps h s o = elim (Bool-cases (not (h.type == 1) || h.memsz == 0)) [
      | inl e ↦ rw e (tt, Confined-refl low high s.space, o)
      | inr e ↦ rw e (elim (Bool-cases (ltb h.vaddr low || ltb high (h.vaddr + h.memsz))) [
        | inl b ↦ rw b (Confined-refl low high s.space)
        | inr b ↦
            let k : low ≤ h.vaddr = ground arith in
            let i : h.vaddr + h.memsz ≤ high = ground arith in
            let w : word (h.vaddr + h.memsz) ≡ h.vaddr + h.memsz = omega (arith, u.room, i) in
            rw b (
              and_then-Keeps (λ start. low ≤ start) (λ v. Unit) s.space (load_file node h s) _
                (load_file-Keeps h s k i (ground arith) o)
                (λ start s1 m o1. (
                  tt,
                  clear_rest-Confined low high start (word (h.vaddr + h.memsz)) s1.space u m
                      (rw w i),
                  o1,
                )))
      ])
    ]

    load_segments-Keeps :
        (h : ElfHeader) (n i : ℕ) (load_done : Bool) (s : Loader F)
        → IsOpen s.file
        → Keeps (λ (b : Bool). Unit) s.space (load_segments node low high h n i load_done s)
    unfolding load_segments
    load_segments-Keeps h zero i load_done s o = (tt, Confined-refl low high s.space, o)
    load_segments-Keeps h (suc n) i load_done s o =
        and_then-Keeps (λ v. Unit) (λ v. Unit) s.space (seek_to node (word (i * 32 + h.phoff)) s) _
          (seek_to-Keeps _ s o)
          (λ x s1 v1 o1.
            and_then-Keeps (λ v. Unit) (λ v. Unit) s1.space (read_all node 32 s1) _
              (read_all-Keeps 32 s1 o1)
              (λ bs s2 v2 o2.
                and_then-Keeps (λ v. Unit) (λ v. Unit) s2.space
                  (load_segment node low high (program_header bs) s2) _
                  (load_segment-Keeps (program_header bs) s2 o2)
                  (λ b s3 v3 o3. load_segments-Keeps h n (i + 1) (b || load_done) s3 o3)))

    -- Whatever an open file holds, and however `load_elf` ends, it changes no byte outside the memory of
    -- the user, and the pages that it asks for are there.
    pub load_elf-Keeps :
        (file : Option F) (p : Space)
        → ((f : F) → file ≡ some f → IsOpen f)
        → Keeps (λ (entry : ℤ). Unit) p (load_elf node low high file p)
    unfolding load_elf
    load_elf-Keeps none p o = Confined-refl low high p
    load_elf-Keeps (some file) p o =
        and_then-Keeps (λ v. Unit) (λ v. Unit) p
          (read_all node 52 (record { file = file; space = p })) _
          (read_all-Keeps 52 (record { file = file; space = p }) (o file refl))
          (λ bs s1 v1 o1. elim (Bool-cases (is_header_valid (elf_header bs))) [
            | inr b ↦ rw b (Confined-refl low high s1.space)
            | inl b ↦ rw b (
                and_then-Keeps (λ v. Unit) (λ v. Unit) s1.space _ _
                  (load_segments-Keeps (elf_header bs) (elf_header bs).phnum 0 false s1 o1)
                  (λ d s2 v2 o2. elim (Bool-cases d) [
                    | inl e ↦ rw e (tt, Confined-refl low high s2.space, o2)
                    | inr e ↦ rw e (Confined-refl low high s2.space)
                  ]))
          ])
