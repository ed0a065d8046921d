-- ===== src/Elf/Segment.antt =====
-- core/elf.cpp: what the memory of a segment holds after it was loaded.
use jkos.Base.{
  ℕ, zero, suc, ◌+◌, ◌-◌, ◌^◌, ◌≤◌, ◌<◌, ◌≡◌, ◌≢◌, ◌⊎◌, refl, sym, ◌∙◌, ap, subst, Bool, Bool-cases,
  inl, inr, true, false, not, some, List, [], ◌∷◌, length, update, ◌==◌, ◌||◌, ltb, arith,
}
use jkos.Base.Int.{pos}
use jkos.Common.{word, min, get_aligned, page_floor}
use jkos.Common.Align.{Aligned, get_aligned-Aligned}
use jkos.Ramdisk.{store}
use jkos.Ramdisk.Access.{store_below}
use jkos.Elf.{
  NodeFile, ProgramHeader, LoadCall, allocates, fills_lazily, Space, Loader, Outcome, done,
  and_then, call, byte, zero_bytes, clear_part, clear_rest, seek_to, read_to, load_file,
  load_segment,
}
use jkos.Elf.Confined.{IsUserMemory}

store_at :
    (mem : ℕ → ℕ) (a : ℕ) (bs : List ℕ) (i : ℕ) → i < length bs → store mem a bs (a + i) ≡ byte bs i
unfolding store
store_at mem a [] i h = ground arith
store_at mem a (b ∷ bs) zero h =
    ap (λ x. store (update mem a b) (a + 1) bs x) (omega arith)
    ∙ store_below (update mem a b) (a + 1) bs a (omega arith)
    ∙ (ground arith)
store_at mem a (b ∷ bs) (suc i) h =
    ap (λ x. store (update mem a b) (a + 1) bs x) (omega arith)
    ∙ store_at (update mem a b) (a + 1) bs i (omega (arith, h))

clear_part-memory :
    (a b : ℕ) (p : Space) (x : ℕ)
    → a ≤ b
    → b < 2 ^ 32
    → (clear_part a b p).memory x ≡ zero_bytes p.memory a (b - a) x
unfolding clear_part zero_bytes
clear_part-memory a b p x h k =
    let n : word (b + 2 ^ 32 - a) ≡ b - a = omega arith in rw n (ground arith)

zero_bytes-inside : (m : ℕ → ℕ) (a n x : ℕ) → a ≤ x → x < a + n → zero_bytes m a n x ≡ 0
unfolding zero_bytes
zero_bytes-inside m a n x h k = ground arith

zero_bytes-outside : (m : ℕ → ℕ) (a n x : ℕ) → (x < a) ⊎ (a + n ≤ x) → zero_bytes m a n x ≡ m x
unfolding zero_bytes
zero_bytes-outside m a n x h = ground arith

-- The last page is cleared from its start to `end`, and the page of `start` from there on; the pages
-- between are filled lazily.
record Cleared (start end : ℕ) (p q : Space) : Type 0 where
  before : (x : ℕ) → x < start → x < page_floor end → q.memory x ≡ p.memory x
  last : (x : ℕ) → page_floor end ≤ x → x < end → q.memory x ≡ 0
  rest :
      (x : ℕ)
      → start ≤ x
      → x < end
      → (q.memory x ≡ 0) ⊎ ((get_aligned start 12 ≤ x) × (x < page_floor end))
  asked : List LoadCall
  calls : q.calls ≡ fills_lazily (get_aligned start 12) (page_floor end) ∷ asked

clear_rest-Cleared :
    (start end : ℕ) (p : Space)
    → 0 < start
    → start < end
    → end + 4096 ≤ 2 ^ 32
    → Cleared start end p (clear_rest start end p)
unfolding clear_rest
clear_rest-Cleared start end p z h w =
    let sa = get_aligned start 12 in
    let ea = page_floor end in
    let v : Aligned start 12 sa = get_aligned-Aligned start 12 z (ground (arith, w)) in
    let q = clear_part start sa p in
    let r = clear_part ea end q in
    let b : ltb start end ≡ true = ground arith in
    let f : (x : ℕ) → q.memory x ≡ zero_bytes p.memory start (sa - start) x =
      λ x. clear_part-memory start sa p x v.low (omega (arith, v.high)) in
    let g : (x : ℕ) → r.memory x ≡ zero_bytes q.memory ea (end - ea) x =
      λ x. clear_part-memory ea end q x (omega arith) (omega (arith, w)) in
    rw b (record {
      before = λ x i j.
          g x
          ∙ zero_bytes-outside q.memory ea (end - ea) x (inl j)
          ∙ f x
          ∙ zero_bytes-outside p.memory start (sa - start) x (inl i);
      last = λ x i j. g x ∙ zero_bytes-inside q.memory ea (end - ea) x i (omega (arith, i, j));
      rest = λ x i j. elim (Bool-cases (ltb x ea)) [
        | inr e ↦
            inl (g x ∙ zero_bytes-inside q.memory ea (end - ea) x (ground arith) (ground arith))
        | inl e ↦ elim (Bool-cases (ltb x sa)) [
          | inl d ↦ inl (
              g x
              ∙ zero_bytes-outside q.memory ea (end - ea) x (inl (ground arith))
              ∙ f x
              ∙ zero_bytes-inside p.memory start (sa - start) x i (ground (arith, i)))
          | inr d ↦ inr (ground arith, ground arith)
        ]
      ];
      asked = r.calls;
      calls = refl;
    })

-- The segment in the memory: `n` bytes come from the file.
pub record InMemory (h : ProgramHeader) (n : ℕ) (bs : List ℕ) (q : Space) : Type 0 where
  pub from_file :
      (i : ℕ)
      → i < n
      → (n ≡ h.memsz) ⊎ (h.vaddr + i < page_floor (h.vaddr + h.memsz))
      → q.memory (h.vaddr + i) ≡ byte bs i
  pub last_page :
      (x : ℕ)
      → n < h.memsz
      → page_floor (h.vaddr + h.memsz) ≤ x
      → x < h.vaddr + h.memsz
      → q.memory x ≡ 0
  pub rest :
      (x : ℕ)
      → h.vaddr + n ≤ x
      → x < h.vaddr + h.memsz
      → (q.memory x ≡ 0)
        ⊎ ((get_aligned (h.vaddr + n) 12 ≤ x) × (x < page_floor (h.vaddr + h.memsz)))
  pub asked : List LoadCall
  pub lazily :
      n < h.memsz
      → q.calls
        ≡ fills_lazily (get_aligned (h.vaddr + n) 12) (page_floor (h.vaddr + h.memsz)) ∷ asked

module _ {F : Type 0} (node : NodeFile F) where
  seek_to-done :
      (offset : ℕ) (s : Loader F) (f : F)
      → node.seek (pos offset) 0 s.file ≡ some f
      → seek_to node offset s ≡ done tt (record s { file = f })
  unfolding seek_to
  seek_to-done offset s f e = rw (seek_to, e) refl

  read_to-done :
      (a n : ℕ) (s : Loader F) (f : F) (bs : List ℕ)
      → node.read n s.file ≡ some (bs, f)
      → length bs ≡ n
      → read_to node a n s
        ≡ done tt
            (record { file = f; space = record s.space { memory = store s.space.memory a bs } })
  unfolding read_to
  read_to-done a n s f bs e l =
      let b : (length bs == n) ≡ true = ground arith in rw (read_to, e, b) refl

  -- The space after the part in the file.
  abbrev filled : ProgramHeader → List ℕ → Space → Space
  filled h bs p = record {
    memory = store p.memory h.vaddr bs;
    calls = allocates (page_floor h.vaddr) (get_aligned (word (h.vaddr + h.memsz)) 12) ∷ p.calls;
  }

  load_file-done :
      (h : ProgramHeader) (s : Loader F) (f1 f2 : F) (bs : List ℕ)
      → h.filesz ≢ 0
      → node.seek (pos h.offset) 0 s.file ≡ some f1
      → node.read (min h.filesz h.memsz) f1 ≡ some (bs, f2)
      → length bs ≡ min h.filesz h.memsz
      → load_file node h s
        ≡ done
            (word (h.vaddr + min h.filesz h.memsz))
            (record { file = f2; space = filled h bs s.space })
  unfolding load_file and_then
  load_file-done h s f1 f2 bs z e d l =
      let b : (h.filesz == 0) ≡ false = ground arith in
      let c = allocates (page_floor h.vaddr) (get_aligned (word (h.vaddr + h.memsz)) 12) in
      let n = min h.filesz h.memsz in
      rw
        (
          b,
          seek_to-done h.offset s f1 e,
          read_to-done h.vaddr n (record { file = f1; space = call c s.space }) f2 bs d l,
        )
        refl

  clear_rest-none : (start end : ℕ) (p : Space) → end ≤ start → clear_rest start end p ≡ p
  unfolding clear_rest
  clear_rest-none start end p h = let b : ltb start end ≡ false = ground arith in rw b refl

  cleared-InMemory :
      (low high : ℕ) (h : ProgramHeader) (n : ℕ) (bs : List ℕ) (p : Space)
      → IsUserMemory low high
      → low ≤ h.vaddr
      → h.vaddr + h.memsz ≤ high
      → n ≤ h.memsz
      → length bs ≡ n
      → InMemory h n bs (clear_rest (h.vaddr + n) (h.vaddr + h.memsz) (filled h bs p))
  cleared-InMemory low high h n bs p u k i m l = elim (Bool-cases (ltb n h.memsz)) [
    | inr e ↦
        let q : n ≡ h.memsz = ground arith in
        subst (λ x. InMemory h n bs x)
          (sym (clear_rest-none (h.vaddr + n) (h.vaddr + h.memsz) (filled h bs p) (omega arith)))
          (record {
            from_file = λ j w d. store_at p.memory h.vaddr bs j (omega (arith, w, l));
            last_page = λ x w. ground (arith, w);
            rest = λ x v w. ground (arith, v, w);
            asked = [];
            lazily = λ w. ground (arith, w);
          })
    | inl e ↦
        let lt : n < h.memsz = ground arith in
        let c =
          clear_rest-Cleared (h.vaddr + n) (h.vaddr + h.memsz) (filled h bs p)
            (omega (arith, u.positive, k)) (omega (arith, lt)) (omega (arith, u.room, i)) in
        record {
          from_file = λ j w d.
              let below : h.vaddr + j < page_floor (h.vaddr + h.memsz) = ground (arith, d, lt) in
              c.before (h.vaddr + j) (omega (arith, w)) below
              ∙ store_at p.memory h.vaddr bs j (omega (arith, w, l));
          last_page = λ x w v y. c.last x v y;
          rest = c.rest;
          asked = c.asked;
          lazily = λ w. c.calls;
        }
  ]

  load_segment-done :
      (low high : ℕ) (h : ProgramHeader) (s : Loader F) (f1 f2 : F) (bs : List ℕ)
      → high < 2 ^ 32
      → h.type ≡ 1
      → h.memsz ≢ 0
      → low ≤ h.vaddr
      → h.vaddr + h.memsz ≤ high
      → h.filesz ≢ 0
      → node.seek (pos h.offset) 0 s.file ≡ some f1
      → node.read (min h.filesz h.memsz) f1 ≡ some (bs, f2)
      → length bs ≡ min h.filesz h.memsz
      → load_segment node low high h s
        ≡ done true (record {
          file = f2;
          space =
              clear_rest (h.vaddr + min h.filesz h.memsz) (h.vaddr + h.memsz) (filled h bs s.space);
        })
  unfolding load_segment and_then
  load_segment-done low high h s f1 f2 bs w t z k i y e d l =
      let n = min h.filesz h.memsz in
      let n_le : n ≤ h.memsz = ground arith in
      let b : (not (h.type == 1) || h.memsz == 0) ≡ false = ground arith in
      let c : (ltb h.vaddr low || ltb high (h.vaddr + h.memsz)) ≡ false = ground arith in
      let v : word (h.vaddr + h.memsz) ≡ h.vaddr + h.memsz = omega (arith, i, w) in
      let x : word (h.vaddr + n) ≡ h.vaddr + n = omega (arith, i, w, n_le) in
      rw (b, c, load_file-done h s f1 f2 bs y e d l, v, x) refl

  pub data SegmentLoads (h : ProgramHeader) (n : ℕ) (bs : List ℕ) (f : F) (call : Outcome F Bool)
      : Type 0 where
    segment_loads :
        (q : Space)
        → call ≡ done true (record { file = f; space = q })
        → InMemory h n bs q
        → SegmentLoads h n bs f call

  -- A segment to load that is in the memory of the user and has bytes in the file, with a file that gives
  -- them, loads. The bytes from the file are in their places if they fill the segment, and otherwise
  -- those that are not in the last page of the segment, which is cleared up to the end of the segment;
  -- each address behind the bytes from the file is cleared, or is in the pages to fill with zeros
  -- lazily.
  pub load_segment-SegmentLoads :
      (low high : ℕ) (h : ProgramHeader) (s : Loader F) (f1 f2 : F) (bs : List ℕ)
      → IsUserMemory low high
      → h.type ≡ 1
      → h.memsz ≢ 0
      → low ≤ h.vaddr
      → h.vaddr + h.memsz ≤ high
      → h.filesz ≢ 0
      → node.seek (pos h.offset) 0 s.file ≡ some f1
      → node.read (min h.filesz h.memsz) f1 ≡ some (bs, f2)
      → length bs ≡ min h.filesz h.memsz
      → SegmentLoads h (min h.filesz h.memsz) bs f2 (load_segment node low high h s)
  load_segment-SegmentLoads low high h s f1 f2 bs u t z k i y e d l =
      segment_loads
        (clear_rest (h.vaddr + min h.filesz h.memsz) (h.vaddr + h.memsz) (filled h bs s.space))
        (load_segment-done low high h s f1 f2 bs (omega (arith, u.room)) t z k i y e d l)
        (cleared-InMemory low high h (min h.filesz h.memsz) bs s.space u k i (ground arith) l)
