-- ===== src/Task/Stack.antt =====
-- core/task.cpp: `move_stack`, which moves the first stack of the kernel to its place at the top of the
-- address space. The memory is one of words at multiples of 4; the stack pointers are arguments, and
-- `memcpy` moves whole words. The base pointer, which moves by the same offset, is left out.
use jkos.Base.{
  ℕ, zero, suc, ◌+◌, ◌-◌, ◌*◌, ◌/◌, ◌%◌, ◌^◌, ◌<◌, ◌≤◌, ◌≡◌, ◌⊎◌, inl, inr, refl, sym, ap, ◌∙◌,
  ◌&&◌, ltb, lt→ltb, ◌==◌, true, false, if◌then◌else◌, update, arith,
}
use native.Mathlib.Decide.{ℕ_discrete}
use jkos.Common.{kernel_stack_pos}

-- The words at the addresses `4 * i`.
abbrev pub Words : Type 0
Words = ℕ → ℕ

-- `memcpy` of `n` words, to the word `dest`, from the word `src`.
unfoldable pub copy_words : ℕ → ℕ → ℕ → Words → Words
copy_words dest src zero m = m
copy_words dest src (suc n) m = copy_words (dest + 1) (src + 1) n (update m dest (m src))

-- A word that leads into the old stack is moved with it.
abbrev pub relocate : ℕ → ℕ → ℕ → ℕ → ℕ
relocate initial old_esp offset tmp =
    if ltb tmp initial && ltb old_esp tmp then (tmp + offset) % 2 ^ 32 else tmp

-- The loop over the words from the word `i` down, with `n` left.
unfoldable pub relocate_words : ℕ → ℕ → ℕ → ℕ → ℕ → Words → Words
relocate_words initial old_esp offset i zero m = m
relocate_words initial old_esp offset i (suc n) m =
    relocate_words initial old_esp offset (i - 1) n
      (update m i (relocate initial old_esp offset (m i)))

-- The word behind the stack of the kernel.
abbrev pub top_word : ℕ
top_word = kernel_stack_pos / 4

-- `move_stack` from the allocation of the new stack on, for the old stack in the words from `esp` to
-- `initial`: the memory, and the word of the new stack pointer.
unfoldable pub move_stack : ℕ → ℕ → Words → ℕ × Words
unfolding copy_words relocate_words
move_stack initial esp m =
    let offset = top_word - initial in
    let new_esp = esp + offset in
    (
      new_esp,
      relocate_words (4 * initial) (4 * esp) (4 * offset) (top_word - 1) (top_word - 1 - new_esp)
          (copy_words new_esp esp (initial - esp) m),
    )

copy_words-outside :
    (dest src n : ℕ) (m : Words) (c : ℕ)
    → (c < dest) ⊎ (dest + n ≤ c)
    → copy_words dest src n m c ≡ m c
unfolding copy_words
copy_words-outside dest src zero m c h = refl
copy_words-outside dest src (suc n) m c h =
    copy_words-outside (dest + 1) (src + 1) n _ c (ground (arith, h)) ∙ ground (arith, h)

copy_words-inside :
    (dest src n : ℕ) (m : Words) (j : ℕ)
    → j < n
    → src + n ≤ dest
    → copy_words dest src n m (dest + j) ≡ m (src + j)
unfolding copy_words
copy_words-inside dest src zero m j l h = absurd (omega (arith, l))
copy_words-inside dest src (suc n) m zero l h =
    copy_words-outside (dest + 1) (src + 1) n _ (dest + 0) (inl (omega arith))
    ∙ (let e : (dest == dest + 0) ≡ true = ground arith in rw e (ap m (omega arith)))
copy_words-inside dest src (suc n) m (suc j) l h =
    ap (copy_words (dest + 1) (src + 1) n _) (omega arith)
    ∙ copy_words-inside (dest + 1) (src + 1) n _ j (omega (arith, l)) (omega (arith, h))
    ∙ (let e : (dest == src + 1 + j) ≡ false = ground (arith, l, h) in rw e (ap m (omega arith)))

module _ (initial old_esp offset : ℕ) where
  relocate_words-outside :
      (n i : ℕ) (m : Words) (c : ℕ)
      → n ≤ i + 1
      → (c + n ≤ i) ⊎ (i < c)
      → relocate_words initial old_esp offset i n m c ≡ m c
  unfolding relocate_words
  relocate_words-outside zero i m c h o = refl
  relocate_words-outside (suc n) i m c h o =
      relocate_words-outside n (i - 1) _ c (omega (arith, h)) (ground (arith, o))
      ∙ ground (arith, h, o)

  relocate_words-inside :
      (n i : ℕ) (m : Words) (c : ℕ)
      → n ≤ i + 1
      → c ≤ i
      → i < c + n
      → relocate_words initial old_esp offset i n m c ≡ relocate initial old_esp offset (m c)
  unfolding relocate_words
  relocate_words-inside zero i m c h l l' = absurd (omega (arith, l, l'))
  relocate_words-inside (suc n) i m c h l l' = elim (ℕ_discrete c i) [
    | yes e ↦
        relocate_words-outside n (i - 1) _ c (omega (arith, h)) (elim (ℕ_discrete i 0) [
          | yes z ↦ inl (omega (arith, h, l, z))
          | no z ↦ inr (omega (arith, e, z))
        ])
        ∙ (let b : (i == c) ≡ true = ground (arith, e) in
            rw b (ap (λ x. relocate initial old_esp offset (m x)) (sym e)))
    | no d ↦
        relocate_words-inside n (i - 1) _ c (omega (arith, h, l, d)) (omega (arith, l, d))
          (omega (arith, l, l', d))
        ∙ (let b : (i == c) ≡ false = ground (arith, d) in rw b refl)
  ]

-- What `move_stack` leaves of the words of the old stack, from `esp` to `initial`.
pub record Moved (initial esp : ℕ) (m : Words) (r : ℕ × Words) : Type 0 where
  pub top : r.0 + (initial - esp) ≡ top_word
  pub first : r.1 r.0 ≡ m esp
  pub words :
      (j : ℕ)
      → 0 < j
      → j < initial - esp
      → r.1 (r.0 + j) ≡ relocate (4 * initial) (4 * esp) (4 * (top_word - initial)) (m (esp + j))
  pub pointers :
      (j l : ℕ)
      → 0 < j
      → j < initial - esp
      → 0 < l
      → l < initial - esp
      → m (esp + j) ≡ 4 * (esp + l)
      → r.1 (r.0 + j) ≡ 4 * (r.0 + l)
  pub others : (c : ℕ) → (c < r.0) ⊎ (top_word ≤ c) → r.1 c ≡ m c

module _ (initial esp : ℕ) (m : Words) (some_words : esp < initial)
    (apart : initial + (initial - esp) ≤ top_word) where
  abbrev offset : ℕ
  offset = top_word - initial

  abbrev copied : Words
  copied = copy_words (esp + offset) esp (initial - esp) m

  moved_word :
      (j : ℕ)
      → 0 < j
      → j < initial - esp
      → relocate_words
          (4 * initial)
          (4 * esp)
          (4 * offset)
          (top_word - 1)
          (top_word - 1 - (esp + offset))
          copied
          (esp + offset + j)
        ≡ relocate (4 * initial) (4 * esp) (4 * offset) (m (esp + j))
  moved_word j z l =
      relocate_words-inside (4 * initial) (4 * esp) (4 * offset) (top_word - 1 - (esp + offset))
        (top_word - 1) copied (esp + offset + j) (omega arith) (omega (arith, apart, some_words, l))
        (omega (arith, z, apart, some_words))
      ∙ ap (relocate (4 * initial) (4 * esp) (4 * offset)) (
          copy_words-inside (esp + offset) esp (initial - esp) m j l
            (omega (arith, apart, some_words)))

  kept_word :
      (c : ℕ)
      → (c ≤ esp + offset) ⊎ (top_word ≤ c)
      → relocate_words
          (4 * initial)
          (4 * esp)
          (4 * offset)
          (top_word - 1)
          (top_word - 1 - (esp + offset))
          copied
          c
        ≡ copied c
  kept_word c h =
      relocate_words-outside (4 * initial) (4 * esp) (4 * offset) (top_word - 1 - (esp + offset))
        (top_word - 1) copied c (omega arith) (ground (arith, h, apart, some_words))

  relocate-pointer :
      (l : ℕ)
      → 0 < l
      → l < initial - esp
      → relocate (4 * initial) (4 * esp) (4 * offset) (4 * (esp + l)) ≡ 4 * (esp + offset + l)
  relocate-pointer l z h =
      let a : ltb (4 * (esp + l)) (4 * initial) ≡ true = lt→ltb _ _ (omega (arith, h)) in
      let b : ltb (4 * esp) (4 * (esp + l)) ≡ true = lt→ltb _ _ (omega (arith, z)) in
      rw (a, b) (omega (arith, apart, some_words, h))

  -- When the old stack has a word and ends so far below the new one that they are apart, `move_stack`
  -- puts its words at the top of the new stack. The word at the stack pointer is as it was, each other
  -- word that leads into the old stack behind the stack pointer leads to the same word of the new stack, and no
  -- word outside the new stack changes.
  pub move_stack-Moved : Moved initial esp m (move_stack initial esp m)
  unfolding move_stack
  move_stack-Moved = record {
    top = omega (arith, apart, some_words);
    first =
        kept_word (esp + offset) (inl (omega arith))
        ∙ ap copied {y = esp + offset + 0} (omega arith)
        ∙ copy_words-inside (esp + offset) esp (initial - esp) m 0 (omega (arith, some_words))
            (omega (arith, apart, some_words))
        ∙ ap m (omega arith);
    words = moved_word;
    pointers = λ j l z h z' h' e.
        moved_word j z h
        ∙ ap (relocate (4 * initial) (4 * esp) (4 * offset)) e
        ∙ relocate-pointer l z' h';
    others = λ c h.
        kept_word c (ground (arith, h))
        ∙ copy_words-outside (esp + offset) esp (initial - esp) m c
            (ground (arith, h, apart, some_words));
  }
