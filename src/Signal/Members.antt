-- ===== src/Signal/Members.antt =====
-- core/signal.cpp: a word of bits as a set of signals.
use jkos.Base.{
  ℕ, zero, suc, ◌+◌, ◌-◌, ◌/◌, ◌%◌, ◌^◌, ◌≤◌, ◌<◌, ◌≡◌, refl, sym, ◌∙◌, ap, Bool, true, false, not,
  ◌&&◌, ◌||◌, ◌==◌, ltb, List, [], ◌∷◌, arith, Bool-cases, inl, inr,
}
use native.Mathlib.Nat
use jkos.Base.Int.{ℤ, pos, negsuc}
use jkos.Signal.{Sigset, clear, fill, add, del, test, has_bit}

has_bit-suc : (v k : ℕ) → has_bit v (suc k) ≡ has_bit (v / 2) k
has_bit-suc v k =
    ap (λ x. x % 2 == 1)
      (ap (λ x. v / x) (Nat.pow-succ' 2 k) ∙ sym (Nat.div-div-eq-div-mul v 2 (2 ^ k)))

has_bit-zero : (v : ℕ) → has_bit v 0 ≡ (v % 2 == 1)
has_bit-zero v = ground arith

half : (v k : ℕ) → ((v + 2 ^ suc k) / 2 ≡ v / 2 + 2 ^ k) × ((v + 2 ^ suc k) % 2 ≡ v % 2)
half v k = (omega (arith, Nat.pow-succ' 2 k), omega (arith, Nat.pow-succ' 2 k))

half_below :
    (v k : ℕ)
    → 2 ^ suc k ≤ v
    → ((v - 2 ^ suc k) / 2 ≡ v / 2 - 2 ^ k) × ((v - 2 ^ suc k) % 2 ≡ v % 2)
half_below v k h = (omega (arith, Nat.pow-succ' 2 k), omega (arith, Nat.pow-succ' 2 k))

-- A new bit carries into no other.
has_bit-add : (v k j : ℕ) → has_bit v k ≡ false → has_bit (v + 2 ^ k) j ≡ (has_bit v j || (j == k))
has_bit-add v zero zero h = ground arith
has_bit-add v zero (suc j) h =
    let e : (v + 1) / 2 ≡ v / 2 = ground arith in
    has_bit-suc (v + 1) j ∙ ap (λ x. has_bit x j) e ∙ ground (arith, has_bit-suc v j)
has_bit-add v (suc k) zero h = ground (arith, (half v k).1)
has_bit-add v (suc k) (suc j) h =
    let g = has_bit-add (v / 2) k j (sym (has_bit-suc v k) ∙ h) in
    has_bit-suc (v + 2 ^ suc k) j
    ∙ ap (λ x. has_bit x j) ((half v k).0)
    ∙ g
    ∙ ground (arith, has_bit-suc v j)

-- A bit that is set is a part of the number.
has_bit-le : (v k : ℕ) → has_bit v k ≡ true → 2 ^ k ≤ v
has_bit-le v zero h = ground arith
has_bit-le v (suc k) h =
    omega (arith, Nat.pow-succ' 2 k, has_bit-le (v / 2) k (sym (has_bit-suc v k) ∙ h))

has_bit-del :
    (v k j : ℕ) → has_bit v k ≡ true → has_bit (v - 2 ^ k) j ≡ (has_bit v j && not (j == k))
has_bit-del v zero zero h = ground arith
has_bit-del v zero (suc j) h =
    let e : (v - 1) / 2 ≡ v / 2 = ground arith in
    has_bit-suc (v - 1) j ∙ ap (λ x. has_bit x j) e ∙ ground (arith, has_bit-suc v j)
has_bit-del v (suc k) zero h = ground (arith, (half_below v k (has_bit-le v (suc k) h)).1)
has_bit-del v (suc k) (suc j) h =
    let g = has_bit-del (v / 2) k j (sym (has_bit-suc v k) ∙ h) in
    has_bit-suc (v - 2 ^ suc k) j
    ∙ ap (λ x. has_bit x j) ((half_below v k (has_bit-le v (suc k) h)).0)
    ∙ g
    ∙ ground (arith, has_bit-suc v j)

two_pow_positive : (n : ℕ) → 1 ≤ 2 ^ n
two_pow_positive zero = ground arith
two_pow_positive (suc n) = omega (arith, Nat.pow-succ' 2 n, two_pow_positive n)

has_bit_none : (j : ℕ) → has_bit 0 j ≡ false
has_bit_none zero = refl
has_bit_none (suc j) = has_bit-suc 0 j ∙ has_bit_none j

has_bit_ones : (n j : ℕ) → has_bit (2 ^ n - 1) j ≡ ltb j n
has_bit_ones zero j = has_bit_none j ∙ ground arith
has_bit_ones (suc n) zero = ground (arith, Nat.pow-succ' 2 n, two_pow_positive n)
has_bit_ones (suc n) (suc j) =
    let e : (2 ^ suc n - 1) / 2 ≡ 2 ^ n - 1 =
      omega (arith, Nat.pow-succ' 2 n, two_pow_positive n) in
    has_bit-suc (2 ^ suc n - 1) j ∙ ap (λ x. has_bit x j) e ∙ has_bit_ones n j ∙ ground arith

even : (v : ℕ) → has_bit v 0 ≡ false → v % 2 ≡ 0
even v h = ground arith

-- There is room for a bit that is not set.
has_bit-room : (n v k : ℕ) → v < 2 ^ n → k < n → has_bit v k ≡ false → v + 2 ^ k < 2 ^ n
has_bit-room zero v k h l q = ground arith
has_bit-room (suc n) v zero h l q = omega (arith, Nat.pow-succ' 2 n, even v q)
has_bit-room (suc n) v (suc k) h l q =
    let g =
      has_bit-room n (v / 2) k (omega (arith, Nat.pow-succ' 2 n)) (omega arith)
        (sym (has_bit-suc v k) ∙ q) in
    omega (arith, Nat.pow-succ' 2 n, Nat.pow-succ' 2 k)

-- A call of a method of `Sigset`, on any number.
pub data Call : Type 0 where
  added deleted : ℤ → Call
  cleared filled : Call

abbrev pub call : Call → Sigset → Sigset
call (added z) s = add z s
call (deleted z) s = del z s
call cleared s = clear
call filled s = fill

abbrev pub calls : List Call → Sigset → Sigset
calls [] s = s
calls (c ∷ cs) s = calls cs (call c s)

-- The calls on a set of numbers. Only 0 to 31 are signals.
abbrev pub is_signal : ℤ → Bool
is_signal (pos k) = ltb k 32
is_signal (negsuc k) = false

abbrev pub is_same : ℤ → ℤ → Bool
is_same (pos a) (pos b) = a == b
is_same (pos a) (negsuc b) = false
is_same (negsuc a) (pos b) = false
is_same (negsuc a) (negsuc b) = a == b

abbrev pub member : Call → (ℤ → Bool) → ℤ → Bool
member (added z) m j = m j || (is_same j z && is_signal z)
member (deleted z) m j = m j && not (is_same j z)
member cleared m j = false
member filled m j = is_signal j

abbrev pub members : List Call → (ℤ → Bool) → ℤ → Bool
members [] m = m
members (c ∷ cs) m = members cs (member c m)

-- The word is one of 32 bits, and its bits are the numbers of the set.
pub record HasMembers (m : ℤ → Bool) (s : Sigset) : Type 0 where
  pub word : s.val < 2 ^ 32
  pub same : (j : ℤ) → test j s ≡ m j

test-add_pos :
    (k j : ℕ) (s : Sigset)
    → test (pos j) (add (pos k) s) ≡ (test (pos j) s || ((j == k) && ltb k 32))
unfolding add test
test-add_pos k j s = elim (Bool-cases (ltb k 32)) [
  | inr l ↦ rw l ground arith
  | inl l ↦ elim (Bool-cases (has_bit s.val k)) [
    | inl b ↦
        rw (l, b)
          (elim (Bool-cases (j == k)) [
            | inl e ↦ let q : j ≡ k = ground arith in ground (arith, ap (λ x. has_bit s.val x) q)
            | inr e ↦ ground arith
          ])
    | inr b ↦ rw (l, b, has_bit-add s.val k j b) ground arith
  ]
]

test-del_pos :
    (k j : ℕ) (s : Sigset) → test (pos j) (del (pos k) s) ≡ (test (pos j) s && not (j == k))
unfolding del test
test-del_pos k j s = elim (Bool-cases (ltb k 32)) [
  | inr l ↦ rw l ground arith
  | inl l ↦ elim (Bool-cases (has_bit s.val k)) [
    | inr b ↦
        rw (l, b)
          (elim (Bool-cases (j == k)) [
            | inl e ↦ let q : j ≡ k = ground arith in ground (arith, ap (λ x. has_bit s.val x) q)
            | inr e ↦ ground arith
          ])
    | inl b ↦ rw (l, b, has_bit-del s.val k j b) ground arith
  ]
]

add-word : (z : ℤ) (s : Sigset) → s.val < 2 ^ 32 → (add z s).val < 2 ^ 32
unfolding add
add-word (negsuc k) s h = h
add-word (pos k) s h = elim (Bool-cases (ltb k 32)) [
  | inr l ↦ rw l h
  | inl l ↦ elim (Bool-cases (has_bit s.val k)) [
    | inl b ↦ rw (l, b) h
    | inr b ↦ rw (l, b) (has_bit-room 32 s.val k h (ground arith) b)
  ]
]

del-word : (z : ℤ) (s : Sigset) → s.val < 2 ^ 32 → (del z s).val < 2 ^ 32
unfolding del
del-word (negsuc k) s h = h
del-word (pos k) s h = elim (Bool-cases (ltb k 32 && has_bit s.val k)) [
  | inr l ↦ rw l h
  | inl l ↦ rw l (omega (arith, h))
]

test-call : (c : Call) (s : Sigset) (j : ℤ) → test j (call c s) ≡ member c (λ i. test i s) j
unfolding add del test
test-call (added (pos k)) s (pos j) = test-add_pos k j s
test-call (added (pos k)) s (negsuc j) = refl
test-call (added (negsuc k)) s (pos j) = ground arith
test-call (added (negsuc k)) s (negsuc j) = ground arith
test-call (deleted (pos k)) s (pos j) = test-del_pos k j s
test-call (deleted (pos k)) s (negsuc j) = refl
test-call (deleted (negsuc k)) s (pos j) = ground arith
test-call (deleted (negsuc k)) s (negsuc j) = refl
test-call cleared s (pos j) = ground (arith, has_bit_none j)
test-call cleared s (negsuc j) = refl
test-call filled s (pos j) = ground (arith, has_bit_ones 32 j)
test-call filled s (negsuc j) = refl

word-call : (c : Call) (s : Sigset) → s.val < 2 ^ 32 → (call c s).val < 2 ^ 32
word-call (added z) s h = add-word z s h
word-call (deleted z) s h = del-word z s h
word-call cleared s h = omega arith
word-call filled s h = omega arith

member_same : (c : Call) (m m' : ℤ → Bool) (j : ℤ) → m j ≡ m' j → member c m j ≡ member c m' j
member_same (added z) m m' j e = ap (λ b. b || (is_same j z && is_signal z)) e
member_same (deleted z) m m' j e = ap (λ b. b && not (is_same j z)) e
member_same cleared m m' j e = refl
member_same filled m m' j e = refl

-- A word of 32 bits whose bits are the numbers of a set has, after any calls of `add`, `del`, `clear`
-- and `fill` with any numbers, the bits of the set that the same calls give; it is still one of 32
-- bits. Only 0 to 31 are ever added.
pub calls-HasMembers :
    (cs : List Call) (m : ℤ → Bool) (s : Sigset)
    → HasMembers m s
    → HasMembers (members cs m) (calls cs s)
calls-HasMembers [] m s v = v
calls-HasMembers (c ∷ cs) m s v = calls-HasMembers cs (member c m) (call c s) (record {
  word = word-call c s v.word;
  same = λ j. test-call c s j ∙ member_same c (λ i. test i s) m j (v.same j);
})
