-- ===== src/Ctype/Classes.antt =====
-- include/lib/ctype.h: the characters of each class, listed, and the change of case.
use jkos.Base.{
  ℕ, ◌≡◌, ◌≤◌, refl, sym, ap, ◌∙◌, Bool, Bool-cases, inl, inr, not, ◌==◌, ◌||◌, ◌&&◌, ltb, true,
  false, arith, List, [], ◌∷◌, ◌++◌,
}
use jkos.Base.Below.{all_below, all_below-at}
use jkos.Base.Int.{ℤ, pos, negsuc, ◌+ℤ◌, ◌-ℤ◌}
use jkos.Ctype.{
  is_alnum, is_alpha, is_cntrl, is_digit, is_graph, is_lower, is_print, is_punct, is_space,
  is_upper, is_xdigit, to_upper, to_lower,
}

-- abcdefghijklmnopqrstuvwxyz
abbrev pub lower_letters : List ℕ
lower_letters =
    97 ∷ 98 ∷ 99 ∷ 100 ∷ 101 ∷ 102 ∷ 103 ∷ 104 ∷ 105 ∷ 106 ∷ 107 ∷ 108 ∷ 109 ∷ 110 ∷ 111 ∷ 112 ∷ 113
    ∷ 114 ∷ 115 ∷ 116 ∷ 117 ∷ 118 ∷ 119 ∷ 120 ∷ 121 ∷ 122 ∷ []

-- ABCDEFGHIJKLMNOPQRSTUVWXYZ
abbrev pub upper_letters : List ℕ
upper_letters =
    65 ∷ 66 ∷ 67 ∷ 68 ∷ 69 ∷ 70 ∷ 71 ∷ 72 ∷ 73 ∷ 74 ∷ 75 ∷ 76 ∷ 77 ∷ 78 ∷ 79 ∷ 80 ∷ 81 ∷ 82 ∷ 83
    ∷ 84 ∷ 85 ∷ 86 ∷ 87 ∷ 88 ∷ 89 ∷ 90 ∷ []

-- 0123456789
abbrev pub digits : List ℕ
digits = 48 ∷ 49 ∷ 50 ∷ 51 ∷ 52 ∷ 53 ∷ 54 ∷ 55 ∷ 56 ∷ 57 ∷ []

-- The punctuation marks, with the codes of ASCII.
abbrev pub marks : List ℕ
marks =
    33 ∷ 34 ∷ 35 ∷ 36 ∷ 37 ∷ 38 ∷ 39 ∷ 40 ∷ 41 ∷ 42 ∷ 43 ∷ 44 ∷ 45 ∷ 46 ∷ 47 ∷ 58 ∷ 59 ∷ 60 ∷ 61
    ∷ 62 ∷ 63 ∷ 64 ∷ 91 ∷ 92 ∷ 93 ∷ 94 ∷ 95 ∷ 96 ∷ 123 ∷ 124 ∷ 125 ∷ 126 ∷ []

-- The tabulators, the ends of a line and of a page, the return and the blank.
abbrev pub spaces : List ℕ
spaces = 9 ∷ 10 ∷ 11 ∷ 12 ∷ 13 ∷ 32 ∷ []

-- ABCDEFabcdef
abbrev pub hex_letters : List ℕ
hex_letters = 65 ∷ 66 ∷ 67 ∷ 68 ∷ 69 ∷ 70 ∷ 97 ∷ 98 ∷ 99 ∷ 100 ∷ 101 ∷ 102 ∷ []

abbrev pub letters : List ℕ
letters = lower_letters ++ upper_letters

abbrev pub visible : List ℕ
visible = letters ++ (digits ++ marks)

abbrev pub has : List ℕ → ℕ → Bool
has [] c = false
has (n ∷ ns) c = (c == n) || has ns c

-- No character with a negative code is in a list.
abbrev pub member : List ℕ → ℤ → Bool
member ns (pos c) = has ns c
member ns (negsuc c) = false

-- What the tests of a character say.
pub record Classified (c : ℤ) : Type 0 where
  pub lower : is_lower c ≡ member lower_letters c
  pub upper : is_upper c ≡ member upper_letters c
  pub digit : is_digit c ≡ member digits c
  pub punct : is_punct c ≡ member marks c
  pub space : is_space c ≡ member spaces c
  pub alpha : is_alpha c ≡ member letters c
  pub alnum : is_alnum c ≡ member (letters ++ digits) c
  pub xdigit : is_xdigit c ≡ member (digits ++ hex_letters) c
  pub graph : is_graph c ≡ member visible c
  pub print : is_print c ≡ member (32 ∷ visible) c
  pub cntrl : is_cntrl c ≡ not (member (32 ∷ visible) c)

-- All numbers of the list are below 127.
abbrev small : List ℕ → Bool
small [] = true
small (n ∷ ns) = ltb n 127 && small ns

has-small : (ns : List ℕ) (c : ℕ) → small ns ≡ true → 127 ≤ c → has ns c ≡ false
has-small [] c s h = refl
has-small (n ∷ ns) c s h =
    let r = has-small ns c (ground (arith, s)) h in
    let e : (c == n) ≡ false = ground (arith, s, h) in rw (e, r) refl

abbrev same : Bool → Bool → Bool
same true b = b
same false b = not b

same-eq : (a b : Bool) → same a b ≡ true → a ≡ b
same-eq a b e = ground (arith, e)

-- A test that agrees with a list below 127, by a run, and is false from there on.
agree :
    (test : ℤ → Bool) (ns : List ℕ) (c : ℕ)
    → all_below 127 (λ i. same (test (pos i)) (has ns i)) ≡ true
    → small ns ≡ true
    → (127 ≤ c → test (pos c) ≡ false)
    → test (pos c) ≡ has ns c
agree test ns c e s h = elim (Bool-cases (ltb c 127)) [
  | inl b ↦
      same-eq _ _ (all_below-at 127 (λ i. same (test (pos i)) (has ns i)) c e (ground (arith, b)))
  | inr b ↦ let m : 127 ≤ c = ground (arith, b) in h m ∙ sym (has-small ns c s m)
]

is_lower_lem : (c : ℤ) → is_lower c ≡ member lower_letters c
is_lower_lem (pos c) = agree is_lower lower_letters c refl refl (λ h. ground arith)
is_lower_lem (negsuc c) = refl

is_upper_lem : (c : ℤ) → is_upper c ≡ member upper_letters c
is_upper_lem (pos c) = agree is_upper upper_letters c refl refl (λ h. ground arith)
is_upper_lem (negsuc c) = refl

is_digit_lem : (c : ℤ) → is_digit c ≡ member digits c
is_digit_lem (pos c) = agree is_digit digits c refl refl (λ h. ground arith)
is_digit_lem (negsuc c) = refl

is_punct_lem : (c : ℤ) → is_punct c ≡ member marks c
is_punct_lem (pos c) = agree is_punct marks c refl refl (λ h. ground arith)
is_punct_lem (negsuc c) = ground arith

is_space_lem : (c : ℤ) → is_space c ≡ member spaces c
is_space_lem (pos c) = agree is_space spaces c refl refl (λ h. ground arith)
is_space_lem (negsuc c) = refl

is_alpha_lem : (c : ℤ) → is_alpha c ≡ member letters c
is_alpha_lem (pos c) = agree is_alpha letters c refl refl (λ h. ground arith)
is_alpha_lem (negsuc c) = refl

is_alnum_lem : (c : ℤ) → is_alnum c ≡ member (letters ++ digits) c
is_alnum_lem (pos c) = agree is_alnum (letters ++ digits) c refl refl (λ h. ground arith)
is_alnum_lem (negsuc c) = refl

is_xdigit_lem : (c : ℤ) → is_xdigit c ≡ member (digits ++ hex_letters) c
is_xdigit_lem (pos c) = agree is_xdigit (digits ++ hex_letters) c refl refl (λ h. ground arith)
is_xdigit_lem (negsuc c) = refl

is_graph_lem : (c : ℤ) → is_graph c ≡ member visible c
is_graph_lem (pos c) = agree is_graph visible c refl refl (λ h. ground arith)
is_graph_lem (negsuc c) = ground arith

is_print_lem : (c : ℤ) → is_print c ≡ member (32 ∷ visible) c
is_print_lem (pos c) = agree is_print (32 ∷ visible) c refl refl (λ h. ground arith)
is_print_lem (negsuc c) = refl

is_cntrl-is_print : (c : ℤ) → is_cntrl c ≡ not (is_print c)
is_cntrl-is_print (pos c) = ground arith
is_cntrl-is_print (negsuc c) = ground arith

-- Each test of ctype holds of exactly the characters that it is named for: the letters of the alphabet,
-- small and large, the digits, the punctuation marks and the white space of ASCII, as listed, and the
-- classes made of them; a control character is one that is neither the blank nor visible.
pub classes_lem : (c : ℤ) → Classified c
classes_lem c = record {
  lower = is_lower_lem c;
  upper = is_upper_lem c;
  digit = is_digit_lem c;
  punct = is_punct_lem c;
  space = is_space_lem c;
  alpha = is_alpha_lem c;
  alnum = is_alnum_lem c;
  xdigit = is_xdigit_lem c;
  graph = is_graph_lem c;
  print = is_print_lem c;
  cntrl = is_cntrl-is_print c ∙ ap not (is_print_lem c);
}

-- The lower case of the upper case of a character that is not a capital is the character.
pub to_lower-to_upper : (c : ℤ) → is_upper c ≡ false → to_lower (to_upper c) ≡ c
unfolding to_lower to_upper ◌+ℤ◌ ◌-ℤ◌
to_lower-to_upper (pos c) h = ground arith
to_lower-to_upper (negsuc c) h = refl
