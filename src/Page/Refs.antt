-- ===== src/Page/Refs.antt =====
-- core/page.cpp: the invariant of the reference counts and of the stack of free frames.
use jkos.Base.{
  ℕ, suc, ◌+◌, ◌≡◌, ◌≢◌, ◌^◌, ◌<◌, Bool, true, false, List, [], ◌∷◌, ◌++◌, ◌==◌, ◌&&◌,
  if◌then◌else◌, arith, length,
}
use jkos.Page.{Entry, Memory}

-- How many of the entries have the frame.
abbrev pub refs : ℕ → List Entry → ℕ
refs a [] = 0
refs a (e ∷ es) = (if e.addr == a then 1 else 0) + refs a es

abbrev pub occurrences : ℕ → List ℕ → ℕ
occurrences a [] = 0
occurrences a (b ∷ bs) = (if b == a then 1 else 0) + occurrences a bs

-- The frames of the pool, for the entries that have a frame of it: a frame is on the stack once if
-- no entry has it, and not at all if some entry has it; its count is the number of the entries.
pub record RefInv (pool : ℕ → Bool) (m : Memory) (es : List Entry) : Type 0 where
  pub no_null : pool 0 ≡ false
  pub in_bits : (a : ℕ) → pool a ≡ true → a < 2 ^ 20
  pub few : length es < 2 ^ 32
  pub conserved : (a : ℕ) → occurrences a m.frames ≡ (if pool a && (refs a es == 0) then 1 else 0)
  pub counted : (a : ℕ) → a ≢ 0 → refs a es ≢ 0 → (pool a ≡ true) × (m.ref_cnt a ≡ refs a es)

pub refs-le-length : (a : ℕ) (es : List Entry) → refs a es < suc (length es)
refs-le-length a [] = omega arith
refs-le-length a (e ∷ es) = ground (arith, refs-le-length a es)

pub refs-append : (a : ℕ) (es fs : List Entry) → refs a (es ++ fs) ≡ refs a es + refs a fs
refs-append a [] fs = omega arith
refs-append a (e ∷ es) fs = omega (arith, refs-append a es fs)
