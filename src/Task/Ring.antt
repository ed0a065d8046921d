-- ===== src/Task/Ring.antt =====
-- core/task.cpp: a circular queue as a ring of distinct tasks, linked both ways.
use jkos.Base.{
  ℕ, ◌≡◌, refl, ◌∙◌, Bool, true, false, List, [], ◌∷◌, ◌++◌, append-nil, ◌||◌, ◌==◌, arith,
}
use jkos.Task.{Tasks}

abbrev pub has : ℕ → List ℕ → Bool
has a [] = false
has a (x ∷ xs) = (a == x) || has a xs

abbrev pub IsDistinct : List ℕ → Type 0
IsDistinct [] = Unit
IsDistinct (x ∷ xs) = (has x xs ≡ false) × IsDistinct xs

-- From `a` the links lead through `xs` to `b`, and back.
abbrev pub Linked : Tasks → ℕ → List ℕ → ℕ → Type 0
Linked m a [] b = ((m a).queue_next ≡ b) × ((m b).queue_prev ≡ a)
Linked m a (x ∷ xs) b = ((m a).queue_next ≡ x) × ((m x).queue_prev ≡ a) × Linked m x xs b

-- The tasks of a queue in the order of the links, from any of them on; none of them is null.
abbrev pub IsRing : Tasks → List ℕ → Type 0
IsRing m [] = Unit
IsRing m (x ∷ xs) = Linked m x xs x × IsDistinct (x ∷ xs) × (has 0 (x ∷ xs) ≡ false)

-- The queue with the pointer `ptr` is the ring from `ptr` on; a null pointer is the empty queue.
abbrev pub Starts : Tasks → ℕ → List ℕ → Type 0
Starts m ptr [] = ptr ≡ 0
Starts m ptr (x ∷ xs) = (ptr ≡ x) × IsRing m (x ∷ xs)

pub Linked-frame :
    (m m' : Tasks) (a : ℕ) (xs : List ℕ) (b : ℕ)
    → ((c : ℕ) → has c (a ∷ xs) ≡ true → (m' c).queue_next ≡ (m c).queue_next)
    → ((c : ℕ) → has c (b ∷ xs) ≡ true → (m' c).queue_prev ≡ (m c).queue_prev)
    → Linked m a xs b
    → Linked m' a xs b
Linked-frame m m' a [] b f g l = (f a (ground arith) ∙ l.0, g b (ground arith) ∙ l.1)
Linked-frame m m' a (x ∷ xs) b f g l = (
  f a (ground arith) ∙ l.0,
  g x (ground arith) ∙ l.1,
  Linked-frame m m' x xs b (λ c h. f c (ground arith)) (λ c h. g c (ground arith)) l.2,
)

pub has-append : (a : ℕ) (xs ys : List ℕ) → has a (xs ++ ys) ≡ (has a xs || has a ys)
has-append a [] ys = refl
has-append a (x ∷ xs) ys = ground (arith, has-append a xs ys)

pub Linked-append :
    (m : Tasks) (a : ℕ) (xs : List ℕ) (t : ℕ) (ys : List ℕ) (b : ℕ)
    → Linked m a xs t
    → Linked m t ys b
    → Linked m a (xs ++ (t ∷ ys)) b
Linked-append m a [] t ys b l k = (l.0, l.1, k)
Linked-append m a (x ∷ xs) t ys b l k = (l.0, l.1, Linked-append m x xs t ys b l.2 k)

pub Linked-split :
    (m : Tasks) (a : ℕ) (xs : List ℕ) (t : ℕ) (ys : List ℕ) (b : ℕ)
    → Linked m a (xs ++ (t ∷ ys)) b
    → Linked m a xs t × Linked m t ys b
Linked-split m a [] t ys b l = ((l.0, l.1), l.2)
Linked-split m a (x ∷ xs) t ys b l =
    let r = Linked-split m x xs t ys b l.2 in ((l.0, l.1, r.0), r.1)

Distinct-move : (x : ℕ) (xs ys : List ℕ) → IsDistinct (x ∷ xs ++ ys) → IsDistinct (xs ++ (x ∷ ys))
Distinct-move x [] ys d = d
Distinct-move x (z ∷ xs) ys d = (
  ground (arith, has-append z xs ys, has-append z xs (x ∷ ys)),
  Distinct-move x xs ys (ground arith),
)

Distinct-swap : (xs ys : List ℕ) → IsDistinct (xs ++ ys) → IsDistinct (ys ++ xs)
Distinct-swap [] ys d = rw append-nil d
Distinct-swap (x ∷ xs) ys d =
    Distinct-move x ys xs (Distinct-swap xs (x ∷ ys) (Distinct-move x xs ys d))

-- A ring may be read from any of its tasks on.
pub rotate-IsRing :
    (m : Tasks) (xs : List ℕ) (t : ℕ) (ys : List ℕ)
    → IsRing m (xs ++ (t ∷ ys))
    → IsRing m (t ∷ (ys ++ xs))
rotate-IsRing m [] t ys r = rw append-nil r
rotate-IsRing m (p ∷ xs) t ys r =
    let l = Linked-split m p xs t ys p r.0 in
    (
      Linked-append m t ys p xs t l.1 l.0,
      Distinct-swap (p ∷ xs) (t ∷ ys) r.1,
      ground (arith, has-append 0 xs (t ∷ ys), has-append 0 ys (p ∷ xs), r.2),
    )
