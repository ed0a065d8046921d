-- ===== src/Signal/Tests.antt =====
-- The calls on a set of signals that starts empty.
use jkos.Base.{ℕ, ◌≡◌, refl, Bool, false, List, [], ◌∷◌, arith}
use jkos.Base.Int.{ℤ, pos, negsuc}
use jkos.Signal.{clear, test, has_bit}
use jkos.Signal.Members.{Call, added, deleted, filled, calls, members, HasMembers, calls-HasMembers}

abbrev five : List Call
five = added (pos 3) ∷ added (pos 40) ∷ filled ∷ deleted (pos 3) ∷ deleted (negsuc 0) ∷ []

abbrev none_set : ℤ → Bool
none_set j = false

no_bits : (k : ℕ) → has_bit 0 k ≡ false
no_bits k = ground arith

empty : (j : ℤ) → test j clear ≡ none_set j
unfolding test
empty (pos k) = ground (arith, no_bits k)
empty (negsuc k) = refl

calls-HasMembers_example : HasMembers (members five none_set) (calls five clear)
calls-HasMembers_example =
    calls-HasMembers five none_set clear (record { word = ground arith; same = empty })
