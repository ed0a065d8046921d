-- ===== src/Rbt/Tests.antt =====
-- Runs of the tree over numbers, and the properties of the tree at concrete trees.
use jkos.Base.{ℕ, ◌≡◌, refl, some, [], ◌∷◌, arith, ltb, leb}
use jkos.Base.Order.{Order, IsWeak}
use jkos.Rbt.{
  Rbt, nil, node, red, black, right, frame, Loc, loc, walk, plug, insert, erase, delete_fix,
  find_ge, find_le,
}
use jkos.Rbt.Balance.{IsRedBlack, Gives}
use jkos.Rbt.Bag.{IsTree}
use jkos.Rbt.Clear.{clear}
use jkos.Rbt.Sorted.{insert_sorted}
use jkos.Rbt.Descend.{insert-Gives}
use jkos.Rbt.Erase.{erase-Gives}
use jkos.Rbt.Find.{FoundGe, find_ge-FoundGe, FoundLe, find_le-FoundLe}

nat-IsWeak : IsWeak ltb leb
nat-IsWeak = ground arith

instance abbrev nat_order : Order ℕ
nat_order = record { lt = ltb; le = leb; weak = nat-IsWeak }

abbrev leaf : ℕ → Rbt ℕ
leaf k = node red nil k nil

abbrev three : Rbt ℕ
three = node black (leaf 2) 4 (leaf 6)

abbrev four : Rbt ℕ
four = node black (node black (leaf 1) 2 nil) 4 (node black nil 6 nil)

-- The uncle of the new node is red.
insert_recolours : insert 1 three ≡ some four
unfolding insert plug
insert_recolours = refl

-- The removal of 6 takes a rotation of the black sibling.
erase_rotates :
    erase (loc black nil 6 nil (frame right black 4 (node black (leaf 1) 2 nil) ∷ []))
    ≡ some (node black (node black nil 1 nil) 2 (node black nil 4 nil))
unfolding erase delete_fix plug
erase_rotates = refl

three-IsRedBlack : IsRedBlack three
three-IsRedBlack = record { height = 1; rules = ground arith; root_black = refl }

four-IsRedBlack : IsRedBlack four
four-IsRedBlack = record { height = 2; rules = ground arith; root_black = refl }

insert-Gives_example : Gives (insert_sorted 1 (walk three)) (insert 1 three)
insert-Gives_example = insert-Gives 1 three three-IsRedBlack (ground arith)

abbrev six : Loc ℕ
six = loc black nil 6 nil (frame right black 4 (node black (leaf 1) 2 nil) ∷ [])

erase-Gives_example : Gives (1 ∷ 2 ∷ 4 ∷ []) (erase six)
unfolding plug
erase-Gives_example = erase-Gives six four-IsRedBlack

find_ge-FoundGe_example : FoundGe 3 four (find_ge 3 four)
find_ge-FoundGe_example = find_ge-FoundGe 3 four (ground arith)

find_le-FoundLe_example : FoundLe 3 four (find_le 3 four)
find_le-FoundLe_example = find_le-FoundLe 3 four (ground arith)

three-IsTree : IsTree three
three-IsTree = record {
  balanced = record { height = 1; rules = ground arith; root_black = refl };
  sorted = ground arith;
}

-- The nodes in the order of the calls of `node_free`, the last one first.
clear_order : clear (λ k l. k ∷ l) three [] ≡ (nil, 4 ∷ 6 ∷ 2 ∷ [])
unfolding clear
clear_order = refl
