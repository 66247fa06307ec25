-- ===== src/Tests/Collections.antt =====
-- The methods of include/linkedlist.h and include/arraylist.h on short lists.
use tysos_cxx.Prelude.{
  zero, suc, ◌+◌, ltb, get_elem?, false, true, ℕ, Bool, List, [], ◌∷◌, none, some, refl, ◌≡◌, arith,
  ◌==◌, if◌then◌else◌, pos, ◌⊎◌,
}
use tysos_cxx.Containers.LinkedList.{LinkedList}
use tysos_cxx.Containers.LinkedList.Links.{Cell}
use tysos_cxx.Containers.LinkedList.Nodes.{IsList}
use tysos_cxx.Containers.LinkedList.Methods.{Allocator, remove, insert}
use tysos_cxx.Containers.LinkedList.Methods.Changes.{Removed, remove-Removed}
use tysos_cxx.Containers.LinkedList.Methods.Insertion.{IsFresh, insert_cell, insert_lem}
use tysos_cxx.Containers.IList.{Item, position}
use tysos_cxx.Containers.ArrayList as Array
use tysos_cxx.Containers.ArrayList.{ArrayList}
use tysos_cxx.Containers.ArrayList.Elements.{Stands, erase, put_in}
use tysos_cxx.Containers.ArrayList.Methods.{insert-Stands, remove_twice}

abbrev cells : List Cell
cells = record { addr = 0x10; item = 101; d = 0 } ∷ record { addr = 0x20; item = 102; d = 0 } ∷ []

abbrev two_nodes : LinkedList
two_nodes = record {
  heap = λ a.
      if a == 0x10
      then some (record { item = 101; next = 0x20; prev = 0; d = 0 })
      else if a == 0x20
      then some (record { item = 102; next = 0; prev = 0x10; d = 0 })
      else none;
  f = 0x10;
  l = 0x20;
  count = 2;
}

two_nodes-IsList : IsList two_nodes cells
two_nodes-IsList = record {
  chain = (omega arith, refl, (omega arith, refl, tt));
  apart = (refl, (refl, tt));
  head = refl;
  tail = refl;
  counted = refl;
}

abbrev alloc : Allocator
alloc h = 0x30

alloc-IsFresh : IsFresh alloc two_nodes.heap
alloc-IsFresh = record { ne_null = omega arith; unused = refl }

remove-Removed_example :
    (b : Bool) × (t : LinkedList) × (remove 101 two_nodes ≡ some (b, t))
    × Removed two_nodes cells 101 b t
remove-Removed_example = remove-Removed two_nodes cells two_nodes-IsList 101

insert_lem_example :
    (t : LinkedList) × (insert alloc 103 (pos 1) two_nodes ≡ some (tt, t))
    × IsList t (insert_cell (pos 1) (record { addr = 0x30; item = 103; d = 0 }) cells)
insert_lem_example = insert_lem alloc two_nodes cells two_nodes-IsList alloc-IsFresh 103 (pos 1)

-- An array of eight elements that holds three.
abbrev three_items : ArrayList
three_items = record { count = 3; arr = λ i. if ltb i 3 then 50 + i else 0 }

three_items-Stands : Stands three_items (50 ∷ 51 ∷ 52 ∷ [])
three_items-Stands = record { counted = refl; holds = holds }
  where
    holds : (i : ℕ) (p : Item) → get_elem? (50 ∷ 51 ∷ 52 ∷ []) i ≡ some p → three_items.arr i ≡ p
    holds zero p e = ground arith
    holds (suc zero) p e = ground arith
    holds (suc (suc zero)) p e = ground arith
    holds (suc (suc (suc i))) p e = absurd (cc)

insert-Stands_example :
    (b : ArrayList) × (Array.insert 8 60 (pos 1) three_items ≡ some b)
    × Stands b (put_in 1 60 (50 ∷ 51 ∷ 52 ∷ []))
insert-Stands_example =
    insert-Stands 8 three_items (50 ∷ 51 ∷ 52 ∷ []) 60 1 three_items-Stands (omega arith)
      (omega arith)

remove_twice_example :
    ((position 50 (50 ∷ 51 ∷ 52 ∷ []) ≡ none)
      × (Array.remove 8 50 three_items ≡ some (false, three_items)))
    ⊎ ((i : ℕ) × (position 50 (50 ∷ 51 ∷ 52 ∷ []) ≡ some i)
        × (b : ArrayList) × (Array.remove 8 50 three_items ≡ some (true, b))
        × Stands b (erase i (erase i (50 ∷ 51 ∷ 52 ∷ []))))
remove_twice_example =
    remove_twice 8 three_items (50 ∷ 51 ∷ 52 ∷ []) 50 three_items-Stands (omega arith)
