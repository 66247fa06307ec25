-- ===== src/Tests/Lists.antt =====
-- include/linkedlist.h and include/queue.h on short lists.
use tysos_cxx.Prelude.{
  List, [], ◌∷◌, Option, none, some, refl, ◌≡◌, ◌-◌, arith, map, ◌==◌, if◌then◌else◌,
}
use tysos_cxx.Containers.LinkedList.{Ptr, Node, LinkedList, remove_node, insertend, insertbef}
use tysos_cxx.Containers.LinkedList.Links.{Cell}
use tysos_cxx.Containers.LinkedList.Sides.{SameOutside}
use tysos_cxx.Containers.LinkedList.Nodes.{IsList, remove_node-IsList}
use tysos_cxx.Containers.LinkedList.Inserts.{IsNew, insertend-IsList, insertbef-IsList}
use tysos_cxx.Containers.DeltaQueue.{Entry, entry, decrease_delta, remove_delta, insert_at_delta}
use tysos_cxx.Containers.DeltaQueue.Wakes.{
  dues, sum, earlier, drop_item, decrease_delta-dues, decrease_delta-left, remove_delta-dues,
}
use tysos_cxx.Containers.DeltaQueue.Insert.{Inserted, insert_at_delta-Inserted}

-- Nodes at 0x10, 0x20 and 0x30, and a new node at 0x40.
abbrev one : Cell
one = record { addr = 0x10; item = 101; d = 0 }

abbrev two : Cell
two = record { addr = 0x20; item = 102; d = 0 }

abbrev three : Cell
three = record { addr = 0x30; item = 103; d = 0 }

abbrev fresh : Cell
fresh = record { addr = 0x40; item = 104; d = 0 }

abbrev memory : Ptr → Option Node
memory a =
    if a == 0x10
    then some (record { item = 101; next = 0x20; prev = 0; d = 0 })
    else if a == 0x20
    then some (record { item = 102; next = 0x30; prev = 0x10; d = 0 })
    else if a == 0x30
    then some (record { item = 103; next = 0; prev = 0x20; d = 0 })
    else if a == 0x40
    then some (record { item = 104; next = 0; prev = 0; d = 0 })
    else none

abbrev three_nodes : LinkedList
three_nodes = record { heap = memory; f = 0x10; l = 0x30; count = 3 }

abbrev cells : List Cell
cells = one ∷ two ∷ three ∷ []

three_nodes-IsList : IsList three_nodes cells
three_nodes-IsList = record {
  chain = (omega arith, refl, (omega arith, refl, (omega arith, refl, tt)));
  apart = (refl, (refl, (refl, tt)));
  head = refl;
  tail = refl;
  counted = refl;
}

fresh-IsNew : IsNew three_nodes cells fresh
fresh-IsNew = record { ne_null = omega arith; made = refl; outside = refl }

test-remove_node :
    (t : LinkedList) × (remove_node 0x20 three_nodes ≡ some (tt, t))
    × IsList t (one ∷ three ∷ [])
    × (t.heap 0x20 ≡ none)
    × SameOutside cells memory t.heap
test-remove_node = remove_node-IsList three_nodes (one ∷ []) two (three ∷ []) three_nodes-IsList

test-insertend :
    (t : LinkedList) × (insertend 0x40 three_nodes ≡ some (tt, t))
    × IsList t (one ∷ two ∷ three ∷ fresh ∷ [])
    × SameOutside (fresh ∷ cells) memory t.heap
test-insertend = insertend-IsList three_nodes cells fresh three_nodes-IsList fresh-IsNew

test-insertbef :
    (t : LinkedList) × (insertbef 0x10 0x40 three_nodes ≡ some (tt, t))
    × IsList t (fresh ∷ one ∷ two ∷ three ∷ [])
    × SameOutside (fresh ∷ cells) memory t.heap
test-insertbef =
    insertbef-IsList three_nodes [] one (two ∷ three ∷ []) fresh three_nodes-IsList fresh-IsNew

-- Items 1, 2 and 3, due after 5, 5 and 12.
abbrev queue : List Entry
queue = entry 1 5 ∷ entry 2 0 ∷ entry 3 7 ∷ []

decrease_delta-dues_example : dues 0 (decrease_delta 8 queue).1 ≡ map (earlier 8) (dues 0 queue)
decrease_delta-dues_example = decrease_delta-dues 8 queue (omega arith) (omega arith)

test-decrease_delta-left : (decrease_delta 20 queue).0 ≡ 20 - sum queue
test-decrease_delta-left = decrease_delta-left 20 queue (omega arith) (omega arith)

test-remove_delta-dues : dues 0 (remove_delta 2 queue) ≡ drop_item 2 (dues 0 queue)
test-remove_delta-dues = remove_delta-dues 0 2 queue (omega arith)

insert_at_delta-Inserted_example : Inserted 9 5 (dues 0 queue) (dues 0 (insert_at_delta 9 2 queue))
insert_at_delta-Inserted_example =
    insert_at_delta-Inserted 9 2 (entry 1 5) (entry 2 0 ∷ entry 3 7 ∷ [])

test-decrease_delta : dues 0 (decrease_delta 8 queue).1 ≡ (1, 0) ∷ (2, 0) ∷ (3, 4) ∷ []
unfolding decrease_delta dues
test-decrease_delta = refl
