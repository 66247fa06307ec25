-- ===== src/Containers/LinkedList/Methods.antt =====
-- The public methods of class LinkedList (include/linkedlist.h) on the heap. The allocator is a
-- parameter: the address at which `new` makes the next node. A walk runs on fuel, one round more
-- than the list counts nodes; running out of it is a fault.
pub mod Lookup
pub mod Changes
pub mod Insertion
pub mod Interface
use tysos_cxx.Prelude.{
  ℕ, zero, suc, ◌+◌, Bool, true, false, Option, none, some, ◌==◌, if◌then◌else◌, ℤ, pos, negsuc,
}
use tysos_cxx.Containers.LinkedList.{
  Ptr, null, Node, LinkedList, M, pure, ◌>>=◌, ◌>>◌, load, store, new_node, remove_node, insertend,
  insertbef,
}

abbrev pub Allocator : Type 0
Allocator = (Ptr → Option Node) → Ptr

-- `new Node(item)`
unfoldable pub make_node : Allocator → Ptr → M Ptr
make_node alloc item s = let p = alloc s.heap in (do new_node p item 0; pure p) s

-- The loop of LinkedList::_find: the index and the node, or none for -1.
unfoldable pub find_from : ℕ → (Ptr → Option Node) → Ptr → Ptr → ℕ → Option (Option (ℕ × Ptr))
find_from zero h item c index = none
find_from (suc fuel) h item c index = elim (c == null) [
  | true ↦ some none
  | false ↦ elim (h c) [
    | none ↦ none
    | some n ↦ elim (n.item == item) [
      | true ↦ some (some (index, c))
      | false ↦ find_from fuel h item n.next (suc index)
    ]
  ]
]

-- LinkedList::_find
unfoldable pub find : Ptr → M (Option (ℕ × Ptr))
find item s = elim (find_from (suc s.count) s.heap item s.f 0) [
  | none ↦ none
  | some r ↦ some (r, s)
]

-- The loop of LinkedList::_item; an index below 0 is never reached.
unfoldable pub item_from : ℕ → (Ptr → Option Node) → ℤ → Ptr → Option Ptr
item_from zero h index c = none
item_from (suc fuel) h index c = elim (c == null) [
  | true ↦ some null
  | false ↦ elim index [
    | pos i ↦ elim i [
      | zero ↦ some c
      | suc j ↦ elim (h c) [ none ↦ none | some n ↦ item_from fuel h (pos j) n.next ]
    ]
    | negsuc k ↦ elim (h c) [ none ↦ none | some n ↦ item_from fuel h (negsuc (suc k)) n.next ]
  ]
]

-- LinkedList::_item
unfoldable pub node_at : ℤ → M Ptr
node_at index s = elim (item_from (suc s.count) s.heap index s.f) [
  | none ↦ none
  | some p ↦ some (p, s)
]

-- LinkedList::Add
unfoldable pub add : Allocator → Ptr → M (Unit {0})
add alloc item = do n ← make_node alloc item; insertend n

-- LinkedList::IndexOf, where none is -1.
unfoldable pub index_of : Ptr → M (Option ℕ)
index_of item = do r ← find item; pure (elim r [ none ↦ none | some (i, n) ↦ some i ])

-- LinkedList::Contains
unfoldable pub contains : Ptr → M Bool
contains item = do r ← index_of item; pure (elim r [ none ↦ false | some i ↦ true ])

-- What Remove does with the node that it has found.
unfoldable pub remove_found : Option (ℕ × Ptr) → M Bool
remove_found none = pure false
remove_found (some (i, n)) = do remove_node n; pure true

-- LinkedList::Remove
unfoldable pub remove : Ptr → M Bool
remove item = do r ← find item; remove_found r

-- LinkedList::GetItem
unfoldable pub get_item : ℤ → M Ptr
get_item index = do n ← node_at index; c ← load n; pure c.item

-- LinkedList::Insert
unfoldable pub insert : Allocator → Ptr → ℤ → M (Unit {0})
insert alloc item index = do
  next ← node_at index
  n ← make_node alloc item
  if next == null then insertend n else insertbef next n

-- LinkedList::RemoveAt
unfoldable pub remove_at : ℤ → M (Unit {0})
remove_at index = do n ← node_at index; remove_node n

-- The loop of LinkedList::Clear.
unfoldable pub clear_from : ℕ → M (Unit {0})
clear_from zero s = none
clear_from (suc fuel) s = elim (s.l == null) [
  | true ↦ some (tt, s)
  | false ↦ elim (remove_node s.l s) [ none ↦ none | some (_, s') ↦ clear_from fuel s' ]
]

-- LinkedList::Clear
unfoldable pub clear : M (Unit {0})
clear s = clear_from (suc s.count) s

-- LinkedList::Enumerator::MoveNext: the enumerator's new node, and whether there is one. NULL is
-- before the first node.
unfoldable pub move_next : Ptr → M (Ptr × Bool)
move_next c =
    if c == null
    then (λ s. some ((s.f, if s.f == null then false else true), s))
    else (do n ← load c; pure (n.next, if n.next == null then false else true))
