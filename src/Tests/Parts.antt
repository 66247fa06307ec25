-- ===== src/Tests/Parts.antt =====
-- kernel/core/section.cpp: a section list over two linked lists of one node each.
use tysos_cxx.Prelude.{
  ◌<◌, ◌≡◌, ◌≢◌, ℕ, true, false, not, List, [], ◌∷◌, none, some, refl, arith, length, ◌==◌,
  if◌then◌else◌, pos,
}
use tysos_cxx.Containers.IList.{Item, without, has}
use tysos_cxx.Containers.LinkedList.{LinkedList}
use tysos_cxx.Containers.LinkedList.Methods.{Allocator}
use tysos_cxx.Containers.LinkedList.Methods.Insertion.{IsFresh}
use tysos_cxx.Containers.LinkedList.Methods.Interface.{linked_list, Rep, linked_list-ListLaws}
use tysos_cxx.Section.{Section, empty_section, is_kernel}
use tysos_cxx.Section.SectionList.{returns, add, remove, index_of, get_item}
use tysos_cxx.Section.SectionList.Parts.{
  parts, when, Holds, add-Holds, remove-Holds, get_item-index_of,
}

-- The section 11 is the kernel's, 22 a process section, and 33 the kernel's.
abbrev pub at : Item → Section
at p =
    if p == 11
    then record (empty_section 0) { flags = 0x4001; base = 0x100000; length = 0x1000 }
    else if p == 22
    then record (empty_section 0) { flags = 1; base = 0x40000000; length = 0x1000 }
    else record (empty_section 0) { flags = 0x4001; length = 0x1000 }

abbrev pub one_node : Item → LinkedList
one_node p = record {
  heap = λ a. if a == 0x10 then some (record { item = p; next = 0; prev = 0; d = 0 }) else none;
  f = 0x10;
  l = 0x10;
  count = 1;
}

pub one_node-Rep : (p : Item) → Rep (one_node p) (p ∷ [])
one_node-Rep p = (
  record { addr = 0x10; item = p; d = 0 } ∷ [],
  record {
    chain = (omega arith, refl, tt);
    apart = (refl, tt);
    head = refl;
    tail = refl;
    counted = refl;
  },
  refl,
)

abbrev pub alloc : Allocator
alloc h = 0x20

pub alloc-IsFresh : (p : Item) → IsFresh alloc (one_node p).heap
alloc-IsFresh p = record { ne_null = omega arith; unused = refl }

abbrev HoldsHere : LinkedList → LinkedList → List Item → List Item → Type 0
HoldsHere =
    Holds (linked_list alloc) Rep (λ s. IsFresh alloc s.heap) (linked_list-ListLaws alloc) at

both : HoldsHere (one_node 11) (one_node 22) (11 ∷ []) (22 ∷ [])
unfolding is_kernel
both = record {
  kernels = one_node-Rep 11;
  processes = one_node-Rep 22;
  in_kernel = (refl, tt);
  in_process = (refl, tt);
}

add-Holds_example :
    (k : LinkedList) × (p : LinkedList) × (add
        (linked_list alloc)
        at
        33
        (parts (one_node 11) (one_node 22))
      ≡ returns tt (parts k p))
    × HoldsHere k p (11 ∷ when (is_kernel (at 33)) 33) (22 ∷ when (not (is_kernel (at 33))) 33)
add-Holds_example =
    add-Holds (linked_list alloc) Rep (λ s. IsFresh alloc s.heap) (linked_list-ListLaws alloc) at
      (one_node 11) (one_node 22) (11 ∷ []) (22 ∷ []) both 33 (alloc-IsFresh 11) (alloc-IsFresh 22)

remove-Holds_example :
    (k : LinkedList) × (p : LinkedList) × (remove
        (linked_list alloc)
        at
        22
        (parts (one_node 11) (one_node 22))
      ≡ returns (has 22 (11 ∷ 22 ∷ [])) (parts k p))
    × HoldsHere k p (without 22 (11 ∷ [])) (without 22 (22 ∷ []))
remove-Holds_example =
    remove-Holds (linked_list alloc) Rep (λ s. IsFresh alloc s.heap) (linked_list-ListLaws alloc) at
      (one_node 11) (one_node 22) (11 ∷ []) (22 ∷ []) both 22

get_item-index_of_example :
    (i : ℕ) × (index_of (linked_list alloc) 22 (parts (one_node 11) (one_node 22))
      ≡ returns (some i) (parts (one_node 11) (one_node 22)))
    × (is_kernel (at 22) ≡ true
        → get_item (linked_list alloc) (pos i) (parts (one_node 11) (one_node 22))
          ≡ returns 22 (parts (one_node 11) (one_node 22)))
    × (is_kernel (at 22) ≡ false
        → i < length {A = Item} (11 ∷ [])
        → (q : Item) × (get_item (linked_list alloc) (pos i) (parts (one_node 11) (one_node 22))
            ≡ returns q (parts (one_node 11) (one_node 22)))
          × (q ≢ 22))
get_item-index_of_example =
    get_item-index_of (linked_list alloc) Rep (λ s. IsFresh alloc s.heap)
      (linked_list-ListLaws alloc) at (one_node 11) (one_node 22) (11 ∷ []) (22 ∷ []) both 22 refl
