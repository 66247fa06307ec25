-- ===== src/Containers/DeltaQueue.antt =====
-- class DeltaQueue (include/queue.h) on the sequence of its nodes; the delta type is `unsigned long
-- long`, a 64-bit word. How nodes are linked is the subject of Containers.LinkedList.
pub mod Wakes
pub mod Insert
use tysos_cxx.Prelude.{
  ℕ, Bool, ◌+◌, ◌-◌, ◌%◌, ◌^◌, List, [], ◌∷◌, ◌++◌, Option, none, some, ltb, leb, ◌==◌,
  if◌then◌else◌,
}

pub record Entry : Type 0 where
  pub item : ℕ
  pub d : ℕ

abbrev pub entry : ℕ → ℕ → Entry
entry item d = record { item = item; d = d }

abbrev pub add64 : ℕ → ℕ → ℕ
add64 a b = (a + b) % 2 ^ 64

abbrev pub sub64 : ℕ → ℕ → ℕ
sub64 a b = (a + 2 ^ 64 - b) % 2 ^ 64

-- DeltaQueue::_sumto of the last node.
unfoldable pub sum_to_last : ℕ → List Entry → ℕ
sum_to_last sum [] = sum
sum_to_last sum (c ∷ rest) = sum_to_last (add64 sum c.d) rest

-- DeltaQueue::Add
unfoldable pub add_delta : ℕ → ℕ → (absolute : Bool) → List Entry → List Entry
unfolding sum_to_last
add_delta item value absolute q =
    let v = if absolute then sub64 value (sum_to_last 0 q) else value in
    q ++ entry item (if leb v 0 then 0 else v) ∷ []

-- What DeltaQueue::_remove leaves of the nodes behind the removed one.
unfoldable pub absorb : ℕ → List Entry → List Entry
absorb d [] = []
absorb d (c ∷ rest) = entry c.item (add64 c.d d) ∷ rest

-- DeltaQueue::Remove: the first node with the item, through DeltaQueue::_remove.
unfoldable pub remove_delta : ℕ → List Entry → List Entry
remove_delta item [] = []
remove_delta item (c ∷ rest) =
    if c.item == item then absorb c.d rest else c ∷ remove_delta item rest

-- The loop of InsertAtDelta from the node `c` on. `_insertbef` makes the new node `c->next`, whose
-- delta the code then reduces.
unfoldable pub insert_from : ℕ → ℕ → Entry → List Entry → List Entry
insert_from item value c [] = c ∷ entry item (sub64 value c.d) ∷ []
insert_from item value c (e ∷ rest) =
    let later = insert_from item (sub64 value c.d) e rest in
    if leb value e.d then c ∷ entry item (sub64 value value) ∷ e ∷ rest else c ∷ later

-- DeltaQueue::InsertAtDelta
unfoldable pub insert_at_delta : ℕ → ℕ → List Entry → List Entry
unfolding insert_from
insert_at_delta item value [] = entry item value ∷ []
insert_at_delta item value (c ∷ rest) = insert_from item value c rest

-- DeltaQueue::GetZero
unfoldable pub get_zero : List Entry → Option (ℕ × List Entry)
get_zero [] = none
get_zero (c ∷ rest) = if c.d == 0 then some (c.item, absorb c.d rest) else none

-- DeltaQueue::DecreaseDelta: what is left of the amount, and the queue.
unfoldable pub decrease_delta : ℕ → List Entry → ℕ × List Entry
decrease_delta dec [] = (dec, [])
decrease_delta dec (c ∷ rest) =
    let (left, later) = decrease_delta (sub64 dec c.d) rest in
    if leb dec c.d then (0, entry c.item (sub64 c.d dec) ∷ rest) else (left, entry c.item 0 ∷ later)
