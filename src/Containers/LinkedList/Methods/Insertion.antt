-- ===== src/Containers/LinkedList/Methods/Insertion.antt =====
-- Add and Insert of class LinkedList (include/linkedlist.h) as operations on the sequence that the
-- list stands for.
use tysos_cxx.Prelude.{
  ℕ, zero, suc, ◌≤◌, false, List, [], ◌∷◌, ◌++◌, Option, none, some, ◌≡◌, ◌≢◌, refl, sym, ◌∙◌, ap,
  ◌==◌, inl, inr, ℤ, pos, negsuc, Bool-cases, subst, arith, length, if◌then◌else◌,
}
use tysos_cxx.Containers.LinkedList.{
  Ptr, null, Node, LinkedList, write, store, new_node, insertend, insertbef,
}
use tysos_cxx.Containers.LinkedList.Links.{
  Cell, Heap, ◌∉◌, Linked, Linked-SameBut, write-SameBut, Linked-split,
}
use tysos_cxx.Containers.LinkedList.Nodes.{IsList}
use tysos_cxx.Containers.LinkedList.Inserts.{IsNew, insertend-IsList, insertbef-IsList}
use tysos_cxx.Containers.LinkedList.Methods.{Allocator, make_node, node_at, add, insert}
use tysos_cxx.Containers.LinkedList.Methods.Lookup.{NodeAt, node_at-NodeAt}

-- The allocator's next address is no address of a node, and not NULL.
pub record IsFresh (alloc : Allocator) (h : Heap) : Type 0 where
  pub ne_null : alloc h ≢ null
  pub unused : h (alloc h) ≡ none

-- The sequence with a cell put in before the cell of an index, or at the end.
abbrev pub put_cell : ℕ → Cell → List Cell → List Cell
put_cell i c [] = c ∷ []
put_cell zero c (e ∷ xs) = c ∷ e ∷ xs
put_cell (suc i) c (e ∷ xs) = e ∷ put_cell i c xs

abbrev pub insert_cell : ℤ → Cell → List Cell → List Cell
insert_cell (pos i) c xs = put_cell i c xs
insert_cell (negsuc k) c xs = xs ++ c ∷ []

put_cell-append :
    (us : List Cell) (c e : Cell) (vs : List Cell)
    → put_cell (length us) c (us ++ e ∷ vs) ≡ us ++ c ∷ e ∷ vs
put_cell-append [] c e vs = refl
put_cell-append (d ∷ us) c e vs = ap (λ ys. d ∷ ys) (put_cell-append us c e vs)

put_cell_end : (i : ℕ) (c : Cell) (xs : List Cell) → length xs ≤ i → put_cell i c xs ≡ xs ++ c ∷ []
put_cell_end zero c [] l = refl
put_cell_end (suc i) c [] l = refl
put_cell_end zero c (d ∷ xs) l = absurd (omega arith)
put_cell_end (suc i) c (d ∷ xs) l = ap (λ ys. d ∷ ys) (put_cell_end i c xs (omega arith))

-- The list with a node that `new` has just made at `p`.
abbrev made : LinkedList → Ptr → Ptr → LinkedList
made s p item = record s {
  heap = write s.heap p (some (record { item = item; next = null; prev = null; d = 0 }));
}

write_at : (h : Heap) (p : Ptr) (c : Option Node) → write h p c p ≡ c
unfolding write
write_at h p c = ground arith

unused-outside : (h : Heap) (p q a : Ptr) (xs : List Cell) → Linked h p xs q → h a ≡ none → a ∉ xs
unused-outside h p q a [] chain e = refl
unused-outside h p q a (c ∷ xs) chain e = elim (Bool-cases (c.addr == a)) [
  | inl hit ↦ absurd (ground arith)
  | inr miss ↦ let rest = unused-outside h c.addr q a xs chain.2 e in ground arith
]

insert-run :
    (alloc : Allocator) (s t : LinkedList) (item next : Ptr) (index : ℤ)
    → node_at index s ≡ some (next, s)
    → (if next == null then insertend (alloc s.heap) else insertbef next (alloc s.heap))
        (made s (alloc s.heap) item)
      ≡ some (tt, t)
    → insert alloc item index s ≡ some (tt, t)
unfolding insert make_node new_node store
insert-run alloc s t item next index e done = ground arith

add-run :
    (alloc : Allocator) (s t : LinkedList) (item : Ptr)
    → insertend (alloc s.heap) (made s (alloc s.heap) item) ≡ some (tt, t)
    → add alloc item s ≡ some (tt, t)
unfolding add make_node new_node store
add-run alloc s t item done = ground arith

module _ (alloc : Allocator) (s : LinkedList) (xs : List Cell) (is : IsList s xs)
    (fresh : IsFresh alloc s.heap) (item : Ptr) where
  -- The new node's cell.
  abbrev pub new_cell : Cell
  new_cell = record { addr = alloc s.heap; item = item; d = 0 }

  made-IsList : IsList (made s (alloc s.heap) item) xs
  made-IsList =
      let out = unused-outside s.heap null null (alloc s.heap) xs is.chain fresh.unused in
      record {
        chain =
            Linked-SameBut s.heap _ (alloc s.heap) null xs null is.chain
              (write-SameBut s.heap (alloc s.heap) _) out;
        apart = is.apart;
        head = is.head;
        tail = is.tail;
        counted = is.counted;
      }

  made-IsNew : IsNew (made s (alloc s.heap) item) xs new_cell
  made-IsNew = record {
    ne_null = fresh.ne_null;
    made = write_at s.heap (alloc s.heap) _;
    outside = unused-outside s.heap null null (alloc s.heap) xs is.chain fresh.unused;
  }

  -- Add puts one new node with the item at the end.
  pub add_lem :
      (t : LinkedList) × (add alloc item s ≡ some (tt, t)) × IsList t (xs ++ new_cell ∷ [])
  add_lem =
      let (t, done, rest, _) =
        insertend-IsList (made s (alloc s.heap) item) xs new_cell made-IsList made-IsNew in
      (t, add-run alloc s t item done, rest)

  insert_end :
      (index : ℤ)
      → node_at index s ≡ some (null, s)
      → (t : LinkedList) × (insert alloc item index s ≡ some (tt, t))
        × IsList t (xs ++ new_cell ∷ [])
  insert_end index at =
      let (t, done, rest, _) =
        insertend-IsList (made s (alloc s.heap) item) xs new_cell made-IsList made-IsNew in
      (t, insert-run alloc s t item null index at done, rest)

  insert_before :
      (index : ℤ) (us : List Cell) (c : Cell) (vs : List Cell)
      → xs ≡ us ++ c ∷ vs
      → node_at index s ≡ some (c.addr, s)
      → (t : LinkedList) × (insert alloc item index s ≡ some (tt, t))
        × IsList t (us ++ new_cell ∷ c ∷ vs)
  insert_before index us c vs split at =
      let is' = subst (λ ys. IsList (made s (alloc s.heap) item) ys) split made-IsList in
      let new' = subst (λ ys. IsNew (made s (alloc s.heap) item) ys new_cell) split made-IsNew in
      let (_, back) = Linked-split _ null us (c ∷ vs) null is'.chain in
      let there : (c.addr == null) ≡ false = let ne = back.0 in ground arith in
      let (t, done, rest, _) =
        insertbef-IsList (made s (alloc s.heap) item) us c vs new_cell is' new' in
      (t, insert-run alloc s t item c.addr index at (rw there done), rest)

  -- With an allocator that returns an unused address, Insert on a list returns, and puts one new
  -- node with the item before the node of the index, or at the end when the index is below 0 or
  -- not below the count; the other nodes stay in order.
  pub insert_lem :
      (index : ℤ)
      → (t : LinkedList) × (insert alloc item index s ≡ some (tt, t))
        × IsList t (insert_cell index new_cell xs)
  insert_lem index = let (a, e, at) = node_at-NodeAt s xs is index in cases index a e at
    where
      cases :
          (index : ℤ) (a : Ptr)
          → node_at index s ≡ some (a, s)
          → NodeAt xs index a
          → (t : LinkedList) × (insert alloc item index s ≡ some (tt, t))
            × IsList t (insert_cell index new_cell xs)
      cases (negsuc k) a e at = insert_end (negsuc k) (rw⁻¹ at e)
      cases (pos i) a e (inr (out, at)) =
          let (t, done, rest) = insert_end (pos i) (rw⁻¹ at e) in
          (t, done, subst (λ ys. IsList t ys) (sym (put_cell_end i new_cell xs out)) rest)
      cases (pos i) a e (inl (us, c, vs, split, len, at)) =
          let (t, done, rest) = insert_before (pos i) us c vs split (rw at e) in
          let same =
            ap (λ ys. put_cell (length us) new_cell ys) split ∙ put_cell-append us new_cell c vs in
          (
            t,
            done,
            subst (λ n. IsList t (put_cell n new_cell xs)) len
                (subst (λ ys. IsList t ys) (sym same) rest),
          )
