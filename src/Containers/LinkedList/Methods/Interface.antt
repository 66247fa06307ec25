-- ===== src/Containers/LinkedList/Methods/Interface.antt =====
-- class LinkedList (include/linkedlist.h) as an implementation of IList (include/list.h).
use tysos_cxx.Prelude.{
  ℕ, zero, suc, Bool, true, false, List, [], ◌∷◌, ◌++◌, Option, none, some, ◌≡◌, ◌≢◌, refl, sym,
  ◌∙◌, ap, subst, ◌==◌, ℤ, pos, inl, inr, Bool-cases, arith, length, get_elem?, All,
}
use tysos_cxx.Containers.IList.{Item, IList, ListLaws, position, without, has}
use tysos_cxx.Containers.IList.Sequences.{position-none, without-absent}
use tysos_cxx.Containers.LinkedList.{Ptr, LinkedList, M, pure, load, ◌>>=◌}
use tysos_cxx.Containers.LinkedList.Links.{Cell}
use tysos_cxx.Containers.LinkedList.Nodes.{IsList}
use tysos_cxx.Containers.LinkedList.Methods as Methods
use tysos_cxx.Containers.LinkedList.Methods.{Allocator, find, index_of}
use tysos_cxx.Containers.LinkedList.Methods.Lookup.{
  Found, find-Found, get_item-at, index_of-run, index_of-none,
}
use tysos_cxx.Containers.LinkedList.Methods.Changes.{Removed, remove-Removed, clear_lem}
use tysos_cxx.Containers.LinkedList.Methods.Insertion.{IsFresh, add_lem}

-- LinkedList::SetItem: `_item(index)->item = item` copies the item over the object to which the
-- node refers, which is not in the heap of nodes.
unfoldable pub set_item : ℤ → Ptr → M (Unit {0})
set_item index item = do n ← Methods.node_at index; c ← load n; pure tt

-- The virtual methods.
abbrev pub linked_list : Allocator → IList LinkedList
linked_list alloc = record {
  count = λ s. s.count;
  add = Methods.add alloc;
  clear = Methods.clear;
  contains = Methods.contains;
  remove = Methods.remove;
  get_item = Methods.get_item;
  set_item = set_item;
  index_of = Methods.index_of;
  remove_at = Methods.remove_at;
}

abbrev pub items : List Cell → List Item
items [] = []
items (c ∷ xs) = c.item ∷ items xs

-- The list stands for the items of its cells.
abbrev pub Rep : LinkedList → List Item → Type 0
Rep s ps = (xs : List Cell) × IsList s xs × (items xs ≡ ps)

items-append : (xs ys : List Cell) → items (xs ++ ys) ≡ items xs ++ items ys
items-append [] ys = refl
items-append (c ∷ xs) ys = ap (λ ps. c.item ∷ ps) (items-append xs ys)

length-items : (xs : List Cell) → length (items xs) ≡ length xs
length-items [] = refl
length-items (c ∷ xs) = ap (λ n. suc n) (length-items xs)

position-items :
    (p : Item) (us : List Cell) (c : Cell) (vs : List Cell)
    → All (λ e. e.item ≢ p) us
    → c.item ≡ p
    → position p (items (us ++ c ∷ vs)) ≡ some (length us)
position-items p [] c vs a e = ground arith
position-items p (d ∷ us) c vs a e =
    let miss : (d.item == p) ≡ false = let ne = a.0 in ground arith in
    rw (miss, position-items p us c vs a.1 e) refl

without-items :
    (p : Item) (us : List Cell) (c : Cell) (vs : List Cell)
    → All (λ e. e.item ≢ p) us
    → c.item ≡ p
    → without p (items (us ++ c ∷ vs)) ≡ items (us ++ vs)
without-items p [] c vs a e = ground arith
without-items p (d ∷ us) c vs a e =
    let miss : (d.item == p) ≡ false = let ne = a.0 in ground arith in
    rw (miss, without-items p us c vs a.1 e) refl

has-items :
    (p : Item) (us : List Cell) (c : Cell) (vs : List Cell)
    → c.item ≡ p
    → has p (items (us ++ c ∷ vs)) ≡ true
has-items p [] c vs e = ground arith
has-items p (d ∷ us) c vs e = let ih = has-items p us c vs e in ground arith

has_absent : (p : Item) (xs : List Cell) → All (λ c. c.item ≢ p) xs → has p (items xs) ≡ false
has_absent p [] a = refl
has_absent p (d ∷ xs) a =
    let miss : (d.item == p) ≡ false = let ne = a.0 in ground arith in rw miss (has_absent p xs a.1)

-- The cell of an index.
cell_at :
    (xs : List Cell) (i : ℕ) (p : Item)
    → get_elem? (items xs) i ≡ some p
    → (us : List Cell) × (c : Cell) × (vs : List Cell) × (xs ≡ us ++ c ∷ vs)
      × (length us ≡ i)
      × (c.item ≡ p)
cell_at [] i p e = absurd (cc)
cell_at (c ∷ xs) zero p e = ([], c, xs, refl, refl, ground arith)
cell_at (c ∷ xs) (suc i) p e =
    let (us, d, vs, split, len, is) = cell_at xs i p e in
    (c ∷ us, d, vs, ap (λ ys. c ∷ ys) split, ap (λ n. suc n) len, is)

module _ (s : LinkedList) (ps : List Item) (xs : List Cell) (is : IsList s xs)
    (same : items xs ≡ ps) (p : Item) where
  index_of-Rep : Methods.index_of p s ≡ some (position p ps, s)
  index_of-Rep = let (r, e, found) = find-Found s xs is p in cases r e found
    where
      cases :
          (r : Option (ℕ × Ptr))
          → find p s ≡ some (r, s)
          → Found p xs 0 r
          → Methods.index_of p s ≡ some (position p ps, s)
      cases none e a =
          index_of-none s xs is p e
          ∙ ap (λ r. some (r, s))
              (sym (position-none p (items xs) (has_absent p xs a)) ∙ ap (position p) same)
      cases (some (i, a)) e (us, c, vs, split, item, at, index, before) =
          let place : i ≡ length us = omega arith in
          index_of-run s xs is p i a e
          ∙ ap (λ r. some (r, s))
              (ap (λ n. some n) place
                ∙ sym (position-items p us c vs before item)
                ∙ ap (λ ys. position p (items ys)) (sym split)
                ∙ ap (position p) same)

  remove-Rep : (t : LinkedList) × (Methods.remove p s ≡ some (has p ps, t)) × Rep t (without p ps)
  remove-Rep = let (b, t, e, removed) = remove-Removed s xs is p in cases b t e removed
    where
      cases :
          (b : Bool) (t : LinkedList)
          → Methods.remove p s ≡ some (b, t)
          → Removed s xs p b t
          → (t : LinkedList) × (Methods.remove p s ≡ some (has p ps, t)) × Rep t (without p ps)
      cases false t e (a, kept) =
          let out = has_absent p xs a in
          (
            t,
            e ∙ ap (λ b. some (b, t)) (sym out ∙ ap (has p) same),
            (
              xs,
              subst (λ l. IsList l xs) (sym kept) is,
              sym (without-absent p (items xs) out) ∙ ap (without p) same,
            ),
          )
      cases true t e (us, c, vs, split, item, before, rest, freed) =
          let whole = ap items (sym split) ∙ same in
          (
            t,
            e ∙ ap (λ b. some (b, t)) (sym (has-items p us c vs item) ∙ ap (has p) whole),
            (us ++ vs, rest, sym (without-items p us c vs before item) ∙ ap (without p) whole),
          )

contains-run :
    (s : LinkedList) (p : Item) (r : Option ℕ)
    → Methods.index_of p s ≡ some (r, s)
    → Methods.contains p s ≡ some (elim r [ none ↦ false | some i ↦ true ], s)
unfolding Methods.contains
contains-run s p none e = ground arith
contains-run s p (some i) e = ground arith

found_iff_has :
    (p : Item) (xs : List Item)
    → elim (position p xs) as (λ r. Bool) [ none ↦ false | some i ↦ true ] ≡ has p xs
found_iff_has p [] = refl
found_iff_has p (x ∷ xs) = elim (Bool-cases (x == p)) [
  | inl hit ↦ rw hit refl
  | inr miss ↦ let ih = found_iff_has p xs in ground arith
]

-- LinkedList keeps the laws of a collection, where the allocator returns an unused address.
pub linked_list-ListLaws :
    (alloc : Allocator) → ListLaws (linked_list alloc) Rep (λ s. IsFresh alloc s.heap)
linked_list-ListLaws alloc = record {
  counts = λ s ps (xs, is, same). is.counted ∙ sym (length-items xs) ∙ ap length same;
  adds = λ s ps p (xs, is, same) fresh.
      (let (t, ran, rest) = add_lem alloc s xs is fresh p in
        (t, ran, (_, rest, items-append xs _ ∙ ap (λ ys. ys ++ p ∷ []) same)));
  clears =
      λ s ps (xs, is, same). (let (t, ran, rest) = clear_lem s xs is in (t, ran, ([], rest, refl)));
  checks = λ s ps p (xs, is, same).
      contains-run s p (position p ps) (index_of-Rep s ps xs is same p)
      ∙ ap (λ b. some (b, s)) (found_iff_has p ps);
  removes = λ s ps p (xs, is, same). remove-Rep s ps xs is same p;
  finds = λ s ps p (xs, is, same). index_of-Rep s ps xs is same p;
  gets = λ s ps i p (xs, is, same) e.
      (let (us, c, vs, split, len, item) = cell_at xs i p (ap (λ ys. get_elem? ys i) same ∙ e) in
        ap (λ n. Methods.get_item (pos n) s) (sym len)
        ∙ get_item-at s xs is us c vs split
        ∙ ap (λ q. some (q, s)) item);
}
