-- ===== src/Containers/LinkedList/Methods/Lookup.antt =====
-- _find, _item and the methods that read a LinkedList (include/linkedlist.h) as searches in the
-- sequence that the list stands for.
use tysos_cxx.Prelude.{
  ℕ, zero, suc, ◌+◌, ◌<◌, ◌≤◌, true, false, List, [], ◌∷◌, ◌++◌, Option, none, some, ◌≡◌, ◌≢◌, refl,
  sym, ◌∙◌, ap, ◌==◌, inl, inr, ◌⊎◌, ℤ, pos, negsuc, Bool-cases, subst, arith, length,
  length-append, All,
}
use tysos_cxx.Containers.LinkedList.{Ptr, null, Node, LinkedList}
use tysos_cxx.Containers.LinkedList.Links.{Cell, Heap, first, Linked, Linked-split}
use tysos_cxx.Containers.LinkedList.Nodes.{IsList, load-some}
use tysos_cxx.Containers.LinkedList.Methods.{
  find_from, find, item_from, node_at, index_of, get_item,
}

-- The first cell with the item, its index from `i` on and its address; or no cell has it.
abbrev pub Found : Ptr → List Cell → ℕ → Option (ℕ × Ptr) → Type 0
Found item xs i none = All (λ c. c.item ≢ item) xs
Found item xs i (some (j, a)) =
    (us : List Cell) × (c : Cell) × (vs : List Cell) × (xs ≡ us ++ c ∷ vs)
    × (c.item ≡ item)
    × (c.addr ≡ a)
    × (j ≡ i + length us)
    × All (λ e. e.item ≢ item) us

-- The address of the cell with the index, or NULL.
abbrev pub NodeAt : List Cell → ℤ → Ptr → Type 0
NodeAt xs (negsuc k) a = a ≡ null
NodeAt xs (pos i) a =
    ((us : List Cell) × (c : Cell) × (vs : List Cell) × (xs ≡ us ++ c ∷ vs)
      × (length us ≡ i)
      × (c.addr ≡ a))
    ⊎ ((length xs ≤ i) × (a ≡ null))

module _ (h : Heap) (item : Ptr) where
  Found-next :
      (c : Cell) (xs : List Cell) (i : ℕ) (r : Option (ℕ × Ptr))
      → c.item ≢ item
      → Found item xs (suc i) r
      → Found item (c ∷ xs) i r
  Found-next c xs i none ne f = (ne, f)
  Found-next c xs i (some (j, a)) ne (us, d, vs, is, same, at, index, before) =
      (c ∷ us, d, vs, ap (λ x. c ∷ x) is, same, at, omega arith, (ne, before))

  find_from-hit :
      (fuel p index : ℕ) (n : Node)
      → (p == null) ≡ false
      → h p ≡ some n
      → (n.item == item) ≡ true
      → find_from (suc fuel) h item p index ≡ some (some (index, p))
  unfolding find_from
  find_from-hit fuel p index n there at hit = rw (find_from, there, at, hit) refl

  find_from-miss :
      (fuel p index : ℕ) (n : Node) (r : Option (ℕ × Ptr))
      → (p == null) ≡ false
      → h p ≡ some n
      → (n.item == item) ≡ false
      → find_from fuel h item n.next (suc index) ≡ some r
      → find_from (suc fuel) h item p index ≡ some r
  unfolding find_from
  find_from-miss fuel p index n r there at miss e = rw (find_from, there, at, miss) e

  find_from-Found :
      (fuel i : ℕ) (p : Ptr) (xs : List Cell)
      → Linked h p xs null
      → length xs < fuel
      → (r : Option (ℕ × Ptr)) × (find_from fuel h item (first xs null) i ≡ some r)
        × Found item xs i r
  unfolding find_from
  find_from-Found zero i p xs chain l = absurd (omega arith)
  find_from-Found (suc fuel) i p [] chain l = (none, refl, tt)
  find_from-Found (suc fuel) i p (c ∷ xs) (ne, at, chain) l =
      let node : Node = record { item = c.item; next = first xs null; prev = p; d = c.d } in
      let there : (c.addr == null) ≡ false = ground arith in
      elim (Bool-cases (c.item == item)) [
        | inl hit ↦ (
          some (i, c.addr),
          find_from-hit fuel c.addr i node there at hit,
          ([], c, xs, refl, ground arith, refl, omega arith, tt),
        )
        | inr miss ↦
            let (r, e, f) = find_from-Found fuel (suc i) c.addr xs chain (omega arith) in
            (
              r,
              find_from-miss fuel c.addr i node r there at miss e,
              Found-next c xs i r (ground arith) f,
            )
      ]

  NodeAt-next :
      (c : Cell) (xs : List Cell) (i : ℕ) (a : Ptr)
      → NodeAt xs (pos i) a
      → NodeAt (c ∷ xs) (pos (suc i)) a
  NodeAt-next c xs i a (inl (us, d, vs, is, len, at)) =
      inl (c ∷ us, d, vs, ap (λ x. c ∷ x) is, omega arith, at)
  NodeAt-next c xs i a (inr (out, is)) = inr (omega arith, is)

  item_from-pos :
      (fuel i : ℕ) (p a : Ptr) (n : Node)
      → (p == null) ≡ false
      → h p ≡ some n
      → item_from fuel h (pos i) n.next ≡ some a
      → item_from (suc fuel) h (pos (suc i)) p ≡ some a
  unfolding item_from
  item_from-pos fuel i p a n there at e = rw (item_from, there, at) e

  item_from-negsuc :
      (fuel k : ℕ) (p a : Ptr) (n : Node)
      → (p == null) ≡ false
      → h p ≡ some n
      → item_from fuel h (negsuc (suc k)) n.next ≡ some a
      → item_from (suc fuel) h (negsuc k) p ≡ some a
  unfolding item_from
  item_from-negsuc fuel k p a n there at e = rw (item_from, there, at) e

  item_from-NodeAt :
      (fuel : ℕ) (index : ℤ) (p : Ptr) (xs : List Cell)
      → Linked h p xs null
      → length xs < fuel
      → (a : Ptr) × (item_from fuel h index (first xs null) ≡ some a) × NodeAt xs index a
  unfolding item_from
  item_from-NodeAt zero index p xs chain l = absurd (omega arith)
  item_from-NodeAt (suc fuel) (pos i) p [] chain l = (null, refl, inr (omega arith, refl))
  item_from-NodeAt (suc fuel) (negsuc k) p [] chain l = (null, refl, refl)
  item_from-NodeAt (suc fuel) (pos zero) p (c ∷ xs) (ne, at, chain) l =
      let there : (c.addr == null) ≡ false = ground arith in
      (c.addr, rw (item_from, there) refl, inl ([], c, xs, refl, refl, refl))
  item_from-NodeAt (suc fuel) (pos (suc i)) p (c ∷ xs) (ne, at, chain) l =
      let there : (c.addr == null) ≡ false = ground arith in
      let (a, e, is) = item_from-NodeAt fuel (pos i) c.addr xs chain (omega arith) in
      (
        a,
        item_from-pos fuel i c.addr a
            (record { item = c.item; next = first xs null; prev = p; d = c.d }) there at e,
        NodeAt-next c xs i a is,
      )
  item_from-NodeAt (suc fuel) (negsuc k) p (c ∷ xs) (ne, at, chain) l =
      let there : (c.addr == null) ≡ false = ground arith in
      let (a, e, is) = item_from-NodeAt fuel (negsuc (suc k)) c.addr xs chain (omega arith) in
      (
        a,
        item_from-negsuc fuel k c.addr a
            (record { item = c.item; next = first xs null; prev = p; d = c.d }) there at e,
        is,
      )

split_unique :
    (us us' : List Cell) (c d : Cell) (vs vs' : List Cell)
    → us ++ c ∷ vs ≡ us' ++ d ∷ vs'
    → length us ≡ length us'
    → c ≡ d
split_unique [] [] c d vs vs' e l = cc
split_unique [] (b ∷ us') c d vs vs' e l = absurd (omega arith)
split_unique (a ∷ us) [] c d vs vs' e l = absurd (omega arith)
split_unique (a ∷ us) (b ∷ us') c d vs vs' e l = split_unique us us' c d vs vs' (cc) (omega arith)

module _ (s : LinkedList) (xs : List Cell) (is : IsList s xs) where
  enough : length xs < suc s.count
  enough = let n = is.counted in omega arith

  find-run :
      (item p : Ptr) (r : Option (ℕ × Ptr))
      → s.f ≡ p
      → find_from (suc s.count) s.heap item p 0 ≡ some r
      → find item s ≡ some (r, s)
  unfolding find
  find-run item p r head e = ground arith

  node_at-run :
      (index : ℤ) (p a : Ptr)
      → s.f ≡ p
      → item_from (suc s.count) s.heap index p ≡ some a
      → node_at index s ≡ some (a, s)
  unfolding node_at
  node_at-run index p a head e = ground arith

  pub find-Found :
      (item : Ptr) → (r : Option (ℕ × Ptr)) × (find item s ≡ some (r, s)) × Found item xs 0 r
  find-Found item =
      let (r, e, f) = find_from-Found s.heap item (suc s.count) 0 null xs is.chain enough in
      (r, find-run item (first xs null) r is.head e, f)

  pub node_at-NodeAt : (index : ℤ) → (a : Ptr) × (node_at index s ≡ some (a, s)) × NodeAt xs index a
  node_at-NodeAt index =
      let (a, e, f) = item_from-NodeAt s.heap 0 (suc s.count) index null xs is.chain enough in
      (a, node_at-run index (first xs null) a is.head e, f)

  pub index_of-run :
      (item : Ptr) (i : ℕ) (a : Ptr)
      → find item s ≡ some (some (i, a), s)
      → index_of item s ≡ some (some i, s)
  unfolding index_of
  index_of-run item i a e = ground arith

  pub index_of-none : (item : Ptr) → find item s ≡ some (none, s) → index_of item s ≡ some (none, s)
  unfolding index_of
  index_of-none item e = ground arith

  get_item-run :
      (index : ℤ) (p : Ptr) (n : Node)
      → node_at index s ≡ some (p, s)
      → s.heap p ≡ some n
      → get_item index s ≡ some (n.item, s)
  unfolding get_item
  get_item-run index p n e there = let loaded = load-some s p n there in ground arith

  -- The node of a cell of the list.
  node_of :
      (us : List Cell) (c : Cell) (vs : List Cell)
      → xs ≡ us ++ c ∷ vs
      → (n : Node) × (s.heap c.addr ≡ some n) × (n.item ≡ c.item)
  node_of us c vs split =
      let chain = subst (λ ys. Linked s.heap null ys null) split is.chain in
      let (front, back) = Linked-split s.heap null us (c ∷ vs) null chain in (_, back.1, refl)

  pub get_item-at :
      (us : List Cell) (c : Cell) (vs : List Cell)
      → xs ≡ us ++ c ∷ vs
      → get_item (pos (length us)) s ≡ some (c.item, s)
  get_item-at us c vs split =
      let (a, e, where_is) = node_at-NodeAt (pos (length us)) in
      elim where_is [
        | inl (us', d, vs', split', len, at) ↦
            let same = split_unique us' us d c vs' vs (sym split' ∙ split) len in
            let (n, there, item) = node_of us' d vs' split' in
            get_item-run (pos (length us)) a n e (subst (λ q. s.heap q ≡ some n) at there)
            ∙ ap (λ i. some (i, s)) (item ∙ ap (λ (x : Cell). x.item) same)
        | inr (out, _) ↦
            let len = ap length split in absurd (omega (arith, length-append us (c ∷ vs)))
      ]

  -- IndexOf finds an item exactly when a node holds it; GetItem at the index that it returns is the
  -- item. The list stays as it is.
  pub get_item-index_of :
      (item : Ptr)
      → ((index_of item s ≡ some (none, s)) × All (λ c. c.item ≢ item) xs)
        ⊎ ((i : ℕ) × (index_of item s ≡ some (some i, s))
            × (i < length xs)
            × (get_item (pos i) s ≡ some (item, s)))
  get_item-index_of item = let (r, e, found) = find-Found item in cases r e found
    where
      cases :
          (r : Option (ℕ × Ptr))
          → find item s ≡ some (r, s)
          → Found item xs 0 r
          → ((index_of item s ≡ some (none, s)) × All (λ c. c.item ≢ item) xs)
            ⊎ ((i : ℕ) × (index_of item s ≡ some (some i, s))
                × (i < length xs)
                × (get_item (pos i) s ≡ some (item, s)))
      cases none e absent = inl (index_of-none item e, absent)
      cases (some (j, a)) e (us, c, vs, split, same, at, index, before) =
          let place : j ≡ length us = omega arith in
          let len = ap length split in
          inr (
            j,
            index_of-run item j a e,
            omega (arith, length-append us (c ∷ vs)),
            rw place (get_item-at us c vs split ∙ ap (λ i. some (i, s)) same),
          )
