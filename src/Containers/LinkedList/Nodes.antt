-- ===== src/Containers/LinkedList/Nodes.antt =====
-- _remove, _insertend and _insertbef of class LinkedList (include/linkedlist.h) as operations on
-- the sequence of nodes that the list stands for.
use tysos_cxx.Prelude.{
  ◌-◌, true, false, List, [], ◌∷◌, ◌++◌, none, some, ◌≡◌, refl, sym, ◌∙◌, ◌==◌, ==_iff, inl, inr,
  Bool-cases, subst, arith, length, length-append,
}
use tysos_cxx.Containers.LinkedList.{
  Ptr, null, Node, LinkedList, write, load, store, link_prev, link_next, remove_node,
}
use tysos_cxx.Containers.LinkedList.Links.{
  Cell, Heap, ◌∉◌, has, first, last, Linked, Distinct, Linked-append, Linked-split, Linked-frame,
  Linked-SameBut, write-SameBut, has-append,
}
use tysos_cxx.Containers.LinkedList.Sides.{SameOutside, prev_side, next_side}

-- The list stands for the cells: its nodes are linked both ways, their addresses are distinct, and
-- the fields agree.
pub record IsList (s : LinkedList) (xs : List Cell) : Type 0 where
  pub chain : Linked s.heap null xs null
  pub apart : Distinct xs
  pub head : s.f ≡ first xs null
  pub tail : s.l ≡ last null xs
  pub counted : s.count ≡ length xs

pub first-append : (xs ys : List Cell) (q : Ptr) → first (xs ++ ys) q ≡ first xs (first ys q)
first-append [] ys q = refl
first-append (c ∷ xs) ys q = refl

pub last-append : (p : Ptr) (xs ys : List Cell) → last p (xs ++ ys) ≡ last (last p xs) ys
last-append p [] ys = refl
last-append p (c ∷ xs) ys = last-append c.addr xs ys

pub Distinct-split :
    (us : List Cell) (c : Cell) (vs : List Cell)
    → Distinct (us ++ c ∷ vs)
    → Distinct us × (c.addr ∉ us) × (c.addr ∉ vs) × Distinct vs × Distinct (us ++ vs)
Distinct-split [] c vs d = (tt, refl, d.0, d.1, d.1)
Distinct-split (e ∷ us) c vs d =
    let (d1, out1, out2, d2, d3) = Distinct-split us c vs d.1 in
    ground (arith, has-append e.addr us (c ∷ vs), has-append e.addr us vs)

-- The addresses of `us` and `vs` differ.
abbrev pub Clear : List Cell → List Cell → Type 0
Clear us vs = (a : Ptr) → has a us ≡ true → a ∉ vs

pub Clear-split :
    (us : List Cell) (c : Cell) (vs : List Cell) → Distinct (us ++ c ∷ vs) → Clear us vs
Clear-split [] c vs d a i = absurd (cc)
Clear-split (e ∷ us) c vs d a i = elim (Bool-cases (e.addr == a)) [
  | inl hit ↦
      let eq = (==_iff e.addr a).0 hit in
      let out : e.addr ∉ vs = ground (arith, has-append e.addr us (c ∷ vs)) in
      subst (λ x. x ∉ vs) eq out
  | inr miss ↦ Clear-split us c vs d.1 a (ground arith)
]

-- A chain survives a change outside of it.
pub Linked-outside :
    (h g : Heap) (p : Ptr) (xs ys : List Cell) (q : Ptr)
    → Linked h p xs q
    → SameOutside ys h g
    → Clear xs ys
    → Linked g p xs q
Linked-outside h g p xs ys q chain same clear =
    Linked-frame h g p xs q chain (λ a i. same a (clear a i))

pub Clear-sym : (xs ys : List Cell) → Clear xs ys → Clear ys xs
Clear-sym xs ys clear a i = elim (Bool-cases (has a xs)) [
  | inl there ↦ absurd (let out = clear a there in cc)
  | inr out ↦ out
]

pub load-some : (s : LinkedList) (p : Ptr) (n : Node) → s.heap p ≡ some n → load p s ≡ some (n, s)
unfolding load
load-some s p n h = rw (h, load)

remove_node-steps :
    (s s1 s2 : LinkedList) (p : Ptr) (n : Node)
    → (p == null) ≡ false
    → load p s ≡ some (n, s)
    → link_prev n.prev n.next s ≡ some (tt, s1)
    → load p s1 ≡ some (n, s1)
    → link_next n.next n.prev s1 ≡ some (tt, s2)
    → remove_node p s ≡ some (tt, record s2 { heap = write s2.heap p none; count = s2.count - 1 })
unfolding remove_node store
remove_node-steps s s1 s2 p n nonnull l0 d1 l1 d2 = ground arith

module _ (s : LinkedList) (us : List Cell) (c : Cell) (vs : List Cell)
    (is : IsList s (us ++ c ∷ vs)) where
  -- _remove of a node takes its cell out of the list and frees the node.
  pub remove_node-runs :
      (g : Heap) × (remove_node c.addr s
        ≡ some (
          tt,
          record {
            heap = g;
            f = first us (first vs null);
            l = last (last null us) vs;
            count = s.count - 1;
          },
        ))
      × Linked g null (us ++ vs) null
      × (g c.addr ≡ none)
      × SameOutside (us ++ c ∷ vs) s.heap g
  unfolding write
  remove_node-runs =
      let node : Node = record {
        item = c.item;
        next = first vs null;
        prev = last null us;
        d = c.d;
      } in
      let (front, back) = Linked-split s.heap null us (c ∷ vs) null is.chain in
      let (d1, out1, out2, d2, d3) = Distinct-split us c vs is.apart in
      let clear = Clear-split us c vs is.apart in
      let (g1, done1, chain1, same1) =
        prev_side s us c.addr (first vs null) front d1 (is.head ∙ first-append us (c ∷ vs) null) in
      let s1 : LinkedList = record s { heap = g1; f = first us (first vs null) } in
      let vs1 = Linked-outside s.heap g1 c.addr vs us null back.2 same1 (Clear-sym us vs clear) in
      let (g2, done2, chain2, same2) =
        next_side s1 vs c.addr (last null us) vs1 d2 (is.tail ∙ last-append null us (c ∷ vs)) in
      let s2 : LinkedList = record s1 { heap = g2; l = last (last null us) vs } in
      let us2 = Linked-outside g1 g2 null us vs (first vs null) chain1 same2 clear in
      let g3 = write g2 c.addr none in
      let load0 = load-some s c.addr node back.1 in
      let load1 = load-some s1 c.addr node (same1 c.addr out1 ∙ back.1) in
      (
        g3,
        remove_node-steps s s1 s2 c.addr node (ground arith) load0 done1 load1 done2,
        Linked-SameBut g2 g3 c.addr null (us ++ vs) null
            (Linked-append g2 null us vs null us2 chain2) (write-SameBut g2 c.addr none)
            (ground (arith, has-append c.addr us vs)),
        ground arith,
        λ a out.
            (let split = has-append a us (c ∷ vs) in
              let kept1 = same1 a (ground arith) in
              let kept2 = same2 a (ground arith) in
              write-SameBut g2 c.addr none a (ground arith) ∙ kept2 ∙ kept1),
      )

  -- _remove of a node takes its cell out of the list, frees the node and changes no other memory
  -- than the list's own nodes.
  pub remove_node-IsList :
      (t : LinkedList) × (remove_node c.addr s ≡ some (tt, t))
      × IsList t (us ++ vs)
      × (t.heap c.addr ≡ none)
      × SameOutside (us ++ c ∷ vs) s.heap t.heap
  remove_node-IsList =
      let (g, done, chain, gone, same) = remove_node-runs in
      let (_, _, _, _, d3) = Distinct-split us c vs is.apart in
      (
        _,
        done,
        record {
          chain = chain;
          apart = d3;
          head = sym (first-append us vs null);
          tail = sym (last-append null us vs);
          counted =
              let n = is.counted in omega (arith, length-append us (c ∷ vs), length-append us vs);
        },
        gone,
        same,
      )
