-- ===== src/Containers/LinkedList/Inserts.antt =====
-- _insertend and _insertbef of class LinkedList (include/linkedlist.h) as operations on the
-- sequence of nodes that the list stands for.
use mathlib.Core.List.{append-nil}
use tysos_cxx.Prelude.{
  ◌+◌, false, List, [], ◌∷◌, ◌++◌, Option, some, ◌≡◌, ◌≢◌, refl, sym, ◌∙◌, ◌==◌, ==_iff, inl, inr,
  Bool-cases, if◌then◌else◌, arith, length-append,
}
use tysos_cxx.Containers.LinkedList.{
  Ptr, null, Node, LinkedList, write, load, set_next, set_prev, link_prev, insertend, insertbef,
  ◌>>=◌, ◌>>◌, set_f,
}
use tysos_cxx.Containers.LinkedList.Links.{
  Cell, Heap, ◌∉◌, first, last, Linked, Distinct, Linked-append, Linked-split, Linked-SameBut,
  write-SameBut, has-append,
}
use tysos_cxx.Containers.LinkedList.Sides.{
  SameOutside, prev_side, set_next-last, last-ne_null, last-ne,
}
use tysos_cxx.Containers.LinkedList.Nodes.{
  IsList, first-append, last-append, Distinct-split, Clear-split, Clear-sym, Linked-outside,
  load-some,
}

-- A node that `new` has just made, outside of the list.
pub record IsNew (s : LinkedList) (xs : List Cell) (c : Cell) : Type 0 where
  pub ne_null : c.addr ≢ null
  pub made : s.heap c.addr ≡ some (record { item = c.item; next = null; prev = null; d = c.d })
  pub outside : c.addr ∉ xs

Distinct-insert :
    (us : List Cell) (c : Cell) (vs : List Cell)
    → Distinct (us ++ vs)
    → c.addr ∉ us ++ vs
    → Distinct (us ++ c ∷ vs)
Distinct-insert [] c vs d out = (out, d)
Distinct-insert (e ∷ us) c vs d out =
    let ih = Distinct-insert us c vs d.1 (ground arith) in
    ground (arith, has-append e.addr us (c ∷ vs), has-append e.addr us vs)

set_prev-some :
    (s : LinkedList) (p v : Ptr) (n : Node)
    → s.heap p ≡ some n
    → set_prev p v s ≡ some (tt, record s { heap = write s.heap p (some (record n { prev = v })) })
unfolding set_prev
set_prev-some s p v n h = ground arith

set_next-some :
    (s : LinkedList) (p v : Ptr) (n : Node)
    → s.heap p ≡ some n
    → set_next p v s ≡ some (tt, record s { heap = write s.heap p (some (record n { next = v })) })
unfolding set_next
set_next-some s p v n h = ground arith

write_at : (h : Heap) (p : Ptr) (c : Option Node) → write h p c p ≡ c
unfolding write
write_at h p c = ground arith

insertend-steps :
    (s s1 s2 : LinkedList) (p old : Ptr)
    → s.l ≡ old
    → (old == null) ≡ false
    → set_prev p old s ≡ some (tt, s1)
    → set_next old p s1 ≡ some (tt, s2)
    → insertend p s ≡ some (tt, record s2 { l = p; count = s.count + 1 })
unfolding insertend
insertend-steps s s1 s2 p old tail nonnull e1 e2 = ground arith

-- _insertend puts a new node's cell at the end of the list.
pub insertend-IsList :
    (s : LinkedList) (xs : List Cell) (c : Cell)
    → IsList s xs
    → IsNew s xs c
    → (t : LinkedList) × (insertend c.addr s ≡ some (tt, t))
      × IsList t (xs ++ c ∷ [])
      × SameOutside (c ∷ xs) s.heap t.heap
unfolding insertend
insertend-IsList s [] c is new =
    let counted = is.counted in
    let made = new.made in
    (
      record s { f = c.addr; l = c.addr; count = s.count + 1 },
      (let tail = is.tail in ground arith),
      record {
        chain = (new.ne_null, made, tt);
        apart = (refl, tt);
        head = refl;
        tail = refl;
        counted = omega arith;
      },
      λ a out. refl,
    )
insertend-IsList s (e ∷ us) c is new =
    let old = last e.addr us in
    let n : Node = record { item = c.item; next = null; prev = old; d = c.d } in
    let g1 = write s.heap c.addr (some n) in
    let s1 : LinkedList = record s { heap = g1 } in
    let step1 = set_prev-some s c.addr old _ new.made in
    let kept1 = write-SameBut s.heap c.addr (some n) in
    let chain1 = Linked-SameBut s.heap g1 c.addr null (e ∷ us) null is.chain kept1 new.outside in
    let (g2, step2, chain2, kept2) = set_next-last s1 null e us null c.addr chain1 is.apart in
    let nonnull = last-ne_null s.heap null e us null is.chain in
    let counted = is.counted in
    (
      record s { heap = g2; l = c.addr; count = s.count + 1 },
      insertend-steps s s1 (record s1 { heap = g2 }) c.addr old is.tail nonnull step1 step2,
      record {
        chain = Linked-append g2 null (e ∷ us) (c ∷ []) null chain2 (
          new.ne_null,
          kept2 c.addr (last-ne c.addr e us new.outside)
              ∙ (let w = kept1 in write_at s.heap c.addr (some n)),
          tt,
        );
        apart = Distinct-insert (e ∷ us) c [] (rw append-nil is.apart) (rw append-nil new.outside);
        head = is.head;
        tail = sym (last-append null (e ∷ us) (c ∷ []));
        counted = omega (arith, length-append (e ∷ us) (c ∷ []));
      },
      λ a out. kept2 a (last-ne a e us (ground arith)) ∙ kept1 a (ground arith),
    )

-- The branch of _insertbef on `cur->prev`, as link_prev and the write of `n->prev`.
relink-steps :
    (s s1 s2 : LinkedList) (prev p : Ptr) (np : Node)
    → s.heap p ≡ some np
    → link_prev prev p s ≡ some (tt, s1)
    → set_prev p prev s1 ≡ some (tt, s2)
    → (if prev == null
          then (do set_prev p null; set_f p)
          else (do set_next prev p; set_prev p prev))
        s
      ≡ some (tt, s2)
unfolding link_prev
relink-steps s s1 s2 prev p np h e1 e2 = elim (Bool-cases (prev == null)) [
  | inr nonnull ↦ ground arith
  | inl isnull ↦
      let zero_prev = (==_iff prev null).0 isnull in
      let direct = set_prev-some s p null np h in
      let later = set_prev-some (record s { f = p }) p null np h in ground arith
]

insertbef-steps :
    (s s2 s3 t : LinkedList) (cur p : Ptr) (n : Node)
    → load cur s ≡ some (n, s)
    → (if n.prev == null
          then (do set_prev p null; set_f p)
          else (do set_next n.prev p; set_prev p n.prev))
        s
      ≡ some (tt, s2)
    → set_prev cur p s2 ≡ some (tt, s3)
    → set_next p cur s3 ≡ some (tt, t)
    → insertbef cur p s ≡ some (tt, record t { count = t.count + 1 })
unfolding insertbef
insertbef-steps s s2 s3 t cur p n h e1 e3 e4 =
    rw (h, ◌>>=◌) (rw (e1, ◌>>=◌) (rw (e3, ◌>>=◌) (rw (e4, ◌>>=◌))))

module _ (s : LinkedList) (us : List Cell) (e : Cell) (vs : List Cell) (c : Cell)
    (is : IsList s (us ++ e ∷ vs)) (new : IsNew s (us ++ e ∷ vs) c) where
  -- _insertbef puts a new node's cell before the given node.
  pub insertbef-IsList :
      (t : LinkedList) × (insertbef e.addr c.addr s ≡ some (tt, t))
      × IsList t (us ++ c ∷ e ∷ vs)
      × SameOutside (c ∷ us ++ e ∷ vs) s.heap t.heap
  insertbef-IsList =
      let old : Node = record {
        item = e.item;
        next = first vs null;
        prev = last null us;
        d = e.d;
      } in
      let raw : Node = record { item = c.item; next = null; prev = null; d = c.d } in
      let half : Node = record raw { prev = last null us } in
      let (front, back) = Linked-split s.heap null us (e ∷ vs) null is.chain in
      let (d1, out1, out2, d2, d3) = Distinct-split us e vs is.apart in
      let clear = Clear-split us e vs is.apart in
      let split = has-append c.addr us (e ∷ vs) in
      let fresh = new.outside in
      let (g1, step1, chain1, same1) =
        prev_side s us e.addr c.addr front d1 (is.head ∙ first-append us (e ∷ vs) null) in
      let s1 : LinkedList = record s { heap = g1; f = first us c.addr } in
      let g2 = write g1 c.addr (some half) in
      let s2 : LinkedList = record s1 { heap = g2 } in
      let at1 = same1 c.addr (ground arith) ∙ new.made in
      let step2 = set_prev-some s1 c.addr (last null us) raw at1 in
      let kept2 = write-SameBut g1 c.addr (some half) in
      let g3 = write g2 e.addr (some (record old { prev = c.addr })) in
      let s3 : LinkedList = record s2 { heap = g3 } in
      let at_e = kept2 e.addr (ground arith) ∙ same1 e.addr out1 ∙ back.1 in
      let step3 = set_prev-some s2 e.addr c.addr old at_e in
      let kept3 = write-SameBut g2 e.addr (some (record old { prev = c.addr })) in
      let g4 = write g3 c.addr (some (record half { next = e.addr })) in
      let at_c = kept3 c.addr (ground arith) ∙ write_at g1 c.addr (some half) in
      let step4 = set_next-some s3 c.addr e.addr half at_c in
      let kept4 = write-SameBut g3 c.addr (some (record half { next = e.addr })) in
      let spared =
        λ (ys : List Cell) (p q : Ptr) (chain : Linked g1 p ys q) (o : c.addr ∉ ys)
            (o' : e.addr ∉ ys).
          Linked-SameBut g3 g4 c.addr p ys q
            (Linked-SameBut g2 g3 e.addr p ys q (Linked-SameBut g1 g2 c.addr p ys q chain kept2 o)
              kept3 o')
            kept4 o in
      let branch = relink-steps s s1 s2 (last null us) c.addr raw new.made step1 step2 in
      let load0 = load-some s e.addr old back.1 in
      let t : LinkedList = record s3 { heap = g4; count = s.count + 1 } in
      let us4 = spared us null c.addr chain1 (ground arith) out1 in
      let vs1 = Linked-outside s.heap g1 e.addr vs us null back.2 same1 (Clear-sym us vs clear) in
      let vs4 = spared vs e.addr null vs1 (ground arith) out2 in
      let counted = is.counted in
      (
        t,
        insertbef-steps s s2 s3 (record s3 { heap = g4 }) e.addr c.addr old load0 branch step3
            step4,
        record {
          chain = Linked-append g4 null us (c ∷ e ∷ vs) null us4 (
            new.ne_null,
            write_at g3 c.addr _,
            (back.0, kept4 e.addr (ground arith) ∙ write_at g2 e.addr _, vs4),
          );
          apart = Distinct-insert us c (e ∷ vs) is.apart fresh;
          head = sym (first-append us (c ∷ e ∷ vs) null);
          tail = is.tail ∙ last-append null us (e ∷ vs) ∙ sym (last-append null us (c ∷ e ∷ vs));
          counted = omega (arith, length-append us (e ∷ vs), length-append us (c ∷ e ∷ vs));
        },
        λ a out.
            (let parts = has-append a us (e ∷ vs) in
              kept4 a (ground arith)
              ∙ kept3 a (ground arith)
              ∙ kept2 a (ground arith)
              ∙ same1 a (ground arith)),
      )
