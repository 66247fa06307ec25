-- ===== src/Containers/LinkedList/Sides.antt =====
-- What link_prev and link_next do to the chains on the two sides of a node.
use tysos_cxx.Prelude.{false, List, [], ◌∷◌, some, ◌≡◌, refl, ◌∙◌, ◌==◌, arith}
use tysos_cxx.Containers.LinkedList.{
  Ptr, null, Node, LinkedList, write, set_next, link_prev, link_next,
}
use tysos_cxx.Containers.LinkedList.Links.{
  Cell, Heap, ◌∉◌, first, last, Linked, Distinct, SameBut, Linked-SameBut, write-SameBut,
}

-- `g` differs from `h` at most at the addresses of `xs`.
abbrev pub SameOutside : List Cell → Heap → Heap → Type 0
SameOutside xs h g = (a : Ptr) → a ∉ xs → g a ≡ h a

pub last-ne : (p : Ptr) (c : Cell) (xs : List Cell) → p ∉ c ∷ xs → (p == last c.addr xs) ≡ false
last-ne p c [] out = ground arith
last-ne p c (e ∷ xs) out = last-ne p e xs (ground arith)

pub last-ne_null :
    (h : Heap) (p : Ptr) (c : Cell) (xs : List Cell) (q : Ptr)
    → Linked h p (c ∷ xs) q
    → (last c.addr xs == null) ≡ false
last-ne_null h p c [] q chain = ground arith
last-ne_null h p c (e ∷ xs) q chain = last-ne_null h c.addr e xs q chain.2

pub set_next-last :
    (s : LinkedList) (p : Ptr) (c : Cell) (xs : List Cell) (q v : Ptr)
    → Linked s.heap p (c ∷ xs) q
    → Distinct (c ∷ xs)
    → (g : Heap) × (set_next (last c.addr xs) v s ≡ some (tt, record s { heap = g }))
      × Linked g p (c ∷ xs) v
      × SameBut (last c.addr xs) s.heap g
unfolding set_next write
set_next-last s p c [] q v chain apart =
    let new : Node = record { item = c.item; next = v; prev = p; d = c.d } in
    (
      write s.heap c.addr (some new),
      ground arith,
      (chain.0, ground arith, tt),
      write-SameBut s.heap c.addr (some new),
    )
set_next-last s p c (e ∷ xs) q v chain apart =
    let (g, done, linked, same) = set_next-last s c.addr e xs q v chain.2 apart.1 in
    (g, done, (chain.0, same c.addr (last-ne c.addr e xs apart.0) ∙ chain.1, linked), same)

pub prev_side :
    (s : LinkedList) (us : List Cell) (n v : Ptr)
    → Linked s.heap null us n
    → Distinct us
    → s.f ≡ first us n
    → (g : Heap) × (link_prev (last null us) v s ≡ some (tt, record s { heap = g; f = first us v }))
      × Linked g null us v
      × SameOutside us s.heap g
unfolding link_prev
prev_side s [] n v chain apart head = (s.heap, refl, tt, λ a out. refl)
prev_side s (c ∷ us) n v chain apart head =
    let (g, done, linked, same) = set_next-last s null c us n v chain apart in
    let nonnull = last-ne_null s.heap null c us n chain in
    (g, ground arith, linked, λ a out. same a (last-ne a c us out))

pub next_side :
    (s : LinkedList) (vs : List Cell) (n w : Ptr)
    → Linked s.heap n vs null
    → Distinct vs
    → s.l ≡ last n vs
    → (g : Heap) × (link_next (first vs null) w s ≡ some (tt, record s { heap = g; l = last w vs }))
      × Linked g w vs null
      × SameOutside vs s.heap g
unfolding link_next write
next_side s [] n w chain apart tail = (s.heap, refl, tt, λ a out. refl)
next_side s (c ∷ vs) n w chain apart tail =
    let new : Node = record { item = c.item; next = first vs null; prev = w; d = c.d } in
    let same = write-SameBut s.heap c.addr (some new) in
    (
      write s.heap c.addr (some new),
      ground arith,
      (
        chain.0,
        ground arith,
        Linked-SameBut s.heap (write s.heap c.addr (some new)) c.addr c.addr vs null chain.2 same
            apart.0,
      ),
      λ a out. same a (ground arith),
    )
