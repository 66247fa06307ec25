-- ===== src/Containers/LinkedList/Links.antt =====
-- Chains of linked nodes on the heap, and how writes to the links at their ends change them.
use tysos_cxx.Prelude.{
  ℕ, Bool, true, false, ◌||◌, List, [], ◌∷◌, ◌++◌, Option, some, ◌≡◌, ◌≢◌, refl, ap, ◌∙◌, ◌==◌,
  ==_iff, arith, inl, inr, Bool-cases,
}
use tysos_cxx.Containers.LinkedList.{Ptr, null, Node, write}

-- What a chain stands for: the address, the item and the delta of each node, in order.
pub record Cell : Type 0 where
  pub addr : Ptr
  pub item : Ptr
  pub d : ℕ

abbrev pub Heap : Type 0
Heap = Ptr → Option Node

abbrev pub has : Ptr → List Cell → Bool
has a [] = false
has a (c ∷ xs) = (c.addr == a) || has a xs

infix 40 ◌∉◌
abbrev pub ◌∉◌ : Ptr → List Cell → Type 0
a ∉ xs = has a xs ≡ false

-- The first address of the chain, or what follows it.
abbrev pub first : List Cell → Ptr → Ptr
first [] q = q
first (c ∷ xs) q = c.addr

-- The last address of the chain, or what precedes it.
abbrev pub last : Ptr → List Cell → Ptr
last p [] = p
last p (c ∷ xs) = last c.addr xs

-- The nodes of the chain are in memory, linked both ways, between `p` and `q`.
abbrev pub Linked : Heap → Ptr → List Cell → Ptr → Type 0
Linked h p [] q = Unit
Linked h p (c ∷ xs) q =
    (c.addr ≢ null)
    × (h c.addr ≡ some (record { item = c.item; next = first xs q; prev = p; d = c.d }))
    × Linked h c.addr xs q

-- No two nodes share an address.
abbrev pub Distinct : List Cell → Type 0
Distinct [] = Unit
Distinct (c ∷ xs) = (c.addr ∉ xs) × Distinct xs

-- `g` differs from `h` at most at `p`.
abbrev pub SameBut : Ptr → Heap → Heap → Type 0
SameBut p h g = (a : Ptr) → (a == p) ≡ false → g a ≡ h a

pub has-append : (a : Ptr) (xs ys : List Cell) → has a (xs ++ ys) ≡ (has a xs || has a ys)
has-append a [] ys = refl
has-append a (c ∷ xs) ys = ground (arith, has-append a xs ys)

pub Linked-append :
    (h : Heap) (p : Ptr) (xs ys : List Cell) (q : Ptr)
    → Linked h p xs (first ys q)
    → Linked h (last p xs) ys q
    → Linked h p (xs ++ ys) q
Linked-append h p [] ys q front back = back
Linked-append h p (c ∷ []) ys q front back = (front.0, front.1, back)
Linked-append h p (c ∷ e ∷ xs) ys q front back =
    (front.0, front.1, Linked-append h c.addr (e ∷ xs) ys q front.2 back)

pub Linked-split :
    (h : Heap) (p : Ptr) (xs ys : List Cell) (q : Ptr)
    → Linked h p (xs ++ ys) q
    → Linked h p xs (first ys q) × Linked h (last p xs) ys q
Linked-split h p [] ys q chain = (tt, chain)
Linked-split h p (c ∷ []) ys q chain = ((chain.0, chain.1, tt), chain.2)
Linked-split h p (c ∷ e ∷ xs) ys q chain =
    let (front, back) = Linked-split h c.addr (e ∷ xs) ys q chain.2 in
    ((chain.0, chain.1, front), back)

-- A chain survives a change that spares its addresses.
pub Linked-frame :
    (h g : Heap) (p : Ptr) (xs : List Cell) (q : Ptr)
    → Linked h p xs q
    → ((a : Ptr) → has a xs ≡ true → g a ≡ h a)
    → Linked g p xs q
Linked-frame h g p [] q chain same = tt
Linked-frame h g p (c ∷ xs) q chain same = (
  chain.0,
  same c.addr (ground arith) ∙ chain.1,
  Linked-frame h g c.addr xs q chain.2 (λ a i. same a (ground arith)),
)

pub Linked-SameBut :
    (h g : Heap) (at p : Ptr) (xs : List Cell) (q : Ptr)
    → Linked h p xs q
    → SameBut at h g
    → at ∉ xs
    → Linked g p xs q
Linked-SameBut h g at p xs q chain same out = Linked-frame h g p xs q chain λ a i.
    elim (Bool-cases (a == at)) [
      | inl e ↦ absurd (let eq = (==_iff a at).0 e in cc (ap (λ x. has x xs) eq))
      | inr ne ↦ same a ne
    ]

pub write-SameBut : (h : Heap) (p : Ptr) (c : Option Node) → SameBut p h (write h p c)
unfolding write
write-SameBut h p c a ne = rw ne

pub last-has : (c : Cell) (xs : List Cell) → has (last c.addr xs) (c ∷ xs) ≡ true
last-has c [] = ground arith
last-has c (e ∷ xs) = ground (arith, last-has e xs)
