-- ===== src/Containers/LinkedList.antt =====
-- class LinkedList (include/linkedlist.h) on an explicit heap. A list holds references, so an item
-- is an address, and items are compared by address. `none` is a fault: an access through NULL or
-- a dangling pointer, or a walk that does not end within its fuel.
pub mod Links
pub mod Sides
pub mod Nodes
pub mod Inserts
pub mod Methods
use tysos_cxx.Prelude.{
  ℕ, zero, suc, ◌+◌, ◌-◌, Bool, true, false, Option, none, some, ◌==◌, not, if◌then◌else◌,
}

abbrev pub Ptr : Type 0
Ptr = ℕ

abbrev pub null : Ptr
null = 0

-- LinkedList::Node; `d` is the field that DeltaQueue::DeltaNode adds.
pub record Node : Type 0 where
  pub item : Ptr
  pub next : Ptr
  pub prev : Ptr
  pub d : ℕ

-- The nodes in memory, and the fields of the list.
pub record LinkedList : Type 0 where
  pub heap : Ptr → Option Node
  pub f : Ptr
  pub l : Ptr
  pub count : ℕ

abbrev pub M : Type 0 → Type 0
M A = LinkedList → Option (A × LinkedList)

infixl 5 ◌>>=◌ ◌>>◌
abbrev pub ◌>>=◌ : {A B : Type 0} → M A → (A → M B) → M B
◌>>=◌ m k s = elim (m s) [ none ↦ none | some (a, s') ↦ k a s' ]

abbrev pub ◌>>◌ : {B : Type 0} → M (Unit {0}) → M B → M B
m >> k = m >>= λ _. k

abbrev pub pure : {A : Type 0} → A → M A
pure a s = some (a, s)

unfoldable pub write : (Ptr → Option Node) → Ptr → Option Node → Ptr → Option Node
write h p c a = if a == p then c else h a

unfoldable pub load : Ptr → M Node
load p s = elim (s.heap p) [ none ↦ none | some n ↦ some (n, s) ]

unfoldable pub store : Ptr → Option Node → M (Unit {0})
unfolding write
store p c s = some (tt, record s { heap = write s.heap p c })

unfoldable pub set_next : Ptr → Ptr → M (Unit {0})
unfolding load store
set_next p v = do n ← load p; store p (some (record n { next = v }))

unfoldable pub set_prev : Ptr → Ptr → M (Unit {0})
unfolding load store
set_prev p v = do n ← load p; store p (some (record n { prev = v }))

abbrev pub set_f : Ptr → M (Unit {0})
set_f v s = some (tt, record s { f = v })

abbrev pub set_l : Ptr → M (Unit {0})
set_l v s = some (tt, record s { l = v })

abbrev pub set_count : ℕ → M (Unit {0})
set_count v s = some (tt, record s { count = v })

-- `new Node(item)` at the address that the allocator returns; a DeltaNode has its delta.
unfoldable pub new_node : Ptr → Ptr → ℕ → M (Unit {0})
unfolding store
new_node fresh item d = store fresh (some (record { item = item; next = null; prev = null; d = d }))

-- What `if(p) p->next = v; else f = v;` does.
unfoldable pub link_prev : Ptr → Ptr → M (Unit {0})
unfolding set_next
link_prev p v = if p == null then set_f v else set_next p v

-- What `if(p) p->prev = v; else l = v;` does.
unfoldable pub link_next : Ptr → Ptr → M (Unit {0})
unfolding set_prev
link_next p v = if p == null then set_l v else set_prev p v

-- LinkedList::_remove
unfoldable pub remove_node : Ptr → M (Unit {0})
remove_node p = if p == null then pure tt else do
  n ← load p
  link_prev n.prev n.next
  n ← load p
  link_next n.next n.prev
  store p none
  λ s. set_count (s.count - 1) s

-- LinkedList::_insertend
unfoldable pub insertend : Ptr → M (Unit {0})
insertend p s =
    (if s.l == null
        then (do set_f p; set_l p; set_count (s.count + 1))
        else (do set_prev p s.l; set_next s.l p; set_l p; set_count (s.count + 1)))
      s

-- LinkedList::_insertbef
unfoldable pub insertbef : Ptr → Ptr → M (Unit {0})
insertbef cur p = do
  c ← load cur
  if c.prev == null
      then (do set_prev p null; set_f p)
      else (do set_next c.prev p; set_prev p c.prev)
  set_prev cur p
  set_next p cur
  λ s. set_count (s.count + 1) s
