-- ===== src/Memory/PageStack.antt =====
-- class PhysMemStack (kernel/core/pmem.cpp, include/sys/pmem.h): free pages are linked through
-- their own first words. Locks are left out.
use tysos_cxx.Prelude.{
  ℕ, List, [], ◌∷◌, ◌≡◌, ◌≢◌, Bool, false, ◌||◌, ◌==◌, if◌then◌else◌, refl, arith, sym, subst,
}

-- The field `top`, and physical memory as words.
pub record PhysMemStack : Type 0 where
  pub top : ℕ
  pub memory : ℕ → ℕ

unfoldable pub poke : (ℕ → ℕ) → ℕ → ℕ → ℕ → ℕ
poke memory p w a = if a == p then w else memory a

-- PhysMemStack::PushPage
unfoldable pub push_page : ℕ → PhysMemStack → PhysMemStack
unfolding poke
push_page paddr s =
    if paddr == 0 then s else record { top = paddr; memory = poke s.memory paddr s.top }

-- PhysMemStack::BeginPop
unfoldable pub begin_pop : PhysMemStack → ℕ
begin_pop s = if s.top == 0 then 0 else s.top

-- PhysMemStack::EndPop
unfoldable pub end_pop : ℕ → PhysMemStack → ℕ × PhysMemStack
end_pop paddr s = (paddr, record s { top = s.memory paddr })

-- PhysMemStack::PopPage
unfoldable pub pop_page : PhysMemStack → ℕ × PhysMemStack
unfolding begin_pop end_pop
pop_page s = end_pop (begin_pop s) s

abbrev pub holds : ℕ → List ℕ → Bool
holds p [] = false
holds p (q ∷ rest) = (q == p) || holds p rest

-- The pages are linked in this order from `top`; none is page 0, and none occurs twice.
abbrev pub Chain : (ℕ → ℕ) → ℕ → List ℕ → Type 0
Chain memory top [] = top ≡ 0
Chain memory top (p ∷ rest) =
    (top ≡ p) × (p ≢ 0) × (holds p rest ≡ false) × Chain memory (memory p) rest

abbrev pub Stacked : PhysMemStack → List ℕ → Type 0
Stacked s pages = Chain s.memory s.top pages

Chain-poke :
    (memory : ℕ → ℕ) (top p w : ℕ) (pages : List ℕ)
    → holds p pages ≡ false
    → Chain memory top pages
    → Chain (poke memory p w) top pages
unfolding poke
Chain-poke memory top p w [] out c = c
Chain-poke memory top p w (q ∷ rest) out (is, ne, apart, c) =
    let kept : poke memory p w q ≡ memory q = ground arith in
    (is, ne, apart, rw kept (Chain-poke memory (memory q) p w rest (ground arith) c))

-- PopPage returns the topmost page of a stack that is not empty and leaves the others.
pub pop_page-Stacked :
    (s : PhysMemStack) (p : ℕ) (rest : List ℕ)
    → Stacked s (p ∷ rest)
    → ((pop_page s).0 ≡ p) × Stacked (pop_page s).1 rest
unfolding pop_page
pop_page-Stacked s p rest (is, ne, apart, c) =
    let found : begin_pop s ≡ p = ground arith in rw (pop_page, found) (refl, c)

pub push_page-Stacked :
    (s : PhysMemStack) (pages : List ℕ) (p : ℕ)
    → Stacked s pages
    → p ≢ 0
    → holds p pages ≡ false
    → Stacked (push_page p s) (p ∷ pages)
unfolding push_page poke
push_page-Stacked s pages p c ne out =
    let pushed : push_page p s ≡ record { top = p; memory = poke s.memory p s.top } =
      ground arith in
    let here : poke s.memory p s.top p ≡ s.top = ground arith in
    let kept = Chain-poke s.memory s.top p s.top pages out c in
    subst (λ x. Stacked x (p ∷ pages)) (sym pushed)
      (refl, ne, out, subst (λ t. Chain (poke s.memory p s.top) t pages) (sym here) kept)

-- A page other than page 0 that is pushed on a stack of other pages is popped next, and leaves
-- these pages in their order.
pub pop_page-push_page :
    (s : PhysMemStack) (pages : List ℕ) (p : ℕ)
    → Stacked s pages
    → p ≢ 0
    → holds p pages ≡ false
    → Stacked (push_page p s) (p ∷ pages)
      × ((pop_page (push_page p s)).0 ≡ p)
      × Stacked (pop_page (push_page p s)).1 pages
pop_page-push_page s pages p c ne out =
    let stacked = push_page-Stacked s pages p c ne out in
    let (first, rest) = pop_page-Stacked (push_page p s) p pages stacked in (stacked, first, rest)
