-- ===== src/Section/SectionList/Search.antt =====
-- SectionList::FindFree (kernel/core/section.cpp) over a list that keeps the laws of IList.
use tysos_cxx.Prelude.{
  ℕ, zero, suc, List, [], ◌∷◌, some, ◌≡◌, refl, if◌then◌else◌, pos, inl, inr, Bool-cases, arith,
  length, get_elem?, map,
}
use tysos_cxx.Containers.IList.{Item, IList, ListLaws}
use tysos_cxx.Section.{VirtMemManager, Section, Extent, is_kernel}
use tysos_cxx.Section.FindFree.{find_free_in}
use tysos_cxx.Section.SectionList.{sections_from, find_free_of, find_free}
use tysos_cxx.Section.SectionList.Parts.{parts, Holds}

-- The sequence from an index on.
abbrev drop : ℕ → List Item → List Item
drop zero xs = xs
drop (suc i) [] = []
drop (suc i) (x ∷ xs) = drop i xs

drop_at :
    (xs : List Item) (i : ℕ) (x : Item) (rest : List Item)
    → drop i xs ≡ x ∷ rest
    → (get_elem? xs i ≡ some x) × (drop (suc i) xs ≡ rest)
drop_at [] zero x rest e = absurd (cc)
drop_at [] (suc i) x rest e = absurd (cc)
drop_at (y ∷ xs) zero x rest e = (ground arith, ground arith)
drop_at (y ∷ xs) (suc i) x rest e = drop_at xs i x rest e

module _ {L : Type 0} (ops : IList L) (Rep : L → List Item → Type 0) (Room : L → Type 0)
    (laws : ListLaws ops Rep Room) (at : Item → Section) where
  sections_from-step :
      (l : L) (i n : ℕ) (p : Item) (rest : List Section)
      → ops.get_item (pos i) l ≡ some (p, l)
      → sections_from ops at l (suc i) n ≡ some rest
      → sections_from ops at l i (suc n) ≡ some (at p ∷ rest)
  unfolding sections_from
  sections_from-step l i n p rest got more = rw (sections_from, got, more) refl

  sections_from_lem :
      (l : L) (xs ys : List Item) (i : ℕ)
      → Rep l xs
      → drop i xs ≡ ys
      → sections_from ops at l i (length ys) ≡ some (map at ys)
  unfolding sections_from
  sections_from_lem l xs [] i rep e = refl
  sections_from_lem l xs (y ∷ ys) i rep e =
      let (here, next) = drop_at xs i y ys e in
      sections_from-step l i (length ys) y (map at ys) (laws.gets l xs i y rep here)
        (sections_from_lem l xs ys (suc i) rep next)

  find_free_of-Rep :
      (v vmem : VirtMemManager) (e : Extent) (l : L) (xs : List Item) (request : Section)
      → Rep l xs
      → find_free_of ops v vmem e at (some l) request
        ≡ some (find_free_in v vmem e (map at xs) request)
  unfolding find_free_of
  find_free_of-Rep v vmem e l xs request rep =
      rw (find_free_of, laws.counts l xs rep, sections_from_lem l xs xs 0 rep refl) refl

  -- FindFree searches the sections of the part that the request's flag names.
  pub find_free_lem :
      (k p : L) (ks ps : List Item) (v vmem : VirtMemManager) (e : Extent) (request : Section)
      → Holds ops Rep Room laws at k p ks ps
      → find_free ops v (some vmem) e at (some request) (parts k p)
        ≡ some (find_free_in v vmem e (map at (if is_kernel request then ks else ps)) request)
  unfolding find_free
  find_free_lem k p ks ps v vmem e request holds = elim (Bool-cases (is_kernel request)) [
    | inl kern ↦ rw kern (find_free_of-Rep v vmem e k ks request holds.kernels)
    | inr proc ↦ rw proc (find_free_of-Rep v vmem e p ps request holds.processes)
  ]
