-- ===== src/Containers/LinkedList/Methods/Changes.antt =====
-- Remove and Clear of class LinkedList (include/linkedlist.h) as operations on the
-- sequence that the list stands for.
use mathlib.Core.List.{append-nil}
use tysos_cxx.Prelude.{
  ℕ, zero, suc, ◌<◌, Bool, true, false, List, [], ◌∷◌, ◌++◌, Option, none, some, ◌≡◌, ◌≢◌, refl,
  ◌∙◌, ap, ◌==◌, subst, arith, length, length-append, All,
}
use tysos_cxx.Containers.LinkedList.{Ptr, null, LinkedList, remove_node}
use tysos_cxx.Containers.LinkedList.Links.{Cell, last, Linked-split}
use tysos_cxx.Containers.LinkedList.Nodes.{IsList, remove_node-IsList}
use tysos_cxx.Containers.LinkedList.Methods.{find, remove_found, remove, clear_from, clear}
use tysos_cxx.Containers.LinkedList.Methods.Lookup.{Found, find-Found}

remove-run :
    (s t : LinkedList) (item a : Ptr) (i : ℕ)
    → find item s ≡ some (some (i, a), s)
    → remove_node a s ≡ some (tt, t)
    → remove item s ≡ some (true, t)
unfolding remove remove_found
remove-run s t item a i e taken = ground arith

remove-none :
    (s : LinkedList) (item : Ptr) → find item s ≡ some (none, s) → remove item s ≡ some (false, s)
unfolding remove remove_found
remove-none s item e = ground arith

-- What Remove leaves: the first cell with the item is out and its node is freed, or no cell has it.
abbrev pub Removed : LinkedList → List Cell → Ptr → Bool → LinkedList → Type 0
Removed s xs item false t = All (λ c. c.item ≢ item) xs × (t ≡ s)
Removed s xs item true t =
    (us : List Cell) × (c : Cell) × (vs : List Cell) × (xs ≡ us ++ c ∷ vs)
    × (c.item ≡ item)
    × All (λ e. e.item ≢ item) us
    × IsList t (us ++ vs)
    × (t.heap c.addr ≡ none)

-- Remove on a list returns: true with the first node of the item unlinked and freed, or false with
-- the list as it was when no node holds the item.
pub remove-Removed :
    (s : LinkedList) (xs : List Cell)
    → IsList s xs
    → (item : Ptr)
    → (b : Bool) × (t : LinkedList) × (remove item s ≡ some (b, t)) × Removed s xs item b t
remove-Removed s xs is item = let (r, e, found) = find-Found s xs is item in cases r e found
  where
    cases :
        (r : Option (ℕ × Ptr))
        → find item s ≡ some (r, s)
        → Found item xs 0 r
        → (b : Bool) × (t : LinkedList) × (remove item s ≡ some (b, t)) × Removed s xs item b t
    cases none e absent = (false, s, remove-none s item e, (absent, refl))
    cases (some (i, a)) e (us, c, vs, split, same, at, index, before) =
        let (t, taken, rest, freed, _) =
          remove_node-IsList s us c vs (subst (λ ys. IsList s ys) split is) in
        let taken_at = subst (λ p. remove_node p s ≡ some (tt, t)) at taken in
        (true, t, remove-run s t item a i e taken_at, (us, c, vs, split, same, before, rest, freed))

clear_from-step :
    (fuel : ℕ) (s t : LinkedList) (a : Ptr) (r : Option (Unit {0} × LinkedList))
    → s.l ≡ a
    → (a == null) ≡ false
    → remove_node a s ≡ some (tt, t)
    → clear_from fuel t ≡ r
    → clear_from (suc fuel) s ≡ r
unfolding clear_from
clear_from-step fuel s t a r at there e rest = ground arith

clear_from-end : (fuel : ℕ) (s : LinkedList) → s.l ≡ null → clear_from (suc fuel) s ≡ some (tt, s)
unfolding clear_from
clear_from-end fuel s at = ground arith

-- A chain that is not empty ends in a last cell.
unsnoc :
    (c : Cell) (xs : List Cell)
    → (us : List Cell) × (d : Cell) × (c ∷ xs ≡ us ++ d ∷ []) × (last c.addr xs ≡ d.addr)
unsnoc c [] = ([], c, refl, refl)
unsnoc c (e ∷ xs) = let (us, d, split, at) = unsnoc e xs in (c ∷ us, d, ap (λ ys. c ∷ ys) split, at)

clear_from-IsList :
    (fuel : ℕ) (s : LinkedList) (xs : List Cell)
    → IsList s xs
    → length xs < fuel
    → (t : LinkedList) × (clear_from fuel s ≡ some (tt, t)) × IsList t []
clear_from-IsList zero s xs is l = absurd (omega arith)
clear_from-IsList (suc fuel) s [] is l = (s, clear_from-end fuel s is.tail, is)
clear_from-IsList (suc fuel) s (c ∷ xs) is l =
    let (us, d, split, at) = unsnoc c xs in
    let whole = subst (λ ys. IsList s ys) split is in
    let (t, taken, rest, _, _) = remove_node-IsList s us d [] whole in
    let (_, back) = Linked-split s.heap null us (d ∷ []) null whole.chain in
    let there : (d.addr == null) ≡ false = let ne = back.0 in ground arith in
    let counted = ap length split in
    let (z, done, empty) =
      clear_from-IsList fuel t us (subst (λ ys. IsList t ys) (append-nil us) rest)
        (omega (arith, length-append us (d ∷ []))) in
    (z, clear_from-step fuel s t d.addr (some (tt, z)) (is.tail ∙ at) there taken done, empty)

-- Clear on a list returns, and the list is empty afterwards.
pub clear_lem :
    (s : LinkedList) (xs : List Cell)
    → IsList s xs
    → (t : LinkedList) × (clear s ≡ some (tt, t)) × IsList t []
unfolding clear
clear_lem s xs is =
    clear_from-IsList (suc s.count) s xs is (let counted = is.counted in omega arith)
