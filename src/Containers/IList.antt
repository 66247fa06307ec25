-- ===== src/Containers/IList.antt =====
-- The interface of a collection, class IList (include/list.h): its operations as a record, and
-- what a client relies on as laws about the sequence of items that a list stands for. Items are
-- references, so they are addresses; `none` is a fault.
pub mod Sequences
use tysos_cxx.Prelude.{
  ℕ, zero, suc, Bool, true, false, List, [], ◌∷◌, ◌++◌, Option, none, some, ◌≡◌, ◌==◌,
  if◌then◌else◌, ℤ, pos, length, get_elem?,
}

abbrev pub Item : Type 0
Item = ℕ

pub record IList (L : Type 0) : Type 0 where
  pub count : L → ℕ
  pub add : Item → L → Option (Unit {0} × L)
  pub clear : L → Option (Unit {0} × L)
  pub contains : Item → L → Option (Bool × L)
  pub remove : Item → L → Option (Bool × L)
  pub get_item : ℤ → L → Option (Item × L)
  pub set_item : ℤ → Item → L → Option (Unit {0} × L)
  pub index_of : Item → L → Option (Option ℕ × L)
  pub remove_at : ℤ → L → Option (Unit {0} × L)

-- The index of the first occurrence.
abbrev pub position : Item → List Item → Option ℕ
position p [] = none
position p (x ∷ xs) =
    if x == p then some 0 else elim (position p xs) [ none ↦ none | some i ↦ some (suc i) ]

-- The sequence without the first occurrence, and whether there is one.
abbrev pub without : Item → List Item → List Item
without p [] = []
without p (x ∷ xs) = if x == p then xs else x ∷ without p xs

abbrev pub has : Item → List Item → Bool
has p [] = false
has p (x ∷ xs) = if x == p then true else has p xs

-- The operations work on the sequence that a list stands for. `Room` is what Add needs.
pub record ListLaws {L : Type 0} (ops : IList L) (Rep : L → List Item → Type 0) (Room : L → Type 0)
    : Type 0 where
  pub counts : (l : L) (xs : List Item) → Rep l xs → ops.count l ≡ length xs
  pub adds :
      (l : L) (xs : List Item) (p : Item)
      → Rep l xs
      → Room l
      → (l' : L) × (ops.add p l ≡ some (tt, l')) × Rep l' (xs ++ p ∷ [])
  pub clears :
      (l : L) (xs : List Item) → Rep l xs → (l' : L) × (ops.clear l ≡ some (tt, l')) × Rep l' []
  pub checks :
      (l : L) (xs : List Item) (p : Item) → Rep l xs → ops.contains p l ≡ some (has p xs, l)
  pub removes :
      (l : L) (xs : List Item) (p : Item)
      → Rep l xs
      → (l' : L) × (ops.remove p l ≡ some (has p xs, l')) × Rep l' (without p xs)
  pub finds :
      (l : L) (xs : List Item) (p : Item) → Rep l xs → ops.index_of p l ≡ some (position p xs, l)
  pub gets :
      (l : L) (xs : List Item) (i : ℕ) (p : Item)
      → Rep l xs
      → get_elem? xs i ≡ some p
      → ops.get_item (pos i) l ≡ some (p, l)
