-- ===== src/Containers/ArrayList/Methods.antt =====
-- Add, Insert, IndexOf and Remove of class ArrayList (include/arraylist.h) on the sequence of
-- references that the array stands for.
use tysos_cxx.Prelude.{
  ℕ, zero, suc, ◌+◌, ◌-◌, ◌≤◌, ◌<◌, ◌≡◌, true, false, ◌&&◌, List, [], ◌∷◌, Option, none, some, refl,
  sym, ◌∙◌, ap, ◌==◌, ltb, leb, if◌then◌else◌, inl, inr, ◌⊎◌, Bool-cases, arith, pos, length,
  get_elem?,
}
use tysos_cxx.Containers.IList.{Item, position}
use tysos_cxx.Containers.IList.Sequences.{below}
use tysos_cxx.Containers.ArrayList.{
  ArrayList, put, shift_up, index_from, index_of, remove_at, remove, set_item, insert,
}
use tysos_cxx.Containers.ArrayList.Shifts.{shift_up_lem}
use tysos_cxx.Containers.ArrayList.Elements.{
  Stands, erase, put_in, put_in_lem, length-put_in, remove_at_lem,
}

insert-run :
    (cap i : ℕ) (p : Item) (a : ArrayList) (arr : ℕ → Item)
    → i ≤ a.count
    → a.count < cap
    → shift_up cap (a.count - i + 1) (suc i) i a.arr ≡ some arr
    → insert cap p (pos i) a ≡ some (record { count = a.count + 1; arr = put arr i p })
unfolding insert set_item
insert-run cap i p a arr l room e =
    let next : i + 1 ≡ suc i = omega arith in
    let low : (leb i a.count && ltb a.count cap) ≡ true = ground arith in
    let slot : ltb i cap ≡ true = ground arith in rw (low, next, e, slot) refl

-- Insert at an index up to the count puts the reference before the element of the index, where at
-- least two elements of the array are free.
pub insert-Stands :
    (cap : ℕ) (a : ArrayList) (xs : List Item) (p : Item) (i : ℕ)
    → Stands a xs
    → i ≤ length xs
    → length xs + 1 < cap
    → (b : ArrayList) × (insert cap p (pos i) a ≡ some b) × Stands b (put_in i p xs)
unfolding put
insert-Stands cap a xs p i st l room =
    let n = st.counted in
    let (arr, ran, is) = shift_up_lem cap (a.count - i + 1) i a.arr (omega arith) in
    (
      record { count = a.count + 1; arr = put arr i p },
      insert-run cap i p a arr (omega arith) (omega arith) ran,
      record {
        counted = let len = length-put_in xs i p l in omega arith;
        holds = λ j q e. moved arr is j q (sym (put_in_lem xs i j p l) ∙ e);
      },
    )
  where
    moved :
        (arr : ℕ → Item)
        → ((j : ℕ)
            → arr j ≡ (if ltb i j && leb j (i + (a.count - i + 1)) then a.arr (j - 1) else a.arr j))
        → (j : ℕ) (q : Item)
        → (if j == i then some p else if ltb j i then get_elem? xs j else get_elem? xs (j - 1))
          ≡ some q
        → (if j == i then p else arr j) ≡ q
    moved arr is j q e = elim (Bool-cases (j == i)) [
      | inl here ↦ rw here (let same = rw here at e in ground arith)
      | inr other ↦ rw other (elim (Bool-cases (ltb j i)) [
        | inl front ↦ let at = st.holds j q (rw (other, front) at e) in is j ∙ ground arith
        | inr back ↦
            let there = rw (other, back) at e in
            let at = st.holds (j - 1) q there in
            let bound = below xs (j - 1) q there in let n = st.counted in is j ∙ ground arith
      ])
    ]

-- The search from an index on.
index_from_lem :
    (arr : ℕ → Item) (p : Item) (xs : List Item) (i : ℕ)
    → ((j : ℕ) (q : Item) → get_elem? xs j ≡ some q → arr (i + j) ≡ q)
    → index_from arr p i (length xs) ≡ elim (position p xs) [ none ↦ none | some j ↦ some (i + j) ]
unfolding index_from
index_from_lem arr p [] i h = refl
index_from_lem arr p (x ∷ xs) i h =
    let first = h 0 x refl in
    let start : i + 0 ≡ i = omega arith in
    let at : arr i ≡ x = rw start at first in
    elim (Bool-cases (x == p)) [
      | inl hit ↦
          let found : (arr i == p) ≡ true = rw at hit in rw (index_from, found, hit, start) refl
      | inr miss ↦
          let ih =
            index_from_lem arr p xs (suc i) (λ j q e.
              let next : suc i + j ≡ i + suc j = omega arith in rw next (h (suc j) q e)) in
          let other : (arr i == p) ≡ false = rw at miss in
          rw (index_from, other, miss) (ih ∙ shifted (position p xs))
    ]
  where
    shifted :
        (r : Option ℕ)
        → elim r as (λ x. Option ℕ) [ none ↦ none | some j ↦ some (suc i + j) ]
          ≡ elim (elim r as (λ x. Option ℕ) [ none ↦ none | some j ↦ some (suc j) ])
              as (λ x. Option ℕ) [ none ↦ none | some j ↦ some (i + j) ]
    shifted none = refl
    shifted (some j) = ap (λ n. some n) (omega arith)

pub index_of_lem :
    (a : ArrayList) (xs : List Item) (p : Item) → Stands a xs → index_of p a ≡ position p xs
unfolding index_of
index_of_lem a xs p st =
    ap (index_from a.arr p 0) st.counted
    ∙ index_from_lem a.arr p xs 0
        (λ j q e. let z : 0 + j ≡ j = omega arith in rw z (st.holds j q e))
    ∙ same (position p xs)
  where
    same : (r : Option ℕ) → elim r as (λ x. Option ℕ) [ none ↦ none | some j ↦ some (0 + j) ] ≡ r
    same none = refl
    same (some j) = ap (λ n. some n) (omega arith)

remove-run :
    (cap : ℕ) (p : Item) (i : ℕ) (a b c : ArrayList)
    → index_of p a ≡ some i
    → remove_at cap (pos i) a ≡ some b
    → remove_at cap (pos i) b ≡ some c
    → remove cap p a ≡ some (true, c)
unfolding remove
remove-run cap p i a b c found first second = rw (remove, found, first, second) refl

length-erase_le : (cap : ℕ) (xs : List Item) (i : ℕ) → length xs < cap → length (erase i xs) < cap
length-erase_le cap [] i l = l
length-erase_le cap (x ∷ xs) zero l = omega arith
length-erase_le zero (x ∷ xs) (suc i) l = absurd (omega arith)
length-erase_le (suc cap) (x ∷ xs) (suc i) l =
    let ih = length-erase_le cap xs i (omega arith) in omega arith

remove-none :
    (cap : ℕ) (p : Item) (a : ArrayList) → index_of p a ≡ none → remove cap p a ≡ some (false, a)
unfolding remove remove_at
remove-none cap p a missed = rw (remove, missed) refl

-- Remove of a reference that the list does not hold returns false and changes nothing. Of one that
-- it holds it returns true, but takes out the first occurrence and then the element behind it
-- too, if there is one. The array is not full.
pub remove_twice :
    (cap : ℕ) (a : ArrayList) (xs : List Item) (p : Item)
    → Stands a xs
    → length xs < cap
    → ((position p xs ≡ none) × (remove cap p a ≡ some (false, a)))
      ⊎ ((i : ℕ) × (position p xs ≡ some i)
          × (b : ArrayList) × (remove cap p a ≡ some (true, b))
          × Stands b (erase i (erase i xs)))
remove_twice cap a xs p st l = cases (position p xs) refl
  where
    cases :
        (r : Option ℕ)
        → position p xs ≡ r
        → ((position p xs ≡ none) × (remove cap p a ≡ some (false, a)))
          ⊎ ((i : ℕ) × (position p xs ≡ some i)
              × (b : ArrayList) × (remove cap p a ≡ some (true, b))
              × Stands b (erase i (erase i xs)))
    cases none e = inl (e, remove-none cap p a (index_of_lem a xs p st ∙ e))
    cases (some i) e =
        let (b, first, left) = remove_at_lem cap a xs i st l in
        let (c, second, rest) =
          remove_at_lem cap b (erase i xs) i left (length-erase_le cap xs i l) in
        inr (i, e, c, remove-run cap p i a b c (index_of_lem a xs p st ∙ e) first second, rest)
