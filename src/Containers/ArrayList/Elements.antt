-- ===== src/Containers/ArrayList/Elements.antt =====
-- Add, Insert, RemoveAt and Remove of class ArrayList (include/arraylist.h) on the sequence of
-- references that the array stands for.
use tysos_cxx.Prelude.{
  ℕ, zero, suc, ◌+◌, ◌-◌, ◌≤◌, ◌<◌, ◌≡◌, true, ◌&&◌, List, [], ◌∷◌, some, refl, sym, ◌∙◌, ap, subst,
  ◌==◌, ltb, leb, if◌then◌else◌, inl, inr, Bool-cases, arith, pos, length, get_elem?,
}
use tysos_cxx.Containers.IList.{Item}
use tysos_cxx.Containers.IList.Sequences.{below}
use tysos_cxx.Containers.ArrayList.{ArrayList, shift_down, remove_at}
use tysos_cxx.Containers.ArrayList.Shifts.{shift_down_lem}

-- The array holds the sequence from its start, and counts it.
pub record Stands (a : ArrayList) (xs : List Item) : Type 0 where
  pub counted : a.count ≡ length xs
  pub holds : (i : ℕ) (p : Item) → get_elem? xs i ≡ some p → a.arr i ≡ p

-- The sequence without the element of an index, and with an element put in before an index.
abbrev pub erase : ℕ → List Item → List Item
erase i [] = []
erase zero (x ∷ xs) = xs
erase (suc i) (x ∷ xs) = x ∷ erase i xs

abbrev pub put_in : ℕ → Item → List Item → List Item
put_in zero p xs = p ∷ xs
put_in (suc i) p [] = p ∷ []
put_in (suc i) p (x ∷ xs) = x ∷ put_in i p xs

erase_lem :
    (xs : List Item) (i j : ℕ)
    → get_elem? (erase i xs) j ≡ (if ltb j i then get_elem? xs j else get_elem? xs (suc j))
erase_lem [] i j = ground arith
erase_lem (x ∷ xs) zero j = ground arith
erase_lem (x ∷ xs) (suc i) zero = ground arith
erase_lem (x ∷ xs) (suc i) (suc j) =
    let ih = erase_lem xs i j in
    elim (Bool-cases (ltb j i)) [ inl low ↦ ground arith | inr high ↦ ground arith ]

length-erase : (xs : List Item) (i : ℕ) → i < length xs → length (erase i xs) ≡ length xs - 1
length-erase [] i l = absurd (omega arith)
length-erase (x ∷ xs) zero l = omega arith
length-erase (x ∷ xs) (suc i) l = let ih = length-erase xs i (omega arith) in omega arith

erase_past : (xs : List Item) (i : ℕ) → length xs ≤ i → erase i xs ≡ xs
erase_past [] i l = refl
erase_past (x ∷ xs) zero l = absurd (omega arith)
erase_past (x ∷ xs) (suc i) l = ap (λ ys. x ∷ ys) (erase_past xs i (omega arith))

pub put_in_lem :
    (xs : List Item) (i j : ℕ) (p : Item)
    → i ≤ length xs
    → get_elem? (put_in i p xs) j
      ≡ (if j == i then some p else if ltb j i then get_elem? xs j else get_elem? xs (j - 1))
put_in_lem xs zero zero p l = ground arith
put_in_lem xs zero (suc j) p l = ground arith
put_in_lem [] (suc i) j p l = absurd (omega arith)
put_in_lem (x ∷ xs) (suc i) zero p l = ground arith
put_in_lem (x ∷ xs) (suc i) (suc zero) p l =
    let ih = put_in_lem xs i zero p (omega arith) in ground arith
put_in_lem (x ∷ xs) (suc i) (suc (suc j)) p l =
    let ih = put_in_lem xs i (suc j) p (omega arith) in
    elim (Bool-cases (suc j == i)) [
      | inl here ↦ ground arith
      | inr other ↦ elim (Bool-cases (ltb (suc j) i)) [
        | inl low ↦ ground arith
        | inr high ↦ ground arith
      ]
    ]

pub length-put_in :
    (xs : List Item) (i : ℕ) (p : Item) → i ≤ length xs → length (put_in i p xs) ≡ length xs + 1
length-put_in xs zero p l = omega arith
length-put_in [] (suc i) p l = absurd (omega arith)
length-put_in (x ∷ xs) (suc i) p l = let ih = length-put_in xs i p (omega arith) in omega arith

remove_at-run :
    (cap i : ℕ) (a : ArrayList) (arr : ℕ → Item)
    → i < a.count
    → shift_down cap (a.count - i) i (suc i) a.arr ≡ some arr
    → remove_at cap (pos i) a ≡ some (record { count = a.count - 1; arr = arr })
unfolding remove_at
remove_at-run cap i a arr l e =
    let next : i + 1 ≡ suc i = omega arith in
    let low : ltb i a.count ≡ true = ground arith in rw (low, next, e) refl

-- RemoveAt of an index takes its element out, where the array is not full; with another index it
-- changes nothing.
pub remove_at_lem :
    (cap : ℕ) (a : ArrayList) (xs : List Item) (i : ℕ)
    → Stands a xs
    → length xs < cap
    → (b : ArrayList) × (remove_at cap (pos i) a ≡ some b) × Stands b (erase i xs)
unfolding remove_at
remove_at_lem cap a xs i st l = elim (Bool-cases (ltb i a.count)) [
  | inr out ↦
      let n = st.counted in
      (a, rw out refl, subst (Stands a) (sym (erase_past xs i (ground arith))) st)
  | inl low ↦
      let n = st.counted in
      let inside : i < a.count = ground arith in
      let (arr, ran, is) = shift_down_lem cap (a.count - i) i a.arr (omega arith) in
      (
        record { count = a.count - 1; arr = arr },
        remove_at-run cap i a arr inside ran,
        record {
          counted = let len = length-erase xs i (omega arith) in omega arith;
          holds = λ j p e. is j ∙ shifted j p inside (sym (erase_lem xs i j) ∙ e);
        },
      )
]
  where
    shifted :
        (j : ℕ) (p : Item)
        → i < a.count
        → (if ltb j i then get_elem? xs j else get_elem? xs (suc j)) ≡ some p
        → (if leb i j && ltb j (i + (a.count - i)) then a.arr (suc j) else a.arr j) ≡ p
    shifted j p inside e = elim (Bool-cases (ltb j i)) [
      | inl front ↦ let at = st.holds j p (rw front at e) in ground arith
      | inr back ↦
          let there = rw back at e in
          let at = st.holds (suc j) p there in
          let bound = below xs (suc j) p there in let n = st.counted in ground arith
    ]
