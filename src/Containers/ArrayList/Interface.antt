-- ===== src/Containers/ArrayList/Interface.antt =====
-- class ArrayList (include/arraylist.h) as an implementation of IList (include/list.h).
use tysos_cxx.Prelude.{
  ℕ, true, false, zero, suc, ◌<◌, ◌≡◌, List, [], ◌∷◌, ◌++◌, none, some, refl, ◌⊎◌, inl, inr, ◌==◌,
  arith, length, get_elem?, ltb, length-append,
}
use tysos_cxx.Containers.IList.{Item, IList}
use tysos_cxx.Containers.ArrayList.{
  ArrayList, put, add, clear, contains, remove, get_item, set_item, index_of, remove_at,
}
use tysos_cxx.Containers.ArrayList.Elements.{Stands}

-- The virtual methods, with the list that they leave.
abbrev pub array_methods : (cap : ℕ) → IList ArrayList
array_methods cap = record {
  count = λ a. a.count;
  add = λ p a. some (tt, add cap p a);
  clear = λ a. some (tt, clear a);
  contains = λ p a. some (contains p a, a);
  remove = λ p a. remove cap p a;
  get_item = λ i a. elim (get_item cap i a) [ none ↦ none | some p ↦ some (p, a) ];
  set_item = λ i p a. elim (set_item cap i p a) [ none ↦ none | some b ↦ some (tt, b) ];
  index_of = λ p a. some (index_of p a, a);
  remove_at = λ i a. elim (remove_at cap i a) [ none ↦ none | some b ↦ some (tt, b) ];
}

-- An element of a sequence with one more at its end.
get_last :
    (xs : List Item) (p q : Item) (i : ℕ)
    → get_elem? (xs ++ p ∷ []) i ≡ some q
    → ((i < length xs) × (get_elem? xs i ≡ some q)) ⊎ ((i ≡ length xs) × (p ≡ q))
get_last [] p q zero e = inr (refl, ground arith)
get_last [] p q (suc i) e = absurd (cc)
get_last (x ∷ xs) p q zero e = inl (omega arith, e)
get_last (x ∷ xs) p q (suc i) e = elim (get_last xs p q i e) [
  | inl (l, f) ↦ inl (omega arith, f)
  | inr (l, f) ↦ inr (omega arith, f)
]

-- Add puts the item at the end while the array has room.
pub add-Stands :
    (cap : ℕ) (p : Item) (a : ArrayList) (xs : List Item)
    → Stands a xs
    → length xs < cap
    → Stands (add cap p a) (xs ++ p ∷ [])
unfolding add put
add-Stands cap p a xs at room =
    let n = at.counted in
    let small : ltb a.count cap ≡ true = ground arith in
    rw small (record {
      counted = let l = length-append xs (p ∷ []) in omega arith;
      holds = λ i q e. elim (get_last xs p q i e) [
        | inl (l, f) ↦
            (let kept = at.holds i q f in
              let other : (i == a.count) ≡ false = ground arith in rw other kept)
        | inr (l, f) ↦ (let here : (i == a.count) ≡ true = ground arith in rw here f)
      ];
    })
