-- ===== src/Containers/IList/Sequences.antt =====
-- The searches in a sequence that the laws of IList (include/list.h) speak of.
use tysos_cxx.Prelude.{
  ℕ, zero, suc, ◌<◌, true, false, ◌||◌, List, [], ◌∷◌, ◌++◌, none, some, ◌≡◌, ◌≢◌, refl, ap, ◌==◌,
  inl, inr, Bool-cases, arith, length, get_elem?, All,
}
use tysos_cxx.Containers.IList.{Item, position, without, has}

pub has_append : (p : Item) (xs ys : List Item) → has p (xs ++ ys) ≡ (has p xs || has p ys)
has_append p [] ys = refl
has_append p (x ∷ xs) ys = let ih = has_append p xs ys in ground arith

pub without-absent : (p : Item) (xs : List Item) → has p xs ≡ false → without p xs ≡ xs
without-absent p [] e = refl
without-absent p (x ∷ xs) e = elim (Bool-cases (x == p)) [
  | inl hit ↦ absurd (ground arith)
  | inr miss ↦ rw miss (ap (λ ys. x ∷ ys) (without-absent p xs (rw miss at e)))
]

pub All-without : (P : Item → Type 0) (p : Item) (xs : List Item) → All P xs → All P (without p xs)
All-without P p [] a = a
All-without P p (x ∷ xs) a = elim (Bool-cases (x == p)) [
  | inl hit ↦ rw hit a.1
  | inr miss ↦ rw miss (a.0, All-without P p xs a.1)
]

pub All-append : (P : Item → Type 0) (xs ys : List Item) → All P xs → All P ys → All P (xs ++ ys)
All-append P [] ys a b = b
All-append P (x ∷ xs) ys a b = (a.0, All-append P xs ys a.1 b)

pub position-none : (p : Item) (xs : List Item) → has p xs ≡ false → position p xs ≡ none
position-none p [] e = refl
position-none p (x ∷ xs) e = elim (Bool-cases (x == p)) [
  | inl hit ↦ absurd (ground arith)
  | inr miss ↦ rw (miss, position-none p xs (rw miss at e)) refl
]

-- The first occurrence, as a position that get_elem? answers.
pub get_elem-position :
    (p : Item) (xs : List Item)
    → has p xs ≡ true
    → (i : ℕ) × (position p xs ≡ some i) × (get_elem? xs i ≡ some p)
get_elem-position p [] e = absurd (cc)
get_elem-position p (x ∷ xs) e = elim (Bool-cases (x == p)) [
  | inl hit ↦ let same : x ≡ p = ground arith in (0, rw hit refl, ap (λ y. some y) same)
  | inr miss ↦
      let (i, at, is) = get_elem-position p xs (rw miss at e) in (suc i, rw (miss, at) refl, is)
]

pub get_elem-absent :
    (p q : Item) (xs : List Item) (i : ℕ) → has p xs ≡ false → get_elem? xs i ≡ some q → q ≢ p
get_elem-absent p q [] i out e = absurd (cc)
get_elem-absent p q (x ∷ xs) zero out e = elim (Bool-cases (x == p)) [
  | inl hit ↦ absurd (ground arith)
  | inr miss ↦ let same : x ≡ q = ground arith in ground arith
]
get_elem-absent p q (x ∷ xs) (suc i) out e = elim (Bool-cases (x == p)) [
  | inl hit ↦ absurd (ground arith)
  | inr miss ↦ get_elem-absent p q xs i (rw miss at out) e
]

pub get_elem_below :
    (xs : List Item) (i : ℕ) → i < length xs → (q : Item) × (get_elem? xs i ≡ some q)
get_elem_below [] i l = absurd (omega arith)
get_elem_below (x ∷ xs) zero l = (x, refl)
get_elem_below (x ∷ xs) (suc i) l = get_elem_below xs i (omega arith)

pub below : (xs : List Item) (i : ℕ) (q : Item) → get_elem? xs i ≡ some q → i < length xs
below [] i q e = absurd (cc)
below (x ∷ xs) zero q e = omega arith
below (x ∷ xs) (suc i) q e = let ih = below xs i q e in omega arith
