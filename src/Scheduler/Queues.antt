-- ===== src/Scheduler/Queues.antt =====
-- How often a thread stands in a queue, before and after the queue operations that the scheduler
-- uses (include/sys/sched.h, include/queue.h).
use tysos_cxx.Prelude.{
  ℕ, suc, ◌-◌, ◌≡◌, List, [], ◌∷◌, ◌++◌, some, refl, ◌==◌, if◌then◌else◌, arith, ap, ◌∙◌,
  Bool-cases, inl, inr,
}
use tysos_cxx.Containers.DeltaQueue.{
  Entry, absorb, remove_delta, insert_from, insert_at_delta, get_zero, decrease_delta, sub64,
}
use tysos_cxx.Scheduler.{remove_first}

unfoldable pub count : ℕ → List ℕ → ℕ
count t [] = 0
count t (x ∷ rest) = if x == t then suc (count t rest) else count t rest

abbrev pub items : List Entry → List ℕ
items [] = []
items (c ∷ rest) = c.item ∷ items rest

items-absorb : (d : ℕ) (q : List Entry) → items (absorb d q) ≡ items q
unfolding absorb
items-absorb d [] = refl
items-absorb d (c ∷ rest) = refl

-- Removing an entry removes its item.
pub items-remove_delta :
    (t : ℕ) (q : List Entry) → items (remove_delta t q) ≡ remove_first t (items q)
unfolding remove_delta remove_first
items-remove_delta t [] = refl
items-remove_delta t (c ∷ rest) = elim (Bool-cases (c.item == t)) [
  | inl hit ↦ rw hit (items-absorb c.d rest)
  | inr miss ↦ rw miss (ap (λ x. c.item ∷ x) (items-remove_delta t rest))
]

module _ (u t : ℕ) where
  pub count-remove_first :
      (q : List ℕ) → count u (remove_first t q) ≡ (if u == t then count u q - 1 else count u q)
  unfolding count remove_first
  count-remove_first [] = ground arith
  count-remove_first (x ∷ rest) = ground (arith, count-remove_first rest)

  pub count-append_one :
      (q : List ℕ) → count u (q ++ t ∷ []) ≡ (if u == t then suc (count u q) else count u q)
  unfolding count
  count-append_one [] = ground arith
  count-append_one (x ∷ rest) = ground (arith, count-append_one rest)

  pub count-remove_delta :
      (q : List Entry)
      → count u (items (remove_delta t q))
        ≡ (if u == t then count u (items q) - 1 else count u (items q))
  count-remove_delta q = ap (count u) (items-remove_delta t q) ∙ count-remove_first (items q)

  count-insert_from :
      (value : ℕ) (c : Entry) (q : List Entry)
      → count u (items (insert_from t value c q))
        ≡ (if u == t then suc (count u (c.item ∷ items q)) else count u (c.item ∷ items q))
  unfolding count insert_from
  count-insert_from value c [] = ground arith
  count-insert_from value c (e ∷ rest) = ground (arith, count-insert_from (sub64 value c.d) e rest)

  pub count-insert_at_delta :
      (value : ℕ) (q : List Entry)
      → count u (items (insert_at_delta t value q))
        ≡ (if u == t then suc (count u (items q)) else count u (items q))
  unfolding count insert_at_delta
  count-insert_at_delta value [] = ground arith
  count-insert_at_delta value (c ∷ rest) = count-insert_from value c rest

pub items-decrease_delta : (k : ℕ) (q : List Entry) → items (decrease_delta k q).1 ≡ items q
unfolding decrease_delta
items-decrease_delta k [] = refl
items-decrease_delta k (c ∷ rest) = ground (arith, items-decrease_delta (sub64 k c.d) rest)

-- GetZero takes the first item.
pub items-get_zero :
    (q rest : List Entry) (t : ℕ) → get_zero q ≡ some (t, rest) → items q ≡ t ∷ items rest
unfolding get_zero
items-get_zero [] rest t h = absurd (cc)
items-get_zero (c ∷ q) rest t h = ground (arith, items-absorb c.d q)
