-- ===== src/Containers/DeltaQueue/Insert.antt =====
-- InsertAtDelta (include/queue.h) as a change of the schedule.
use tysos_cxx.Prelude.{
  ℕ, ◌+◌, ◌≤◌, ◌≡◌, subst, List, [], ◌∷◌, ◌++◌, inl, inr, refl, ap, leb, arith, Bool-cases,
}
use tysos_cxx.Containers.DeltaQueue.{Entry, sub64, insert_from, insert_at_delta}
use tysos_cxx.Containers.DeltaQueue.Wakes.{dues}

-- The schedule `after` is the schedule `before` with one more item, due at the time or later.
pub record Inserted (item from : ℕ) (before after : List (ℕ × ℕ)) : Type 0 where
  pub due : ℕ
  pub front : List (ℕ × ℕ)
  pub back : List (ℕ × ℕ)
  pub was : before ≡ front ++ back
  pub now : after ≡ front ++ (item, due) ∷ back
  pub late : from ≤ due

insert_from-Inserted :
    (t item value : ℕ) (c : Entry) (rest : List Entry)
    → Inserted item (t + c.d) (dues t (c ∷ rest)) (dues t (insert_from item value c rest))
unfolding insert_from dues
insert_from-Inserted t item value c [] = record {
  due = t + c.d + sub64 value c.d;
  front = (c.item, t + c.d) ∷ [];
  back = [];
  was = refl;
  now = refl;
  late = omega arith;
}
insert_from-Inserted t item value c (e ∷ rest) = elim (Bool-cases (leb value e.d)) [
  | inl here ↦
      let none_left : sub64 value value ≡ 0 = omega arith in
      let due : t + c.d + 0 ≡ t + c.d = omega arith in
      record {
        due = t + c.d;
        front = (c.item, t + c.d) ∷ [];
        back = dues (t + c.d) (e ∷ rest);
        was = refl;
        now = ground arith;
        late = omega arith;
      }
  | inr later ↦
      let i = insert_from-Inserted (t + c.d) item (sub64 value c.d) e rest in
      let was = i.was in
      let now = i.now in
      let late = i.late in
      record {
        due = i.due;
        front = (c.item, t + c.d) ∷ i.front;
        back = i.back;
        was = ap (λ x. (c.item, t + c.d) ∷ x) was;
        now = ground arith;
        late = omega arith;
      }
]

-- InsertAtDelta into a queue that is not empty adds the item to the schedule and leaves every
-- other due time as it was, but the item is never due before the queue's first entry, whatever
-- delay was asked for.
pub insert_at_delta-Inserted :
    (item value : ℕ) (c : Entry) (rest : List Entry)
    → Inserted item c.d (dues 0 (c ∷ rest)) (dues 0 (insert_at_delta item value (c ∷ rest)))
unfolding insert_at_delta
insert_at_delta-Inserted item value c rest =
    let base : 0 + c.d ≡ c.d = omega arith in
    subst (λ x. Inserted item x (dues 0 (c ∷ rest)) (dues 0 (insert_from item value c rest))) base
      (insert_from-Inserted 0 item value c rest)
