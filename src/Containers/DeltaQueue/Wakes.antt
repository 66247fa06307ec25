-- ===== src/Containers/DeltaQueue/Wakes.antt =====
-- The delta queue (include/queue.h) as a schedule: an entry is due after the sum of the deltas up
-- to its own. The deltas of a queue that InsertAtDelta leaves may add up to more than a word holds,
-- since its subtraction may wrap around.
use tysos_cxx.Prelude.{
  ℕ, ◌+◌, ◌-◌, ◌^◌, ◌≤◌, ◌<◌, ◌≡◌, List, [], ◌∷◌, map, refl, sym, inl, inr, leb, ◌==◌, arith,
  Bool-cases, if◌then◌else◌,
}
use tysos_cxx.Containers.DeltaQueue.{Entry, add64, sub64, absorb, remove_delta, decrease_delta}

-- Item and due time of each entry, from time `t` on.
unfoldable pub dues : ℕ → List Entry → List (ℕ × ℕ)
dues t [] = []
dues t (c ∷ rest) = (c.item, t + c.d) ∷ dues (t + c.d) rest

abbrev pub sum : List Entry → ℕ
sum [] = 0
sum (c ∷ rest) = c.d + sum rest

-- The deltas add up to less than 2 ^ 64.
abbrev pub InRange : List Entry → Type 0
InRange q = sum q < 2 ^ 64

abbrev pub earlier : ℕ → ℕ × ℕ → ℕ × ℕ
earlier k (item, t) = (item, t - k)

dues-earlier :
    (t s k : ℕ) (q : List Entry) → t - k ≡ s → k ≤ t → map (earlier k) (dues t q) ≡ dues s q
unfolding dues
dues-earlier t s k [] e h = refl
dues-earlier t s k (c ∷ rest) e h =
    let head : t + c.d - k ≡ s + c.d = omega arith in
    rw (head, dues-earlier (t + c.d) (s + c.d) k rest head (omega arith))

dues-passed :
    (t k : ℕ) (q : List Entry)
    → t ≤ k
    → InRange q
    → k < 2 ^ 64
    → map (earlier k) (dues t q) ≡ dues 0 (decrease_delta (k - t) q).1
unfolding dues decrease_delta
dues-passed t k [] h r l = refl
dues-passed t k (c ∷ rest) h r l = elim (Bool-cases (leb (k - t) c.d)) [
  | inl reached ↦
      let left : sub64 c.d (k - t) ≡ t + c.d - k = ground arith in
      let tail = dues-earlier (t + c.d) (t + c.d - k) k rest refl (ground arith) in ground arith
  | inr passed ↦
      let left : sub64 (k - t) c.d ≡ k - (t + c.d) = ground arith in
      let tail = dues-passed (t + c.d) k rest (ground arith) (omega arith) l in
      let zero_due : t + c.d - k ≡ 0 = ground arith in ground arith
]

-- On a queue whose deltas add up to less than 2 ^ 64, and for an amount below 2 ^ 64: DecreaseDelta
-- brings every entry's due time nearer by the amount, down to 0 at the least, and changes neither the
-- items nor their order.
pub decrease_delta-dues :
    (k : ℕ) (q : List Entry)
    → InRange q
    → k < 2 ^ 64
    → dues 0 (decrease_delta k q).1 ≡ map (earlier k) (dues 0 q)
decrease_delta-dues k q r l =
    let same : k - 0 ≡ k = omega arith in sym (rw same at (dues-passed 0 k q (omega arith) r l))

-- What DecreaseDelta returns is the part of the amount that no entry waited for.
pub decrease_delta-left :
    (k : ℕ) (q : List Entry) → InRange q → k < 2 ^ 64 → (decrease_delta k q).0 ≡ k - sum q
unfolding decrease_delta
decrease_delta-left k [] r l = omega arith
decrease_delta-left k (c ∷ rest) r l = elim (Bool-cases (leb k c.d)) [
  | inl reached ↦ ground arith
  | inr passed ↦
      let left : sub64 k c.d ≡ k - c.d = ground arith in
      let tail = decrease_delta-left (k - c.d) rest (omega arith) (omega arith) in ground arith
]

pub sum-decrease_delta :
    (k : ℕ) (q : List Entry) → InRange q → k < 2 ^ 64 → sum (decrease_delta k q).1 ≡ sum q - k
unfolding decrease_delta
sum-decrease_delta k [] r l = omega arith
sum-decrease_delta k (c ∷ rest) r l = elim (Bool-cases (leb k c.d)) [
  | inl reached ↦ ground arith
  | inr passed ↦
      let left : sub64 k c.d ≡ k - c.d = ground arith in
      let tail = sum-decrease_delta (k - c.d) rest (omega arith) (omega arith) in ground arith
]

-- Drops the first entry with the item.
unfoldable pub drop_item : ℕ → List (ℕ × ℕ) → List (ℕ × ℕ)
drop_item item [] = []
drop_item item ((i, t) ∷ rest) = if i == item then rest else (i, t) ∷ drop_item item rest

absorb-dues :
    (t d : ℕ) (q : List Entry)
    → InRange q
    → d + sum q < 2 ^ 64
    → dues t (absorb d q) ≡ dues (t + d) q
unfolding dues absorb
absorb-dues t d [] r s = refl
absorb-dues t d (c ∷ rest) r s =
    let due : t + add64 c.d d ≡ t + d + c.d = omega arith in ground arith

-- Remove takes the first entry with the item out of the schedule and leaves every other due time
-- as it was.
pub remove_delta-dues :
    (t item : ℕ) (q : List Entry)
    → InRange q
    → dues t (remove_delta item q) ≡ drop_item item (dues t q)
unfolding dues remove_delta drop_item
remove_delta-dues t item [] r = refl
remove_delta-dues t item (c ∷ rest) r = ground (
  arith,
  absorb-dues t c.d rest (omega arith) r,
  remove_delta-dues (t + c.d) item rest (omega arith),
)
