-- ===== src/Containers/ArrayList/Shifts.antt =====
-- ShiftDown and ShiftUp of class ArrayList (include/arraylist.h) element by element.
use tysos_cxx.Prelude.{
  ℕ, zero, suc, ◌+◌, ◌-◌, ◌<◌, ◌≡◌, ◌&&◌, Option, some, refl, ◌∙◌, ◌==◌, ltb, leb, if◌then◌else◌,
  inl, inr, Bool-cases, arith,
}
use tysos_cxx.Containers.IList.{Item}
use tysos_cxx.Containers.ArrayList.{put, move, shift_down, shift_up}

move-run :
    (cap d s : ℕ) (arr : ℕ → Item) → d < cap → s < cap → move cap d s arr ≡ some (put arr d (arr s))
unfolding move
move-run cap d s arr ld ls = ground arith

shift_down-step :
    (cap n d s : ℕ) (arr arr' : ℕ → Item) (r : Option (ℕ → Item))
    → move cap d s arr ≡ some arr'
    → shift_down cap n (suc d) (suc s) arr' ≡ r
    → shift_down cap (suc n) d s arr ≡ r
unfolding shift_down
shift_down-step cap n d s arr arr' r e rest = rw (shift_down, e) rest

shift_up-step :
    (cap n d s : ℕ) (arr arr' : ℕ → Item) (r : Option (ℕ → Item))
    → move cap (d + n) (s + n) arr ≡ some arr'
    → shift_up cap n d s arr' ≡ r
    → shift_up cap (suc n) d s arr ≡ r
unfolding shift_up
shift_up-step cap n d s arr arr' r e rest = rw (shift_up, e) rest

-- A shift by one place towards the front, inside the array.
pub shift_down_lem :
    (cap n d : ℕ) (arr : ℕ → Item)
    → d + n < cap
    → (arr' : ℕ → Item) × (shift_down cap n d (suc d) arr ≡ some arr')
      × ((j : ℕ) → arr' j ≡ (if leb d j && ltb j (d + n) then arr (suc j) else arr j))
unfolding shift_down put
shift_down_lem cap zero d arr l = (arr, refl, λ j. ground arith)
shift_down_lem cap (suc n) d arr l =
    let (arr', ran, is) = shift_down_lem cap n (suc d) (put arr d (arr (suc d))) (omega arith) in
    (
      arr',
      shift_down-step cap n d (suc d) arr (put arr d (arr (suc d))) (some arr')
          (move-run cap d (suc d) arr (omega arith) (omega arith)) ran,
      λ j. is j ∙ elim (Bool-cases (j == d)) [
        | inl here ↦ let at : j ≡ d = ground arith in ground arith
        | inr elsewhere ↦ ground arith
      ],
    )

-- A shift by one place towards the end, inside the array.
pub shift_up_lem :
    (cap n s : ℕ) (arr : ℕ → Item)
    → s + n < cap
    → (arr' : ℕ → Item) × (shift_up cap n (suc s) s arr ≡ some arr')
      × ((j : ℕ) → arr' j ≡ (if ltb s j && leb j (s + n) then arr (j - 1) else arr j))
unfolding shift_up put
shift_up_lem cap zero s arr l = (arr, refl, λ j. ground arith)
shift_up_lem cap (suc n) s arr l =
    let next = put arr (suc s + n) (arr (s + n)) in
    let (arr', ran, is) = shift_up_lem cap n s next (omega arith) in
    (
      arr',
      shift_up-step cap n (suc s) s arr next (some arr')
          (move-run cap (suc s + n) (s + n) arr (omega arith) (omega arith)) ran,
      λ j. is j ∙ elim (Bool-cases (j == suc s + n)) [
        | inl here ↦
            let at : j ≡ suc s + n = ground arith in
            let before : j - 1 ≡ s + n = omega arith in ground arith
        | inr elsewhere ↦ ground arith
      ],
    )
