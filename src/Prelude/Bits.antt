-- ===== src/Prelude/Bits.antt =====
-- The bits of the bitwise and of two words.
use native.Mathlib.Nat.{div-div-eq-div-mul}
use Prim.Native.Nat.{min, bit_and-bitwise}
use Prim.Native.Nat.{ℕ, zero, suc, ◌*◌, ◌/◌, ◌%◌, ◌^◌, ◌≤◌, ◌<◌, bit_and}
use mathlib.Core.Path.{◌≡◌, refl, sym, ap, ◌∙◌}
use mathlib.Core.Logic.{inl, inr}
use mathlib.Core.Bool.{Bool, true, ◌&&◌}
use native.Mathlib.Omega.{arith}
use tysos_cxx.Prelude.Tests.{◌==◌, Bool-cases}
use tysos_cxx.Prelude.Words.{test_bit, bit_and_digit, halve}

halve_lem : (k w : ℕ) → w / 2 ^ k ≡ halve k w
unfolding halve
halve_lem zero w = omega arith
halve_lem (suc k) w =
    let twice : 2 ^ suc k ≡ 2 * 2 ^ k = omega arith in
    ap (λ d. w / d) twice ∙ sym (div-div-eq-div-mul w 2 (2 ^ k)) ∙ halve_lem k (w / 2)

halve-bit_and : (k x y : ℕ) → halve k (bit_and x y) ≡ bit_and (halve k x) (halve k y)
unfolding halve
halve-bit_and zero x y = refl
halve-bit_and (suc k) x y =
    let step : bit_and x y / 2 ≡ bit_and (x / 2) (y / 2) =
      let d = bit_and_digit x y in omega arith in
    ap (halve k) step ∙ halve-bit_and k (x / 2) (y / 2)

both_one : (m n : ℕ) → m ≤ 1 → n ≤ 1 → (min m n == 1) ≡ ((m == 1) && (n == 1))
both_one zero zero l r = refl
both_one zero (suc zero) l r = refl
both_one (suc zero) zero l r = refl
both_one (suc zero) (suc zero) l r = refl
both_one (suc (suc m)) n l r = absurd (omega arith)
both_one m (suc (suc n)) l r = absurd (omega arith)

-- A bit of the conjunction is set where it is set in both words.
pub test_bit-bit_and : (x y k : ℕ) → test_bit (bit_and x y) k ≡ (test_bit x k && test_bit y k)
test_bit-bit_and x y k =
    rw (halve_lem k (bit_and x y), halve-bit_and k x y, halve_lem k x, halve_lem k y)
      (low (halve k x) (halve k y))
  where
    low : (a b : ℕ) → (bit_and a b % 2 == 1) ≡ ((a % 2 == 1) && (b % 2 == 1))
    low a b =
        let digit : bit_and a b % 2 ≡ min (a % 2) (b % 2) =
          let d = bit_and_digit a b in omega arith in
        ap (λ d. d == 1) digit ∙ both_one (a % 2) (b % 2) (omega arith) (omega arith)

-- A test that holds of every number below a bound.
abbrev pub all_below : ℕ → (ℕ → Bool) → Bool
all_below zero p = true
all_below (suc n) p = p n && all_below n p

pub all_below_lem : (n : ℕ) (p : ℕ → Bool) → all_below n p ≡ true → (k : ℕ) → k < n → p k ≡ true
all_below_lem zero p h k l = absurd (omega arith)
all_below_lem (suc n) p h k l = elim (Bool-cases (k == n)) [
  | inl same ↦ let e : k ≡ n = ground arith in ap p e ∙ (ground arith)
  | inr differ ↦ all_below_lem n p (ground arith) k (ground arith)
]

at_most : (fuel x y : ℕ) → x ≤ fuel → bit_and x y ≤ y
at_most fuel zero y l = let whole = bit_and-bitwise 0 y in omega arith
at_most zero (suc x) y l = absurd (omega arith)
at_most (suc fuel) (suc x) y l =
    let whole = bit_and_digit (suc x) y in
    let rest = at_most fuel (suc x / 2) (y / 2) (omega arith) in omega arith

pub bit_and_le : (x y : ℕ) → bit_and x y ≤ y
bit_and_le x y = at_most x x y (omega arith)
