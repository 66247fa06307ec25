-- ===== src/Prelude/Words.antt =====
-- 32-bit unsigned arithmetic (`uintptr` and `unsigned long` of the i386 build) and bit tests.
use Prim.Native.Nat.{
  ℕ, zero, suc, ◌+◌, ◌-◌, ◌*◌, ◌/◌, ◌%◌, ◌^◌, ◌≤◌, ◌<◌, min, bit_and, digits, bit_and-bitwise,
}
use mathlib.Core.Path.{◌≡◌, refl, ap, sym, ◌∙◌}
use mathlib.Core.Bool.{Bool}
use native.Mathlib.Omega.{arith}
use tysos_cxx.Prelude.Tests.{◌==◌}

-- `a + b`, `a - b` and `a * b` on `unsigned long`.
abbrev pub add32 : ℕ → ℕ → ℕ
add32 a b = (a + b) % 2 ^ 32

abbrev pub sub32 : ℕ → ℕ → ℕ
sub32 a b = (a + 2 ^ 32 - b) % 2 ^ 32

abbrev pub mul32 : ℕ → ℕ → ℕ
mul32 a b = (a * b) % 2 ^ 32

-- `(w & (1 << k)) != 0`.
abbrev pub test_bit : ℕ → ℕ → Bool
test_bit w k = (w / 2 ^ k) % 2 == 1

-- `bit_and` one binary digit at a time. The native operation stands for a walk over the digits
-- with the first operand as its fuel; more fuel gives the same word.
abbrev walk : (fuel x y : ℕ) → ℕ
walk fuel x y = digits (λ _. 0) min fuel x y

walk_zero : (fuel y : ℕ) → walk fuel 0 y ≡ 0
walk_zero zero y = refl
walk_zero (suc fuel) y = refl

walk_more : (x y more fuel : ℕ) → x ≤ fuel → fuel ≤ more → walk more x y ≡ walk fuel x y
walk_more zero y more fuel l m = walk_zero more y ∙ sym (walk_zero fuel y)
walk_more (suc x) y more zero l m = absurd (omega arith)
walk_more (suc x) y zero (suc fuel) l m = absurd (omega arith)
walk_more (suc x) y (suc more) (suc fuel) l m =
    let rest = walk_more (suc x / 2) (y / 2) more fuel (omega arith) (omega arith) in omega arith

pub bit_and_digit : (x y : ℕ) → bit_and x y ≡ min (x % 2) (y % 2) + 2 * bit_and (x / 2) (y / 2)
bit_and_digit zero y =
    let whole = bit_and-bitwise 0 y in let rest = bit_and-bitwise 0 (y / 2) in omega arith
bit_and_digit (suc x) y =
    let half = suc x / 2 in
    let whole = bit_and-bitwise (suc x) y in
    let rest = bit_and-bitwise half (y / 2) in
    let fuelled = walk_more half (y / 2) x half (omega arith) (omega arith) in omega arith

-- A mask whose low bit is 0 clears the low bit.
pub bit_and_even : (x y : ℕ) → bit_and x (2 * y) % 2 ≡ 0
bit_and_even x y = let whole = bit_and_digit x (2 * y) in omega arith

zero-bit_and : (y : ℕ) → bit_and 0 y ≡ 0
zero-bit_and y = bit_and-bitwise 0 y

-- A mask of `k` ones, and a mask whose low bit is 0.
ones : ℕ → ℕ
ones zero = 0
ones (suc k) = 1 + 2 * ones k

double : ℕ → ℕ → ℕ
double zero p = p
double (suc k) p = 2 * double k p

unfoldable pub halve : ℕ → ℕ → ℕ
halve zero a = a
halve (suc k) a = halve k (a / 2)

div_odd : (m : ℕ) → (1 + 2 * m) / 2 ≡ m
div_odd m = omega arith

div_even : (m : ℕ) → (2 * m) / 2 ≡ m
div_even m = omega arith

bit_and-ones : (k a : ℕ) → a < double k 1 → bit_and a (ones k) ≡ a
unfolding ones double
bit_and-ones zero zero h = zero-bit_and 0
bit_and-ones zero (suc a) h = absurd (omega arith)
bit_and-ones (suc k) a h =
    let ih = bit_and-ones k (a / 2) (omega arith) in
    bit_and_digit a (1 + 2 * ones k) ∙ rw (div_odd (ones k), ih) (omega arith)

bit_and-double : (k a m : ℕ) → bit_and a (double k m) ≡ double k (bit_and (halve k a) m)
unfolding double halve
bit_and-double zero a m = refl
bit_and-double (suc k) a m =
    bit_and_digit a (2 * double k m)
    ∙ rw (div_even (double k m), bit_and-double k (a / 2) m) (omega arith)

halve_page : (a : ℕ) → a < 2 ^ 32 → halve 12 a < double 20 1
unfolding halve double
halve_page a h = omega arith

page_round : (a : ℕ) → double 12 (halve 12 a) ≡ a - a % 4096
unfolding halve double
page_round a = omega arith

-- The page mask of the i386 build clears the offset within the page.
pub bit_and-page_mask : (a : ℕ) → a < 2 ^ 32 → bit_and a 0xfffff000 ≡ a - a % 4096
unfolding ones double
bit_and-page_mask a h =
    bit_and-double 12 a (ones 20)
    ∙ ap (double 12) (bit_and-ones 20 (halve 12 a) (halve_page a h))
    ∙ page_round a
