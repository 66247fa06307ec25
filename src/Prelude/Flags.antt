-- ===== src/Prelude/Flags.antt =====
-- The bitwise or of a word with a flag that it lacks.
use Prim.Native.Nat.{
  ℕ, zero, suc, ◌+◌, ◌*◌, ◌/◌, ◌%◌, ◌≤◌, ◌<◌, max, bit_or, digits, bit_or-bitwise,
}
use mathlib.Core.Path.{◌≡◌, refl, ap, sym, ◌∙◌}
use native.Mathlib.Omega.{arith}

abbrev walk : (fuel x y : ℕ) → ℕ
walk fuel x y = digits (λ b. b) max fuel x y

walk_zero : (fuel y : ℕ) → walk fuel 0 y ≡ y
walk_zero zero y = refl
walk_zero (suc fuel) y = refl

walk_more : (x y more fuel : ℕ) → x ≤ fuel → fuel ≤ more → walk more x y ≡ walk fuel x y
walk_more zero y more fuel l m = walk_zero more y ∙ sym (walk_zero fuel y)
walk_more (suc x) y more zero l m = absurd (omega arith)
walk_more (suc x) y zero (suc fuel) l m = absurd (omega arith)
walk_more (suc x) y (suc more) (suc fuel) l m =
    let rest = walk_more (suc x / 2) (y / 2) more fuel (omega arith) (omega arith) in omega arith

zero-bit_or : (y : ℕ) → bit_or 0 y ≡ y
zero-bit_or y = bit_or-bitwise 0 y

bit_or_digit : (x y : ℕ) → bit_or x y ≡ max (x % 2) (y % 2) + 2 * bit_or (x / 2) (y / 2)
bit_or_digit zero y = let whole = zero-bit_or y in let rest = zero-bit_or (y / 2) in omega arith
bit_or_digit (suc x) y =
    let half = suc x / 2 in
    let whole = bit_or-bitwise (suc x) y in
    let rest = bit_or-bitwise half (y / 2) in
    let fuelled = walk_more half (y / 2) x half (omega arith) (omega arith) in omega arith

bit_or-zero : (fuel x : ℕ) → x ≤ fuel → bit_or x 0 ≡ x
bit_or-zero fuel zero l = zero-bit_or 0
bit_or-zero zero (suc x) l = absurd (omega arith)
bit_or-zero (suc fuel) (suc x) l =
    let whole = bit_or_digit (suc x) 0 in
    let rest = bit_or-zero fuel (suc x / 2) (omega arith) in omega arith

-- The or of a word with a flag field above it, bit by bit.
pub or_step : (x y z : ℕ) → z ≡ 2 * y → bit_or (x / 2) y ≡ x / 2 + y → bit_or x z ≡ x + z
or_step x y z double rest =
    let whole = bit_or_digit x z in
    let half : z / 2 ≡ y = omega arith in
    let same : bit_or (x / 2) (z / 2) ≡ bit_or (x / 2) y = ap (bit_or (x / 2)) half in omega arith

pub or_byte : (x a : ℕ) → x < 256 → bit_or x (a * 256) ≡ x + a * 256
or_byte x a small =
    let top : bit_or (x / 2 / 2 / 2 / 2 / 2 / 2 / 2 / 2) a ≡ x / 2 / 2 / 2 / 2 / 2 / 2 / 2 / 2 + a =
      let e : x / 2 / 2 / 2 / 2 / 2 / 2 / 2 / 2 ≡ 0 = omega arith in
      let same = ap (λ y. bit_or y a) e in let zero_or = zero-bit_or a in omega arith in
    let d7 = or_step (x / 2 / 2 / 2 / 2 / 2 / 2 / 2) a (a * 2) (omega arith) top in
    let d6 = or_step (x / 2 / 2 / 2 / 2 / 2 / 2) (a * 2) (a * 4) (omega arith) d7 in
    let d5 = or_step (x / 2 / 2 / 2 / 2 / 2) (a * 4) (a * 8) (omega arith) d6 in
    let d4 = or_step (x / 2 / 2 / 2 / 2) (a * 8) (a * 16) (omega arith) d5 in
    let d3 = or_step (x / 2 / 2 / 2) (a * 16) (a * 32) (omega arith) d4 in
    let d2 = or_step (x / 2 / 2) (a * 32) (a * 64) (omega arith) d3 in
    let d1 = or_step (x / 2) (a * 64) (a * 128) (omega arith) d2 in
    or_step x (a * 128) (a * 256) (omega arith) d1

pub or_1 : (x : ℕ) → x % 2 ≡ 0 → bit_or x 1 ≡ x + 1
or_1 x e =
    let whole = bit_or_digit x 1 in
    let rest = bit_or-zero (x / 2) (x / 2) (omega arith) in omega arith

pub or_2 : (x : ℕ) → (x / 2) % 2 ≡ 0 → bit_or x 2 ≡ x + 2
or_2 x e = let whole = bit_or_digit x 2 in let rest = or_1 (x / 2) e in omega arith

pub or_4 : (x : ℕ) → (x / 4) % 2 ≡ 0 → bit_or x 4 ≡ x + 4
or_4 x e = let whole = bit_or_digit x 4 in let rest = or_2 (x / 2) (omega arith) in omega arith

pub or_8 : (x : ℕ) → (x / 8) % 2 ≡ 0 → bit_or x 8 ≡ x + 8
or_8 x e = let whole = bit_or_digit x 8 in let rest = or_4 (x / 2) (omega arith) in omega arith

pub or_16 : (x : ℕ) → (x / 16) % 2 ≡ 0 → bit_or x 16 ≡ x + 16
or_16 x e = let whole = bit_or_digit x 16 in let rest = or_8 (x / 2) (omega arith) in omega arith

pub or_256 : (x : ℕ) → (x / 256) % 2 ≡ 0 → bit_or x 256 ≡ x + 256
or_256 x e =
    let d1 = bit_or_digit x 256 in
    let d2 = bit_or_digit (x / 2) 128 in
    let d3 = bit_or_digit (x / 2 / 2) 64 in
    let d4 = bit_or_digit (x / 2 / 2 / 2) 32 in
    let last = or_16 (x / 2 / 2 / 2 / 2) (omega arith) in omega arith
