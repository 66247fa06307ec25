-- ===== src/Formatter/Numerals.antt =====
-- NumToStr (kernel/core/formatter.cpp): the numerals that it writes, and how they are read back.
use native.Mathlib.Nat.{div-add-mod'}
use tysos_cxx.Prelude.{
  ℕ, zero, suc, ◌+◌, ◌-◌, ◌*◌, ◌/◌, ◌%◌, ◌^◌, ◌<◌, ◌≤◌, ◌≡◌, ◌≢◌, true, false, List, [], ◌∷◌, some,
  refl, ◌==◌, arith, Bool-cases, inl, inr, ap, ◌∙◌, sym,
}
use tysos_cxx.Formatter.{
  ReversibleString, rs_max, put, slot, reversible_string, end_batch, get_string, num_to_char,
  write_digits, num_to_str,
}
use tysos_cxx.Formatter.Digits.{
  value, numeral, Holds, quotient_small, write_digits-Holds, value-numeral, Holds-put-nul, put_nul,
  read_string-Holds,
}

front_digit : (n base : ℕ) → n ≢ 0 → 2 ≤ base → n / base ≡ 0 → num_to_char (n % base) ≢ b'0'
unfolding num_to_char
front_digit n base ne low last =
    let parts = div-add-mod' n base in
    let gone : n / base * base ≡ 0 = rw last (omega arith) in
    let same : n % base ≡ n = omega arith in rw same (λ e. ground arith)

-- A numeral is not empty, and begins with 0 only if the number is 0.
numeral-front :
    (fuel n base : ℕ) (cs : List ℕ)
    → 2 ≤ base
    → n < 2 ^ suc fuel
    → (c : ℕ) × (rest : List ℕ) × (numeral (suc fuel) n base cs ≡ c ∷ rest) × (n ≢ 0 → c ≢ b'0')
unfolding numeral
numeral-front zero n base cs low l =
    let quotient = quotient_small base low n 0 l in
    let done : (n / base == 0) ≡ true = ground arith in
    (
      num_to_char (n % base),
      cs,
      rw (numeral, done) refl,
      λ ne. front_digit n base ne low (omega arith),
    )
numeral-front (suc fuel) n base cs low l = elim (Bool-cases (n / base == 0)) [
  | inl done ↦ (
    num_to_char (n % base),
    cs,
    rw (numeral, done) refl,
    λ ne. front_digit n base ne low (ground arith),
  )
  | inr more ↦
      let (c, rest, e, digit) =
        numeral-front fuel (n / base) base (num_to_char (n % base) ∷ cs) low
          (quotient_small base low n (suc fuel) l) in
      (c, rest, rw (numeral, more) e, λ ne. digit (ground arith))
]

num_to_str-run :
    (memory : ℕ → ℕ) (n base : ℕ) (s : ReversibleString) (cs : List ℕ)
    → write_digits 32 n base (record (reversible_string memory) { forwards = false }) ≡ some s
    → s.forwards ≡ false
    → Holds s.str (suc s.pos) cs
    → num_to_str memory n base ≡ some cs
unfolding num_to_str get_string end_batch
num_to_str-run memory n base s cs ran back h =
    let below = Holds-put-nul s.str (suc s.pos) cs h in
    let done : end_batch s ≡ s = ground arith in
    let shown : get_string s ≡ (put s.str (rs_max - 1) 0, s.pos + 1) = ground arith in
    let place : s.pos + 1 ≡ suc s.pos = omega arith in
    rw (num_to_str, ran, done, shown, place)
      (read_string-Holds rs_max (suc s.pos) (put s.str (rs_max - 1) 0) cs below (put_nul s.str)
        (omega arith))

start_slot : (memory : ℕ → ℕ) → slot (reversible_string memory).pos ≡ 63
unfolding slot reversible_string
start_slot memory = refl

value-nil : (base n : ℕ) → value base n [] ≡ n
unfolding value
value-nil base n = refl

-- What NumToStr writes for a 32-bit number in a base from 2 to 16, whatever the array held before:
-- a numeral that reads back as the number, and that begins with 0 only if the number is 0.
pub num_to_str_lem :
    (memory : ℕ → ℕ) (n base : ℕ)
    → n < 2 ^ 32
    → 2 ≤ base
    → base ≤ 16
    → (c : ℕ) × (rest : List ℕ) × (num_to_str memory n base ≡ some (c ∷ rest))
      × (value base 0 (c ∷ rest) ≡ n)
      × (n ≢ 0 → c ≢ b'0')
num_to_str_lem memory n base l low high =
    let start : ReversibleString = record (reversible_string memory) { forwards = false } in
    let (s, ran, back, h) =
      write_digits-Holds base low 31 n 63 start [] l (omega arith) (omega arith) (start_slot memory)
        refl (omega arith) in
    let (c, rest, e, front) = numeral-front 31 n base [] low l in
    let same = value-numeral base low 31 n [] high l in
    (
      c,
      rest,
      num_to_str-run memory n base s (numeral 32 n base []) ran back h ∙ ap some e,
      ap (value base 0) (sym e) ∙ (same ∙ value-nil base n),
      front,
    )
