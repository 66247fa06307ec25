-- ===== src/Formatter/Digits.antt =====
-- The digits of NumToStr (kernel/core/formatter.cpp) in the array of the reversed string, and the
-- value of a numeral.
use native.Mathlib.Nat.{pow-succ', mod-lt, div-add-mod', div-lt_iff_lt-mul}
use tysos_cxx.Prelude.{
  ℕ, zero, suc, ◌+◌, ◌-◌, ◌*◌, ◌/◌, ◌%◌, ◌^◌, ◌<◌, ◌≤◌, ◌≡◌, ◌≢◌, true, false, List, [], ◌∷◌, some,
  refl, leb, ◌==◌, if◌then◌else◌, arith, Bool-cases, inl, inr, ◌∙◌, sym, subst,
}
use tysos_cxx.Formatter.{
  ReversibleString, rs_max, put, slot, write_char, read_string, num_to_char, write_digits,
}

-- The value of a digit.
unfoldable pub digit_value : ℕ → ℕ
digit_value c = if leb b'a' c then c - b'a' + 10 else c - b'0'

-- The value of a numeral behind the number `n`.
unfoldable pub value : ℕ → ℕ → List ℕ → ℕ
value base n [] = n
value base n (c ∷ cs) = value base (n * base + digit_value c) cs

-- The digits of `n` before the digits `cs`.
unfoldable pub numeral : ℕ → ℕ → ℕ → List ℕ → List ℕ
numeral zero n base cs = cs
numeral (suc fuel) n base cs =
    let c = num_to_char (n % base) in
    elim (n / base == 0) [ true ↦ c ∷ cs | false ↦ numeral fuel (n / base) base (c ∷ cs) ]

digit_value-num_to_char : (n : ℕ) → n < 16 → digit_value (num_to_char n) ≡ n
unfolding digit_value num_to_char
digit_value-num_to_char n l = ground arith

-- The array holds the characters from the index on, then a free place for the NUL.
abbrev pub Holds : (ℕ → ℕ) → ℕ → List ℕ → Type 0
Holds str i [] = i ≡ rs_max - 1
Holds str i (c ∷ cs) = (str i ≡ c) × (c ≢ 0) × Holds str (suc i) cs

Holds-put :
    (str : ℕ → ℕ) (i j c : ℕ) (cs : List ℕ) → j < i → Holds str i cs → Holds (put str j c) i cs
unfolding put
Holds-put str i j c [] l h = h
Holds-put str i j c (d ∷ cs) l (here, ne, rest) =
    (ground arith, ne, Holds-put str (suc i) j c cs (omega arith) rest)

num_to_char-ne_nul : (n : ℕ) → num_to_char n ≢ 0
unfolding num_to_char
num_to_char-ne_nul n = λ e. ground arith

slot_lem : (p : ℕ) → 0 < p → p < rs_max - 1 → slot p ≡ p
unfolding slot
slot_lem p l h = ground arith

double_le : (m b : ℕ) → 2 ≤ b → 2 * m ≤ m * b
double_le m b l = let k = b - 2 in let e : b ≡ 2 + k = omega arith in rw e (omega arith)

-- One digit: it goes to place `p`.
write_char-Holds :
    (s : ReversibleString) (p c : ℕ) (cs : List ℕ)
    → slot s.pos ≡ p
    → s.forwards ≡ false
    → c ≢ 0
    → Holds s.str (suc p) cs
    → ((write_char c true s).forwards ≡ false)
      × ((write_char c true s).pos ≡ p - 1)
      × Holds (write_char c true s).str p (c ∷ cs)
unfolding write_char put
write_char-Holds s p c cs at back ne h =
    let e : write_char c true s ≡ record s { str = put s.str p c; pos = p - 1 } = ground arith in
    subst
      (λ (x : ReversibleString). (x.forwards ≡ false) × (x.pos ≡ p - 1) × Holds x.str p (c ∷ cs))
      (sym e) (back, refl, (ground arith, ne, Holds-put s.str (suc p) p c cs (omega arith) h))

module _ (base : ℕ) (low : 2 ≤ base) where
  pub quotient_small : (n fuel : ℕ) → n < 2 ^ suc fuel → n / base < 2 ^ fuel
  quotient_small n fuel l =
      let wide = double_le (2 ^ fuel) base low in
      (div-lt_iff_lt-mul (omega arith)).1 (let twice = pow-succ' 2 fuel in omega arith)

  -- The loop writes the numeral's characters downwards from place `p`.
  pub write_digits-Holds :
      (fuel n p : ℕ) (s : ReversibleString) (cs : List ℕ)
      → n < 2 ^ suc fuel
      → fuel < p
      → p < rs_max - 1
      → slot s.pos ≡ p
      → s.forwards ≡ false
      → Holds s.str (suc p) cs
      → (s' : ReversibleString) × (write_digits (suc fuel) n base s ≡ some s')
        × (s'.forwards ≡ false)
        × Holds s'.str (suc s'.pos) (numeral (suc fuel) n base cs)
  unfolding write_digits numeral
  write_digits-Holds zero n p s cs l room end at back h =
      let c = num_to_char (n % base) in
      let (back', at', h') = write_char-Holds s p c cs at back (num_to_char-ne_nul (n % base)) h in
      let next : suc (write_char c true s).pos ≡ p = omega arith in
      let quotient = quotient_small n 0 l in
      let done : (n / base == 0) ≡ true = ground arith in
      (write_char c true s, rw (write_digits, done) refl, back', rw (numeral, done, next) h')
  write_digits-Holds (suc fuel) n p s cs l room end at back h =
      let c = num_to_char (n % base) in
      let (back', at', h') = write_char-Holds s p c cs at back (num_to_char-ne_nul (n % base)) h in
      let next : suc (write_char c true s).pos ≡ p = omega arith in
      elim (Bool-cases (n / base == 0)) [
        | inl done ↦
            (write_char c true s, rw (write_digits, done) refl, back', rw (numeral, done, next) h')
        | inr more ↦
            let moved : slot (write_char c true s).pos ≡ p - 1 =
              rw at' (slot_lem (p - 1) (omega arith) (omega arith)) in
            let place : suc (p - 1) ≡ p = omega arith in
            let (s', ran, same, held) =
              write_digits-Holds fuel (n / base) (p - 1) (write_char c true s) (c ∷ cs)
                (quotient_small n (suc fuel) l) (omega arith) (omega arith) moved back'
                (rw place h') in
            (s', rw (write_digits, more) ran, same, rw (numeral, more) held)
      ]

  value-digit :
      (n : ℕ) (cs : List ℕ)
      → base ≤ 16
      → value base (n / base) (num_to_char (n % base) ∷ cs) ≡ value base n cs
  unfolding value
  value-digit n cs high =
      let small = mod-lt n {m = base} (omega arith) in
      let same = digit_value-num_to_char (n % base) (omega arith) in
      rw (value, same, div-add-mod' n base) refl

  -- The digits of a number have its value.
  pub value-numeral :
      (fuel n : ℕ) (cs : List ℕ)
      → base ≤ 16
      → n < 2 ^ suc fuel
      → value base 0 (numeral (suc fuel) n base cs) ≡ value base n cs
  unfolding numeral
  value-numeral zero n cs high l =
      let quotient = quotient_small n 0 l in
      let none_left : n / base ≡ 0 = omega arith in
      let done : (n / base == 0) ≡ true = ground arith in
      rw (numeral, done) (rw none_left at (value-digit n cs high))
  value-numeral (suc fuel) n cs high l = elim (Bool-cases (n / base == 0)) [
    | inl done ↦
        let none_left : n / base ≡ 0 = ground arith in
        rw (numeral, done) (rw none_left at (value-digit n cs high))
    | inr more ↦
        rw (numeral, more)
          (value-numeral fuel (n / base) (num_to_char (n % base) ∷ cs) high
              (quotient_small n (suc fuel) l)
            ∙ value-digit n cs high)
  ]

Holds-le : (i : ℕ) (str : ℕ → ℕ) (cs : List ℕ) → Holds str i cs → i ≤ rs_max - 1
Holds-le i str [] h = omega arith
Holds-le i str (c ∷ cs) (at, ne, h) = let l = Holds-le (suc i) str cs h in omega arith

-- The NUL goes behind the characters.
pub Holds-put-nul :
    (str : ℕ → ℕ) (i : ℕ) (cs : List ℕ) → Holds str i cs → Holds (put str (rs_max - 1) 0) i cs
unfolding put
Holds-put-nul str i [] h = h
Holds-put-nul str i (c ∷ cs) (at, ne, h) =
    let l = Holds-le (suc i) str cs h in (ground arith, ne, Holds-put-nul str (suc i) cs h)

pub put_nul : (str : ℕ → ℕ) → put str (rs_max - 1) 0 (rs_max - 1) ≡ 0
unfolding put
put_nul str = refl

pub read_string-Holds :
    (fuel i : ℕ) (str : ℕ → ℕ) (cs : List ℕ)
    → Holds str i cs
    → str (rs_max - 1) ≡ 0
    → rs_max - 1 < i + fuel
    → read_string fuel str i ≡ some cs
unfolding read_string
read_string-Holds zero i str [] h nul l = absurd (omega arith)
read_string-Holds zero i str (c ∷ cs) (at, ne, h) nul l =
    let end = Holds-le i str (c ∷ cs) (at, ne, h) in absurd (omega arith)
read_string-Holds (suc fuel) i str [] h nul l = let here : str i ≡ 0 = rw h nul in ground arith
read_string-Holds (suc fuel) i str (c ∷ cs) (at, ne, h) nul l =
    ground (arith, read_string-Holds fuel (suc i) str cs h nul (omega arith))
