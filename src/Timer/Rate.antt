-- ===== src/Timer/Rate.antt =====
-- The rate that SetFrequency programs (kernel/i386/pit_8253.cpp).
use native.Mathlib.Nat.{
  mul_comm, le-div_iff_mul-le, div-lt_iff_lt-mul, div-mul-le_self, lt-div-mul-add,
}
use tysos_cxx.Prelude.{
  ℕ, ◌+◌, ◌*◌, ◌/◌, ◌%◌, ◌^◌, ◌≤◌, ◌<◌, ◌≡◌, ◌⊎◌, inl, inr, Bool-cases, leb, ltb, refl, subst,
  false, some, ◌==◌, arith,
}
use tysos_cxx.Interrupts.{Ports}
use tysos_cxx.Timer.{Pit, pit_input_freq, reload, program, set_frequency}

reload-bounds : (freq : ℕ) → (5 ≤ reload freq) × (reload freq ≤ 65535)
unfolding reload
reload-bounds freq = (ground arith, ground arith)

reload-le : (freq : ℕ) → 0 < freq → freq ≤ pit_input_freq / 5 → reload freq * freq ≤ pit_input_freq
unfolding reload
reload-le freq pos l =
    let five : 5 * freq ≤ pit_input_freq = omega arith in
    let low : 5 ≤ pit_input_freq / freq = (le-div_iff_mul-le pos).1 five in
    (le-div_iff_mul-le pos).0 (ground arith)

reload-rate :
    (freq : ℕ) → 0 < freq → (freq ≤ pit_input_freq / reload freq) ⊎ (pit_input_freq / 5 < freq)
reload-rate freq pos = elim (Bool-cases (leb freq (pit_input_freq / 5))) [
  | inl low ↦
      let l : freq ≤ pit_input_freq / 5 = ground arith in
      let r_pos = (reload-bounds freq).0 in
      let m = reload-le freq pos l in
      inl (
        (le-div_iff_mul-le (omega arith)).1
          (subst (λ n. n ≤ pit_input_freq) (mul_comm (reload freq) freq) m))
  | inr above ↦ inr (ground arith)
]

-- No larger reload value would do, but for the largest that two bytes hold.
reload-greatest :
    (freq : ℕ) → 0 < freq → (pit_input_freq < freq * (reload freq + 1)) ⊎ (reload freq ≡ 65535)
unfolding reload
reload-greatest freq pos = elim (Bool-cases (ltb 65535 (pit_input_freq / freq))) [
  | inl big ↦ inr (ground arith)
  | inr fits ↦
      let near : pit_input_freq / freq < reload freq + 1 = ground arith in
      inl (
        subst (λ n. pit_input_freq < n) (mul_comm (reload freq + 1) freq)
          ((div-lt_iff_lt-mul pos).0 near))
]

-- What the timer is after SetFrequency: the device gets its mode and the two bytes of a reload
-- value that fits, low byte first; the interval is the nanoseconds of one period, rounded down.
pub record Programmed {S : Type 0} (ports : Ports S) (r : ℕ) (p p' : Pit) (s s' : S) : Type 0 where
  pub low : ℕ
  pub high : ℕ
  pub bytes : (low < 2 ^ 8) × (high < 2 ^ 8)
  pub whole : low + 2 ^ 8 * high ≡ r
  pub fits : (5 ≤ r) × (r ≤ 65535)
  pub written : s' ≡ ports.out 0x40 high (ports.out 0x40 low (ports.out 0x43 0x34 s))
  pub freq : p'.freq ≡ 0x1234DD / r
  pub pos : 0 < p'.freq
  pub interval : p'.reload_ns * p'.freq ≤ 1000000000
  pub interval_up : 1000000000 < p'.reload_ns * p'.freq + p'.freq
  pub same : (p'.irq ≡ p.irq) × (p'.running_time ≡ p.running_time)

rate_pos : (r : ℕ) → 5 ≤ r → r ≤ 65535 → 0 < pit_input_freq / r
rate_pos r l h = (le-div_iff_mul-le (omega arith)).1 (omega arith)

set_frequency-run :
    {S : Type 0} (ports : Ports S) (freq : ℕ) (p : Pit) (s : S)
    → (freq == 0) ≡ false
    → ((pit_input_freq / reload freq) == 0) ≡ false
    → set_frequency ports freq (p, s)
      ≡ some (
        record p {
          freq = pit_input_freq / reload freq;
          reload_ns = 1000000000 / (pit_input_freq / reload freq);
        },
        program ports (reload freq) s,
      )
unfolding set_frequency
set_frequency-run ports freq p s ne pos = rw (ne, pos) refl

-- SetFrequency does not fault for a frequency that is not 0, and leaves the timer as Programmed
-- says. Unless the frequency that is asked for is above a fifth of the input frequency, the timer's
-- frequency is at least that; and no larger reload value has a product with it that is at most the
-- input frequency, unless the reload value is 65535.
pub set_frequency-Programmed :
    {S : Type 0} (ports : Ports S) (freq : ℕ) (p : Pit) (s : S)
    → 0 < freq
    → (p' : Pit) × (s' : S) × (set_frequency ports freq (p, s) ≡ some (p', s'))
      × (r : ℕ) × Programmed ports r p p' s s'
      × ((freq ≤ p'.freq) ⊎ (pit_input_freq / 5 < freq))
      × ((pit_input_freq < freq * (r + 1)) ⊎ (r ≡ 65535))
unfolding program
set_frequency-Programmed ports freq p s pos =
    let (low, high) = reload-bounds freq in
    let r = reload freq in
    let f = pit_input_freq / r in
    let f_pos = rate_pos r low high in
    (
      _,
      _,
      set_frequency-run ports freq p s (ground arith) (ground arith),
      r,
      record {
        low = r % 2 ^ 8;
        high = (r / 2 ^ 8) % 2 ^ 8;
        bytes = (omega arith, omega arith);
        whole = omega arith;
        fits = (low, high);
        written = refl;
        freq = refl;
        pos = f_pos;
        interval = div-mul-le_self 1000000000 f;
        interval_up = lt-div-mul-add f_pos;
        same = (refl, refl);
      },
      reload-rate freq pos,
      reload-greatest freq pos,
    )
