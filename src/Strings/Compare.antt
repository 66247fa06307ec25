-- ===== src/Strings/Compare.antt =====
-- strcmp (kernel/core/stdclib.cpp) tells equal strings from different ones.
use tysos_cxx.Prelude.{
  ℕ, zero, suc, ◌+◌, ◌^◌, ◌<◌, ◌≡◌, ◌↔◌, inl, inr, true, false, List, [], ◌∷◌, some, refl, ◌==◌,
  length, All, arith, add32, ℤ, pos, Bool-cases,
}
use tysos_cxx.Strings.{char_diff, strcmp}
use tysos_cxx.Strings.Copies.{CString}

char_diff_iff : (a b : ℕ) → a < 256 → b < 256 → (char_diff a b ≡ pos 0) ↔ (a ≡ b)
unfolding char_diff
char_diff_iff a b la lb = (λ h. ground arith, λ e. ground arith)

abbrev pub IsText : List ℕ → Type 0
IsText = All (λ c. c < 256)

strcmp-next :
    (fuel : ℕ) (mem : ℕ → ℕ) (p q p' q' : ℕ) (r : ℤ)
    → (mem p == 0) ≡ false
    → (mem p == mem q) ≡ true
    → add32 p 1 ≡ p'
    → add32 q 1 ≡ q'
    → strcmp fuel mem p' q' ≡ some r
    → strcmp (suc fuel) mem p q ≡ some r
unfolding strcmp
strcmp-next fuel mem p q p' q' r go_on equal next_p next_q ran =
    rw (strcmp, go_on, equal, next_p, next_q) ran

-- strcmp of two strings ends, and its result is 0 exactly when the strings are equal. The strings
-- end within 32 bits.
pub strcmp_iff :
    (fuel : ℕ) (mem : ℕ → ℕ) (p q : ℕ) (s t : List ℕ)
    → CString mem p s
    → CString mem q t
    → IsText s
    → IsText t
    → p + length s < 2 ^ 32
    → q + length t < 2 ^ 32
    → length s < fuel
    → (r : ℤ) × (strcmp fuel mem p q ≡ some r) × ((r ≡ pos 0) ↔ (s ≡ t))
unfolding strcmp
strcmp_iff zero mem p q s t hs ht bs bt ls lt l = absurd (omega arith)
strcmp_iff (suc fuel) mem p q [] [] hs ht bs bt ls lt l =
    let same = char_diff_iff (mem p) (mem q) (omega arith) (omega arith) in
    (char_diff (mem p) (mem q), ground arith, (λ _. refl, λ _. same.1 (omega arith)))
strcmp_iff (suc fuel) mem p q [] (d ∷ t) hs ht bs bt ls lt l =
    let same = char_diff_iff (mem p) (mem q) (omega arith) (rw ht.0 bt.0) in
    let first = ht.0 in
    let ne = ht.1 in
    (
      char_diff (mem p) (mem q),
      ground arith,
      (λ h. absurd (ne (ground (arith, same.0 h))), λ e. absurd (cc e)),
    )
strcmp_iff (suc fuel) mem p q (c ∷ s) [] hs ht bs bt ls lt l =
    let same = char_diff_iff (mem p) (mem q) (rw hs.0 bs.0) (omega arith) in
    let first = hs.0 in
    let ne = hs.1 in
    (
      char_diff (mem p) (mem q),
      ground arith,
      (λ h. absurd (ne (ground (arith, same.0 h))), λ e. absurd (cc e)),
    )
strcmp_iff (suc fuel) mem p q (c ∷ s) (d ∷ t) (c_at, c_ne, hs) (d_at, d_ne, ht) bs bt ls lt l =
    let same = char_diff_iff (mem p) (mem q) (rw c_at bs.0) (rw d_at bt.0) in
    let go_on : (mem p == 0) ≡ false = ground arith in
    elim (Bool-cases (mem p == mem q)) [
      | inl equal ↦
          let next_p : add32 p 1 ≡ suc p = omega arith in
          let next_q : add32 q 1 ≡ suc q = omega arith in
          let (r, ran, iff) =
            strcmp_iff fuel mem (suc p) (suc q) s t hs ht bs.1 bt.1 (omega arith) (omega arith)
              (omega arith) in
          let heads : c ≡ d = ground arith in
          (
            r,
            strcmp-next fuel mem p q (suc p) (suc q) r go_on equal next_p next_q ran,
            (λ h. ground (arith, iff.0 h), λ e. iff.1 (cc e)),
          )
      | inr different ↦ (
        char_diff (mem p) (mem q),
        rw (strcmp, go_on, different) refl,
        (λ h. absurd (ground (arith, same.0 h)), λ e. absurd (ground arith)),
      )
    ]
