-- ===== src/Formatter/Escapes.antt =====
-- vfPrintf (kernel/core/formatter.cpp): how text is written as a format, and what the conversions
-- of numbers print.
use mathlib.Core.List.{append_assoc, append-nil}
use tysos_cxx.Prelude.{
  ℕ, suc, ◌+◌, ◌^◌, ◌<◌, ◌≡◌, ◌≢◌, List, [], ◌∷◌, ◌++◌, refl, ◌==◌, if◌then◌else◌, length, All,
  arith, ◌∙◌,
}
use tysos_cxx.Formatter.{Arg, num, unescape, convert, format_from}
use tysos_cxx.Formatter.Digits.{value}
use tysos_cxx.Formatter.Numerals.{num_to_str_lem}

-- A character as a format has it: the backslash and the characters with a letter of their own are
-- escaped.
unfoldable pub escape_char : ℕ → List ℕ
escape_char c =
    if c == b'\\'
    then b'\\' ∷ b'\\' ∷ []
    else if c == b'\n'
    then b'\\' ∷ b'n' ∷ []
    else if c == b'\t'
    then b'\\' ∷ b't' ∷ []
    else c ∷ []

unfoldable pub escape : List ℕ → List ℕ
escape [] = []
escape (c ∷ s) = escape_char c ++ escape s

module _ (memory : ℕ → ℕ) (args : List Arg) where
  escape_char-step :
      (c i : ℕ) (rest out : List ℕ)
      → c ≢ b'%'
      → format_from memory (escape_char c ++ rest) args i out
        ≡ format_from memory rest args (i + 1) (out ++ c ∷ [])
  unfolding format_from escape_char unescape
  escape_char-step c i [] out ne = ground arith
  escape_char-step c i (e ∷ rest) out ne = ground arith

  -- Escaped text without percent signs in front of a format is printed as it is, and counts by its
  -- length; the format behind it goes on as before.
  pub format_from-escape :
      (s rest : List ℕ) (i : ℕ) (out : List ℕ)
      → All (λ c. c ≢ b'%') s
      → format_from memory (escape s ++ rest) args i out
        ≡ format_from memory rest args (i + length s) (out ++ s)
  unfolding escape
  format_from-escape [] rest i out plain =
      let none_more : i + 0 ≡ i = omega arith in rw (none_more, append-nil out) refl
  format_from-escape (c ∷ s) rest i out plain =
      let more : i + 1 + length s ≡ i + suc (length s) = omega arith in
      rw (append_assoc (escape_char c) (escape s) rest) (
        escape_char-step c i (escape s ++ rest) out plain.0
        ∙ rw (← more, ← append_assoc out (c ∷ []) s)
            (format_from-escape s rest (i + 1) (out ++ c ∷ []) plain.1))

-- A conversion by %x prints `0x` and a hexadecimal numeral of the next argument and counts 10; one
-- by %u prints a decimal numeral and counts 12. The arguments are 32-bit numbers.
pub format_from-num :
    (memory : ℕ → ℕ) (n i : ℕ) (rest out : List ℕ) (args : List Arg)
    → n < 2 ^ 32
    → ((cs : List ℕ) × (value 16 0 cs ≡ n)
        × (format_from memory (b'%' ∷ b'x' ∷ rest) (num n ∷ args) i out
            ≡ format_from memory rest args (i + 10) (out ++ b'0' ∷ b'x' ∷ cs)))
      × ((cs : List ℕ) × (value 10 0 cs ≡ n)
          × (format_from memory (b'%' ∷ b'u' ∷ rest) (num n ∷ args) i out
              ≡ format_from memory rest args (i + 12) (out ++ cs)))
unfolding format_from convert
format_from-num memory n i rest out args l =
    let (c, cs, hex, is_hex, _) = num_to_str_lem memory n 16 l (omega arith) (omega arith) in
    let (d, ds, dec, is_dec, _) = num_to_str_lem memory n 10 l (omega arith) (omega arith) in
    (
      (c ∷ cs, is_hex, rw (format_from, convert, hex) refl),
      (d ∷ ds, is_dec, rw (format_from, convert, dec) refl),
    )
