-- ===== src/Formatter.antt =====
-- class Formatter (kernel/core/formatter.cpp) and class ReversibleString (include/sys/formatter.h).
-- Characters are bytes; a stream is the list of what was written to it.
pub mod Digits
pub mod Numerals
pub mod Escapes
use tysos_cxx.Prelude.{
  ℕ, zero, suc, ◌+◌, ◌-◌, ◌/◌, ◌%◌, ◌≤◌, Bool, true, false, List, [], ◌∷◌, ◌++◌, Option, none, some,
  leb, ◌==◌, if◌then◌else◌, add32,
}

-- RS_MAX
abbrev pub rs_max : ℕ
rs_max = 65

-- The string's array, its next position and its direction. The constructor also writes the byte
-- behind the array, str[max].
pub record ReversibleString : Type 0 where
  pub str : ℕ → ℕ
  pub pos : ℕ
  pub forwards : Bool

unfoldable pub put : (ℕ → ℕ) → ℕ → ℕ → ℕ → ℕ
put str i ch j = if j == i then ch else str j

-- `ReversibleString()`; `memory` is what the array holds before.
unfoldable pub reversible_string : (ℕ → ℕ) → ReversibleString
reversible_string memory = record { str = put memory rs_max 0; pos = 0; forwards = true }

-- Where the next character of a reversed string goes.
unfoldable pub slot : ℕ → ℕ
slot pos =
    let p = if leb (rs_max - 1) pos then rs_max - 2 else pos in if p == 0 then rs_max - 2 else p

-- ReversibleString::Write(char, batch)
unfoldable pub write_char : ℕ → (batch : Bool) → ReversibleString → ReversibleString
write_char ch batch s =
    if s.forwards
    then (if leb (rs_max - 1) s.pos
        then s
        else (let str = put s.str s.pos ch in
            record s { str = if batch then str else put str (s.pos + 1) 0; pos = s.pos + 1 }))
    else record s { str = put s.str (slot s.pos) ch; pos = slot s.pos - 1 }

-- ReversibleString::EndBatch
unfoldable pub end_batch : ReversibleString → ReversibleString
end_batch s = if s.forwards then record s { str = put s.str s.pos 0 } else s

-- ReversibleString::GetString: the array, and the index that the result points to.
unfoldable pub get_string : ReversibleString → (ℕ → ℕ) × ℕ
get_string s = if s.forwards then ((end_batch s).str, 0) else (put s.str (rs_max - 1) 0, s.pos + 1)

-- The characters of a string up to its NUL; `none` where the fuel does not reach it.
unfoldable pub read_string : ℕ → (ℕ → ℕ) → ℕ → Option (List ℕ)
read_string zero str i = none
read_string (suc fuel) str i =
    if str i == 0
    then some []
    else elim (read_string fuel str (suc i)) [ none ↦ none | some cs ↦ some (str i ∷ cs) ]

-- `digits[n]`, or 'X': the character that NumToChar writes.
unfoldable pub num_to_char : ℕ → ℕ
num_to_char n = if leb 16 n then b'X' else if leb 10 n then b'a' + (n - 10) else b'0' + n

-- The loop of NumToStr; `none` where the fuel does not suffice.
unfoldable pub write_digits : ℕ → ℕ → ℕ → ReversibleString → Option ReversibleString
write_digits zero n base s = none
write_digits (suc fuel) n base s =
    let s' = write_char (num_to_char (n % base)) true s in
    elim (n / base == 0) [ true ↦ some s' | false ↦ write_digits fuel (n / base) base s' ]

-- Formatter::NumToStr: what it writes to the stream. A 32-bit number has at most 32 digits.
unfoldable pub num_to_str : (ℕ → ℕ) → ℕ → ℕ → Option (List ℕ)
num_to_str memory n base =
    elim (write_digits 32 n base (record (reversible_string memory) { forwards = false })) [
      | none ↦ none
      | some s ↦ let (str, i) = get_string (end_batch s) in read_string rs_max str i
    ]

-- The arguments that follow the format.
pub data Arg : Type 0 where
  num : ℕ → Arg
  str : List ℕ → Arg
  chr : ℕ → Arg

-- What a conversion writes, how far it counts, and the arguments behind its own. `none` is a va_arg
-- that does not fit the arguments. Any other letter writes nothing.
unfoldable pub convert : (ℕ → ℕ) → ℕ → List Arg → Option (List ℕ × ℕ × List Arg)
convert memory c (num n ∷ args) =
    if c == b'x'
    then elim (num_to_str memory n 16) [ none ↦ none | some cs ↦ some (b'0' ∷ b'x' ∷ cs, 10, args) ]
    else if c == b'u'
    then elim (num_to_str memory n 10) [ none ↦ none | some cs ↦ some (cs, 12, args) ]
    else if c == b's'
    then none
    else if c == b'c'
    then none
    else some ([], 0, num n ∷ args)
convert memory c (str s ∷ args) =
    if c == b's'
    then some (s, 0, args)
    else if c == b'x'
    then none
    else if c == b'u'
    then none
    else if c == b'c'
    then none
    else some ([], 0, str s ∷ args)
convert memory c (chr ch ∷ args) =
    if c == b'c'
    then some (ch ∷ [], 1, args)
    else if c == b'x'
    then none
    else if c == b'u'
    then none
    else if c == b's'
    then none
    else some ([], 0, chr ch ∷ args)
convert memory c [] =
    if c == b'x'
    then none
    else if c == b'u'
    then none
    else if c == b's'
    then none
    else if c == b'c'
    then none
    else some ([], 0, [])

-- The character that stands behind a backslash, if it is one of those that the code knows.
unfoldable pub unescape : ℕ → Option ℕ
unescape c =
    if c == b'\\'
    then some b'\\'
    else if c == b'n'
    then some b'\n'
    else if c == b'\''
    then some b'\''
    else if c == b'"'
    then some b'"'
    else if c == b't'
    then some b'\t'
    else none

-- The loop of vfPrintf: the count that it returns, and what it has written. `none` is a va_arg that
-- does not fit, or a format that ends with a backslash or a percent sign: the code steps over the
-- terminating NUL and reads on.
unfoldable pub format_from : (ℕ → ℕ) → List ℕ → List Arg → ℕ → List ℕ → Option (ℕ × List ℕ)
format_from memory [] args i out = some (i, out)
format_from memory (c ∷ []) args i out =
    if c == b'\\' then none else if c == b'%' then none else some (i + 1, out ++ c ∷ [])
format_from memory (c ∷ e ∷ rest) args i out = elim (c == b'\\') [
  | true ↦ elim (unescape e) [
    | some ch ↦ format_from memory rest args (i + 1) (out ++ ch ∷ [])
    | none ↦ format_from memory rest args i out
  ]
  | false ↦ elim (c == b'%') [
    | true ↦ elim (convert memory e args) [
      | none ↦ none
      | some (cs, n, args') ↦ format_from memory rest args' (i + n) (out ++ cs)
    ]
    | false ↦ format_from memory (e ∷ rest) args (i + 1) (out ++ c ∷ [])
  ]
]

-- Formatter::vfPrintf
unfoldable pub vf_printf : (ℕ → ℕ) → List ℕ → List Arg → Option (ℕ × List ℕ)
vf_printf memory format args = format_from memory format args 0 []
