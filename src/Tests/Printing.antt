-- ===== src/Tests/Printing.antt =====
-- kernel/core/formatter.cpp, kernel/core/video.cpp and kernel/i386/vga.cpp on short texts.
use tysos_cxx.Prelude.{ℕ, ◌≡◌, ◌≢◌, false, List, [], ◌∷◌, ◌++◌, some, refl, arith, length, ℤ, All}
use tysos_cxx.Formatter.{num, num_to_str, format_from}
use tysos_cxx.Formatter.Digits.{value}
use tysos_cxx.Formatter.Numerals.{num_to_str_lem}
use tysos_cxx.Formatter.Escapes.{escape, format_from-escape, format_from-num}
use tysos_cxx.Console.{Vga, attribute, default_attribute, putch, printf}
use tysos_cxx.Console.Paper.{putch-Shows}
use tysos_cxx.Console.Roll.{Paper, Shows, Kept, print_char, print}
use tysos_cxx.Console.Printing.{printf-Shows}

abbrev blank_memory : ℕ → ℕ
blank_memory i = 0xcc

num_to_str_lem_example :
    (c : ℕ) × (rest : List ℕ) × (num_to_str blank_memory 0xb8000 16 ≡ some (c ∷ rest))
    × (value 16 0 (c ∷ rest) ≡ 0xb8000)
    × (◌≢◌ {A = ℕ} 0xb8000 0 → c ≢ b'0')
num_to_str_lem_example =
    num_to_str_lem blank_memory 0xb8000 16 (omega arith) (omega arith) (omega arith)

abbrev quoted : List ℕ
quoted = b'a' ∷ b'\\' ∷ b'\n' ∷ []

quoted-plain : All (λ c. c ≢ b'%') quoted
quoted-plain = (omega arith, (omega arith, (omega arith, tt)))

format_from-escape_example :
    format_from blank_memory (escape quoted ++ b'%' ∷ b'u' ∷ []) (num 7 ∷ []) 0 []
    ≡ format_from blank_memory (b'%' ∷ b'u' ∷ []) (num 7 ∷ []) 3 quoted
format_from-escape_example =
    format_from-escape blank_memory (num 7 ∷ []) quoted (b'%' ∷ b'u' ∷ []) 0 [] quoted-plain

test-format_from-num :
    ((cs : List ℕ) × (value 16 0 cs ≡ 4096)
      × (format_from blank_memory (b'%' ∷ b'x' ∷ []) (num 4096 ∷ []) 2 quoted
          ≡ format_from blank_memory [] [] 12 (quoted ++ b'0' ∷ b'x' ∷ cs)))
    × ((cs : List ℕ) × (value 10 0 cs ≡ 4096)
        × (format_from blank_memory (b'%' ∷ b'u' ∷ []) (num 4096 ∷ []) 2 quoted
            ≡ format_from blank_memory [] [] 14 (quoted ++ cs)))
test-format_from-num = format_from-num blank_memory 4096 2 [] quoted [] (omega arith)

-- A cleared screen with the cursor in its last cell, and the blank roll that it shows.
abbrev screen : Vga
screen = record { x = 79; y = 24; w = 80; h = 25; fb = λ i. 0; base_port = 0x3d4; ports = [] }

abbrev roll : Paper
roll = record { cells = λ i. 0; next = 1999; top = 0 }

screen-Shows : Shows screen roll
screen-Shows = record {
  width = refl;
  height = refl;
  column = omega arith;
  row = omega arith;
  cursor = refl;
  window = λ i l. refl;
  blank = λ i l. refl;
}

test-putch-Shows :
    (ret : ℤ) × (s : Vga) × (putch b'x' false default_attribute screen ≡ some (ret, s))
    × Kept screen s
    × Shows s (print_char 7 b'x' roll)
unfolding attribute
test-putch-Shows = putch-Shows screen roll screen-Shows b'x' default_attribute

printf-Shows_example :
    (s : Vga) × (printf blank_memory (escape quoted) [] screen ≡ some (length quoted, s))
    × Kept screen s
    × Shows s (print 7 quoted roll)
printf-Shows_example = printf-Shows blank_memory [] quoted screen roll quoted-plain screen-Shows
