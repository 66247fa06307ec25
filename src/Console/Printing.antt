-- ===== src/Console/Printing.antt =====
-- _Puts and Printf (kernel/core/video.cpp) print on the roll of paper.
use tysos_cxx.Prelude.{
  ℕ, ◌+◌, ◌≡◌, ◌≢◌, false, List, [], ◌∷◌, some, refl, length, All, arith, ℤ, ◌∙◌,
}
use mathlib.Core.List.{append-nil}
use tysos_cxx.Console.{
  Vga, attribute, default_attribute, putch, put_chars, puts, printf, update_cursor,
}
use tysos_cxx.Console.Paper.{putch-Shows}
use tysos_cxx.Console.Roll.{Paper, print_char, print, Shows, Kept}
use tysos_cxx.Formatter.{vf_printf, format_from, Arg}
use tysos_cxx.Formatter.Escapes.{escape, format_from-escape}

put_chars-next :
    (ch : ℕ) (rest : List ℕ) (attr ret : ℤ) (s s1 s2 : Vga)
    → putch ch false attr s ≡ some (ret, s1)
    → put_chars rest attr s1 ≡ some s2
    → put_chars (ch ∷ rest) attr s ≡ some s2
unfolding put_chars
put_chars-next ch rest attr ret s s1 s2 e1 e2 = rw (put_chars, e1) e2

-- Printing text on a screen that shows a roll of paper succeeds, prints it on the roll, and writes
-- no cell outside of the screen.
pub put_chars-Shows :
    (text : List ℕ) (attr : ℤ) (s : Vga) (p : Paper)
    → Shows s p
    → (s' : Vga) × (put_chars text attr s ≡ some s')
      × Kept s s'
      × Shows s' (print (attribute attr) text p)
unfolding put_chars print
put_chars-Shows [] attr s p sh = (s, refl, λ i l. refl, sh)
put_chars-Shows (ch ∷ rest) attr s p sh =
    let (ret, s1, e1, kept1, sh1) = putch-Shows s p sh ch attr in
    let (s2, e2, kept2, sh2) =
      put_chars-Shows rest attr s1 (print_char (attribute attr) ch p) sh1 in
    (s2, put_chars-next ch rest attr ret s s1 s2 e1 e2, λ i l. kept2 i l ∙ kept1 i l, sh2)

update_cursor-Shows : (s : Vga) (p : Paper) → Shows s p → Shows (update_cursor s) p
unfolding update_cursor
update_cursor-Shows s p sh = record {
  width = sh.width;
  height = sh.height;
  column = sh.column;
  row = sh.row;
  cursor = sh.cursor;
  window = sh.window;
  blank = sh.blank;
}

printf-run :
    (memory : ℕ → ℕ) (format : List ℕ) (args : List Arg) (i : ℕ) (out : List ℕ) (s s' : Vga)
    → vf_printf memory format args ≡ some (i, out)
    → put_chars out default_attribute s ≡ some s'
    → printf memory format args s ≡ some (i, update_cursor s')
unfolding printf puts
printf-run memory format args i out s s' e1 e2 = rw (printf, e1, puts, e2) refl

vf_printf-escape :
    (memory : ℕ → ℕ) (args : List Arg) (text : List ℕ)
    → All (λ c. c ≢ b'%') text
    → vf_printf memory (escape text) args ≡ some (length text, text)
unfolding vf_printf format_from
vf_printf-escape memory args text plain =
    let printed = format_from-escape memory args text [] 0 [] plain in
    let count : 0 + length text ≡ length text = omega arith in
    rw (append-nil (escape text), count) at printed

-- Printf of escaped text without percent signs, whatever its arguments, prints the text on the
-- roll of paper that the screen shows, each character with the attribute byte 7 above it, returns
-- its length, and writes no cell outside of the screen.
pub printf-Shows :
    (memory : ℕ → ℕ) (args : List Arg) (text : List ℕ) (s : Vga) (p : Paper)
    → All (λ c. c ≢ b'%') text
    → Shows s p
    → (s' : Vga) × (printf memory (escape text) args s ≡ some (length text, s'))
      × Kept s s'
      × Shows s' (print 7 text p)
unfolding update_cursor attribute
printf-Shows memory args text s p plain sh =
    let (s1, ran, kept, shows) = put_chars-Shows text default_attribute s p sh in
    (
      update_cursor s1,
      printf-run memory (escape text) args (length text) text s s1
          (vf_printf-escape memory args text plain) ran,
      kept,
      update_cursor-Shows s1 (print 7 text p) shows,
    )
