-- ===== src/Console/Paper.antt =====
-- Putch of class Video (kernel/core/video.cpp, kernel/i386/vga.cpp) on a screen that shows a roll of
-- paper.
use tysos_cxx.Prelude.{
  ℕ, ◌+◌, ◌*◌, ◌/◌, ◌%◌, if◌then◌else◌, ◌<◌, ◌≤◌, ◌≡◌, true, false, Option, none, some, refl, leb,
  ◌==◌, arith, ℤ, pos, Bool-cases, inl, inr, ◌∙◌, ap,
}
use tysos_cxx.Prelude.Flags.{or_byte}
use tysos_cxx.Console.{
  Vga, attribute, vga_width, vga_height, cell, poke, putch_at, new_line, advance_cursor, putch,
  signed_char, draw,
}
use tysos_cxx.Console.Roll.{Paper, follow, print_char, Shows, Kept, new_line-Shows}

cell_lem : (ch : ℕ) (attr : ℤ) → cell ch attr ≡ ch % 256 + 256 * attribute attr
unfolding cell
cell_lem ch attr = let e = or_byte (ch % 256) (attribute attr) (omega arith) in omega arith

advance_cursor-full :
    (s s' : Vga)
    → leb s.w (s.x + 1) ≡ true
    → new_line (record s { x = s.x + 1 }) ≡ some s'
    → advance_cursor s ≡ some s'
unfolding advance_cursor
advance_cursor-full s s' full ran = rw (advance_cursor, full) ran

advance_cursor-room :
    (s : Vga) → leb s.w (s.x + 1) ≡ false → advance_cursor s ≡ some (record s { x = s.x + 1 })
unfolding advance_cursor
advance_cursor-room s room = rw (advance_cursor, room) refl

putch-line :
    (attr : ℤ) (s s' : Vga) → new_line s ≡ some s' → putch b'\n' false attr s ≡ some (pos b'\n', s')
unfolding putch draw
putch-line attr s s' ran = ground (arith, ran)

putch-drawn :
    (ch : ℕ) (attr ret : ℤ) (s s' : Vga)
    → draw ch attr s ≡ (ret, some s')
    → putch ch false attr s ≡ some (ret, s')
unfolding putch
putch-drawn ch attr ret s s' e =
    ap
      (λ (d : ℤ × Option Vga). elim d.1 as (λ _. Option (ℤ × Vga)) [
        | none ↦ none
        | some t ↦ some (d.0, t)
      ])
      e

putch-char :
    (ch : ℕ) (attr : ℤ) (s s' : Vga)
    → (ch == b'\n') ≡ false
    → s.x < vga_width
    → s.y < vga_height
    → advance_cursor (record s { fb = poke s.fb (s.x + s.y * vga_width) (cell ch attr) }) ≡ some s'
    → putch ch false attr s ≡ some (signed_char ch, s')
unfolding draw putch_at
putch-char ch attr s s' char column row ran =
    let inside_x : leb vga_width s.x ≡ false = ground arith in
    let inside_y : leb vga_height s.y ≡ false = ground arith in
    let there : Vga = record s { fb = poke s.fb (s.x + s.y * vga_width) (cell ch attr) } in
    let placed : putch_at ch (pos s.x) (pos s.y) attr s ≡ (signed_char ch, there) =
      ground (arith, inside_x, inside_y) in
    let shown : draw ch attr s ≡ (signed_char ch, advance_cursor there) =
      rw (draw, char, placed) refl in
    let ended : draw ch attr s ≡ (signed_char ch, some s') =
      shown ∙ ap (λ d. (signed_char ch, d)) ran in
    putch-drawn ch attr (signed_char ch) s s' ended

putch-byte :
    (ch : ℕ) (attr : ℤ) (c : ℕ) (s s' : Vga)
    → cell ch attr ≡ c
    → (ch == b'\n') ≡ false
    → s.x < vga_width
    → s.y < vga_height
    → advance_cursor (record s { fb = poke s.fb (s.x + s.y * vga_width) c }) ≡ some s'
    → putch ch false attr s ≡ some (signed_char ch, s')
putch-byte ch attr c s s' held char column row ran =
    putch-char ch attr s s' char column row
      (ap (λ v. advance_cursor (record s { fb = poke s.fb (s.x + s.y * vga_width) v })) held ∙ ran)

-- The row of the next character, where a line is full or ends.
module _ (s : Vga) (p : Paper) (sh : Shows s p) where
  putch-new_line :
      (attr : ℤ)
      → (s' : Vga) × (new_line s ≡ some s')
        × Kept s s'
        × Shows s' (print_char (attribute attr) b'\n' p)
  unfolding print_char
  putch-new_line attr =
      let cursor = sh.cursor in
      let column = sh.column in
      new_line-Shows s (record p { next = (p.next / vga_width + 1) * vga_width })
        (record {
          width = sh.width;
          height = sh.height;
          row = sh.row;
          next = omega arith;
          window = sh.window;
          blank = sh.blank;
        })

  -- The character is on the screen, the cursor still on it.
  module _ (c : ℕ) where
    drawn : Vga
    drawn = record s { fb = poke s.fb (s.x + s.y * vga_width) c }

    written : Paper
    written = record p { cells = λ i. if i == p.next then c else p.cells i; next = p.next + 1 }

    drawn-Kept : Kept s drawn
    unfolding drawn poke
    drawn-Kept i l = let column = sh.column in let row = sh.row in ground arith

    drawn-window :
        (i : ℕ) → i < vga_height * vga_width → drawn.fb i ≡ written.cells (p.top * vga_width + i)
    unfolding drawn written poke
    drawn-window i l = let cursor = sh.cursor in let shown = sh.window i l in ground arith

    written-blank : (i : ℕ) → (p.top + vga_height) * vga_width ≤ i → written.cells i ≡ 0
    unfolding written poke
    written-blank i l =
        let cursor = sh.cursor in
        let column = sh.column in let row = sh.row in let empty = sh.blank i l in ground arith

    drawn-Shows :
        (s' : Vga) × (advance_cursor drawn ≡ some s') × Kept s s' × Shows s' (follow written)
    unfolding advance_cursor drawn written follow
    drawn-Shows =
        let cursor = sh.cursor in
        let column = sh.column in
        let row = sh.row in
        let width = sh.width in
        let next : Vga = record drawn { x = s.x + 1 } in
        elim (Bool-cases (leb vga_width (s.x + 1))) [
          | inl full ↦
              let last : s.x ≡ 79 = ground arith in
              let (s', ran, kept, shows) = new_line-Shows next written (record {
                width = sh.width;
                height = sh.height;
                row = sh.row;
                next = omega arith;
                window = drawn-window;
                blank = written-blank;
              }) in
              (
                s',
                advance_cursor-full drawn s' (ground arith) ran,
                λ i l. kept i l ∙ drawn-Kept i l,
                shows,
              )
          | inr room ↦
              let same : follow written ≡ written = ground arith in
              (
                next,
                advance_cursor-room drawn (ground arith),
                drawn-Kept,
                rw same (record {
                  width = sh.width;
                  height = sh.height;
                  column = ground arith;
                  row = sh.row;
                  cursor = omega arith;
                  window = drawn-window;
                  blank = written-blank;
                }),
              )
        ]

  -- Putch at the cursor of a screen that shows a roll of paper succeeds, prints the character on
  -- the roll, and writes no cell outside of the screen.
  pub putch-Shows :
      (ch : ℕ) (attr : ℤ)
      → (ret : ℤ) × (s' : Vga) × (putch ch false attr s ≡ some (ret, s'))
        × Kept s s'
        × Shows s' (print_char (attribute attr) ch p)
  unfolding print_char drawn written
  putch-Shows ch attr = elim (Bool-cases (ch == b'\n')) [
    | inl line_end ↦
        let (s', ran, kept, shows) = putch-new_line attr in
        let same : ch ≡ b'\n' = ground arith in
        (pos b'\n', s', rw same (putch-line attr s s' ran), kept, rw same shows)
    | inr char ↦
        let (s', ran, kept, shows) = drawn-Shows (ch % 256 + 256 * attribute attr) in
        (
          signed_char ch,
          s',
          putch-byte ch attr (ch % 256 + 256 * attribute attr) s s' (cell_lem ch attr) char
              sh.column sh.row ran,
          kept,
          rw (print_char, char) shows,
        )
  ]
