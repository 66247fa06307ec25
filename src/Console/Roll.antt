-- ===== src/Console/Roll.antt =====
-- The roll of paper that a screen of kernel/i386/vga.cpp shows, and its scrolling.
use tysos_cxx.Prelude.{
  ℕ, ◌+◌, ◌-◌, ◌*◌, ◌/◌, ◌%◌, ◌<◌, ◌≤◌, ◌≡◌, List, [], ◌∷◌, some, refl, ltb, leb, ◌==◌,
  if◌then◌else◌, arith, Bool-cases, inl, inr,
}
use tysos_cxx.Console.{
  Vga, vga_width, vga_height, scroll_up, scroll, line_feed, carriage_return, new_line,
}

-- The cells of the roll, row by row; where the next character goes; and the row that is the first
-- one in the window.
pub record Paper : Type 0 where
  pub cells : ℕ → ℕ
  pub next : ℕ
  pub top : ℕ

-- The window moves down as far as the row of the next character.
unfoldable pub follow : Paper → Paper
follow p =
    let row = p.next / vga_width in
    if leb (p.top + vga_height) row then record p { top = row - (vga_height - 1) } else p

-- A character in a colour, a byte, which lies above the byte of the character.
unfoldable pub print_char : (colour ch : ℕ) → Paper → Paper
print_char colour ch p =
    if ch == b'\n'
    then follow (record p { next = (p.next / vga_width + 1) * vga_width })
    else follow (record p {
      cells = λ i. if i == p.next then ch % 256 + 256 * colour else p.cells i;
      next = p.next + 1;
    })

unfoldable pub print : (colour : ℕ) → List ℕ → Paper → Paper
print colour [] p = p
print colour (ch ∷ rest) p = print colour rest (print_char colour ch p)

-- The screen shows the window: the framebuffer holds its cells, the cursor is at the next
-- character, and the paper below the window is blank.
pub record Shows (s : Vga) (p : Paper) : Type 0 where
  pub width : s.w ≡ vga_width
  pub height : s.h ≡ vga_height
  pub column : s.x < vga_width
  pub row : s.y < vga_height
  pub cursor : p.next ≡ (p.top + s.y) * vga_width + s.x
  pub window : (i : ℕ) → i < vga_height * vga_width → s.fb i ≡ p.cells (p.top * vga_width + i)
  pub blank : (i : ℕ) → (p.top + vga_height) * vga_width ≤ i → p.cells i ≡ 0

-- No cell outside of the screen is written.
abbrev pub Kept : Vga → Vga → Type 0
Kept s s' = (i : ℕ) → vga_height * vga_width ≤ i → s'.fb i ≡ s.fb i

-- The screen with the cursor's row, before the next character's row has been shown.
pub record Ready (s : Vga) (p : Paper) : Type 0 where
  pub width : s.w ≡ vga_width
  pub height : s.h ≡ vga_height
  pub row : s.y < vga_height
  pub next : p.next ≡ (p.top + s.y + 1) * vga_width
  pub window : (i : ℕ) → i < vga_height * vga_width → s.fb i ≡ p.cells (p.top * vga_width + i)
  pub blank : (i : ℕ) → (p.top + vga_height) * vga_width ≤ i → p.cells i ≡ 0

module _ (s : Vga) (p : Paper) (ready : Ready s p) where
  new_line-scrolls :
      s.y ≡ 24
      → (s' : Vga) × (new_line s ≡ some s') × Kept s s' × Shows s' (record p { top = p.top + 1 })
  unfolding new_line line_feed carriage_return scroll scroll_up
  new_line-scrolls last =
      let width = ready.width in
      let height = ready.height in
      let next = ready.next in
      (
        record s { x = 0; y = 24; fb = scroll_up 1 s.fb },
        ground arith,
        λ i l. ground arith,
        record {
          width = width;
          height = height;
          column = omega arith;
          row = omega arith;
          cursor = omega arith;
          window = λ i l. elim (Bool-cases (ltb i 1920)) [
            | inl inside ↦
                let shown = ready.window (i + 80) (ground arith) in
                let place : p.top * vga_width + (i + 80) ≡ (p.top + 1) * vga_width + i =
                  omega arith in
                ground arith
            | inr below ↦
                let empty = ready.blank ((p.top + 1) * vga_width + i) (ground arith) in ground arith
          ];
          blank = λ i l. ready.blank i (omega arith);
        },
      )

  new_line-stays : s.y < 24 → (s' : Vga) × (new_line s ≡ some s') × Kept s s' × Shows s' p
  unfolding new_line line_feed carriage_return
  new_line-stays above =
      let width = ready.width in
      let height = ready.height in
      let next = ready.next in
      (
        record s { x = 0; y = s.y + 1 },
        ground arith,
        λ i l. refl,
        record {
          width = width;
          height = height;
          column = omega arith;
          row = omega arith;
          cursor = omega arith;
          window = ready.window;
          blank = ready.blank;
        },
      )

  -- A new line moves the window on where the next character's row is below it.
  pub new_line-Shows : (s' : Vga) × (new_line s ≡ some s') × Kept s s' × Shows s' (follow p)
  unfolding follow
  new_line-Shows =
      let next = ready.next in
      let row = ready.row in
      elim (Bool-cases (s.y == 24)) [
        | inl last ↦
            let moved : follow p ≡ record p { top = p.top + 1 } = ground arith in
            rw moved (new_line-scrolls (ground arith))
        | inr above ↦
            let same : follow p ≡ p = ground arith in rw same (new_line-stays (ground arith))
      ]
