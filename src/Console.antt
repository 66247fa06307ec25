-- ===== src/Console.antt =====
-- class Video (kernel/core/video.cpp, include/sys/video.h) on its implementation class Vga
-- (kernel/i386/vga.cpp, include/drv/vga.h). Locks are left out. The string instructions of the
-- assembler lines are written as what they do to the framebuffer.
pub mod Roll
pub mod Paper
pub mod Printing
use tysos_cxx.Prelude.{
  ℕ, zero, suc, ◌+◌, ◌-◌, ◌*◌, ◌/◌, ◌%◌, ◌^◌, Bool, true, false, List, [], ◌∷◌, ◌++◌, Option, none,
  some, bit_or, ltb, leb, ◌==◌, if◌then◌else◌, ℤ, pos, negsuc,
}
use tysos_cxx.Formatter.{Arg, vf_printf}

-- VGA_WIDTH, VGA_HEIGHT, VGA_DEFATTR and DEFAULT_ATTRIBUTE
abbrev pub vga_width : ℕ
vga_width = 80

abbrev pub vga_height : ℕ
vga_height = 25

abbrev pub vga_defattr : ℕ
vga_defattr = 7

abbrev pub default_attribute : ℤ
default_attribute = negsuc 0

-- The cursor, the size, the framebuffer by cells, and what has been written to the ports.
pub record Vga : Type 0 where
  pub x : ℕ
  pub y : ℕ
  pub w : ℕ
  pub h : ℕ
  pub fb : ℕ → ℕ
  pub base_port : ℕ
  pub ports : List (ℕ × ℕ)

-- Video::SetX
unfoldable pub set_x : ℤ → Vga → Vga
set_x (pos newx) s = if ltb newx s.w then record s { x = newx } else s
set_x (negsuc n) s = s

-- Video::SetY
unfoldable pub set_y : ℤ → Vga → Vga
set_y (pos newy) s = if ltb newy s.h then record s { y = newy } else s
set_y (negsuc n) s = s

-- `attr & 0xff`, with the default attribute put in.
unfoldable pub attribute : ℤ → ℕ
attribute (pos a) = a % 256
attribute (negsuc zero) = vga_defattr
attribute (negsuc (suc n)) = 255 - suc n % 256

-- What a cell holds for a character and an attribute.
unfoldable pub cell : ℕ → ℤ → ℕ
cell ch attr = bit_or (ch % 256) (attribute attr * 256)

unfoldable pub poke : (ℕ → ℕ) → ℕ → ℕ → ℕ → ℕ
poke fb i v j = if j == i then v else fb j

-- `(int)ch` of a signed character.
unfoldable pub signed_char : ℕ → ℤ
signed_char ch = if ltb (ch % 256) 128 then pos (ch % 256) else negsuc (255 - ch % 256)

-- Vga::_Putch
unfoldable pub putch_at : ℕ → ℤ → ℤ → ℤ → Vga → ℤ × Vga
putch_at ch (negsuc n) ypos attr s = (negsuc 0, s)
putch_at ch (pos xpos) (negsuc n) attr s = (negsuc 0, s)
putch_at ch (pos xpos) (pos ypos) attr s =
    if leb vga_width xpos
    then (negsuc 0, s)
    else if leb vga_height ypos
    then (negsuc 0, s)
    else (signed_char ch, record s { fb = poke s.fb (xpos + ypos * vga_width) (cell ch attr) })

-- Vga::_Scroll by up to a screen of lines upwards: the rest moves up, and the lines below are
-- cleared.
unfoldable pub scroll_up : ℕ → (ℕ → ℕ) → ℕ → ℕ
scroll_up lines fb i =
    if ltb i ((vga_height - lines) * vga_width)
    then fb (i + lines * vga_width)
    else if ltb i (vga_height * vga_width)
    then 0
    else fb i

-- Vga::_Scroll; `none` is an access outside of the framebuffer.
unfoldable pub scroll : ℕ → Vga → Option Vga
scroll lines s =
    if lines == 0
    then some s
    else if leb lines vga_height
    then some (record s { fb = scroll_up lines s.fb })
    else none

-- Vga::_Clear
unfoldable pub clear : Vga → Vga
clear s = record s { fb = λ i. if ltb i (vga_height * vga_width) then 0 else s.fb i }

-- Vga::_UpdateCursor
unfoldable pub update_cursor : Vga → Vga
update_cursor s =
    let position = (s.y * vga_width + s.x) % 2 ^ 16 in
    record s {
      ports =
          s.ports
          ++ (s.base_port, 0x0f)
            ∷ (s.base_port + 1, position % 256)
            ∷ (s.base_port, 0x0e)
            ∷ (s.base_port + 1, (position / 256) % 256)
            ∷ [];
    }

-- Video::_CarriageReturn
unfoldable pub carriage_return : Vga → Vga
carriage_return s = record s { x = 0 }

-- Video::_LineFeed
unfoldable pub line_feed : Vga → Option Vga
line_feed s =
    if leb s.h (s.y + 1)
    then elim (scroll (s.y + 1 - s.h + 1) s) [
      | none ↦ none
      | some s' ↦ some (record s' { y = s.h - 1 })
    ]
    else some (record s { y = s.y + 1 })

-- Video::_NewLine
unfoldable pub new_line : Vga → Option Vga
new_line s = line_feed (carriage_return s)

-- Video::_AdvanceCursor
unfoldable pub advance_cursor : Vga → Option Vga
advance_cursor s =
    let s' = record s { x = s.x + 1 } in if leb s.w (s.x + 1) then new_line s' else some s'

-- The switch of Video::_Putch.
unfoldable pub draw : ℕ → ℤ → Vga → ℤ × Option Vga
draw ch attr s =
    if ch == b'\n'
    then (pos b'\n', new_line s)
    else (let (ret, s') = putch_at ch (pos s.x) (pos s.y) attr s in (ret, advance_cursor s'))

-- Video::_Putch at the cursor.
unfoldable pub putch : ℕ → (update : Bool) → ℤ → Vga → Option (ℤ × Vga)
putch ch update attr s =
    let (ret, drawn) = draw ch attr s in
    elim drawn [ none ↦ none | some s' ↦ some (ret, if update then update_cursor s' else s') ]

-- The loop of Video::_Puts.
unfoldable pub put_chars : List ℕ → ℤ → Vga → Option Vga
put_chars [] attr s = some s
put_chars (ch ∷ rest) attr s = elim (putch ch false attr s) [
  | none ↦ none
  | some (_, s') ↦ put_chars rest attr s'
]

-- Video::_Puts, which returns 1.
unfoldable pub puts : List ℕ → (newline : Bool) → ℤ → (update : Bool) → Vga → Option Vga
puts text newline attr update s = elim (put_chars text attr s) [
  | none ↦ none
  | some s1 ↦ elim (if newline then new_line s1 else some s1) [
    | none ↦ none
    | some s2 ↦ some (if update then update_cursor s2 else s2)
  ]
]

-- Video::Printf: the formatter writes in batches, and ends with EndBatch.
unfoldable pub printf : (ℕ → ℕ) → List ℕ → List Arg → Vga → Option (ℕ × Vga)
printf memory format args s = elim (vf_printf memory format args) [
  | none ↦ none
  | some (i, out) ↦ elim (puts out false default_attribute false s) [
    | none ↦ none
    | some s' ↦ some (i, update_cursor s')
  ]
]
