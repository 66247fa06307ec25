-- ===== src/Tests/Sections.antt =====
-- kernel/core/section.cpp on a process range that holds two sections.
use tysos_cxx.Prelude.{
  List, [], ◌∷◌, none, some, ◌+◌, ◌-◌, ◌^◌, ◌<◌, ◌≤◌, ◌≡◌, test_bit, refl, All, ◌↔◌, true, false,
  arith, ◌%◌,
}
use tysos_cxx.Section.{
  Section, Extent, i386_vmm, empty_section, IsWords, check_extents, overlap, range_min, range_max,
  check_upper, extent_length, overlaps,
}
use tysos_cxx.Section.Extents.{Fits, total, extent_of, check_extents_iff_Fits, overlap_bits}
use tysos_cxx.Section.FindFree.{
  find_free_in, find_rounds, find_loop, place, candidate, is_free, page_up, section_end,
}
use tysos_cxx.Section.FindFree.Pages.{i386_vmm-RoundsToPages}
use tysos_cxx.Section.FindFree.Sound.{IsRange, HasRoom, Placed, ClearOf, find_free_in-Placed}
use tysos_cxx.Section.FindFree.Complete.{claim, find_free_in_complete}

-- A process section that is defined, with a page of padding below.
abbrev code : Section
code = record (empty_section 0) {
  flags = 1;
  base = 0x40001000;
  length = 0x2800;
  lower_padding = 0x1000;
}

abbrev heap : Section
heap = record (empty_section 0) {
  flags = 1;
  base = 0x40004000;
  length = 0x1000;
  expand_up = 0x3000;
}

abbrev stack : Section
stack = record (empty_section 0) { flags = 1; length = 0x2000; expand_down = 0x1000 }

-- Half of the address space.
abbrev huge : Section
huge = record (empty_section 0) { flags = 1; length = 0x80000000 }

abbrev garbage : Extent
garbage = record { upper = 1; lower = 2; length = 3 }

code-IsWords : IsWords code
code-IsWords = ground arith

i386_vmm-IsRange : IsRange i386_vmm
i386_vmm-IsRange = ground arith

code-top : range_max i386_vmm code < 2 ^ 32
unfolding range_max
code-top = ground arith

check_extents_iff_Fits_example :
    (((check_extents i386_vmm code garbage).0 ≡ true) ↔ Fits i386_vmm code)
    × (Fits i386_vmm code → check_extents i386_vmm code garbage ≡ (true, extent_of code))
    × (¬ Fits i386_vmm code
        → check_extents i386_vmm code garbage
          ≡ (false, record garbage { length = total code % 2 ^ 32 }))
check_extents_iff_Fits_example = check_extents_iff_Fits i386_vmm code garbage code-IsWords code-top

test-check_extents : check_extents i386_vmm code garbage ≡ (true, extent_of code)
unfolding check_extents check_upper extent_length range_min range_max
test-check_extents = refl

test-overlap_bits :
    (test_bit (overlap (extent_of code) (extent_of heap)) 0 ≡ true)
    × (test_bit (overlap (extent_of code) (extent_of heap)) 1 ≡ false)
    × (test_bit (overlap (extent_of code) (extent_of heap)) 2 ≡ false)
    × (test_bit (overlap (extent_of code) (extent_of heap)) 3 ≡ false)
test-overlap_bits = overlap_bits (extent_of code) (extent_of heap) (omega arith) (omega arith)

abbrev sections : List Section
sections = code ∷ heap ∷ []

sections-IsWords : All IsWords sections
sections-IsWords = (ground arith, (ground arith, tt))

-- The stack goes behind the heap's room to grow.
abbrev placed : Section
placed = record stack { base = 0x40009000 }

test-find_free_in : find_free_in i386_vmm i386_vmm garbage sections stack ≡ some placed
unfolding find_free_in find_rounds find_loop place candidate page_up section_end is_free
    check_extents check_upper extent_length range_min range_max overlaps overlap
test-find_free_in = refl

stack-HasRoom :
    HasRoom i386_vmm stack (range_min i386_vmm stack)
    × All (λ s. HasRoom i386_vmm stack (section_end s)) sections
unfolding range_min range_max page_up section_end
stack-HasRoom = ground arith

find_free_in-Placed_example : Placed i386_vmm sections stack placed
find_free_in-Placed_example =
    find_free_in-Placed i386_vmm i386_vmm-IsRange i386_vmm-RoundsToPages garbage sections
      sections-IsWords stack refl (omega arith) (omega arith) placed stack-HasRoom.0 stack-HasRoom.1
      (ground arith) test-find_free_in

-- The kernel's range with one section in its middle.
abbrev kernel_code : Section
kernel_code = record code { flags = 0x4001; base = 0x20000000 }

abbrev kernel_huge : Section
kernel_huge = record huge { flags = 0x4001; length = 0x30000000 }

test-find_free_in-none :
    find_free_in i386_vmm i386_vmm garbage (kernel_code ∷ []) kernel_huge ≡ none
unfolding find_free_in find_rounds find_loop place candidate page_up section_end is_free
    check_extents check_upper extent_length range_min range_max overlaps overlap
test-find_free_in-none = refl

huge-low : range_min i386_vmm kernel_huge ≤ 0x00100000
unfolding range_min
huge-low = ground arith

huge-high : 0x00100000 + total kernel_huge - 1 ≤ range_max i386_vmm kernel_huge
unfolding range_max
huge-high = ground arith

find_free_in_complete_example : ¬ ClearOf i386_vmm (claim kernel_huge 0x00100000) (kernel_code ∷ [])
find_free_in_complete_example =
    find_free_in_complete i386_vmm i386_vmm-IsRange i386_vmm-RoundsToPages garbage
      (kernel_code ∷ []) (ground arith, tt) kernel_huge (omega arith) (omega arith) (ground arith)
      test-find_free_in-none 0x00100000 refl huge-low huge-high

-- A candidate that wraps around the end of the address space is taken, although it reaches past
-- the range.
test-find_free_in-wraps :
    find_free_in i386_vmm i386_vmm garbage
      (record code { base = 0x60000000 } ∷ record heap { base = 0xa0000000 } ∷ [])
      huge
    ≡ some (record huge { base = 0xa0004000 })
unfolding find_free_in find_rounds find_loop place candidate page_up section_end is_free
    check_extents check_upper extent_length range_min range_max overlaps overlap
test-find_free_in-wraps = refl
