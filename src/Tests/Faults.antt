-- ===== src/Tests/Faults.antt =====
-- kernel/core/vmem.cpp on a stack that grows downwards.
use tysos_cxx.Prelude.{◌≡◌, ◌<◌, ◌^◌, refl, true, false, [], ◌∷◌, some, arith}
use tysos_cxx.Section.{
  Section, IsWords, empty_section, i386_vmm, range_min, range_max, check_extents, check_upper,
  extent_length, overlaps, overlap,
}
use tysos_cxx.Section.Extents.{Fits}
use tysos_cxx.Memory.Fault.{serve, grow_down, grow_up, mapping, resolve_page_fault, resolve}
use tysos_cxx.Memory.Fault.Reach.{Holds, serve-Holds}

-- Defined, readable, writable and growing automatically.
abbrev stack : Section
stack = record (empty_section 0) {
  flags = 0x47;
  base = 0x50000000;
  length = 0x1000;
  expand_down = 0x8000;
}

stack-IsWords : IsWords stack
stack-IsWords = ground arith

stack-Fits : Fits i386_vmm stack
unfolding range_min range_max
stack-Fits = ground arith

stack-top : range_max i386_vmm stack < 2 ^ 32
unfolding range_max
stack-top = ground arith

stack-start : 0 < range_min i386_vmm stack
unfolding range_min
stack-start = ground arith

test-serve : (serve 0x4fffe000 stack).0 ≡ false
unfolding serve grow_down grow_up
test-serve = refl

serve-Holds_example : Holds 0x4fffe000 (serve 0x4fffe000 stack).1
serve-Holds_example =
    serve-Holds i386_vmm 0x4fffe000 stack stack-IsWords stack-Fits stack-top (omega arith)
      stack-start test-serve

-- The section that has grown downwards keeps its length, so its end moves down as well.
test-resolve :
    resolve_page_fault i386_vmm
      (record { upper = 1; lower = 2; length = 3 })
      0x4fffe000
      false
      (stack ∷ [])
    ≡ some (
      record stack { base = 0x4fffe000; expand_down = 0x6000 } ∷ [],
      record { page = 0x4fffe000; source = 0; user = true; writable = true },
    )
unfolding resolve_page_fault resolve serve grow_down grow_up mapping check_extents check_upper
    extent_length range_min range_max overlaps overlap
test-resolve = refl
