-- ===== src/Tests/Pages.antt =====
-- kernel/core/pmem.cpp and kernel/core/sbrk.cpp on small inputs.
use tysos_cxx.Prelude.{
  ℕ, [], ◌∷◌, Option, none, some, refl, ◌≡◌, ◌<◌, arith, pos, negsuc, ◌==◌, if◌then◌else◌, add32,
}
use tysos_cxx.Section.{Section, Extent, i386_vmm, empty_section}
use tysos_cxx.Memory.PageStack.{PhysMemStack, Stacked, push_page, pop_page, pop_page-push_page}
use tysos_cxx.Memory.Bitmap.{
  PhysMemBitmap, alloc_range, find_set, find_clear, bit_at, pages_for, page_or_null,
}
use tysos_cxx.Memory.Bitmap.FirstFit.{FirstFit, IsBitmap, page_address, alloc_range-FirstFit}
use tysos_cxx.Memory.Break.{Break, sbrk, heap_request}
use tysos_cxx.Memory.Break.Bounds.{HasHeap, sbrk-HasHeap, sbrk-sbrk}

-- Page 0x5000 lies on page 0x3000.
abbrev two_pages : PhysMemStack
two_pages = record { top = 0x5000; memory = λ a. if a == 0x5000 then 0x3000 else 0 }

two_pages-Stacked : Stacked two_pages (0x5000 ∷ 0x3000 ∷ [])
two_pages-Stacked = (refl, omega arith, refl, (refl, omega arith, refl, refl))

pop_page-push_page_example :
    Stacked (push_page 0x8000 two_pages) (0x8000 ∷ 0x5000 ∷ 0x3000 ∷ [])
    × ((pop_page (push_page 0x8000 two_pages)).0 ≡ 0x8000)
    × Stacked (pop_page (push_page 0x8000 two_pages)).1 (0x5000 ∷ 0x3000 ∷ [])
pop_page-push_page_example =
    pop_page-push_page two_pages (0x5000 ∷ 0x3000 ∷ []) 0x8000 two_pages-Stacked (omega arith) refl

-- Pages 4 and 6 to 9 of 64 are free.
abbrev bitmap : PhysMemBitmap
bitmap = record { bmp = 0x3d0 ∷ 0 ∷ []; base = 0x100000; end = 0x140000; ps = 0x1000; bmp_size = 8 }

bitmap-IsBitmap : IsBitmap bitmap
bitmap-IsBitmap = record { some_size = omega arith; bits = refl; pages_end = omega arith }

alloc_range-FirstFit_example :
    (r : Option ℕ) × (alloc_range 0x2800 bitmap ≡ some (page_address bitmap r))
    × FirstFit (0x3d0 ∷ 0 ∷ []) 3 61 0 r
alloc_range-FirstFit_example =
    alloc_range-FirstFit bitmap 0x2800 bitmap-IsBitmap (omega arith) (omega arith)

test-alloc_range : alloc_range 0x2800 bitmap ≡ some 0x106000
unfolding alloc_range find_set find_clear bit_at pages_for page_or_null
test-alloc_range = refl

abbrev kheap : Section
kheap = record (empty_section 0) {
  flags = 0x4017;
  base = 0x800000;
  length = 0x200;
  expand_up = 0x10000;
}

abbrev garbage : Extent
garbage = record { upper = 1; lower = 2; length = 3 }

abbrev before : Break
before = record { sections = []; heap = none; errno = 0 }

heap_request-word : (heap_request i386_vmm).expand_up < 4294967296
heap_request-word = omega arith

sbrk-HasHeap_example :
    (ret : ℕ) × (s' : Break) × (sbrk 12 i386_vmm garbage (pos 0x400) before ≡ some (ret, s'))
    × HasHeap s'.heap
sbrk-HasHeap_example =
    sbrk-HasHeap 12 i386_vmm garbage (pos 0x400) before (omega arith) heap_request-word
      (omega arith) tt

sbrk-sbrk_example :
    (between : Break) × (sbrk 12 i386_vmm garbage
        (pos 0x400)
        (record { sections = []; heap = some kheap; errno = 0 })
      ≡ some (add32 0x800000 0x200, between))
    × (sbrk 12 i386_vmm garbage (negsuc 0x3ff) between
        ≡ some (add32 0x800000 0x600, record { sections = []; heap = some kheap; errno = 0 }))
sbrk-sbrk_example =
    sbrk-sbrk 12 i386_vmm garbage 0x3ff [] kheap 0
      (record { used = omega arith; room = omega arith }) (omega arith)
