-- ===== src/Memory/Allocator.antt =====
-- The allocator of physical pages: class i386_PhysMemAllocator and class i386_PageProvider
-- (kernel/i386/i386_pmem.cpp), with PhysMemBitmap::Init and Alloc (kernel/core/pmem.cpp). Pages
-- from 16 MiB on are on the first stack, those below are in the bitmap. `none` is an access outside
-- of the bitmap, or a loop that does not end within its fuel. Locks are left out.
pub mod FreePages
use tysos_cxx.Prelude.{
  ℕ, zero, suc, ◌+◌, ◌-◌, ◌*◌, ◌/◌, ◌%◌, ◌^◌, Bool, true, false, List, [], ◌∷◌, Option, none, some,
  ◌==◌, ltb, leb, if◌then◌else◌, add32, sub32, mul32, test_bit, get_elem?, set, replicate,
}
use tysos_cxx.Multiboot.{Multiboot, check_range}
use tysos_cxx.Memory.PageStack.{PhysMemStack, push_page, begin_pop, end_pop, pop_page}
use tysos_cxx.Memory.Bitmap.{PhysMemBitmap, free_page, alloc_range}

-- The first page that is not in the bitmap.
abbrev pub bitmap_end : ℕ
bitmap_end = 0x1000000

abbrev pub page_size : ℕ
page_size = 0x1000

-- The field `nextpage` of the provider, the first stack and the bitmap.
pub record PhysMemAllocator : Type 0 where
  pub nextpage : ℕ
  pub stack : PhysMemStack
  pub bmp : PhysMemBitmap

-- PhysMemBitmap::Init, which marks all pages as used; the words of the bitmap.
unfoldable pub init_bitmap : ℕ → ℕ → ℕ → PhysMemBitmap
init_bitmap bitmap_base end ps =
    let size = sub32 end bitmap_base / mul32 ps 8 in
    record { bmp = replicate (size / 4) 0; base = bitmap_base; end = end; ps = ps; bmp_size = size }

-- The lowest bit from `i` on that is set, of `n` bits.
unfoldable pub lowest_bit : ℕ → ℕ → ℕ → Option ℕ
lowest_bit zero w i = none
lowest_bit (suc n) w i = if test_bit w i then some i else lowest_bit n w (suc i)

-- PhysMemBitmap::Alloc: the loop does not leave the first word, so it does not end when that word
-- has no free page.
unfoldable pub alloc_any : PhysMemBitmap → Option (ℕ × PhysMemBitmap)
alloc_any b = elim (get_elem? b.bmp 0) [
  | none ↦ none
  | some w ↦ elim (lowest_bit 32 w 0) [
    | none ↦ none
    | some i ↦ some (add32 (mul32 i b.ps) b.base, record b { bmp = set b.bmp 0 (w - 2 ^ i) })
  ]
]

-- i386_PageProvider::GetPage; NULL is 0.
unfoldable pub get_page : Multiboot → PhysMemAllocator → ℕ × PhysMemAllocator
get_page mb s =
    let next = add32 s.nextpage page_size in
    (
      if ltb (add32 (mul32 mb.header.mem_upper 1024) 0x100000) next
          then 0
          else sub32 next page_size,
      record s { nextpage = next },
    )

-- i386_PhysMemAllocator::Free
unfoldable pub free : ℕ → PhysMemAllocator → Option PhysMemAllocator
free paddr s =
    if leb bitmap_end paddr
    then some (record s { stack = push_page paddr s.stack })
    else elim (free_page paddr s.bmp) [ none ↦ none | some b ↦ some (record s { bmp = b }) ]

-- i386_PhysMemAllocator::Alloc: PopPage, and the bitmap when it returns NULL.
unfoldable pub alloc_page : PhysMemAllocator → Option (ℕ × PhysMemAllocator)
alloc_page s =
    let (p, stack) = pop_page s.stack in
    if p == 0
    then elim (alloc_any s.bmp) [
      | none ↦ none
      | some (q, b) ↦ some (q, record s { stack = stack; bmp = b })
    ]
    else some (p, record s { stack = stack })

-- i386_PhysMemAllocator::BeginAlloc
unfoldable pub begin_alloc : PhysMemAllocator → Option (ℕ × PhysMemAllocator)
begin_alloc s =
    let p = begin_pop s.stack in
    if p == 0
    then elim (alloc_any s.bmp) [ none ↦ none | some (q, b) ↦ some (q, record s { bmp = b }) ]
    else some (p, s)

-- i386_PhysMemAllocator::EndAlloc: the stack moves on to the word that the page holds, and the page
-- is cleared. It returns NULL.
unfoldable pub end_alloc : ℕ → PhysMemAllocator → ℕ × PhysMemAllocator
end_alloc paddr s =
    let (_, stack) = end_pop paddr s.stack in
    (
      0,
      record s {
        stack = record stack {
          memory = λ a.
              if leb paddr a
              then (if ltb a (paddr + page_size) then 0 else stack.memory a)
              else stack.memory a;
        };
      },
    )

-- i386_PhysMemAllocator::AllocRange
unfoldable pub alloc_pages : ℕ → PhysMemAllocator → Option (ℕ × PhysMemAllocator)
alloc_pages length s =
    if leb length page_size
    then alloc_page s
    else elim (alloc_range length s.bmp) [ none ↦ none | some p ↦ some (p, s) ]

-- What Init does with a page that the provider has handed out.
unfoldable pub free_if_unused : Multiboot → ℕ → PhysMemAllocator → Option PhysMemAllocator
free_if_unused mb p s = if check_range mb p page_size then free p s else some s

-- The loop of i386_PhysMemAllocator::Init over the pages of the provider.
unfoldable pub free_pages : ℕ → Multiboot → PhysMemAllocator → Option PhysMemAllocator
free_pages zero mb s = none
free_pages (suc fuel) mb s =
    let (p, s1) = get_page mb s in
    elim (p == 0) [
      | true ↦ some s1
      | false ↦ elim (free_if_unused mb p s1) [ none ↦ none | some s2 ↦ free_pages fuel mb s2 ]
    ]
