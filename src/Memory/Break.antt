-- ===== src/Memory/Break.antt =====
-- sbrk (kernel/core/sbrk.cpp): the kernel heap is a section that grows up to its ExpandUp. FindFree
-- of the section list is `find_free_in` over the kernel's sections, and returns its request, the
-- static `kheap`, to which the list then holds a reference.
pub mod Bounds
use tysos_cxx.Prelude.{
  ℕ, zero, suc, ◌^◌, ◌/◌, ◌-◌, ◌<◌, ◌≤◌, List, Option, none, some, bit_and, ltb, leb, if◌then◌else◌,
  add32, sub32, ℤ, pos, negsuc,
}
use tysos_cxx.Section.{VirtMemManager, Section, Extent, empty_section}
use tysos_cxx.Section.FindFree.{find_free_in}

-- k.Sections' kernel part but for the heap, k.Heap, and errno.
pub record Break : Type 0 where
  pub sections : List Section
  pub heap : Option Section
  pub errno : ℕ

-- `(void *)-1`; ENOMEM is newlib's and a parameter.

abbrev pub failed : ℕ
failed = 2 ^ 32 - 1

-- The request for the heap: Defined, Read, Write, Heap and KernelSection, with half of the kernel's
-- range to grow and a page of padding on either side.
abbrev pub heap_request : VirtMemManager → Section
heap_request v = record (empty_section 0) {
  flags = 0x4017;
  expand_up = bit_and (sub32 v.kernel_end v.kernel_start / 2) v.page_mask;
  lower_padding = v.page_size;
  upper_padding = v.page_size;
}

-- The loop that halves the request until there is room; the outer `none` is that the fuel does not
-- suffice.
unfoldable pub find_heap :
    ℕ → VirtMemManager → Extent → List Section → Section → Option (Option Section)
find_heap zero v e sections r = if leb v.page_size r.expand_up then none else some none
find_heap (suc fuel) v e sections r =
    if leb v.page_size r.expand_up
    then elim (find_free_in v v e sections r) [
      | some ks ↦ some (some ks)
      | none ↦ find_heap fuel v e sections (record r { expand_up = r.expand_up / 2 })
    ]
    else some none

-- The end of sbrk, with the heap in place: the old end and the heap with its new length.
unfoldable pub resize : ℤ → Section → Option (ℕ × Section)
resize (pos d) h =
    if ltb (sub32 h.expand_up h.length) d
    then none
    else some (add32 h.base h.length, record h { length = add32 h.length d })
resize (negsuc n) h =
    if ltb h.length (suc n)
    then none
    else some (add32 h.base h.length, record h { length = sub32 h.length (suc n) })

unfoldable pub move_end : ℕ → ℤ → Section → Break → ℕ × Break
unfolding resize
move_end enomem d h s = elim (resize d h) [
  | none ↦ (failed, record s { heap = some h; errno = enomem })
  | some (ret, h') ↦ (ret, record s { heap = some h' })
]

-- sbrk
unfoldable pub sbrk : ℕ → VirtMemManager → Extent → ℤ → Break → Option (ℕ × Break)
unfolding find_heap move_end
sbrk enomem v e d s = elim s.heap [
  | some h ↦ some (move_end enomem d h s)
  | none ↦ elim (find_heap 32 v e s.sections (heap_request v)) [
    | none ↦ none
    | some none ↦ some (failed, record s { errno = enomem })
    | some (some ks) ↦ some (move_end enomem d ks s)
  ]
]
