-- ===== src/Section/FindFree.antt =====
-- SectionList::_isfree and SectionList::_findfree (kernel/core/section.cpp) over the sections that
-- a list holds. `v` is the global a.vmm, which CheckExtents reads; `vmem` is the argument.
pub mod Pages
pub mod Sound
pub mod Complete
pub mod Kept
use tysos_cxx.Prelude.{
  ℕ, Bool, true, false, ◌&&◌, List, [], ◌∷◌, Option, none, some, bit_and, leb, if◌then◌else◌, add32,
  sub32,
}
use tysos_cxx.Section.{
  VirtMemManager, Section, Extent, range_min, range_max, check_extents, overlaps,
}

-- `_isfree(Sections, re)`; `e` is what the local `se` holds before it is written.
unfoldable pub is_free : VirtMemManager → Extent → List Section → Extent → Bool
is_free v e [] re = true
is_free v e (s ∷ rest) re =
    let (ok, se) = check_extents v s e in
    if ok && overlaps re se then false else is_free v e rest re

-- `(x + PageSize - 1) & PageMask`
unfoldable pub page_up : VirtMemManager → ℕ → ℕ
page_up v x = bit_and (sub32 (add32 x v.page_size) 1) v.page_mask

-- Base + Length + ExpandUp + UpperPadding, where the next section may begin.
unfoldable pub section_end : Section → ℕ
section_end s = add32 (add32 (add32 s.base s.length) s.expand_up) s.upper_padding

unfoldable pub candidate : VirtMemManager → ℕ → ℕ → Extent
candidate vmem start len =
    let lower = page_up vmem start in
    record { upper = sub32 (add32 lower len) 1; lower = lower; length = len }

-- One round of the loop of `_findfree`, from the start of the candidate on.
unfoldable pub place :
    VirtMemManager → VirtMemManager → Extent → List Section → Section → ℕ → ℕ → Option Section
place v vmem e sections request len start =
    let re = candidate vmem start len in
    if leb (range_min vmem request) re.lower
      && leb re.upper (range_max vmem request)
      && is_free v e sections re
    then some
        (record request { base = add32 (add32 re.lower request.lower_padding) request.expand_down })
    else none

-- The rounds i = 0, 1, … over the sections that are left.
unfoldable pub find_loop :
    VirtMemManager
    → VirtMemManager
    → Extent
    → List Section
    → Section
    → ℕ
    → List Section
    → Option Section
find_loop v vmem e sections request len [] = none
find_loop v vmem e sections request len (s ∷ rest) =
    elim (place v vmem e sections request len (section_end s)) [
      | some r ↦ some r
      | none ↦ find_loop v vmem e sections request len rest
    ]

-- The whole loop: the round i = -1 tries the start of the range.
unfoldable pub find_rounds :
    VirtMemManager → VirtMemManager → Extent → List Section → Section → ℕ → Option Section
find_rounds v vmem e sections request len =
    elim (place v vmem e sections request len (range_min vmem request)) [
      | some r ↦ some r
      | none ↦ find_loop v vmem e sections request len sections
    ]

-- `_findfree`. The result is the request with its new base.
unfoldable pub find_free_in :
    VirtMemManager → VirtMemManager → Extent → List Section → Section → Option Section
unfolding find_rounds find_loop
find_free_in v vmem e sections request =
    let (_, re) = check_extents v request e in find_rounds v vmem e sections request re.length
