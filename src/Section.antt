-- ===== src/Section.antt =====
-- Memory sections and their extents: class Section and Section::Extent (include/sys/section.h,
-- kernel/core/section.cpp), and the address ranges of VirtMemManager (include/sys/vmem.h,
-- include/i386/vmem.h). Addresses and lengths are 32-bit words.
pub mod Flag
pub mod OverlapFlag
pub mod Extents
pub mod FindFree
pub mod SectionList
use tysos_cxx.Prelude.{
  ℕ, Bool, true, false, ◌&&◌, not, ◌^◌, ◌<◌, bit_and, bit_or, ltb, leb, ◌==◌, if◌then◌else◌, add32,
  sub32, test_bit,
}
use Flag
use OverlapFlag as Overlap

-- What the sections need of a VirtMemManager: the results of its getters.
pub record VirtMemManager : Type 0 where
  pub process_start : ℕ
  pub process_end : ℕ
  pub kernel_start : ℕ
  pub kernel_end : ℕ
  pub page_size : ℕ
  pub page_mask : ℕ

-- class i386_VirtMemManager answers with these constants.
abbrev pub i386_vmm : VirtMemManager
i386_vmm = record {
  process_start = 0x40000000;
  process_end = 0xffffffff;
  kernel_start = 0x00100000;
  kernel_end = 0x3fbfffff;
  page_size = 0x1000;
  page_mask = 0xfffff000;
}

-- The name is printed only and stands for its address.
pub record Section : Type 0 where
  pub name : ℕ
  pub flags : ℕ
  pub base : ℕ
  pub length : ℕ
  pub expand_down : ℕ
  pub expand_up : ℕ
  pub lower_padding : ℕ
  pub upper_padding : ℕ
  pub mem_source : ℕ

pub record Extent : Type 0 where
  pub upper : ℕ
  pub lower : ℕ
  pub length : ℕ

-- `Section()`; the constructor leaves MemSource as it is.
abbrev pub empty_section : ℕ → Section
empty_section m = record {
  name = 0;
  flags = 0;
  base = 0;
  length = 0;
  expand_down = 0;
  expand_up = 0;
  lower_padding = 0;
  upper_padding = 0;
  mem_source = m;
}

unfoldable pub is_kernel : Section → Bool
is_kernel s = test_bit s.flags Flag.kernel_section

-- The end of the range that the section must lie in.
unfoldable pub range_min : VirtMemManager → Section → ℕ
unfolding is_kernel
range_min v s = if is_kernel s then v.kernel_start else v.process_start

unfoldable pub range_max : VirtMemManager → Section → ℕ
unfolding is_kernel
range_max v s = if is_kernel s then v.kernel_end else v.process_end

-- `LowerPadding + ExpandDown + Length + ExpandUp + UpperPadding`
unfoldable pub extent_length : Section → ℕ
extent_length s =
    add32 (add32 (add32 (add32 s.lower_padding s.expand_down) s.length) s.expand_up) s.upper_padding

-- The part of CheckExtents from `r_max = this->Base` on, with r_min computed.
unfoldable pub check_upper : VirtMemManager → Section → ℕ → Extent → Bool × Extent
check_upper v s r_min ext =
    let max = range_max v s in
    let r1 = add32 s.base s.length in
    let r2 = add32 r1 s.expand_up in
    let r3 = add32 r2 s.upper_padding in
    if ltb max s.base
    then (false, ext)
    else if ltb (sub32 max s.base) s.length
    then (false, ext)
    else if ltb (sub32 max r1) s.expand_up
    then (false, ext)
    else if ltb (sub32 max r2) s.upper_padding
    then (false, ext)
    else if leb r3 r_min
    then (false, ext)
    else (true, record ext { lower = r_min; upper = sub32 r3 1 })

-- Section::CheckExtents. The extent's length is written on every path.
unfoldable pub check_extents : VirtMemManager → Section → Extent → Bool × Extent
check_extents v s ext0 =
    let ext : Extent = record ext0 { length = extent_length s } in
    let r1 = sub32 s.base s.expand_down in
    let r2 = sub32 r1 s.lower_padding in
    if not (test_bit s.flags Flag.defined)
    then (false, ext)
    else if ltb s.base s.expand_down
    then (false, ext)
    else if ltb r1 s.lower_padding
    then (false, ext)
    else if ltb r2 (range_min v s)
    then (false, ext)
    else check_upper v s r2 ext

-- Section::Extent::Overlap: the two sides first, then EQUAL, then WITHIN.
unfoldable overlap_sides : Extent → Extent → ℕ
overlap_sides e1 e2 =
    let r = if ltb e1.lower e2.lower then bit_or 0 Overlap.less else 0 in
    if ltb e2.upper e1.upper then bit_or r Overlap.more else r

unfoldable overlap_equal : Extent → Extent → ℕ → ℕ
overlap_equal e1 e2 r =
    if leb e2.lower e1.lower && leb e1.lower e2.upper
    then bit_or r Overlap.equal
    else if leb e2.lower e1.upper && leb e1.upper e2.upper
    then bit_or r Overlap.equal
    else if not (bit_and r Overlap.less == 0) && not (bit_and r Overlap.more == 0)
    then bit_or r Overlap.equal
    else r

unfoldable pub overlap : Extent → Extent → ℕ
unfolding overlap_sides overlap_equal
overlap e1 e2 =
    let r = overlap_equal e1 e2 (overlap_sides e1 e2) in
    if r == Overlap.equal then bit_or r Overlap.within else r

-- Section::Extent::operator==
unfoldable pub overlaps : Extent → Extent → Bool
overlaps e1 e2 = not (bit_and (overlap e1 e2) Overlap.equal == 0)

-- Section::Overlap of two sections; `e` is what the stack holds before.
unfoldable pub section_overlap : VirtMemManager → Extent → Section → Section → ℕ
section_overlap v e s1 s2 =
    let (ok1, e1) = check_extents v s1 e in
    let (ok2, e2) = check_extents v s2 e in
    if not ok1 then Overlap.error else if not ok2 then Overlap.error else overlap e1 e2

-- A section whose fields are 32-bit words.
pub record IsWords (s : Section) : Type 0 where
  pub base : s.base < 2 ^ 32
  pub length : s.length < 2 ^ 32
  pub expand_down : s.expand_down < 2 ^ 32
  pub expand_up : s.expand_up < 2 ^ 32
  pub lower_padding : s.lower_padding < 2 ^ 32
  pub upper_padding : s.upper_padding < 2 ^ 32
