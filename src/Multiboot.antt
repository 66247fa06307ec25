-- ===== src/Multiboot.antt =====
-- What the boot loader reports: class Multiboot (include/sys/multiboot.h,
-- kernel/core/multiboot.cpp). Addresses and lengths are 32-bit words.
pub mod MemoryMap
pub mod Ranges
pub mod Search
pub mod Parse
use tysos_cxx.Prelude.{
  ℕ, Bool, true, false, ◌&&◌, ◌||◌, not, List, [], ◌∷◌, Option, none, some, ◌^◌, ◌<◌, ◌≤◌, ◌+◌,
  bit_and, bit_or, ltb, leb, ◌==◌, if◌then◌else◌, add32, sub32, test_bit, take,
}

-- The bit numbers of the MULTIBOOT_*_AVAIL flags.
abbrev pub mem_avail : ℕ
mem_avail = 0

abbrev pub mods_avail : ℕ
mods_avail = 3

abbrev pub elf_avail : ℕ
elf_avail = 5

abbrev pub mmap_avail : ℕ
mmap_avail = 6

-- The limits of the tables, MOD_MAX, MMAP_MAX, ELF_MAX and ELFSTR_MAX.
abbrev pub mod_max : ℕ
mod_max = 40

abbrev pub mmap_max : ℕ
mmap_max = 40

abbrev pub elf_max : ℕ
elf_max = 40

abbrev pub elfstr_max : ℕ
elfstr_max = 1000

-- The fields of mb_header that the kernel reads or writes.
pub record MbHeader : Type 0 where
  pub flags : ℕ
  pub mem_lower : ℕ
  pub mem_upper : ℕ
  pub mods_count : ℕ
  pub mods_addr : ℕ
  pub elf_num : ℕ
  pub elf_size : ℕ
  pub elf_addr : ℕ
  pub elf_shndx : ℕ
  pub mmap_length : ℕ
  pub mmap_addr : ℕ

-- struct mb_mmap; the low words of the two unions. The kind is the field `type`.
pub record MbMmap : Type 0 where
  pub size : ℕ
  pub base_addr : ℕ
  pub length : ℕ
  pub kind : ℕ

pub record MbMod : Type 0 where
  pub mod_start : ℕ
  pub mod_end : ℕ

-- The fields of Elf32_Shdr that the kernel reads or writes.
pub record Elf32Shdr : Type 0 where
  pub sh_name : ℕ
  pub sh_flags : ℕ
  pub sh_addr : ℕ
  pub sh_size : ℕ

-- The tables hold their used entries and whatever lies behind these.
pub record Multiboot : Type 0 where
  pub header : MbHeader
  pub mmap_count : ℕ
  pub mods : List MbMod
  pub mmap : List MbMmap
  pub elf : List Elf32Shdr
  pub elfstr : List ℕ

-- MB_MMAP_AVAIL
abbrev pub is_avail : MbMmap → Bool
is_avail m = m.kind == 1

-- OVERLAP_EQUAL, OVERLAP_LESS, OVERLAP_MORE and OVERLAP_WITHIN.
abbrev pub overlap_equal : ℕ
overlap_equal = 1

abbrev pub overlap_less : ℕ
overlap_less = 2

abbrev pub overlap_more : ℕ
overlap_more = 4

abbrev pub overlap_within : ℕ
overlap_within = 8

overlap_sides : ℕ → ℕ → ℕ → ℕ → ℕ
overlap_sides base1 end1 base2 end2 =
    let r = if ltb base1 base2 then bit_or 0 overlap_less else 0 in
    if ltb end2 end1 then bit_or r overlap_more else r

overlap_ends : ℕ → ℕ → ℕ → ℕ → ℕ
unfolding overlap_sides
overlap_ends base1 end1 base2 end2 =
    let r = overlap_sides base1 end1 base2 end2 in
    if leb base2 base1 && leb base1 end2
    then bit_or r overlap_equal
    else if leb base2 end1 && leb end1 end2
    then bit_or r overlap_equal
    else if not (bit_and r overlap_less == 0) && not (bit_and r overlap_more == 0)
    then bit_or r overlap_equal
    else r

-- Multiboot::Overlap
unfoldable pub overlap : ℕ → ℕ → ℕ → ℕ → ℕ
unfolding overlap_ends
overlap base1 length1 base2 length2 =
    if length1 == 0
    then 0
    else if length2 == 0
    then 0
    else let r =
        overlap_ends base1 (add32 base1 (sub32 length1 1)) base2 (add32 base2 (sub32 length2 1)) in
      if r == overlap_equal then bit_or r overlap_within else r

abbrev pub meets : ℕ → ℕ → ℕ → ℕ → Bool
meets base length base2 length2 =
    not (bit_and (overlap base length base2 length2) overlap_equal == 0)

abbrev pub lies_within : ℕ → ℕ → ℕ → ℕ → Bool
lies_within base length base2 length2 =
    not (bit_and (overlap base length base2 length2) overlap_within == 0)

-- The loop over the memory map in CheckRange: `none` is its `return false`, `some free` its end.
unfoldable pub check_mmap : ℕ → ℕ → List MbMmap → Bool → Option Bool
check_mmap base length [] free = some free
check_mmap base length (m ∷ rest) free =
    let found = is_avail m && lies_within base length m.base_addr m.length in
    let next = check_mmap base length rest (found || free) in
    if not (is_avail m) && meets base length m.base_addr m.length then none else next

unfoldable pub check_elf : ℕ → ℕ → List Elf32Shdr → Bool
check_elf base length [] = true
check_elf base length (s ∷ rest) =
    if meets base length s.sh_addr s.sh_size then false else check_elf base length rest

unfoldable pub check_mods : ℕ → ℕ → List MbMod → Bool
check_mods base length [] = true
check_mods base length (m ∷ rest) =
    if meets base length m.mod_start (sub32 m.mod_end m.mod_start)
    then false
    else check_mods base length rest

-- CheckRange up to the ELF headers.
unfoldable pub check_memory : Multiboot → ℕ → ℕ → Bool
check_memory mb base length =
    if test_bit mb.header.flags mmap_avail
    then elim (check_mmap base length (take mb.mmap_count mb.mmap) false) [
      | none ↦ false
      | some free ↦ free
    ]
    else if test_bit mb.header.flags mem_avail
    then not (ltb (add32 mb.header.mem_upper 0x100000) (add32 base length))
    else true

-- Multiboot::CheckRange
unfoldable pub check_range : Multiboot → ℕ → ℕ → Bool
check_range mb base length =
    if not (check_memory mb base length)
    then false
    else if test_bit mb.header.flags elf_avail
        && not (check_elf base length (take mb.header.elf_num mb.elf))
    then false
    else if test_bit mb.header.flags mods_avail
        && not (check_mods base length (take mb.header.mods_count mb.mods))
    then false
    else true

-- The loops of FindRange.
unfoldable pub find_mmap : Multiboot → ℕ → List MbMmap → Option ℕ
find_mmap mb length [] = none
find_mmap mb length (m ∷ rest) =
    if is_avail m && check_range mb m.base_addr length
    then some m.base_addr
    else find_mmap mb length rest

unfoldable pub find_elf : Multiboot → ℕ → List Elf32Shdr → Option ℕ
find_elf mb length [] = none
find_elf mb length (s ∷ rest) =
    if check_range mb (add32 s.sh_addr s.sh_size) length
    then some (add32 s.sh_addr s.sh_size)
    else find_elf mb length rest

unfoldable pub find_mods : Multiboot → ℕ → List MbMod → Option ℕ
find_mods mb length [] = none
find_mods mb length (m ∷ rest) =
    if check_range mb m.mod_end length then some m.mod_end else find_mods mb length rest

or_else : Option ℕ → Option ℕ → Option ℕ
or_else (some a) b = some a
or_else none b = b

-- The address that FindRange returns early, if any.
unfoldable pub find_candidate : Multiboot → ℕ → Option ℕ
unfolding or_else
find_candidate mb length = or_else (find_mmap mb length (take mb.mmap_count mb.mmap)) (
    or_else (find_elf mb length (take mb.header.elf_num mb.elf))
      (find_mods mb length (take mb.header.mods_count mb.mods)))

-- Multiboot::FindRange; NULL where no candidate is free.
unfoldable pub find_range : Multiboot → ℕ → ℕ
find_range mb length = elim (find_candidate mb length) [ some a ↦ a | none ↦ 0 ]
