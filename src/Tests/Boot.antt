-- ===== src/Tests/Boot.antt =====
-- kernel/core/multiboot.cpp on a machine with two regions of memory and a module.
use tysos_cxx.Prelude.{
  [], ◌∷◌, some, replicate, refl, ◌<◌, ◌≡◌, ◌↔◌, ◌⊎◌, inr, true, false, arith, All, test_bit, add32,
}
use tysos_cxx.Multiboot.{
  Multiboot, MbHeader, MbMmap, MbMod, overlap, check_range, find_range, elf_avail, elf_max,
  is_avail, find_candidate, find_mmap, find_elf, find_mods, check_memory, check_mmap, check_mods,
}
use tysos_cxx.Multiboot.MemoryMap.{region_overlap_bits}
use tysos_cxx.Multiboot.Ranges.{IsSane, IsFree, check_range_iff_IsFree, entries, sections, modules}
use tysos_cxx.Multiboot.Search.{Refused, find_range-zero, find_range-IsFree}
use tysos_cxx.Multiboot.Parse.{BootMemory, HasTables, HasCounts, parse}
use tysos_cxx.Multiboot.Parse.Tables.{parse_tables}

test-region_overlap_bits :
    (test_bit (overlap 0x1000 0x1000 0x1800 0x100) 0 ≡ true)
    × (test_bit (overlap 0x1000 0x1000 0x1800 0x100) 1 ≡ true)
    × (test_bit (overlap 0x1000 0x1000 0x1800 0x100) 2 ≡ true)
    × (test_bit (overlap 0x1000 0x1000 0x1800 0x100) 3 ≡ false)
test-region_overlap_bits =
    region_overlap_bits 0x1000 0x1000 0x1800 0x100 (omega arith) (omega arith)

-- The memory map is announced, and the modules.
abbrev header : MbHeader
header = record {
  flags = 0x48;
  mem_lower = 640;
  mem_upper = 0x7000;
  mods_count = 1;
  mods_addr = 0x9000;
  elf_num = 3;
  elf_size = 40;
  elf_addr = 0;
  elf_shndx = 77;
  mmap_length = 48;
  mmap_addr = 0x8000;
}

abbrev low : MbMmap
low = record { size = 20; base_addr = 0; length = 0x9f000; kind = 1 }

abbrev high : MbMmap
high = record { size = 20; base_addr = 0x100000; length = 0x1f00000; kind = 1 }

abbrev a_module : MbMod
a_module = record { mod_start = 0x200000; mod_end = 0x240000 }

abbrev mb : Multiboot
mb = record {
  header = record header { elf_num = 0 };
  mmap_count = 2;
  mods = a_module ∷ [];
  mmap = low ∷ high ∷ [];
  elf = [];
  elfstr = [];
}

mb-IsSane : IsSane mb
mb-IsSane = record {
  upper = omega arith;
  mmap = (inr (omega arith), (inr (omega arith), tt));
  elf = tt;
  mods = (omega arith, tt);
}

check_range_iff_IsFree_example :
    (check_range mb 0x300000 0x10000 ≡ true) ↔ IsFree mb 0x300000 0x10000
check_range_iff_IsFree_example =
    check_range_iff_IsFree mb mb-IsSane 0x300000 0x10000 (omega arith) (omega arith)

test-check_range : check_range mb 0x300000 0x10000 ≡ true
unfolding check_range check_memory check_mmap overlap check_mods
test-check_range = refl

test-find_range : find_range mb 0x100000 ≡ 0x100000
unfolding find_range find_candidate find_mmap find_elf find_mods check_range check_memory check_mmap
    overlap check_mods
test-find_range = refl

test-find_range-zero : find_range mb 0x2000000 ≡ 0
unfolding find_range find_candidate find_mmap find_elf find_mods check_range check_memory check_mmap
    overlap check_mods
test-find_range-zero = refl

find_range-IsFree_example : IsFree mb (find_range mb 0x100000) 0x100000
find_range-IsFree_example =
    find_range-IsFree mb 0x100000 mb-IsSane (omega arith) (ground (arith, test-find_range))
      (ground (arith, test-find_range))

test-no_range :
    (check_range mb 0 0x2000000 ≡ true)
    ⊎ (All (λ m. is_avail m ≡ true → Refused mb 0x2000000 m.base_addr) (entries mb)
        × All (λ s. Refused mb 0x2000000 (add32 s.sh_addr s.sh_size)) (sections mb)
        × All (λ m. Refused mb 0x2000000 m.mod_end) (modules mb))
test-no_range = find_range-zero mb 0x2000000 test-find_range-zero

-- The same machine before the tables are copied.
abbrev boot : BootMemory
boot = record {
  shdr_at = λ a. record { sh_name = a; sh_flags = 0; sh_addr = 0; sh_size = 0 };
  mod_at = λ a. a_module;
  mmap_at = λ a. low;
  byte_at = λ a. a;
  elf_table = 0x1000;
  elfstr_table = 0x2000;
  mods_table = 0x3000;
  mmap_table = 0x4000;
}

abbrev blank : Multiboot
blank = record {
  header = header;
  mmap_count = 0;
  mods = replicate 40 a_module;
  mmap = replicate 40 low;
  elf = replicate 40 (record { sh_name = 0; sh_flags = 0; sh_addr = 0; sh_size = 0 });
  elfstr = replicate 1000 0;
}

blank-HasTables : HasTables blank
blank-HasTables = record { elf = refl; elfstr = refl; mods = refl; mmap = refl }

parse_tables_example :
    (((mb' : Multiboot) × (parse boot header blank ≡ some mb'))
      ↔ ((test_bit header.flags elf_avail ≡ false) ⊎ (header.elf_shndx < elf_max)))
    × ((mb' : Multiboot) → parse boot header blank ≡ some mb' → HasTables mb' × HasCounts mb')
parse_tables_example = parse_tables boot header blank blank-HasTables
