-- ===== src/Tests/Allocation.antt =====
-- kernel/i386/i386_pmem.cpp: the pages of a machine with 16 MiB and four pages.
use tysos_cxx.Prelude.{ℕ, ◌+◌, ◌≤◌, ◌≡◌, ◌%◌, true, List, [], some, refl, arith, replicate}
use tysos_cxx.Multiboot.{Multiboot, check_range}
use tysos_cxx.Memory.PageStack.{holds, Stacked}
use tysos_cxx.Memory.Allocator.{PhysMemAllocator, free_pages}
use tysos_cxx.Memory.Allocator.FreePages.{CoversLow, FreePages, Within, free_pages-FreePages}

abbrev mb : Multiboot
mb = record {
  header = record {
    flags = 0;
    mem_lower = 640;
    mem_upper = 0x3c10;
    mods_count = 0;
    mods_addr = 0;
    elf_num = 0;
    elf_size = 0;
    elf_addr = 0;
    elf_shndx = 0;
    mmap_length = 0;
    mmap_addr = 0;
  };
  mmap_count = 0;
  mods = [];
  mmap = [];
  elf = [];
  elfstr = [];
}

abbrev start : PhysMemAllocator
start = record {
  nextpage = 0x1000000;
  stack = record { top = 0; memory = λ a. 0 };
  bmp = record { bmp = replicate 128 0; base = 0; end = 0x1000000; ps = 0x1000; bmp_size = 512 };
}

start-CoversLow : CoversLow start.bmp
start-CoversLow = record { base = refl; end = refl; ps = refl; words = refl }

free_pages-FreePages_example :
    (s' : PhysMemAllocator) × (pages' : List ℕ) × (free_pages 5 mb start ≡ some s')
    × CoversLow s'.bmp
    × Stacked s'.stack pages'
    × FreePages mb 0x1004000 pages'
    × Within [] pages'
    × ((p : ℕ)
        → 0x1000000 ≤ p
        → p + 4096 ≤ 0x1004000
        → p % 4096 ≡ 0
        → 0x1000000 ≤ p
        → check_range mb p 0x1000 ≡ true
        → holds p pages' ≡ true)
free_pages-FreePages_example =
    free_pages-FreePages 5 mb start [] 0x1004000 refl (omega arith) (omega arith) refl (omega arith)
      (omega arith) start-CoversLow refl tt
