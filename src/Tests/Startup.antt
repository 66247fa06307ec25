-- ===== src/Tests/Startup.antt =====
-- kernel/core/kernel.cpp with three ELF headers: the empty one, .bss and the names.
use tysos_cxx.Prelude.{
  ℕ, ◌≡◌, refl, List, [], ◌∷◌, none, some, ◌==◌, if◌then◌else◌, ℤ, pos, arith, All, add32,
}
use tysos_cxx.Containers.ArrayList.{ArrayList, add}
use tysos_cxx.Containers.ArrayList.Elements.{Stands}
use tysos_cxx.Containers.ArrayList.Interface.{array_methods}
use tysos_cxx.Multiboot.{
  Multiboot, Elf32Shdr, find_range, find_candidate, find_mmap, check_range, check_memory,
  check_mmap, check_elf, check_mods, overlap,
}
use tysos_cxx.Section.{empty_section}
use tysos_cxx.Section.SectionList.Parts.{parts}
use tysos_cxx.Strings.{strcmp, char_diff}
use tysos_cxx.Kernel.{Kernel, Image, strings_at, init_kernel}
use tysos_cxx.Kernel.Loop.{capacity}
use tysos_cxx.Kernel.Loaded.{HasFields, Loaded}
use tysos_cxx.Containers.IList.{Item}
use tysos_cxx.Kernel.Start.{init_kernel_lem}

abbrev null_header : Elf32Shdr
null_header = record { sh_name = 0; sh_flags = 0; sh_addr = 0; sh_size = 0 }

abbrev bss_header : Elf32Shdr
bss_header = record { sh_name = 1; sh_flags = 3; sh_addr = 0x110000; sh_size = 0x2000 }

abbrev names_header : Elf32Shdr
names_header = record { sh_name = 6; sh_flags = 0; sh_addr = 0x150000; sh_size = 0x10 }

abbrev boot : Multiboot
boot = record {
  header = record {
    flags = 0x60;
    mem_lower = 640;
    mem_upper = 0x7000;
    mods_count = 0;
    mods_addr = 0;
    elf_num = 3;
    elf_size = 40;
    elf_addr = 0x6000;
    elf_shndx = 2;
    mmap_length = 24;
    mmap_addr = 0x8000;
  };
  mmap_count = 1;
  mods = [];
  mmap = record { size = 20; base_addr = 0x100000; length = 0x1f00000; kind = 1 } ∷ [];
  elf = null_header ∷ bss_header ∷ names_header ∷ [];
  elfstr = [];
}

-- ".bss" in the kernel at 0x200 and among the names at 0x150001.
abbrev text : ℕ → ℕ
text a =
    if a == 0x200
    then b'.'
    else if a == 0x201
    then b'b'
    else if a == 0x202
    then b's'
    else if a == 0x203
    then b's'
    else if a == 0x150001
    then b'.'
    else if a == 0x150002
    then b'b'
    else if a == 0x150003
    then b's'
    else if a == 0x150004
    then b's'
    else 0

abbrev image : Image
image = record {
  headers = 0x5000;
  thread = 0x5100;
  elfh_name = 1;
  kst_name = 2;
  bss_name = 0x200;
  bytes = text;
  fuel = 8;
}

abbrev none_yet : ArrayList
none_yet = record { count = 0; arr = λ i. 0 }

abbrev kernel : Kernel ArrayList ArrayList
kernel = record {
  sections = parts none_yet none_yet;
  threads = none_yet;
  at = λ i. empty_section 0;
  startup_stack = none;
  startup_name = 0;
  startup_location = pos 0;
  startup_priority = pos 5;
  current_thread = none;
}

place_found : find_range boot 108 ≡ 0x100000
unfolding find_range find_candidate find_mmap check_range check_memory check_mmap check_elf
    check_mods overlap
place_found = refl

named :
    All
      (λ e. (r : ℤ) × (strcmp 8 image.bytes 0x200 (add32 0x150000 e.sh_name) ≡ some r))
      (null_header ∷ bss_header ∷ names_header ∷ [])
unfolding strcmp char_diff
named = ((_, refl), ((pos 0, refl), ((_, refl), tt)))

strings : strings_at boot ≡ some 0x150000
unfolding strings_at
strings = refl

init_kernel_lem_example :
    (k' : Kernel ArrayList ArrayList) × (a' : ArrayList) × (items : List Item) × (init_kernel
        (array_methods capacity)
        (array_methods capacity)
        image
        boot
        kernel
      ≡ some k')
    × (k'.sections ≡ parts a' none_yet)
    × Stands a' (0x5000 ∷ items)
    × HasFields 1 0x4087 0x100000 108 (k'.at 0x5000)
    × Loaded 0x100000 0x150000 k'.at 0 (null_header ∷ bss_header ∷ names_header ∷ []) items
    × (k'.threads ≡ add capacity 0x5100 none_yet)
    × (k'.current_thread ≡ some 0x5100)
init_kernel_lem_example =
    init_kernel_lem (array_methods capacity) image boot kernel none_yet none_yet 0x100000 0x150000
      (add capacity 0x5100 none_yet) refl (record { counted = refl; holds = λ i p e. absurd (cc) })
      strings place_found (omega arith) (omega arith) (omega arith) (λ j l same. omega arith) named
      refl
