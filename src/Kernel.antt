-- ===== src/Kernel.antt =====
-- Kernel::InitKernel (kernel/core/kernel.cpp, include/sys/kernel.h): the kernel process with the
-- sections that the boot loader's ELF headers name. `none` is a fault.

pub mod Loop
pub mod Loaded
pub mod Start
use tysos_cxx.Prelude.{
  ℕ, suc, Bool, true, false, List, [], ◌∷◌, Option, none, some, bit_or, ◌==◌, if◌then◌else◌, ℤ, pos,
  negsuc, add32, mul32, test_bit, get_elem?, take,
}
use tysos_cxx.Containers.IList.{Item, IList}
use tysos_cxx.Multiboot.{Elf32Shdr, Multiboot, find_range}
use tysos_cxx.Scheduler.{loc_current}
use tysos_cxx.Section.{Section}
use tysos_cxx.Section.SectionList.{SectionList, Outcome, returns, faults, throws_index}
use tysos_cxx.Section.SectionList as Sections
use tysos_cxx.Strings.{strcmp}
use tysos_cxx.Task.Create.{put}

-- sizeof(Section)
abbrev pub section_size : ℕ
section_size = 36

-- The members of class Kernel and the global variables that InitKernel writes. Pointers to sections
-- and threads are addresses.
pub record Kernel (L T : Type 0) : Type 0 where
  pub sections : SectionList L
  pub threads : T
  pub at : Item → Section
  pub startup_stack : Option Item
  pub startup_name : ℕ
  pub startup_location : ℤ
  pub startup_priority : ℤ
  pub current_thread : Option Item

-- The addresses of elf_section_headers, startup_thread and the names, and the bytes of memory, of
-- which strcmp reads at most `fuel`.
pub record Image : Type 0 where
  pub headers : Item
  pub thread : Item
  pub elfh_name : ℕ
  pub kst_name : ℕ
  pub bss_name : ℕ
  pub bytes : ℕ → ℕ
  pub fuel : ℕ

-- `elf_section_headers`: Defined, Bits, Read, Write and KernelSection.
unfoldable pub headers_section : Image → (base num : ℕ) → Section
headers_section im base num = record {
  name = im.elfh_name;
  flags = 0x4087;
  base = base;
  length = mul32 num section_size;
  expand_down = 0;
  expand_up = 0;
  lower_padding = 0;
  upper_padding = 0;
  mem_source = base;
}

-- `sects[i].Flags`, with SHF_WRITE and SHF_EXECINSTR.
unfoldable pub section_flags : Elf32Shdr → ℕ
section_flags e =
    let f = if test_bit e.sh_flags 0 then bit_or 0x4083 0x4 else 0x4083 in
    if test_bit e.sh_flags 2 then bit_or f 0x8 else f

-- `sects[i]`, all of whose fields are written.
unfoldable pub section_of : (strings : ℕ) → Elf32Shdr → Section
section_of strings e = record {
  name = add32 strings e.sh_name;
  flags = section_flags e;
  base = e.sh_addr;
  length = e.sh_size;
  expand_down = 0;
  expand_up = 0;
  lower_padding = 0;
  upper_padding = 0;
  mem_source = e.sh_addr;
}

-- `&sects[i]`
unfoldable pub sect : (base i : ℕ) → Item
sect base i = add32 base (mul32 i section_size)

-- `e_str->sh_addr`, which is read for each header that is not empty.
unfoldable pub strings_at : Multiboot → Option ℕ
strings_at mb = elim (get_elem? mb.elf mb.header.elf_shndx) [
  | none ↦ none
  | some e ↦ some e.sh_addr
]

module _ {L T : Type 0} (ops : IList L) (threads : IList T) (im : Image) where
  -- `Sections->Add` of a section at an address.
  unfoldable pub add_section : Item → Section → Kernel L T → Option (Kernel L T)
  unfolding put
  add_section item s k =
      let at = put k.at item s in
      elim (Sections.add ops at item k.sections) [
        | faults ↦ none
        | throws_index ↦ none
        | returns _ ss ↦ some (record k { at = at; sections = ss })
      ]

  -- The rest of a round for a section that is not empty: Add, and the test for `.bss`.
  unfoldable pub add_elf : (strings : ℕ) → Item → Elf32Shdr → Kernel L T → Option (Kernel L T)
  unfolding section_of
  add_elf strings item e k = elim (add_section item (section_of strings e) k) [
    | none ↦ none
    | some k' ↦ elim (strcmp im.fuel im.bytes im.bss_name (add32 strings e.sh_name)) [
      | none ↦ none
      | some r ↦ some (elim r [
        | pos n ↦ if n == 0 then record k' { startup_stack = some item } else k'
        | negsuc n ↦ k'
      ])
    ]
  ]

  -- The loop over the ELF headers from the index `i` on.
  unfoldable pub add_elfs :
      (base : ℕ) (strings : Option ℕ) (i : ℕ) → List Elf32Shdr → Kernel L T → Option (Kernel L T)
  unfolding add_elf sect
  add_elfs base strings i [] k = some k
  add_elfs base strings i (e ∷ rest) k = elim (e.sh_size == 0) [
    | true ↦ add_elfs base strings (suc i) rest k
    | false ↦ elim strings [
      | none ↦ none
      | some st ↦ elim (add_elf st (sect base i) e k) [
        | none ↦ none
        | some k' ↦ add_elfs base strings (suc i) rest k'
      ]
    ]
  ]

  -- The startup thread.
  unfoldable pub add_startup : Kernel L T → Option (Kernel L T)
  add_startup k = elim (threads.add im.thread k.threads) [
    | none ↦ none
    | some (_, ts) ↦ some (record k {
      threads = ts;
      startup_name = im.kst_name;
      startup_location = loc_current;
      startup_priority = negsuc 0;
      current_thread = some im.thread;
    })
  ]

  -- InitKernel once it has a place for the sections.
  unfoldable pub load_sections :
      (base : ℕ) (strings : Option ℕ) (num : ℕ) → List Elf32Shdr → Kernel L T → Option (Kernel L T)
  unfolding add_elfs add_startup headers_section
  load_sections base strings num headers k =
      elim (add_section im.headers (headers_section im base num) k) [
        | none ↦ none
        | some k1 ↦ elim (add_elfs base strings 0 headers k1) [
          | none ↦ none
          | some k2 ↦ add_startup k2
        ]
      ]

  -- Kernel::InitKernel after Parse, which has copied the ELF headers to `elf`.
  unfoldable pub init_kernel : Multiboot → Kernel L T → Option (Kernel L T)
  unfolding load_sections strings_at
  init_kernel mb k =
      let num = mb.header.elf_num in
      let base = find_range mb (mul32 num section_size) in
      if base == 0 then some k else load_sections base (strings_at mb) num (take num mb.elf) k
