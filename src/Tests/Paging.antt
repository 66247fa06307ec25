-- ===== src/Tests/Paging.antt =====
-- kernel/i386/i386_vmem.cpp on a machine with one page table.
use tysos_cxx.Prelude.{
  ℕ, ◌+◌, ◌-◌, ◌*◌, ◌%◌, ◌<◌, ◌≤◌, ◌≡◌, ◌≢◌, ◌⊎◌, true, false, none, some, ◌==◌, refl, arith,
  if◌then◌else◌,
}
use tysos_cxx.Memory.Paging.{Machine, PageAllocator, MapArgs, pd_ent, pt_ent, translate, map_page}
use tysos_cxx.Memory.KernelTables.{Mapped, map_section, map_section-Mapped}
use tysos_cxx.Section.{Section, empty_section}
use tysos_cxx.Memory.Paging.Directory.{init_space}
use tysos_cxx.Memory.Paging.Translate.{PointsTo}
use tysos_cxx.Memory.Paging.Steps.{HasTable}
use tysos_cxx.Memory.Paging.Mapping.{map_page-translate, unmap_page-translate}
use tysos_cxx.Memory.Paging.Spaces.{init_space-Directory}

-- The page directory at 0x10000 maps itself, and has a page table at 0x20000 for the first
-- 4 MiB of the process.
abbrev machine : Machine
machine = record {
  mem = λ a. if a == 0x103fc then 0x10103 else if a == 0x10400 then 0x20007 else 0;
  cr3 = 0x10000;
  enabled = true;
  temp_pd = 0x200000;
  temp_pt = 0x201000;
  temp_p = 0x202000;
}

-- One free page, at 0x30000.
abbrev alloc : PageAllocator
alloc = record {
  alloc_page = λ m. some (0x30000, m);
  begin_alloc = λ m. some (0x30000, m);
  end_alloc = λ v m. some (tt, m);
}

abbrev map_args : MapArgs
map_args = record {
  virtaddr = 0x40003123;
  asp = none;
  unmap = false;
  length = 0;
  physaddr = 0x54321;
  user = true;
  writable = true;
  cache_disabled = true;
  write_through = false;
}

machine-HasTable : HasTable machine 0x40003123 0x20000
unfolding pd_ent
machine-HasTable = record {
  enabled = refl;
  self_mapped = record {
    flags = 0x103;
    is = refl;
    aligned = refl;
    low = omega arith;
    is_present = refl;
    word = omega arith;
  };
  there = record {
    flags = 7;
    is = refl;
    aligned = refl;
    low = omega arith;
    is_present = refl;
    word = omega arith;
  };
  other = omega arith;
}

map_page-translate_example :
    (m' : Machine) × (map_page 1 alloc map_args machine ≡ some (0, m'))
    × (translate m' 0x40003123 ≡ some (0x54321 - 0x54321 % 4096 + 0x40003123 % 4096))
    × ((w table' : ℕ)
        → PointsTo (machine.mem (0x10000 + 4 * pd_ent w)) table'
        → (table' ≡ 0x20000 → pt_ent w ≢ pt_ent 0x40003123)
        → translate m' w ≡ translate machine w)
map_page-translate_example =
    map_page-translate 0 alloc map_args machine 0x20000 machine-HasTable refl refl refl
      (omega arith) (omega arith)

abbrev unmap_args : MapArgs
unmap_args = record map_args { unmap = true; physaddr = 0 }

unmap_page-translate_example :
    (m' : Machine) × (map_page 1 alloc unmap_args machine ≡ some (0, m'))
    × (translate m' 0x40003123 ≡ none)
    × ((w table' : ℕ)
        → PointsTo (machine.mem (0x10000 + 4 * pd_ent w)) table'
        → (table' ≡ 0x20000 → pt_ent w ≢ pt_ent 0x40003123)
        → translate m' w ≡ translate machine w)
unmap_page-translate_example =
    unmap_page-translate 0 alloc unmap_args machine 0x20000 machine-HasTable refl refl refl

-- The machine before paging is enabled.
abbrev early : Machine
early = record machine { enabled = false }

init_space-Directory_example :
    (m' : Machine) × (init_space 1 alloc 0x400000 early ≡ some (0x30000, m'))
    × PointsTo (m'.mem (0x30000 + 4 * 255)) 0x30000
    × ((j : ℕ) → j < 255 → PointsTo (m'.mem (0x30000 + 4 * j)) (0x400000 + j * 4096))
    × ((a : ℕ) → (a < 0x30000) ⊎ (0x30000 + 4 * 256 ≤ a) → m'.mem a ≡ early.mem a)
init_space-Directory_example =
    init_space-Directory 1 alloc 0x400000 0x30000 early early refl refl refl (omega arith) refl
      (omega arith) refl (omega arith)

-- The text of the kernel, at its own physical addresses.
abbrev kernel_text : Section
kernel_text = record (empty_section 0x100000) { flags = 0x4083; base = 0x100000; length = 0x2800 }

map_section-Mapped_example :
    (kpt' : ℕ → ℕ) × (map_section 4 kernel_text (λ i. 0) ≡ some kpt')
    × Mapped kernel_text (λ i. 0) kpt'
map_section-Mapped_example =
    map_section-Mapped 4 kernel_text (λ i. 0) refl (omega arith) (omega arith) (omega arith)
