-- ===== src/Memory/Paging.antt =====
-- Page tables: i386_VirtMemManager::MapPage, TempMap and TempUnmap (kernel/i386/i386_vmem.cpp) on
-- physical memory, with the translation of virtual addresses that the processor makes. `none` is
-- a page fault, or that the fuel of the recursion does not suffice. The lock of the temporary
-- pages is left out, the buffer of translations is always up to date, and the kernel's writes do not test
-- the flag that a page may be written.
pub mod Translate
pub mod Steps
pub mod Mapping
pub mod Directory
pub mod Spaces
use tysos_cxx.Prelude.{
  ℕ, zero, suc, ◌+◌, ◌-◌, ◌*◌, ◌/◌, ◌%◌, ◌^◌, Bool, true, false, ◌&&◌, not, Option, none, some,
  bit_and, bit_or, ◌==◌, if◌then◌else◌, add32, sub32, test_bit,
}

abbrev pub page_size : ℕ
page_size = 0x1000

abbrev pub page_mask : ℕ
page_mask = 0xfffff000

-- PAGETABLES and PAGEDIR: the page tables and the page directory of the current address space.
abbrev pub page_tables : ℕ
page_tables = 0x3fc00000

abbrev pub page_dir : ℕ
page_dir = 0x3fcff000

-- P_PRESENT, P_WRITABLE, P_USER, P_WRITE_THROUGH and P_CACHE_DISABLED.
abbrev pub p_present : ℕ
p_present = 1

abbrev pub p_writable : ℕ
p_writable = 2

abbrev pub p_user : ℕ
p_user = 4

abbrev pub p_write_through : ℕ
p_write_through = 8

abbrev pub p_cache_disabled : ℕ
p_cache_disabled = 16

-- Physical memory by the addresses of words, the page directory that the processor uses, the field
-- Enabled, and the bases of the three temporary sections.
pub record Machine : Type 0 where
  pub mem : ℕ → ℕ
  pub cr3 : ℕ
  pub enabled : Bool
  pub temp_pd : ℕ
  pub temp_pt : ℕ
  pub temp_p : ℕ

abbrev pub M : Type 0 → Type 0
M A = Machine → Option (A × Machine)

infixl 5 ◌>>=◌ ◌>>◌
abbrev pub ◌>>=◌ : {A B : Type 0} → M A → (A → M B) → M B
◌>>=◌ c k m = elim (c m) [ none ↦ none | some (a, m') ↦ k a m' ]

abbrev pub ◌>>◌ : {B : Type 0} → M (Unit {0}) → M B → M B
c >> k = c >>= λ _. k

abbrev pub pure : {A : Type 0} → A → M A
pure a m = some (a, m)

unfoldable pub present : ℕ → Bool
present e = test_bit e 0

unfoldable pub pd_ent : ℕ → ℕ
pd_ent v = (v / 2 ^ 22) % 1024

unfoldable pub pt_ent : ℕ → ℕ
pt_ent v = (v / 2 ^ 12) % 1024

-- The physical address of a virtual one, through the page directory and a page table.
unfoldable pub translate : Machine → ℕ → Option ℕ
translate m v =
    let pde = m.mem (m.cr3 + 4 * pd_ent v) in
    if present pde
    then (let pte = m.mem (bit_and pde page_mask + 4 * pt_ent v) in
        if present pte then some (bit_and pte page_mask + v % page_size) else none)
    else none

unfoldable pub poke_word : (ℕ → ℕ) → ℕ → ℕ → ℕ → ℕ
poke_word mem p w a = if a == p then w else mem a

unfoldable pub read_word : ℕ → M ℕ
read_word v m = elim (translate m v) [ none ↦ none | some p ↦ some (m.mem p, m) ]

unfoldable pub write_word : ℕ → ℕ → M (Unit {0})
unfolding poke_word
write_word v w m = elim (translate m v) [
  | none ↦ none
  | some p ↦ some (tt, record m { mem = poke_word m.mem p w })
]

-- Alloc, BeginAlloc and EndAlloc of the physical allocator.
pub record PageAllocator : Type 0 where
  pub alloc_page : M ℕ
  pub begin_alloc : M ℕ
  pub end_alloc : ℕ → M (Unit {0})

-- The arguments of MapPage; `asp` is the page directory of another address space, or NULL.
pub record MapArgs : Type 0 where
  pub virtaddr : ℕ
  pub asp : Option ℕ
  pub unmap : Bool
  pub length : ℕ
  pub physaddr : ℕ
  pub user : Bool
  pub writable : Bool
  pub cache_disabled : Bool
  pub write_through : Bool

-- A call with the default arguments.
unfoldable pub defaults : ℕ → ℕ → MapArgs
defaults v p = record {
  virtaddr = v;
  asp = none;
  unmap = false;
  length = 0;
  physaddr = p;
  user = false;
  writable = true;
  cache_disabled = false;
  write_through = false;
}

abbrev pub Call : Type 0
Call = MapArgs → M ℕ

-- `wr_pd` and `wr_pt`.
unfoldable pub table_pointers : Call → MapArgs → M (ℕ × ℕ)
table_pointers self a m = elim a.asp [
  | none ↦ some ((page_dir, page_tables + pd_ent a.virtaddr * 0x1000), m)
  | some space ↦ elim (self (defaults m.temp_pd space) m) [
    | none ↦ none
    | some (_, m') ↦ some ((m.temp_pd, m.temp_pt), m')
  ]
]

-- The call that maps a new page table at `wr_pt`.
unfoldable pub table_call : MapArgs → ℕ → ℕ → MapArgs
table_call a wr_pt new_pt = record (defaults wr_pt new_pt) { asp = a.asp; user = true }

-- `if(asp != NULL) MapPage(...)`
unfoldable pub if_other : Call → MapArgs → MapArgs → M (Unit {0})
if_other self a call = elim a.asp [ none ↦ pure tt | some space ↦ (do r ← self call; pure tt) ]

-- The branch that creates a page table.
unfoldable pub new_table : PageAllocator → Call → MapArgs → ℕ → ℕ → M (Unit {0})
new_table alloc self a wr_pd wr_pt = do
  new_pt ← alloc.begin_alloc
  r ← self (table_call a wr_pt new_pt)
  alloc.end_alloc wr_pt
  write_word (wr_pd + 4 * pd_ent a.virtaddr)
      (bit_or (bit_or (bit_or new_pt p_present) p_user) p_writable)
  if_other self a (defaults wr_pt new_pt)

unfoldable pub ensure_table : PageAllocator → Call → MapArgs → ℕ → ℕ → M (Unit {0})
ensure_table alloc self a wr_pd wr_pt = do
  e ← read_word (wr_pd + 4 * pd_ent a.virtaddr)
  if present e then pure tt else new_table alloc self a wr_pd wr_pt

-- `wr_pt[pt_ent] &= 0xfffffffe`
unfoldable pub unmap_entry : MapArgs → ℕ → M (Unit {0})
unmap_entry a wr_pt = do
  e ← read_word (wr_pt + 4 * pt_ent a.virtaddr)
  write_word (wr_pt + 4 * pt_ent a.virtaddr) (bit_and e 0xfffffffe)

unfoldable pub or_flag : Bool → ℕ → ℕ → ℕ
or_flag b f e = if b then bit_or e f else e

-- The entry that the writes to `wr_pt[pt_ent]` put together.
unfoldable pub entry : MapArgs → ℕ → ℕ
entry a physaddr = or_flag a.write_through p_write_through (
    or_flag a.cache_disabled p_cache_disabled (
      or_flag a.writable p_writable
        (or_flag a.user p_user (bit_or (bit_and physaddr page_mask) p_present))))

-- A page for the mapping: the physical address, and whether it is a new page.
unfoldable pub obtain : PageAllocator → Call → MapArgs → M (ℕ × Bool)
obtain alloc self a =
    if a.physaddr == 0
    then (do
      p ← alloc.begin_alloc
      λ m. (do if_other self a (defaults m.temp_p p); pure (p, true)) m)
    else pure (a.physaddr, false)

-- The end of the allocation.
unfoldable pub complete : PageAllocator → Call → MapArgs → M (Unit {0})
complete alloc self a m = elim a.asp [
  | none ↦ alloc.end_alloc (bit_and a.virtaddr page_mask) m
  | some space ↦
      (do alloc.end_alloc m.temp_p; if_other self a (record (defaults m.temp_p 0) { unmap = true }))
        m
]

unfoldable pub map_entry : PageAllocator → Call → MapArgs → ℕ → M (Unit {0})
map_entry alloc self a wr_pt = do
  (p, created) ← obtain alloc self a
  write_word (wr_pt + 4 * pt_ent a.virtaddr) (entry a p)
  if created then complete alloc self a else pure tt

-- MapPage for one page.
unfoldable pub map_one : PageAllocator → Call → Call
map_one alloc self a m =
    if not m.enabled
    then some (0, m)
    else (do
      (wr_pd, wr_pt) ← table_pointers self a
      ensure_table alloc self a wr_pd wr_pt
      if a.unmap then unmap_entry a wr_pt else map_entry alloc self a wr_pt
      if_other self a (record (defaults wr_pd 0) { unmap = true })
      if_other self a (record (defaults wr_pt 0) { unmap = true })
      pure 0)
        m

-- The loop over the pages of a length; the result is the physical address behind the last page.
-- A length that is no multiple of the page size never comes to 0.
unfoldable pub map_pages : ℕ → Call → Call
map_pages zero self a m = if a.length == 0 then some (a.physaddr, m) else none
map_pages (suc rounds) self a m =
    if a.length == 0
    then some (a.physaddr, m)
    else elim (self (record a { length = 0; writable = true }) m) [
      | none ↦ none
      | some (_, m') ↦
          map_pages rounds self
            (record a {
              length = sub32 a.length page_size;
              virtaddr = add32 a.virtaddr page_size;
              physaddr = if a.physaddr == 0 then 0 else add32 a.physaddr page_size;
            })
            m'
    ]

-- MapPage; `fuel` bounds the depth of its calls of itself.
unfoldable pub map_page : ℕ → PageAllocator → Call
map_page zero alloc a m = none
map_page (suc fuel) alloc a m =
    if not (a.length == 0) && not (a.length == page_size)
    then map_pages (a.length / page_size) (map_page fuel alloc) a m
    else map_one alloc (map_page fuel alloc) a m

-- TempMap and TempUnmap.
unfoldable pub temp_map : ℕ → PageAllocator → ℕ → M ℕ
temp_map fuel alloc paddr m = elim (map_page fuel alloc (defaults m.temp_p paddr) m) [
  | none ↦ none
  | some (_, m') ↦ some (m'.temp_p, m')
]

unfoldable pub temp_unmap : ℕ → PageAllocator → M (Unit {0})
temp_unmap fuel alloc m =
    elim (map_page fuel alloc (record (defaults m.temp_p 0) { unmap = true }) m) [
      | none ↦ none
      | some (_, m') ↦ some (tt, m')
    ]
