-- ===== src/Memory/Paging/Directory.antt =====
-- i386_AddressSpace::Init (kernel/i386/i386_vmem.cpp): the page directory of a new address space.
use tysos_cxx.Prelude.{
  ℕ, zero, suc, ◌+◌, ◌*◌, true, none, some, bit_and, bit_or, ◌==◌, if◌then◌else◌, add32,
}
use tysos_cxx.Memory.Paging.{
  M, PageAllocator, ◌>>=◌, ◌>>◌, pure, poke_word, write_word, page_size, page_mask, p_present,
  p_writable, defaults, map_page,
}

abbrev pub p_global : ℕ
p_global = 0x100

-- A write of the kernel, before or after paging is enabled.
unfoldable pub set_word : ℕ → ℕ → M (Unit {0})
unfolding poke_word
set_word v w m =
    if m.enabled then write_word v w m else some (tt, record m { mem = poke_word m.mem v w })

-- A directory entry that i386_AddressSpace::Init writes.
unfoldable pub space_entry : ℕ → ℕ
space_entry p = bit_or (bit_or (bit_or p p_present) p_writable) p_global

-- The loop of Init from entry `i` on, `n` entries: the page tables of the kernel at `base`.
unfoldable pub kernel_entries : ℕ → ℕ → ℕ → ℕ → M (Unit {0})
kernel_entries zero i base wr_pd m = some (tt, m)
kernel_entries (suc n) i base wr_pd m =
    elim (set_word (wr_pd + 4 * i) (space_entry (bit_and (add32 base (i * page_size)) page_mask))
      m) [ none ↦ none | some (_, m') ↦ kernel_entries n (suc i) base wr_pd m' ]

-- The two halves of Init; the result is `addr_space`.
unfoldable pub fill_directory : ℕ → ℕ → ℕ → M (Unit {0})
fill_directory base wr_pd addr_space = do
  kernel_entries 255 0 base wr_pd
  set_word (wr_pd + 4 * 255) (space_entry addr_space)

-- i386_AddressSpace::Init, with the base of the kernel's page tables.
unfoldable pub init_space : ℕ → PageAllocator → ℕ → M ℕ
init_space fuel alloc base m =
    if m.enabled
    then (do
      addr_space ← map_page fuel alloc (defaults m.temp_pd 0)
      fill_directory base m.temp_pd addr_space
      r ← map_page fuel alloc (record (defaults m.temp_pd 0) { unmap = true })
      pure addr_space)
        m
    else (do
      wr_pd ← alloc.alloc_page
      if wr_pd == 0 then pure 0 else (do fill_directory base wr_pd wr_pd; pure wr_pd))
        m
