-- ===== src/Memory/Paging/Steps.antt =====
-- The steps of i386_VirtMemManager::MapPage (kernel/i386/i386_vmem.cpp), call by call.
use tysos_cxx.Prelude.{ℕ, ◌+◌, ◌*◌, ◌≡◌, ◌≢◌, true, false, none, some, bit_and, ◌==◌, refl, arith}
use tysos_cxx.Memory.Paging.{
  Machine, PageAllocator, Call, MapArgs, page_dir, page_tables, present, pd_ent, pt_ent, translate,
  poke_word, read_word, write_word, table_pointers, ensure_table, obtain, map_entry, unmap_entry,
  if_other, entry, map_one,
}
use tysos_cxx.Memory.Paging.Translate.{PointsTo}

-- Paging is enabled, the page directory maps itself, and it refers to a page table for `v` that is
-- not the page directory.
pub record HasTable (m : Machine) (v table : ℕ) : Type 0 where
  pub enabled : m.enabled ≡ true
  pub self_mapped : PointsTo (m.mem (m.cr3 + 4 * 255)) m.cr3
  pub there : PointsTo (m.mem (m.cr3 + 4 * pd_ent v)) table
  pub other : table ≢ m.cr3

-- The machine with one word of its memory changed.
abbrev pub poked : Machine → ℕ → ℕ → Machine
poked m p w = record m { mem = poke_word m.mem p w }

pub write_word-run :
    (m : Machine) (v p w : ℕ) → translate m v ≡ some p → write_word v w m ≡ some (tt, poked m p w)
unfolding write_word
write_word-run m v p w e = rw (write_word, e) refl

pub read_word-run :
    (m : Machine) (v p : ℕ) → translate m v ≡ some p → read_word v m ≡ some (m.mem p, m)
unfolding read_word
read_word-run m v p e = rw (read_word, e) refl

pub ensure_table-run :
    (alloc : PageAllocator) (self : Call) (a : MapArgs) (m : Machine) (wr_pd wr_pt e : ℕ)
    → read_word (wr_pd + 4 * pd_ent a.virtaddr) m ≡ some (e, m)
    → present e ≡ true
    → ensure_table alloc self a wr_pd wr_pt m ≡ some (tt, m)
unfolding ensure_table
ensure_table-run alloc self a m wr_pd wr_pt e read yes_there = ground arith

pub map_entry-run :
    (alloc : PageAllocator) (self : Call) (a : MapArgs) (m m' : Machine) (wr_pt : ℕ)
    → (a.physaddr == 0) ≡ false
    → write_word (wr_pt + 4 * pt_ent a.virtaddr) (entry a a.physaddr) m ≡ some (tt, m')
    → map_entry alloc self a wr_pt m ≡ some (tt, m')
unfolding map_entry obtain
map_entry-run alloc self a m m' wr_pt given written = ground arith

pub map_one-map :
    (alloc : PageAllocator) (self : Call) (a : MapArgs) (m m' : Machine)
    → m.enabled ≡ true
    → a.asp ≡ none
    → a.unmap ≡ false
    → ensure_table alloc self a page_dir (page_tables + pd_ent a.virtaddr * 0x1000) m ≡ some (tt, m)
    → map_entry alloc self a (page_tables + pd_ent a.virtaddr * 0x1000) m ≡ some (tt, m')
    → map_one alloc self a m ≡ some (0, m')
unfolding map_one table_pointers if_other
map_one-map alloc self a m m' enabled here mapping found done = ground arith

pub map_one-unmap :
    (alloc : PageAllocator) (self : Call) (a : MapArgs) (m m' : Machine)
    → m.enabled ≡ true
    → a.asp ≡ none
    → a.unmap ≡ true
    → ensure_table alloc self a page_dir (page_tables + pd_ent a.virtaddr * 0x1000) m ≡ some (tt, m)
    → unmap_entry a (page_tables + pd_ent a.virtaddr * 0x1000) m ≡ some (tt, m')
    → map_one alloc self a m ≡ some (0, m')
unfolding map_one table_pointers if_other
map_one-unmap alloc self a m m' enabled here unmapping found done = ground arith

pub unmap_entry-run :
    (a : MapArgs) (m m' : Machine) (wr_pt e : ℕ)
    → read_word (wr_pt + 4 * pt_ent a.virtaddr) m ≡ some (e, m)
    → write_word (wr_pt + 4 * pt_ent a.virtaddr) (bit_and e 0xfffffffe) m ≡ some (tt, m')
    → unmap_entry a wr_pt m ≡ some (tt, m')
unfolding unmap_entry
unmap_entry-run a m m' wr_pt e read written = ground arith
