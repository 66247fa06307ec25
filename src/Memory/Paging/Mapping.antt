-- ===== src/Memory/Paging/Mapping.antt =====
-- i386_VirtMemManager::MapPage (kernel/i386/i386_vmem.cpp) in the current address space, where the
-- page table is there.
use tysos_cxx.Prelude.{
  ℕ, suc, ◌+◌, ◌-◌, ◌*◌, ◌/◌, ◌%◌, ◌^◌, ◌<◌, ◌≡◌, ◌≢◌, true, false, none, some, bit_and, refl, sym,
  ◌∙◌, ap, arith, subst,
}
use tysos_cxx.Prelude.Words.{bit_and_even}
use tysos_cxx.Memory.Paging.{
  Machine, PageAllocator, MapArgs, page_dir, page_tables, present, pd_ent, pt_ent, translate,
  poke_word, ensure_table, entry, map_one, map_page,
}
use tysos_cxx.Memory.Paging.Translate.{
  PointsTo, PointsTo-present, PointsTo-page, translate_lem, translate-page_dir,
  translate-page_tables, entry-PointsTo,
}
use tysos_cxx.Memory.Paging.Steps.{
  HasTable, poked, write_word-run, read_word-run, ensure_table-run, map_entry-run, map_one-map,
  map_one-unmap, unmap_entry-run,
}

pd_ent_lt : (v : ℕ) → pd_ent v < 1024
unfolding pd_ent
pd_ent_lt v = omega arith

pt_ent_lt : (v : ℕ) → pt_ent v < 1024
unfolding pt_ent
pt_ent_lt v = omega arith

poke_word_other : (mem : ℕ → ℕ) (p x a : ℕ) → a ≢ p → poke_word mem p x a ≡ mem a
unfolding poke_word
poke_word_other mem p x a ne = ground arith

poke_word_at : (mem : ℕ → ℕ) (p x : ℕ) → poke_word mem p x p ≡ x
unfolding poke_word
poke_word_at mem p x = ground arith

translate-run :
    (m : Machine) (mem' : ℕ → ℕ) (w table : ℕ)
    → PointsTo (m.mem (m.cr3 + 4 * pd_ent w)) table
    → mem' (m.cr3 + 4 * pd_ent w) ≡ m.mem (m.cr3 + 4 * pd_ent w)
    → mem' (table + 4 * pt_ent w) ≡ m.mem (table + 4 * pt_ent w)
    → translate (record m { mem = mem' }) w ≡ translate m w
unfolding translate
translate-run m mem' w table to same_d same_t =
    rw (translate, same_d, PointsTo-present _ table to, PointsTo-page _ table to, same_t) refl

-- Entries of two pages have different addresses, unless they are the same entry of one page.
pages_apart :
    (p q i j : ℕ)
    → p % 4096 ≡ 0
    → q % 4096 ≡ 0
    → i < 1024
    → j < 1024
    → (p ≡ q → i ≢ j)
    → p + 4 * i ≢ q + 4 * j
pages_apart p q i j ap aq li lj apart e =
    let same : p ≡ q = omega arith in let index : i ≡ j = omega arith in apart same index

map_page-run :
    (fuel : ℕ) (alloc : PageAllocator) (a : MapArgs) (m m' : Machine)
    → a.length ≡ 0
    → map_one alloc (map_page fuel alloc) a m ≡ some (0, m')
    → map_page (suc fuel) alloc a m ≡ some (0, m')
unfolding map_page
map_page-run fuel alloc a m m' one e = ground arith

-- The word that changes is no word that the translation of another page reads.
poked-translate :
    (m : Machine) (v w table table' x : ℕ)
    → HasTable m v table
    → PointsTo (m.mem (m.cr3 + 4 * pd_ent w)) table'
    → (table' ≡ table → pt_ent w ≢ pt_ent v)
    → translate (poked m (table + 4 * pt_ent v) x) w ≡ translate m w
poked-translate m v w table table' x has to apart =
    let aligned = has.self_mapped.aligned in
    let lt = pt_ent_lt v in
    let lt' = pt_ent_lt w in
    let lt_d = pd_ent_lt w in
    let table_aligned = has.there.aligned in
    let table_aligned' = to.aligned in
    let other = has.other in
    let at : ℕ = table + 4 * pt_ent v in
    translate-run m (poke_word m.mem at x) w table' to
      (poke_word_other m.mem at x (m.cr3 + 4 * pd_ent w) (
        pages_apart m.cr3 table (pd_ent w) (pt_ent v) aligned table_aligned lt_d lt
          (λ e. absurd (other (sym e)))))
      (poke_word_other m.mem at x (table' + 4 * pt_ent w)
        (pages_apart table' table (pt_ent w) (pt_ent v) table_aligned' table_aligned lt' lt apart))

translate-none :
    (m : Machine) (v table : ℕ)
    → PointsTo (m.mem (m.cr3 + 4 * pd_ent v)) table
    → present (m.mem (table + 4 * pt_ent v)) ≡ false
    → translate m v ≡ none
unfolding translate
translate-none m v table to gone =
    rw (translate, PointsTo-present _ table to, PointsTo-page _ table to, gone) refl

cleared-present : (e : ℕ) → present (bit_and e 0xfffffffe) ≡ false
unfolding present
cleared-present e =
    let even = bit_and_even e 0x7fffffff in
    let b : bit_and e 0xfffffffe / 1 % 2 ≡ 0 = omega arith in ground arith

module _ (fuel : ℕ) (alloc : PageAllocator) (a : MapArgs) (m : Machine) (table : ℕ)
    (has : HasTable m a.virtaddr table) (here : a.asp ≡ none) (one : a.length ≡ 0) where
  -- The address of the entry.
  abbrev at : ℕ
  at = table + 4 * pt_ent a.virtaddr

  found :
      ensure_table alloc
        (map_page fuel alloc)
        a
        page_dir
        (page_tables + pd_ent a.virtaddr * 0x1000)
        m
      ≡ some (tt, m)
  found =
      let v : ℕ = a.virtaddr in
      ensure_table-run alloc (map_page fuel alloc) a m page_dir (page_tables + pd_ent v * 0x1000)
        (m.mem (m.cr3 + 4 * pd_ent v))
        (read_word-run m (page_dir + 4 * pd_ent v) (m.cr3 + 4 * pd_ent v)
          (translate-page_dir m has.self_mapped v))
        (PointsTo-present _ table has.there)

  entry_at :
      translate m (page_tables + pd_ent a.virtaddr * 0x1000 + 4 * pt_ent a.virtaddr) ≡ some at
  entry_at = translate-page_tables m has.self_mapped a.virtaddr table has.there

  kept_table : (x : ℕ) → PointsTo (poke_word m.mem at x (m.cr3 + 4 * pd_ent a.virtaddr)) table
  kept_table x =
      subst (λ e. PointsTo e table)
        (sym (
          poke_word_other m.mem at x (m.cr3 + 4 * pd_ent a.virtaddr) (
            pages_apart m.cr3 table (pd_ent a.virtaddr) (pt_ent a.virtaddr) has.self_mapped.aligned
              has.there.aligned (pd_ent_lt a.virtaddr) (pt_ent_lt a.virtaddr)
              (λ e. absurd (has.other (sym e))))))
        has.there

  -- MapPage of a page at a physical address, in the current address space: it returns, and
  -- afterwards the address translates to the physical page, at the same offset. The translation
  -- of every other address that goes through another page table or another entry of this one is
  -- as before. Paging is enabled, the page directory maps itself by entry 255, it has a page table
  -- for the address that is not the directory itself, and the physical address is a 32-bit number
  -- other than 0.
  pub map_page-translate :
      a.unmap ≡ false
      → a.physaddr ≢ 0
      → a.physaddr < 2 ^ 32
      → (m' : Machine) × (map_page (suc fuel) alloc a m ≡ some (0, m'))
        × (translate m' a.virtaddr ≡ some (a.physaddr - a.physaddr % 4096 + a.virtaddr % 4096))
        × ((w table' : ℕ)
            → PointsTo (m.mem (m.cr3 + 4 * pd_ent w)) table'
            → (table' ≡ table → pt_ent w ≢ pt_ent a.virtaddr)
            → translate m' w ≡ translate m w)
  map_page-translate mapping given small =
      let x = entry a a.physaddr in
      let self = map_page fuel alloc in
      let written =
        write_word-run m (page_tables + pd_ent a.virtaddr * 0x1000 + 4 * pt_ent a.virtaddr) at x
          entry_at in
      let mapped =
        map_entry-run alloc self a m (poked m at x) (page_tables + pd_ent a.virtaddr * 0x1000)
          (ground arith) written in
      (
        poked m at x,
        map_page-run fuel alloc a m (poked m at x) one
            (map_one-map alloc self a m (poked m at x) has.enabled here mapping found mapped),
        translate_lem (poked m at x) a.virtaddr table (a.physaddr - a.physaddr % 4096)
            (kept_table x)
            (subst (λ e. PointsTo e (a.physaddr - a.physaddr % 4096))
              (sym (poke_word_at m.mem at x)) (entry-PointsTo a a.physaddr small)),
        λ w table' to apart. poked-translate m a.virtaddr w table table' x has to apart,
      )

  -- MapPage that unmaps a page of the current address space returns, and afterwards the address
  -- translates to nothing. The translation of every other address that goes through another page
  -- table or another entry of this one is as before. Paging is enabled, the page directory maps
  -- itself by entry 255, and it has a page table for the address that is not the directory itself.
  pub unmap_page-translate :
      a.unmap ≡ true
      → (m' : Machine) × (map_page (suc fuel) alloc a m ≡ some (0, m'))
        × (translate m' a.virtaddr ≡ none)
        × ((w table' : ℕ)
            → PointsTo (m.mem (m.cr3 + 4 * pd_ent w)) table'
            → (table' ≡ table → pt_ent w ≢ pt_ent a.virtaddr)
            → translate m' w ≡ translate m w)
  unmap_page-translate unmapping =
      let x = bit_and (m.mem at) 0xfffffffe in
      let self = map_page fuel alloc in
      let wr_pt : ℕ = page_tables + pd_ent a.virtaddr * 0x1000 in
      let unmapped =
        unmap_entry-run a m (poked m at x) wr_pt (m.mem at)
          (read_word-run m (wr_pt + 4 * pt_ent a.virtaddr) at entry_at)
          (write_word-run m (wr_pt + 4 * pt_ent a.virtaddr) at x entry_at) in
      (
        poked m at x,
        map_page-run fuel alloc a m (poked m at x) one
            (map_one-unmap alloc self a m (poked m at x) has.enabled here unmapping found unmapped),
        translate-none (poked m at x) a.virtaddr table (kept_table x)
            (ap present (poke_word_at m.mem at x) ∙ cleared-present (m.mem at)),
        λ w table' to apart. poked-translate m a.virtaddr w table table' x has to apart,
      )
