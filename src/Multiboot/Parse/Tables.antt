-- ===== src/Multiboot/Parse/Tables.antt =====
-- Multiboot::Parse as a whole (kernel/core/multiboot.cpp): when it succeeds, and what it leaves.
use tysos_cxx.Prelude.{
  false, some, ◌≤◌, ◌<◌, ◌≡◌, ◌⊎◌, refl, sym, ◌∙◌, true, length, get_elem?, set, add32, arith, inl,
  inr, test_bit, Bool-cases, Option-cases, subst, ltb, if◌then◌else◌, ◌↔◌,
}
use tysos_cxx.Multiboot.{
  Multiboot, MbHeader, elf_avail, mods_avail, mmap_avail, elf_max, mod_max, mmap_max, elfstr_max,
}
use tysos_cxx.Multiboot.Parse.{
  BootMemory, HasTables, HasCounts, copy_entries, copy_mmap, copy_bytes, copy_strings, copy_elf,
  parse_elf, parse_mods, parse_mmap, parse,
}
use tysos_cxx.Multiboot.Parse.Copies.{
  overwrite_fits, length-set, get_elem?-some, get_elem?-length, length-copy_entries,
  length-copy_mmap, length-copy_bytes,
}

module _ (b : BootMemory) (mb : Multiboot) (t : HasTables mb) where
  copy_elf-tables :
      (mb' : Multiboot) × (copy_elf b mb ≡ some mb')
      × HasTables mb'
      × (mb'.header.elf_num ≤ elf_max)
      × (mb'.header.elf_shndx ≡ mb.header.elf_shndx)
  unfolding copy_elf
  copy_elf-tables =
      let h = mb.header in
      let copied = copy_entries b.shdr_at elf_max h.elf_num h.elf_addr h.elf_size in
      let size = length-copy_entries b.shdr_at elf_max h.elf_num h.elf_addr h.elf_size in
      let room = t.elf in
      let (table, ran, same) = overwrite_fits copied mb.elf (omega arith) in
      (
        record mb {
          header = record h { elf_size = 40; elf_addr = b.elf_table; elf_num = length copied };
          elf = table;
        },
        rw (copy_elf, ran) refl,
        record { elf = same ∙ t.elf; elfstr = t.elfstr; mods = t.mods; mmap = t.mmap },
        omega arith,
        refl,
      )

  copy_strings-tables :
      mb.header.elf_shndx < elf_max
      → (mb' : Multiboot) × (copy_strings b mb ≡ some mb')
        × HasTables mb'
        × (mb'.header ≡ mb.header)
  unfolding copy_strings
  copy_strings-tables small =
      let tables = t.elf in
      let room = t.elfstr in
      let i = mb.header.elf_shndx in
      let (s, here) = get_elem?-some mb.elf i (omega arith) in
      let n = if ltb elfstr_max s.sh_size then elfstr_max else s.sh_size in
      let cap : n ≤ elfstr_max = ground arith in
      let size = length-copy_bytes b n s.sh_addr in
      let (strings, ran, same) =
        overwrite_fits (copy_bytes b n s.sh_addr) mb.elfstr (omega arith) in
      let new = record s { sh_addr = b.elfstr_table } in
      (
        record mb { elfstr = strings; elf = set mb.elf i new },
        rw (copy_strings, here, ran) refl,
        record {
          elf = length-set mb.elf i new ∙ t.elf;
          elfstr = same ∙ t.elfstr;
          mods = t.mods;
          mmap = t.mmap;
        },
        refl,
      )

  copy_strings-small :
      (mb' : Multiboot) → copy_strings b mb ≡ some mb' → mb.header.elf_shndx < elf_max
  unfolding copy_strings
  copy_strings-small mb' h = elim (Option-cases (get_elem? mb.elf mb.header.elf_shndx)) [
    | inl e ↦ absurd (cc (rw (e, copy_strings) at h))
    | inr (s, e) ↦
        let tables = t.elf in let l = get_elem?-length mb.elf mb.header.elf_shndx e in omega arith
  ]

  parse_mods-tables :
      (mb' : Multiboot) × (parse_mods b mb ≡ some mb')
      × HasTables mb'
      × (mb'.header.mods_count ≤ mod_max)
      × (mb'.header.elf_num ≡ mb.header.elf_num)
  unfolding parse_mods
  parse_mods-tables = elim (Bool-cases (test_bit mb.header.flags mods_avail)) [
    | inl on ↦
        let h = mb.header in
        let copied = copy_entries b.mod_at mod_max h.mods_count h.mods_addr 16 in
        let size = length-copy_entries b.mod_at mod_max h.mods_count h.mods_addr 16 in
        let room = t.mods in
        let (table, ran, same) = overwrite_fits copied mb.mods (omega arith) in
        (
          record mb {
            header = record h { mods_addr = b.mods_table; mods_count = length copied };
            mods = table;
          },
          rw (parse_mods, on, ran) refl,
          record { elf = t.elf; elfstr = t.elfstr; mods = same ∙ t.mods; mmap = t.mmap },
          omega arith,
          refl,
        )
    | inr off ↦ (
      record mb { header = record mb.header { mods_count = 0 } },
      rw (parse_mods, off) refl,
      record { elf = t.elf; elfstr = t.elfstr; mods = t.mods; mmap = t.mmap },
      omega arith,
      refl,
    )
  ]

  parse_mmap-tables :
      (mb' : Multiboot) × (parse_mmap b mb ≡ some mb')
      × HasTables mb'
      × (mb'.mmap_count ≤ mmap_max)
      × (mb'.header.elf_num ≡ mb.header.elf_num)
      × (mb'.header.mods_count ≡ mb.header.mods_count)
  unfolding parse_mmap
  parse_mmap-tables = elim (Bool-cases (test_bit mb.header.flags mmap_avail)) [
    | inl on ↦
        let start = mb.header.mmap_addr in
        let end = add32 start mb.header.mmap_length in
        let copied = copy_mmap b mmap_max end start in
        let size = length-copy_mmap b mmap_max end start in
        let room = t.mmap in
        let (table, ran, same) = overwrite_fits copied mb.mmap (omega arith) in
        (
          record mb {
            header = record mb.header { mmap_addr = b.mmap_table };
            mmap = table;
            mmap_count = length copied;
          },
          rw (parse_mmap, on, ran) refl,
          record { elf = t.elf; elfstr = t.elfstr; mods = t.mods; mmap = same ∙ t.mmap },
          size,
          refl,
          refl,
        )
    | inr off ↦ (
      record mb { mmap_count = 0 },
      rw (parse_mmap, off) refl,
      record { elf = t.elf; elfstr = t.elfstr; mods = t.mods; mmap = t.mmap },
      omega arith,
      refl,
      refl,
    )
  ]

module _ (b : BootMemory) (mb : Multiboot) (t : HasTables mb) where
  parse_elf-run :
      test_bit mb.header.flags elf_avail ≡ true
      → (m : Multiboot) → copy_elf b mb ≡ some m
      → parse_elf b mb ≡ copy_strings b m
  unfolding parse_elf
  parse_elf-run on m ran = rw (parse_elf, on, ran) refl

  parse_elf-tables :
      (test_bit mb.header.flags elf_avail ≡ false) ⊎ (mb.header.elf_shndx < elf_max)
      → (mb' : Multiboot) × (parse_elf b mb ≡ some mb')
        × HasTables mb'
        × (mb'.header.elf_num ≤ elf_max)
  unfolding parse_elf
  parse_elf-tables ok = elim (Bool-cases (test_bit mb.header.flags elf_avail)) [
    | inl on ↦
        let small : mb.header.elf_shndx < elf_max = elim ok [ inl off ↦ absurd (cc) | inr l ↦ l ] in
        let (m, ran, t', n, same) = copy_elf-tables b mb t in
        let (mb', copied, t'', kept) = copy_strings-tables b m t' (omega arith) in
        (mb', parse_elf-run on m ran ∙ copied, t'', subst (λ x. x.elf_num ≤ elf_max) (sym kept) n)
    | inr off ↦ (
      record mb { header = record mb.header { elf_num = 0 } },
      rw (parse_elf, off) refl,
      record { elf = t.elf; elfstr = t.elfstr; mods = t.mods; mmap = t.mmap },
      omega arith,
    )
  ]

  parse_elf-small :
      (mb' : Multiboot)
      → parse_elf b mb ≡ some mb'
      → (test_bit mb.header.flags elf_avail ≡ false) ⊎ (mb.header.elf_shndx < elf_max)
  parse_elf-small mb' h = elim (Bool-cases (test_bit mb.header.flags elf_avail)) [
    | inl on ↦
        let (m, ran, t', n, same) = copy_elf-tables b mb t in
        let l = copy_strings-small b m t' mb' (sym (parse_elf-run on m ran) ∙ h) in
        inr (omega arith)
    | inr off ↦ inl off
  ]

module _ (b : BootMemory) (header : MbHeader) (mb : Multiboot) (t : HasTables mb) where
  abbrev start : Multiboot
  start = record mb { header = header }

  start-HasTables : HasTables start
  start-HasTables = record { elf = t.elf; elfstr = t.elfstr; mods = t.mods; mmap = t.mmap }

  done :
      (test_bit header.flags elf_avail ≡ false) ⊎ (header.elf_shndx < elf_max)
      → (mb' : Multiboot) × (parse b header mb ≡ some mb') × HasTables mb' × HasCounts mb'
  unfolding parse
  done ok =
      let (m1, ran1, t1, n1) = parse_elf-tables b start start-HasTables ok in
      let (m2, ran2, t2, n2, s2) = parse_mods-tables b m1 t1 in
      let (m3, ran3, t3, n3, s3, s4) = parse_mmap-tables b m2 t2 in
      (
        m3,
        rw (parse, ran1, ran2) ran3,
        t3,
        record { elf_num = omega arith; mods_count = omega arith; mmap_count = n3 },
      )

  needed :
      ((mb' : Multiboot) × (parse b header mb ≡ some mb'))
      → (test_bit header.flags elf_avail ≡ false) ⊎ (header.elf_shndx < elf_max)
  unfolding parse
  needed (mb', h) = elim (Option-cases (parse_elf b start)) [
    | inl e ↦ absurd (cc (rw (e, parse) at h))
    | inr (m, e) ↦ parse_elf-small b start start-HasTables m e
  ]

  kept : (mb' : Multiboot) → parse b header mb ≡ some mb' → HasTables mb' × HasCounts mb'
  kept mb' h =
      let (m, ran, t', c) = done (needed (mb', h)) in
      let eq : m ≡ mb' = cc in subst (λ x. HasTables x × HasCounts x) eq (t', c)

  -- Parse, on an object whose arrays have the sizes of the declaration, stays within them exactly
  -- when no ELF table is announced or e_shndx is below the size of the array of ELF headers; there
  -- the arrays keep their sizes and each count is at most the size of its array, whatever the boot
  -- loader's counts and sizes were.
  pub parse_tables :
      (((mb' : Multiboot) × (parse b header mb ≡ some mb'))
        ↔ ((test_bit header.flags elf_avail ≡ false) ⊎ (header.elf_shndx < elf_max)))
      × ((mb' : Multiboot) → parse b header mb ≡ some mb' → HasTables mb' × HasCounts mb')
  parse_tables = ((needed, λ ok. let (m, ran, t', c) = done ok in (m, ran)), kept)
