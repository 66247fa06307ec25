-- ===== src/Memory/KernelTables.antt =====
-- i386_VirtMemManager::Init (kernel/i386/i386_vmem.cpp): the kernel page tables get an entry for each
-- page of a section that has its bits in memory.
use tysos_cxx.Prelude.{
  ℕ, zero, suc, ◌+◌, ◌-◌, ◌*◌, ◌/◌, ◌%◌, ◌^◌, ◌<◌, ◌≤◌, ◌≡◌, ◌≢◌, ◌⊎◌, inl, inr, refl, sym, subst,
  ◌∙◌, ap, true, false, List, [], ◌∷◌, Option, none, some, bit_or, ltb, ◌==◌, if◌then◌else◌, add32,
  sub32, test_bit, Bool-cases, arith, bit_and-page_mask,
}
use tysos_cxx.Prelude.Flags.{or_1, or_2, or_256}
use tysos_cxx.Memory.Paging.{p_present, p_writable}
use tysos_cxx.Memory.Paging.Directory.{p_global}
use tysos_cxx.Section.{Section, i386_vmm}
use tysos_cxx.Section.Flag as Flag
use tysos_cxx.Section.FindFree.{page_up}

-- `entry`; page_up is the rounding with PAGESIZE and PAGEMASK.
unfoldable pub table_entry : Section → (first_page cur_page : ℕ) → ℕ
table_entry s first_page cur_page =
    bit_or
      (bit_or (bit_or (page_up i386_vmm (sub32 (add32 s.mem_source cur_page) first_page)) p_present)
        p_writable)
      p_global

-- The loop over the pages of a section, on fuel; kpt is indexed by words.
unfoldable pub map_from : ℕ → Section → (first_page cur_page : ℕ) → (ℕ → ℕ) → Option (ℕ → ℕ)
map_from zero s first_page cur_page kpt = none
map_from (suc fuel) s first_page cur_page kpt =
    if ltb cur_page (add32 s.base s.length)
    then map_from fuel s first_page (add32 cur_page 4096)
        (λ i. if i == cur_page / 2 ^ 12 then table_entry s first_page cur_page else kpt i)
    else some kpt

unfoldable pub map_section : ℕ → Section → (ℕ → ℕ) → Option (ℕ → ℕ)
unfolding map_from
map_section fuel s kpt =
    if test_bit s.flags Flag.bits
    then map_from fuel s (page_up i386_vmm s.base) (page_up i386_vmm s.base) kpt
    else some kpt

-- The loop over the sections.
unfoldable pub map_sections : ℕ → List Section → (ℕ → ℕ) → Option (ℕ → ℕ)
map_sections fuel [] kpt = some kpt
map_sections fuel (s ∷ rest) kpt = elim (map_section fuel s kpt) [
  | none ↦ none
  | some kpt' ↦ map_sections fuel rest kpt'
]

-- What the table holds when the pages from `cur` to the end have their entries.
record Filled (s : Section) (first cur : ℕ) (kpt kpt' : ℕ → ℕ) : Type 0 where
  pages :
      (a : ℕ)
      → a % 4096 ≡ 0
      → cur ≤ a
      → a < s.base + s.length
      → kpt' (a / 2 ^ 12) ≡ table_entry s first a
  others : (i : ℕ) → (4096 * i < cur) ⊎ (s.base + s.length ≤ 4096 * i) → kpt' i ≡ kpt i

map_from-Filled :
    (fuel : ℕ) (s : Section) (first cur : ℕ) (kpt : ℕ → ℕ)
    → s.base + s.length + 4096 ≤ 2 ^ 32
    → cur % 4096 ≡ 0
    → cur < s.base + s.length + 4096
    → s.base + s.length + 4096 ≤ cur + 4096 * fuel
    → (kpt' : ℕ → ℕ) × (map_from fuel s first cur kpt ≡ some kpt') × Filled s first cur kpt kpt'
unfolding map_from
map_from-Filled zero s first cur kpt top aligned small enough = absurd (omega arith)
map_from-Filled (suc fuel) s first cur kpt top aligned small enough =
    elim (Bool-cases (ltb cur (add32 s.base s.length))) [
      | inl more ↦
          let kpt1 : ℕ → ℕ = λ i. if i == cur / 2 ^ 12 then table_entry s first cur else kpt i in
          let l : cur < s.base + s.length = ground arith in
          let (kpt', ran, m) =
            map_from-Filled fuel s first (add32 cur 4096) kpt1 top (omega arith) (omega arith)
              (omega arith) in
          (
            kpt',
            rw (map_from, more) ran,
            record {
              pages = λ a al low h. elim (Bool-cases (a == cur)) [
                | inl same ↦
                    (let e : a ≡ cur = ground arith in
                      m.others (a / 2 ^ 12) (inl (omega arith))
                      ∙ (let here : (a / 2 ^ 12 == cur / 2 ^ 12) ≡ true = ground arith in
                          rw here (ap (table_entry s first) (sym e))))
                | inr differ ↦ (let far : a ≢ cur = ground arith in m.pages a al (omega arith) h)
              ];
              others = λ i o.
                  m.others i (elim o [ inl low ↦ inl (omega arith) | inr high ↦ inr high ])
                  ∙ (let other : (i == cur / 2 ^ 12) ≡ false =
                        let far : i ≢ cur / 2 ^ 12 = elim o [
                          | inl low ↦ λ e. omega arith
                          | inr high ↦ λ e. omega arith
                        ] in
                        ground arith in
                      rw other refl);
            },
          )
      | inr done ↦ (
        kpt,
        rw (map_from, done) refl,
        record { pages = λ a al l h. absurd (ground arith); others = λ i o. refl },
      )
    ]

i386_page_up :
    (x : ℕ)
    → x + 4096 ≤ 2 ^ 32
    → (page_up i386_vmm x % 4096 ≡ 0) × (page_up i386_vmm x < x + 4096) × (x ≤ page_up i386_vmm x)
unfolding page_up
i386_page_up x l =
    let m = bit_and-page_mask (sub32 (add32 x 4096) 1) (omega arith) in
    (omega arith, omega arith, omega arith)

map_section-run :
    (fuel : ℕ) (s : Section) (kpt : ℕ → ℕ)
    → test_bit s.flags Flag.bits ≡ true
    → map_section fuel s kpt
      ≡ map_from fuel s (page_up i386_vmm s.base) (page_up i386_vmm s.base) kpt
unfolding map_section
map_section-run fuel s kpt bits = rw (map_section, bits) refl

-- The entry of a table for memory from `source` on: the first page at or above it, with the bits 0, 1
-- and 8, present, writable and global, and no others.
pub record EntryOf (source entry : ℕ) : Type 0 where
  pub from : source ≤ entry / 4096 * 4096
  pub near : entry / 4096 * 4096 < source + 4096
  pub bits : entry % 4096 ≡ 0x103

-- The pages of a section that begin in it, from the first one on, have their entries.
pub record Mapped (s : Section) (kpt kpt' : ℕ → ℕ) : Type 0 where
  pub first : ℕ
  pub aligned : first % 4096 ≡ 0
  pub from : s.base ≤ first
  pub near : first < s.base + 4096
  pub pages :
      (a : ℕ)
      → a % 4096 ≡ 0
      → first ≤ a
      → a < s.base + s.length
      → EntryOf (s.mem_source + (a - first)) (kpt' (a / 4096))
  pub others : (i : ℕ) → (4096 * i < first) ⊎ (s.base + s.length ≤ 4096 * i) → kpt' i ≡ kpt i

flagged :
    (p : ℕ) → p % 4096 ≡ 0 → bit_or (bit_or (bit_or p p_present) p_writable) p_global ≡ p + 0x103
flagged p aligned =
    let present = or_1 p (omega arith) in
    let writable = or_2 (p + 1) (omega arith) in
    let global = or_256 (p + 1 + 2) (omega arith) in
    let whole =
      ap (λ x. bit_or (bit_or x 2) 256) present ∙ ap (λ x. bit_or x 256) writable ∙ global in
    omega arith

table_entry-EntryOf :
    (s : Section) (first a : ℕ)
    → first ≤ a
    → s.mem_source + (a - first) + 4096 ≤ 2 ^ 32
    → a < 2 ^ 32
    → EntryOf (s.mem_source + (a - first)) (table_entry s first a)
unfolding table_entry
table_entry-EntryOf s first a above top small =
    let source : sub32 (add32 s.mem_source a) first ≡ s.mem_source + (a - first) = omega arith in
    let (page, under, over) = i386_page_up (s.mem_source + (a - first)) top in
    let entry = flagged (page_up i386_vmm (s.mem_source + (a - first))) page in
    rw (table_entry, source, entry)
      (record { from = omega arith; near = omega arith; bits = omega arith })

-- The loop over the pages of a section with Bits that ends a page before 2 ^ 32 or earlier, as its
-- memory source does, with one round for each page and one more: from the first page at or above the
-- base on, each page that begins in the section gets an entry with the first page at or above the
-- place in the memory source that is as far on, present, writable, global and for the kernel only,
-- and each other entry of the table stays as it is.
pub map_section-Mapped :
    (fuel : ℕ) (s : Section) (kpt : ℕ → ℕ)
    → test_bit s.flags Flag.bits ≡ true
    → s.base + s.length + 4096 ≤ 2 ^ 32
    → s.mem_source + s.length + 4096 ≤ 2 ^ 32
    → s.length + 4096 ≤ 4096 * fuel
    → (kpt' : ℕ → ℕ) × (map_section fuel s kpt ≡ some kpt') × Mapped s kpt kpt'
map_section-Mapped fuel s kpt bits top source enough =
    let (page, under, over) = i386_page_up s.base (omega arith) in
    let start = page_up i386_vmm s.base in
    let (kpt', ran, m) =
      map_from-Filled fuel s start start kpt top page (omega arith) (omega arith) in
    (
      kpt',
      map_section-run fuel s kpt bits ∙ ran,
      record {
        first = start;
        aligned = page;
        from = over;
        near = under;
        pages = λ a al low h.
            subst (EntryOf (s.mem_source + (a - start))) (sym (m.pages a al low h))
              (table_entry-EntryOf s start a low (omega arith) (omega arith));
        others = m.others;
      },
    )
