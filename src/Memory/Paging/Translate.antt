-- ===== src/Memory/Paging/Translate.antt =====
-- Page table entries, and what the page tables that are mapped into the address space translate to
-- (kernel/i386/i386_vmem.cpp).
use tysos_cxx.Prelude.{
  ℕ, ◌+◌, ◌-◌, ◌*◌, ◌/◌, ◌%◌, ◌^◌, ◌<◌, ◌≡◌, Bool, true, false, some, bit_and, bit_or, refl, ◌∙◌,
  ap, arith, bit_and-page_mask,
}
use tysos_cxx.Prelude.Flags.{or_1, or_2, or_4, or_8, or_16}
use tysos_cxx.Memory.Paging.{
  Machine, MapArgs, page_mask, page_tables, page_dir, present, pd_ent, pt_ent, translate, or_flag,
  entry,
}

-- A 32-bit entry that is present and refers to the page at `p`.
pub record PointsTo (e p : ℕ) : Type 0 where
  pub flags : ℕ
  pub is : e ≡ p + flags
  pub aligned : p % 4096 ≡ 0
  pub low : flags < 4096
  pub is_present : flags % 2 ≡ 1
  pub word : e < 2 ^ 32

module _ (e p : ℕ) (to : PointsTo e p) where
  pub PointsTo-present : present e ≡ true
  unfolding present
  PointsTo-present =
      let is = to.is in
      let a = to.aligned in
      let l = to.low in
      let b = to.is_present in let odd : e / 1 % 2 ≡ 1 = omega arith in ground arith

  pub PointsTo-page : bit_and e page_mask ≡ p
  PointsTo-page =
      let is = to.is in
      let a = to.aligned in let l = to.low in bit_and-page_mask e to.word ∙ omega arith

-- Two present entries translate an address to the page of the second.
pub translate_lem :
    (m : Machine) (v table page : ℕ)
    → PointsTo (m.mem (m.cr3 + 4 * pd_ent v)) table
    → PointsTo (m.mem (table + 4 * pt_ent v)) page
    → translate m v ≡ some (page + v % 4096)
unfolding translate
translate_lem m v table page d t =
    rw
      (
        translate,
        PointsTo-present _ table d,
        PointsTo-page _ table d,
        PointsTo-present _ page t,
        PointsTo-page _ page t,
      )
      refl

-- The page directory maps itself by its entry 255.
pub SelfMapped : Machine → Type 0
SelfMapped m = PointsTo (m.mem (m.cr3 + 4 * 255)) m.cr3

module _ (m : Machine) (self_mapped : PointsTo (m.mem (m.cr3 + 4 * 255)) m.cr3) (v : ℕ) where
  -- The word of the page directory for an address, by way of PAGEDIR.
  pub translate-page_dir : translate m (page_dir + 4 * pd_ent v) ≡ some (m.cr3 + 4 * pd_ent v)
  unfolding pd_ent pt_ent
  translate-page_dir =
      let v' = page_dir + 4 * pd_ent v in
      let d : pd_ent v' ≡ 255 = omega arith in
      let t : pt_ent v' ≡ 255 = omega arith in
      let o : v' % 4096 ≡ 4 * pd_ent v = omega arith in
      translate_lem m v' m.cr3 m.cr3 (rw d self_mapped) (rw t self_mapped)
      ∙ ap (λ x. some (m.cr3 + x)) o

  -- The word of the page table for an address, by way of PAGETABLES.
  pub translate-page_tables :
      (table : ℕ)
      → PointsTo (m.mem (m.cr3 + 4 * pd_ent v)) table
      → translate m (page_tables + pd_ent v * 0x1000 + 4 * pt_ent v) ≡ some (table + 4 * pt_ent v)
  unfolding pd_ent pt_ent
  translate-page_tables table to =
      let v' = page_tables + pd_ent v * 0x1000 + 4 * pt_ent v in
      let d : pd_ent v' ≡ 255 = omega arith in
      let t : pt_ent v' ≡ pd_ent v = omega arith in
      let o : v' % 4096 ≡ 4 * pt_ent v = omega arith in
      translate_lem m v' m.cr3 table (rw d self_mapped) (rw t to) ∙ ap (λ x. some (table + x)) o

-- The flags that the writes add to an entry.
or_user :
    (b : Bool) (p : ℕ)
    → p % 4096 ≡ 0
    → (r : ℕ) × (or_flag b 4 (p + 1) ≡ p + r) × (r % 4 ≡ 1) × (r < 8)
unfolding or_flag
or_user false p a = (1, refl, omega arith, omega arith)
or_user true p a = (5, or_4 (p + 1) (omega arith) ∙ omega arith, omega arith, omega arith)

or_writable :
    (b : Bool) (p r : ℕ)
    → p % 4096 ≡ 0
    → r % 4 ≡ 1
    → r < 8
    → (r' : ℕ) × (or_flag b 2 (p + r) ≡ p + r') × (r' % 2 ≡ 1) × (r' < 8)
unfolding or_flag
or_writable false p r a odd l = (r, refl, omega arith, omega arith)
or_writable true p r a odd l =
    (r + 2, or_2 (p + r) (omega arith) ∙ omega arith, omega arith, omega arith)

or_cache_disabled :
    (b : Bool) (p r : ℕ)
    → p % 4096 ≡ 0
    → r % 2 ≡ 1
    → r < 8
    → (r' : ℕ) × (or_flag b 16 (p + r) ≡ p + r') × (r' % 2 ≡ 1) × (r' % 16 < 8) × (r' < 32)
unfolding or_flag
or_cache_disabled false p r a odd l = (r, refl, omega arith, omega arith, omega arith)
or_cache_disabled true p r a odd l =
    (r + 16, or_16 (p + r) (omega arith) ∙ omega arith, omega arith, omega arith, omega arith)

or_write_through :
    (b : Bool) (p r : ℕ)
    → p % 4096 ≡ 0
    → r % 2 ≡ 1
    → r % 16 < 8
    → r < 32
    → (r' : ℕ) × (or_flag b 8 (p + r) ≡ p + r') × (r' % 2 ≡ 1) × (r' < 64)
unfolding or_flag
or_write_through false p r a odd h l = (r, refl, omega arith, omega arith)
or_write_through true p r a odd h l =
    (r + 8, or_8 (p + r) (omega arith) ∙ omega arith, omega arith, omega arith)

entry-run :
    (a : MapArgs) (p page r1 r2 r3 r4 : ℕ)
    → bit_or (bit_and p page_mask) 1 ≡ page + 1
    → or_flag a.user 4 (page + 1) ≡ page + r1
    → or_flag a.writable 2 (page + r1) ≡ page + r2
    → or_flag a.cache_disabled 16 (page + r2) ≡ page + r3
    → or_flag a.write_through 8 (page + r3) ≡ page + r4
    → entry a p ≡ page + r4
unfolding entry
entry-run a p page r1 r2 r3 r4 first e1 e2 e3 e4 = rw (entry, first, e1, e2, e3) e4

-- The entry that MapPage writes refers to the page of the physical address.
pub entry-PointsTo : (a : MapArgs) (p : ℕ) → p < 2 ^ 32 → PointsTo (entry a p) (p - p % 4096)
entry-PointsTo a p l =
    let page = p - p % 4096 in
    let al : page % 4096 ≡ 0 = omega arith in
    let first : bit_or (bit_and p page_mask) 1 ≡ page + 1 =
      ap (λ x. bit_or x 1) (bit_and-page_mask p l) ∙ or_1 page (omega arith) in
    let (r1, e1, b1, l1) = or_user a.user page al in
    let (r2, e2, b2, l2) = or_writable a.writable page r1 al b1 l1 in
    let (r3, e3, b3, h3, l3) = or_cache_disabled a.cache_disabled page r2 al b2 l2 in
    let (r4, e4, b4, l4) = or_write_through a.write_through page r3 al b3 h3 l3 in
    let whole = entry-run a p page r1 r2 r3 r4 first e1 e2 e3 e4 in
    record {
      flags = r4;
      is = whole;
      aligned = al;
      low = omega arith;
      is_present = b4;
      word = rw whole (omega arith);
    }
