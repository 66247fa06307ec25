-- ===== src/Multiboot/Ranges.antt =====
-- Multiboot::CheckRange and Multiboot::FindRange (kernel/core/multiboot.cpp) against a declarative
-- description of a free range.
use tysos_cxx.Prelude.{
  ℕ, true, false, List, [], ◌∷◌, some, ◌+◌, ◌-◌, ◌^◌, ◌<◌, ◌≤◌, ◌≡◌, refl, ◌↔◌, inl, inr, test_bit,
  add32, sub32, All, Any, take, arith, Bool-cases,
}
use tysos_cxx.Multiboot.{
  Multiboot, MbMmap, MbMod, Elf32Shdr, mmap_avail, mem_avail, elf_avail, mods_avail, meets,
  check_mmap, check_elf, check_mods, check_memory, check_range,
}
use tysos_cxx.Multiboot.MemoryMap.{
  IsRegion, IsSpan, Shares, Lets, Holds, meets_iff_Shares, check_mmap_sound, check_mmap_complete,
}

-- The entries that the kernel copied from the boot loader.
abbrev pub entries : Multiboot → List MbMmap
entries mb = take mb.mmap_count mb.mmap

abbrev pub sections : Multiboot → List Elf32Shdr
sections mb = take mb.header.elf_num mb.elf

abbrev pub modules : Multiboot → List MbMod
modules mb = take mb.header.mods_count mb.mods

-- No region of the tables wraps around.
pub record IsSane (mb : Multiboot) : Type 0 where
  pub upper : mb.header.mem_upper + 0x100000 < 2 ^ 32
  pub mmap : All (λ m. IsSpan m.base_addr m.length) (entries mb)
  pub elf : All (λ s. IsSpan s.sh_addr s.sh_size) (sections mb)
  pub mods : All (λ m. (m.mod_start ≤ m.mod_end) × (m.mod_end < 2 ^ 32)) (modules mb)

-- The region is free by each table that the flags announce.
pub record IsFree (mb : Multiboot) (base length : ℕ) : Type 0 where
  pub mapped :
      test_bit mb.header.flags mmap_avail ≡ true
      → All (Lets base length) (entries mb) × Any (Holds base length) (entries mb)
  pub below :
      test_bit mb.header.flags mmap_avail ≡ false
      → test_bit mb.header.flags mem_avail ≡ true
      → base + length ≤ mb.header.mem_upper + 0x100000
  pub elf :
      test_bit mb.header.flags elf_avail ≡ true
      → All (λ s. ¬ Shares base length s.sh_addr s.sh_size) (sections mb)
  pub mods :
      test_bit mb.header.flags mods_avail ≡ true
      → All (λ m. ¬ Shares base length m.mod_start (m.mod_end - m.mod_start)) (modules mb)

module _ (base length : ℕ) (r : IsRegion base length) where
  check_elf_iff :
      (xs : List Elf32Shdr)
      → All (λ s. IsSpan s.sh_addr s.sh_size) xs
      → (check_elf base length xs ≡ true) ↔ All (λ s. ¬ Shares base length s.sh_addr s.sh_size) xs
  unfolding check_elf
  check_elf_iff [] spans = (λ _. tt, λ _. refl)
  check_elf_iff (s ∷ rest) spans =
      let met = meets_iff_Shares base length r s.sh_addr s.sh_size spans.0 in
      let ih = check_elf_iff rest spans.1 in
      elim (Bool-cases (meets base length s.sh_addr s.sh_size)) [
        | inl e ↦ (λ h. absurd (ground arith), λ a. absurd (a.0 (met.0 e)))
        | inr e ↦ (
          λ h. (λ shares. (let m = met.1 shares in ground arith), ih.0 (ground arith)),
          λ a. (let i = ih.1 a.1 in ground arith),
        )
      ]

  check_mods_iff :
      (xs : List MbMod)
      → All (λ m. (m.mod_start ≤ m.mod_end) × (m.mod_end < 2 ^ 32)) xs
      → (check_mods base length xs ≡ true)
        ↔ All (λ m. ¬ Shares base length m.mod_start (m.mod_end - m.mod_start)) xs
  unfolding check_mods
  check_mods_iff [] sane = (λ _. tt, λ _. refl)
  check_mods_iff (m ∷ rest) sane =
      let size : sub32 m.mod_end m.mod_start ≡ m.mod_end - m.mod_start = omega arith in
      let span : IsSpan m.mod_start (m.mod_end - m.mod_start) = ground arith in
      let met = meets_iff_Shares base length r m.mod_start (m.mod_end - m.mod_start) span in
      let ih = check_mods_iff rest sane.1 in
      rw (size, check_mods)
        (elim (Bool-cases (meets base length m.mod_start (m.mod_end - m.mod_start))) [
          | inl e ↦ (λ h. absurd (ground arith), λ a. absurd (a.0 (met.0 e)))
          | inr e ↦ (
            λ h. (λ shares. (let k = met.1 shares in ground arith), ih.0 (ground arith)),
            λ a. (let i = ih.1 a.1 in ground arith),
          )
        ])

module _ (mb : Multiboot) (sane : IsSane mb) (base length : ℕ) (r : IsRegion base length)
    (top : base + length < 2 ^ 32) where
  memory_sound :
      check_memory mb base length ≡ true
      → (test_bit mb.header.flags mmap_avail ≡ true
          → check_mmap base length (entries mb) false ≡ some true)
        × (test_bit mb.header.flags mmap_avail ≡ false
            → test_bit mb.header.flags mem_avail ≡ true
            → add32 base length ≤ add32 mb.header.mem_upper 0x100000)
  unfolding check_memory
  memory_sound h = (λ on. ground arith, λ off on. ground arith)

  memory_complete :
      (test_bit mb.header.flags mmap_avail ≡ true
        → check_mmap base length (entries mb) false ≡ some true)
      → (test_bit mb.header.flags mmap_avail ≡ false
          → test_bit mb.header.flags mem_avail ≡ true
          → add32 base length ≤ add32 mb.header.mem_upper 0x100000)
      → check_memory mb base length ≡ true
  unfolding check_memory
  memory_complete map low = elim (Bool-cases (test_bit mb.header.flags mmap_avail)) [
    | inl on ↦ let m = map on in ground arith
    | inr off ↦ elim (Bool-cases (test_bit mb.header.flags mem_avail)) [
      | inl on ↦ let l = low off on in ground arith
      | inr off' ↦ ground arith
    ]
  ]

  check_range-parts :
      (check_range mb base length ≡ true)
      ↔ (check_memory mb base length ≡ true)
        × (test_bit mb.header.flags elf_avail ≡ true → check_elf base length (sections mb) ≡ true)
        × (test_bit mb.header.flags mods_avail ≡ true → check_mods base length (modules mb) ≡ true)
  unfolding check_range
  check_range-parts = elim (Bool-cases (test_bit mb.header.flags elf_avail)) [
    | inl elf_on ↦ elim (Bool-cases (test_bit mb.header.flags mods_avail)) [
      | inl mods_on ↦ ground arith
      | inr mods_off ↦ ground arith
    ]
    | inr elf_off ↦ elim (Bool-cases (test_bit mb.header.flags mods_avail)) [
      | inl mods_on ↦ ground arith
      | inr mods_off ↦ ground arith
    ]
  ]

  -- CheckRange accepts a region that is not empty and ends below 2 ^ 32 exactly when every
  -- table that the flags announce leaves it free: some available entry of the memory map holds it
  -- and no other entry, ELF section or module shares an address with it; without a memory map it
  -- ends below the amount that the code computes from mem_upper. The tables' regions do not wrap
  -- around.
  pub check_range_iff_IsFree : (check_range mb base length ≡ true) ↔ IsFree mb base length
  check_range_iff_IsFree = (
    λ h.
        (let (m, e, o) = check_range-parts.0 h in
          let (map, low) = memory_sound m in
          record {
            mapped = λ on.
                let (lets, holds) =
                  check_mmap_sound base length r (entries mb) false sane.mmap (map on) in
                (lets, elim holds [ inl f ↦ absurd (cc) | inr any ↦ any ]);
            below = λ off on. (let l = low off on in let u = sane.upper in omega arith);
            elf = λ on. (check_elf_iff base length r (sections mb) sane.elf).0 (e on);
            mods = λ on. (check_mods_iff base length r (modules mb) sane.mods).0 (o on);
          }),
    λ f. check_range-parts.1 (
      memory_complete
          (λ on.
            let (lets, holds) = f.mapped on in
            check_mmap_complete base length r (entries mb) false sane.mmap lets (inr holds))
          (λ off on. (let l = f.below off on in ground arith)),
      (λ on. (check_elf_iff base length r (sections mb) sane.elf).1 (f.elf on)),
      λ on. (check_mods_iff base length r (modules mb) sane.mods).1 (f.mods on),
    ),
  )
