-- ===== src/Kernel/Loaded.antt =====
-- What the sections that InitKernel (kernel/core/kernel.cpp) makes are, said of the ELF headers alone.
use tysos_cxx.Prelude.{
  ℕ, suc, ◌+◌, ◌*◌, ◌/◌, ◌%◌, ◌^◌, ◌<◌, ◌≡◌, ◌≢◌, refl, sym, subst, ap, ◌∙◌, List, [], ◌∷◌, map,
  ◌==◌, Bool-cases, inl, inr, arith, test_bit, length,
}
use tysos_cxx.Containers.IList.{Item}
use tysos_cxx.Multiboot.{Elf32Shdr}
use tysos_cxx.Section.{Section}
use tysos_cxx.Kernel.{section_flags, section_of, sect}
use tysos_cxx.Kernel.Loop.{filled, sects}

-- A section that is mapped to itself and cannot grow.
pub record HasFields (name_at bits start bytes : ℕ) (s : Section) : Type 0 where
  pub name : s.name ≡ name_at
  pub flags : s.flags ≡ bits
  pub base : s.base ≡ start
  pub size : s.length ≡ bytes
  pub mem_source : s.mem_source ≡ start
  pub expand_down : s.expand_down ≡ 0
  pub expand_up : s.expand_up ≡ 0
  pub lower_padding : s.lower_padding ≡ 0
  pub upper_padding : s.upper_padding ≡ 0

-- The section of a header: Defined, Read, Bits and KernelSection are the bits 0, 1, 7 and 14, and
-- Write and Execute, the bits 2 and 3, are SHF_WRITE and SHF_EXECINSTR, the bits 0 and 2 of sh_flags.
abbrev pub Describes : (strings : ℕ) → Elf32Shdr → Section → Type 0
Describes strings e =
    HasFields ((strings + e.sh_name) % 2 ^ 32)
      (0x4083 + 4 * (e.sh_flags % 2) + 8 * (e.sh_flags / 4 % 2)) e.sh_addr e.sh_size

-- The headers from the index `i` on that are not empty have their sections 36 bytes apart.
pub data Loaded (base strings : ℕ) (at : Item → Section)
    : ℕ → List Elf32Shdr → List Item → Type 0 where
  no_more : {i : ℕ} → Loaded base strings at i [] []
  skipped :
      {i : ℕ} {e : Elf32Shdr} {rest : List Elf32Shdr} {items : List Item}
      → e.sh_size ≡ 0
      → Loaded base strings at (suc i) rest items
      → Loaded base strings at i (e ∷ rest) items
  loaded :
      {i : ℕ} {e : Elf32Shdr} {rest : List Elf32Shdr} {items : List Item}
      → e.sh_size ≢ 0
      → Describes strings e (at (base + 36 * i))
      → Loaded base strings at (suc i) rest items
      → Loaded base strings at i (e ∷ rest) ((base + 36 * i) ∷ items)

section_flags_lem :
    (e : Elf32Shdr) → section_flags e ≡ 0x4083 + 4 * (e.sh_flags % 2) + 8 * (e.sh_flags / 4 % 2)
unfolding section_flags
section_flags_lem e = elim (Bool-cases (test_bit e.sh_flags 0)) [
  | inl w ↦ elim (Bool-cases (test_bit e.sh_flags 2)) [
    | inl x ↦ rw (section_flags, w, x) (ground arith)
    | inr x ↦ rw (section_flags, w, x) (ground arith)
  ]
  | inr w ↦ elim (Bool-cases (test_bit e.sh_flags 2)) [
    | inl x ↦ rw (section_flags, w, x) (ground arith)
    | inr x ↦ rw (section_flags, w, x) (ground arith)
  ]
]

section_of-Describes : (strings : ℕ) (e : Elf32Shdr) → Describes strings e (section_of strings e)
unfolding section_of
section_of-Describes strings e = record {
  name = omega arith;
  flags = section_flags_lem e;
  base = refl;
  size = refl;
  mem_source = refl;
  expand_down = refl;
  expand_up = refl;
  lower_padding = refl;
  upper_padding = refl;
}

pub sect_lem : (base i : ℕ) → base + 36 * i < 2 ^ 32 → sect base i ≡ base + 36 * i
unfolding sect
sect_lem base i bound = omega arith

pub sections-Loaded :
    (base strings : ℕ) (at : Item → Section) (i : ℕ) (hs : List Elf32Shdr)
    → base + 36 * (i + length hs) < 2 ^ 32
    → map at (sects base i hs) ≡ map (section_of strings) (filled hs)
    → Loaded base strings at i hs (sects base i hs)
sections-Loaded base strings at i [] bound are = no_more
sections-Loaded base strings at i (e ∷ rest) bound are = elim (Bool-cases (e.sh_size == 0)) [
  | inl empty ↦
      let are' = rw empty at are in
      rw empty
        (skipped (ground arith) (sections-Loaded base strings at (suc i) rest (omega arith) are'))
  | inr full ↦
      let are' : at (sect base i) ∷ map at (sects base (suc i) rest)
          ≡ section_of strings e ∷ map (section_of strings) (filled rest) =
        rw full at are in
      let first : at (sect base i) ≡ section_of strings e = cc in
      let others : map at (sects base (suc i) rest) ≡ map (section_of strings) (filled rest) = cc in
      let place = sect_lem base i (omega arith) in
      let held : at (base + 36 * i) ≡ section_of strings e = ap at (sym place) ∙ first in
      rw (full, place)
        (loaded (ground arith)
          (subst (Describes strings e) (sym held) (section_of-Describes strings e))
          (sections-Loaded base strings at (suc i) rest (omega arith) others))
]
