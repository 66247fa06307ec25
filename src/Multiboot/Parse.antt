-- ===== src/Multiboot/Parse.antt =====
-- Multiboot::Parse (kernel/core/multiboot.cpp): the boot loader's tables are copied into arrays
-- of fixed size. `none` is an access outside such an array.
pub mod Copies
pub mod Tables
use tysos_cxx.Prelude.{
  ℕ, zero, suc, true, false, List, [], ◌∷◌, Option, none, some, ◌+◌, ◌*◌, ◌%◌, ◌^◌, ◌≤◌, ◌<◌, ◌≡◌,
  refl, length, get_elem?, set, ltb, if◌then◌else◌, add32, test_bit, ap, ◌∙◌, arith, Option-cases,
  inl, inr, Bool-cases,
}
use Prim.Native.Nat.{min}
use tysos_cxx.Multiboot.{
  Multiboot, MbHeader, MbMmap, MbMod, Elf32Shdr, mmap_avail, elf_avail, mods_avail, mod_max,
  mmap_max, elf_max, elfstr_max,
}

-- Memory as the boot loader left it, read at the types of the tables, and the addresses of the
-- arrays of the Multiboot object.
pub record BootMemory : Type 0 where
  pub shdr_at : ℕ → Elf32Shdr
  pub mod_at : ℕ → MbMod
  pub mmap_at : ℕ → MbMmap
  pub byte_at : ℕ → ℕ
  pub elf_table : ℕ
  pub elfstr_table : ℕ
  pub mods_table : ℕ
  pub mmap_table : ℕ

-- The copied entries replace the first ones of the array; past its end there is nothing to write to.
pub overwrite {ℓ} : {A : Type ℓ} → List A → List A → Option (List A)
overwrite [] old = some old
overwrite (x ∷ xs) [] = none
overwrite (x ∷ xs) (y ∷ old) = elim (overwrite xs old) [ none ↦ none | some rest ↦ some (x ∷ rest) ]

-- `count` entries that lie `stride` bytes apart, `room` of them at most.
pub copy_entries {ℓ} : {A : Type ℓ} → (ℕ → A) → ℕ → ℕ → ℕ → ℕ → List A
copy_entries read zero count src stride = []
copy_entries read (suc room) zero src stride = []
copy_entries read (suc room) (suc count) src stride =
    read src ∷ copy_entries read room count (add32 src stride) stride

-- The memory map's entries say themselves how long they are.
pub copy_mmap : BootMemory → ℕ → ℕ → ℕ → List MbMmap
copy_mmap b zero end src = []
copy_mmap b (suc room) end src =
    let m = b.mmap_at src in
    let rest = copy_mmap b room end (add32 src (add32 m.size 4)) in
    if ltb src end then m ∷ rest else []

pub copy_bytes : BootMemory → ℕ → ℕ → List ℕ
copy_bytes b zero src = []
copy_bytes b (suc n) src = b.byte_at src ∷ copy_bytes b n (add32 src 1)

-- The string table of the section that e_shndx names, and its new address.
unfoldable pub copy_strings : BootMemory → Multiboot → Option Multiboot
copy_strings b mb = elim (get_elem? mb.elf mb.header.elf_shndx) [
  | none ↦ none
  | some s ↦
      let n = if ltb elfstr_max s.sh_size then elfstr_max else s.sh_size in
      elim (overwrite (copy_bytes b n s.sh_addr) mb.elfstr) [
        | none ↦ none
        | some strings ↦ some (record mb {
          elfstr = strings;
          elf = set mb.elf mb.header.elf_shndx (record s { sh_addr = b.elfstr_table });
        })
      ]
]

unfoldable pub copy_elf : BootMemory → Multiboot → Option Multiboot
copy_elf b mb =
    let h = mb.header in
    let copied = copy_entries b.shdr_at elf_max h.elf_num h.elf_addr h.elf_size in
    elim (overwrite copied mb.elf) [
      | none ↦ none
      | some table ↦ some (record mb {
        header = record h { elf_size = 40; elf_addr = b.elf_table; elf_num = length copied };
        elf = table;
      })
    ]

unfoldable pub parse_elf : BootMemory → Multiboot → Option Multiboot
parse_elf b mb =
    if test_bit mb.header.flags elf_avail
    then elim (copy_elf b mb) [ none ↦ none | some copied ↦ copy_strings b copied ]
    else some (record mb { header = record mb.header { elf_num = 0 } })

unfoldable pub parse_mods : BootMemory → Multiboot → Option Multiboot
parse_mods b mb =
    if test_bit mb.header.flags mods_avail
    then (let copied = copy_entries b.mod_at mod_max mb.header.mods_count mb.header.mods_addr 16 in
        elim (overwrite copied mb.mods) [
          | none ↦ none
          | some table ↦ some (record mb {
            header = record mb.header { mods_addr = b.mods_table; mods_count = length copied };
            mods = table;
          })
        ])
    else some (record mb { header = record mb.header { mods_count = 0 } })

unfoldable pub parse_mmap : BootMemory → Multiboot → Option Multiboot
parse_mmap b mb =
    if test_bit mb.header.flags mmap_avail
    then (let start = mb.header.mmap_addr in
        let copied = copy_mmap b mmap_max (add32 start mb.header.mmap_length) start in
        elim (overwrite copied mb.mmap) [
          | none ↦ none
          | some table ↦ some (record mb {
            header = record mb.header { mmap_addr = b.mmap_table };
            mmap = table;
            mmap_count = length copied;
          })
        ])
    else some (record mb { mmap_count = 0 })

-- Multiboot::Parse, which always returns true.
unfoldable pub parse : BootMemory → MbHeader → Multiboot → Option Multiboot
parse b header mb = elim (parse_elf b (record mb { header = header })) [
  | none ↦ none
  | some elf_done ↦ elim (parse_mods b elf_done) [
    | none ↦ none
    | some mods_done ↦ parse_mmap b mods_done
  ]
]

-- The arrays have the sizes of the declaration.
pub record HasTables (mb : Multiboot) : Type 0 where
  pub elf : length mb.elf ≡ elf_max
  pub elfstr : length mb.elfstr ≡ elfstr_max
  pub mods : length mb.mods ≡ mod_max
  pub mmap : length mb.mmap ≡ mmap_max

-- The counts stay within the arrays.
pub record HasCounts (mb : Multiboot) : Type 0 where
  pub elf_num : mb.header.elf_num ≤ elf_max
  pub mods_count : mb.header.mods_count ≤ mod_max
  pub mmap_count : mb.mmap_count ≤ mmap_max
