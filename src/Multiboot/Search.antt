-- ===== src/Multiboot/Search.antt =====
-- Multiboot::FindRange (kernel/core/multiboot.cpp): what it returns is free, and it gives up only
-- when no candidate is.
use tysos_cxx.Prelude.{
  ℕ, true, false, List, [], ◌∷◌, none, some, ◌+◌, ◌^◌, ◌<◌, ◌≡◌, ◌≢◌, ◌⊎◌, inl, inr, subst, add32,
  All, arith, Option-cases,
}
use tysos_cxx.Multiboot.{
  Multiboot, MbMmap, MbMod, Elf32Shdr, is_avail, check_range, find_mmap, find_elf, find_mods,
  find_candidate, find_range,
}
use tysos_cxx.Multiboot.Ranges.{entries, sections, modules, IsSane, IsFree, check_range_iff_IsFree}

module _ (mb : Multiboot) (length : ℕ) where
  abbrev pub Refused : ℕ → Type 0
  Refused base = check_range mb base length ≡ false

  find_mmap-free :
      (xs : List MbMmap) (a : ℕ) → find_mmap mb length xs ≡ some a → check_range mb a length ≡ true
  unfolding find_mmap
  find_mmap-free [] a h = absurd (cc)
  find_mmap-free (m ∷ rest) a h = ground (arith, find_mmap-free rest a)

  find_elf-free :
      (xs : List Elf32Shdr) (a : ℕ)
      → find_elf mb length xs ≡ some a
      → check_range mb a length ≡ true
  unfolding find_elf
  find_elf-free [] a h = absurd (cc)
  find_elf-free (m ∷ rest) a h = ground (arith, find_elf-free rest a)

  find_mods-free :
      (xs : List MbMod) (a : ℕ) → find_mods mb length xs ≡ some a → check_range mb a length ≡ true
  unfolding find_mods
  find_mods-free [] a h = absurd (cc)
  find_mods-free (m ∷ rest) a h = ground (arith, find_mods-free rest a)

  find_mmap-none :
      (xs : List MbMmap)
      → find_mmap mb length xs ≡ none
      → All (λ m. is_avail m ≡ true → Refused m.base_addr) xs
  unfolding find_mmap
  find_mmap-none [] h = tt
  find_mmap-none (m ∷ rest) h = ((λ on. ground arith), find_mmap-none rest (ground arith))

  find_elf-none :
      (xs : List Elf32Shdr)
      → find_elf mb length xs ≡ none
      → All (λ s. Refused (add32 s.sh_addr s.sh_size)) xs
  unfolding find_elf
  find_elf-none [] h = tt
  find_elf-none (m ∷ rest) h = (ground arith, find_elf-none rest (ground arith))

  find_mods-none :
      (xs : List MbMod) → find_mods mb length xs ≡ none → All (λ m. Refused m.mod_end) xs
  unfolding find_mods
  find_mods-none [] h = tt
  find_mods-none (m ∷ rest) h = (ground arith, find_mods-none rest (ground arith))

  find_candidate-free : (a : ℕ) → find_candidate mb length ≡ some a → check_range mb a length ≡ true
  unfolding find_candidate
  find_candidate-free a h = ground (
    arith,
    find_mmap-free (entries mb) a,
    find_elf-free (sections mb) a,
    find_mods-free (modules mb) a,
  )

  find_candidate-none :
      find_candidate mb length ≡ none
      → (find_mmap mb length (entries mb) ≡ none)
        × (find_elf mb length (sections mb) ≡ none)
        × (find_mods mb length (modules mb) ≡ none)
  unfolding find_candidate
  find_candidate-none h = ground arith

  -- Where FindRange returns NULL, CheckRange accepts address 0 or refuses every candidate: the
  -- start of each available entry of the memory map, and the end of each ELF section and module.
  pub find_range-zero :
      find_range mb length ≡ 0
      → (check_range mb 0 length ≡ true)
        ⊎ (All (λ m. is_avail m ≡ true → Refused m.base_addr) (entries mb)
            × All (λ s. Refused (add32 s.sh_addr s.sh_size)) (sections mb)
            × All (λ m. Refused m.mod_end) (modules mb))
  unfolding find_range
  find_range-zero h = elim (Option-cases (find_candidate mb length)) [
    | inl gone ↦
        let (m, e, o) = find_candidate-none gone in
        inr (
          find_mmap-none (entries mb) m,
          find_elf-none (sections mb) e,
          find_mods-none (modules mb) o,
        )
    | inr (a, found) ↦
        inl
          (subst (λ x. check_range mb x length ≡ true) (ground arith) (find_candidate-free a found))
  ]

  find_range-free : find_range mb length ≢ 0 → check_range mb (find_range mb length) length ≡ true
  unfolding find_range
  find_range-free h = elim (Option-cases (find_candidate mb length)) [
    | inl gone ↦ absurd (ground arith)
    | inr (a, found) ↦ rw (found, find_range) (find_candidate-free a found)
  ]

  -- On tables none of whose regions wraps around 2 ^ 32, and for a length above 0: a range that
  -- FindRange returns, not NULL, and that ends below 2 ^ 32, is free by every table that the flags
  -- announce.
  pub find_range-IsFree :
      IsSane mb
      → 0 < length
      → find_range mb length ≢ 0
      → find_range mb length + length < 2 ^ 32
      → IsFree mb (find_range mb length) length
  find_range-IsFree sane pos h top =
      (check_range_iff_IsFree mb sane (find_range mb length) length (pos, omega arith) top).0
        (find_range-free h)
