-- ===== src/Memory/Paging/Spaces.antt =====
-- i386_AddressSpace::Init (kernel/i386/i386_vmem.cpp) before paging is enabled.
use tysos_cxx.Prelude.{
  ℕ, zero, suc, ◌+◌, ◌*◌, ◌%◌, ◌^◌, ◌<◌, ◌≤◌, ◌≡◌, ◌≢◌, ◌⊎◌, inl, inr, false, some, bit_and, ◌==◌,
  refl, sym, ◌∙◌, ap, arith, subst, Bool-cases, add32, bit_and-page_mask,
}
use tysos_cxx.Prelude.Flags.{or_1, or_2, or_256}
use tysos_cxx.Memory.Paging.{Machine, PageAllocator, page_size, page_mask, poke_word}
use tysos_cxx.Memory.Paging.Directory.{
  set_word, space_entry, kernel_entries, fill_directory, init_space,
}
use tysos_cxx.Memory.Paging.Translate.{PointsTo}

space_entry-PointsTo : (p : ℕ) → p % 4096 ≡ 0 → p < 2 ^ 32 → PointsTo (space_entry p) p
unfolding space_entry
space_entry-PointsTo p a l =
    let e1 = or_1 p (omega arith) in
    let e2 = or_2 (p + 1) (omega arith) in
    let e3 = or_256 (p + 1 + 2) (omega arith) in
    let whole : space_entry p ≡ p + 259 = rw (space_entry, e1, e2, e3) (omega arith) in
    record {
      flags = 259;
      is = whole;
      aligned = a;
      low = omega arith;
      is_present = omega arith;
      word = rw whole (omega arith);
    }

set_word-run :
    (m : Machine) (v w : ℕ)
    → m.enabled ≡ false
    → set_word v w m ≡ some (tt, record m { mem = poke_word m.mem v w })
unfolding set_word
set_word-run m v w off = rw (set_word, off) refl

-- The word of the kernel's page table of an index.
abbrev pub kernel_entry : ℕ → ℕ → ℕ
kernel_entry base i = space_entry (bit_and (add32 base (i * page_size)) page_mask)

kernel_entries-step :
    (n i base wr_pd : ℕ) (m : Machine) (mem' : ℕ → ℕ)
    → m.enabled ≡ false
    → kernel_entries n
        (suc i)
        base
        wr_pd
        (record m { mem = poke_word m.mem (wr_pd + 4 * i) (kernel_entry base i) })
      ≡ some (tt, record m { mem = mem' })
    → kernel_entries (suc n) i base wr_pd m ≡ some (tt, record m { mem = mem' })
unfolding kernel_entries
kernel_entries-step n i base wr_pd m mem' off rest =
    let first = set_word-run m (wr_pd + 4 * i) (kernel_entry base i) off in ground arith

poke_word_other : (mem : ℕ → ℕ) (p x a : ℕ) → a ≢ p → poke_word mem p x a ≡ mem a
unfolding poke_word
poke_word_other mem p x a ne = ground arith

poke_word_at : (mem : ℕ → ℕ) (p x : ℕ) → poke_word mem p x p ≡ x
unfolding poke_word
poke_word_at mem p x = ground arith

kernel_entries_lem :
    (n i base wr_pd : ℕ) (m : Machine)
    → m.enabled ≡ false
    → (mem' : ℕ → ℕ) × (kernel_entries n i base wr_pd m ≡ some (tt, record m { mem = mem' }))
      × ((j : ℕ) → i ≤ j → j < i + n → mem' (wr_pd + 4 * j) ≡ kernel_entry base j)
      × ((a : ℕ) → (a < wr_pd + 4 * i) ⊎ (wr_pd + 4 * (i + n) ≤ a) → mem' a ≡ m.mem a)
unfolding kernel_entries
kernel_entries_lem zero i base wr_pd m off =
    (m.mem, refl, (λ j l h. absurd (omega arith)), λ a out. refl)
kernel_entries_lem (suc n) i base wr_pd m off =
    let first = poke_word m.mem (wr_pd + 4 * i) (kernel_entry base i) in
    let (mem', ran, written, kept) =
      kernel_entries_lem n (suc i) base wr_pd (record m { mem = first }) off in
    (
      mem',
      kernel_entries-step n i base wr_pd m mem' off ran,
      λ j l h. elim (Bool-cases (j == i)) [
        | inl here ↦
            let same : j ≡ i = ground arith in
            rw same (
              kept (wr_pd + 4 * i) (inl (omega arith))
              ∙ poke_word_at m.mem (wr_pd + 4 * i) (kernel_entry base i))
        | inr later ↦ written j (ground arith) (omega arith)
      ],
      λ a out.
          kept a (outside a out)
          ∙ poke_word_other m.mem (wr_pd + 4 * i) (kernel_entry base i) a
              (λ e. elim out [ inl low ↦ omega arith | inr high ↦ omega arith ]),
    )
  where
    outside :
        (a : ℕ)
        → (a < wr_pd + 4 * i) ⊎ (wr_pd + 4 * (i + suc n) ≤ a)
        → (a < wr_pd + 4 * suc i) ⊎ (wr_pd + 4 * (suc i + n) ≤ a)
    outside a (inl low) = inl (omega arith)
    outside a (inr high) = inr (omega arith)

fill_directory-run :
    (base p : ℕ) (m : Machine) (mem' : ℕ → ℕ)
    → m.enabled ≡ false
    → kernel_entries 255 0 base p m ≡ some (tt, record m { mem = mem' })
    → fill_directory base p p m
      ≡ some (tt, record m { mem = poke_word mem' (p + 4 * 255) (space_entry p) })
unfolding fill_directory
fill_directory-run base p m mem' off ran =
    let last = set_word-run (record m { mem = mem' }) (p + 4 * 255) (space_entry p) off in
    ground arith

init_space-run :
    (fuel : ℕ) (alloc : PageAllocator) (base p : ℕ) (m m1 m' : Machine)
    → m.enabled ≡ false
    → alloc.alloc_page m ≡ some (p, m1)
    → (p == 0) ≡ false
    → fill_directory base p p m1 ≡ some (tt, m')
    → init_space fuel alloc base m ≡ some (p, m')
unfolding init_space
init_space-run fuel alloc base p m m1 m' off got there filled = ground arith

-- Init of an address space before paging is enabled, with a page from the allocator that is aligned
-- and not page 0, returns the page, where the kernel's page tables begin at a page and their 1 MiB
-- ends within 32 bits. It holds a page directory that refers to the 255 page tables of the kernel in their
-- order and then to itself, so that it can be used as a directory that maps itself; the rest of
-- memory is as it was.
pub init_space-Directory :
    (fuel : ℕ) (alloc : PageAllocator) (base p : ℕ) (m m1 : Machine)
    → m.enabled ≡ false
    → alloc.alloc_page m ≡ some (p, m1)
    → m1.enabled ≡ false
    → p ≢ 0
    → p % 4096 ≡ 0
    → p < 2 ^ 32
    → base % 4096 ≡ 0
    → base + 0x100000 ≤ 2 ^ 32
    → (m' : Machine) × (init_space fuel alloc base m ≡ some (p, m'))
      × PointsTo (m'.mem (p + 4 * 255)) p
      × ((j : ℕ) → j < 255 → PointsTo (m'.mem (p + 4 * j)) (base + j * 4096))
      × ((a : ℕ) → (a < p) ⊎ (p + 4 * 256 ≤ a) → m'.mem a ≡ m1.mem a)
init_space-Directory fuel alloc base p m m1 off got off1 ne aligned small base_aligned room =
    let (mem', ran, written, kept) = kernel_entries_lem 255 0 base p m1 off1 in
    let last : ℕ = p + 4 * 255 in
    let x = space_entry p in
    (
      record m1 { mem = poke_word mem' last x },
      init_space-run fuel alloc base p m m1 (record m1 { mem = poke_word mem' last x }) off got
          (ground arith) (fill_directory-run base p m1 mem' off1 ran),
      subst (λ e. PointsTo e p) (sym (poke_word_at mem' last x))
          (space_entry-PointsTo p aligned small),
      λ j l.
          subst (λ e. PointsTo e (base + j * 4096))
            (sym (
              poke_word_other mem' last x (p + 4 * j) (λ e. omega arith)
              ∙ written j (omega arith) (omega arith)
              ∙ ap space_entry (masked base j base_aligned room l)))
            (space_entry-PointsTo (base + j * 4096) (omega arith) (omega arith)),
      λ a out.
          poke_word_other mem' last x a
            (λ e. elim out [ inl low ↦ omega arith | inr high ↦ omega arith ])
          ∙ kept a (outside a out),
    )
  where
    masked :
        (base j : ℕ)
        → base % 4096 ≡ 0
        → base + 0x100000 ≤ 2 ^ 32
        → j < 255
        → bit_and (add32 base (j * page_size)) page_mask ≡ base + j * 4096
    masked base j a room l =
        let small : add32 base (j * 4096) ≡ base + j * 4096 = omega arith in
        bit_and-page_mask (add32 base (j * 4096)) (omega arith) ∙ omega arith

    outside : (a : ℕ) → (a < p) ⊎ (p + 4 * 256 ≤ a) → (a < p + 4 * 0) ⊎ (p + 4 * (0 + 255) ≤ a)
    outside a (inl low) = inl (omega arith)
    outside a (inr high) = inr (omega arith)
