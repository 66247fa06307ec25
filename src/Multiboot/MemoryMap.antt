-- ===== src/Multiboot/MemoryMap.antt =====
-- Multiboot::Overlap and the loop over the memory map (kernel/core/multiboot.cpp).
use tysos_cxx.Prelude.{
  ℕ, Bool, true, false, ◌&&◌, ◌||◌, List, [], ◌∷◌, some, ◌+◌, ◌^◌, ◌<◌, ◌≤◌, ◌≡◌, ◌⊎◌, ◌↔◌, inl,
  inr, ltb, leb, test_bit, All, Any, arith, Bool-cases, ◌∙◌,
}
use tysos_cxx.Multiboot.{MbMmap, is_avail, overlap, meets, lies_within, check_mmap}

-- The region is not empty and does not wrap around.
abbrev pub IsRegion : ℕ → ℕ → Type 0
IsRegion base length = (0 < length) × (base + length ≤ 2 ^ 32)

module _ (b1 l1 b2 l2 : ℕ) (r1 : IsRegion b1 l1) (r2 : IsRegion b2 l2) where
  -- Overlap of two regions that are not empty and do not wrap around sets EQUAL, LESS, MORE and
  -- WITHIN exactly when they share an address, the first begins below the second, ends above it,
  -- and lies inside it.
  pub region_overlap_bits :
      (test_bit (overlap b1 l1 b2 l2) 0 ≡ (ltb b1 (b2 + l2) && ltb b2 (b1 + l1)))
      × (test_bit (overlap b1 l1 b2 l2) 1 ≡ ltb b1 b2)
      × (test_bit (overlap b1 l1 b2 l2) 2 ≡ ltb (b2 + l2) (b1 + l1))
      × (test_bit (overlap b1 l1 b2 l2) 3 ≡ (leb b2 b1 && leb (b1 + l1) (b2 + l2)))
  unfolding overlap
  region_overlap_bits = ground arith

-- A region that is empty, or does not wrap around.
abbrev pub IsSpan : ℕ → ℕ → Type 0
IsSpan base length = (length ≡ 0) ⊎ IsRegion base length

-- The first region has an address in the second.
abbrev pub Shares : ℕ → ℕ → ℕ → ℕ → Type 0
Shares b1 l1 b2 l2 = (0 < l2) × (b1 < b2 + l2) × (b2 < b1 + l1)

-- The first region lies inside the second.
abbrev pub Inside : ℕ → ℕ → ℕ → ℕ → Type 0
Inside b1 l1 b2 l2 = (0 < l2) × (b2 ≤ b1) × (b1 + l1 ≤ b2 + l2)

-- The entry does not stand in the way: it is available, or the region is clear of it.
abbrev pub Lets : ℕ → ℕ → MbMmap → Type 0
Lets b1 l1 m = is_avail m ≡ false → ¬ Shares b1 l1 m.base_addr m.length

-- The entry is available and holds the region.
abbrev pub Holds : ℕ → ℕ → MbMmap → Type 0
Holds b1 l1 m = (is_avail m ≡ true) × Inside b1 l1 m.base_addr m.length

module _ (b1 l1 : ℕ) (r1 : IsRegion b1 l1) where
  pub meets_iff_Shares :
      (b2 l2 : ℕ) → IsSpan b2 l2 → (meets b1 l1 b2 l2 ≡ true) ↔ Shares b1 l1 b2 l2
  unfolding overlap
  meets_iff_Shares b2 l2 (inl empty) = (λ h. ground arith, λ s. absurd (omega arith))
  meets_iff_Shares b2 l2 (inr r2) = (λ h. ground arith, λ s. ground arith)

  pub lies_within_iff_Inside :
      (b2 l2 : ℕ) → IsSpan b2 l2 → (lies_within b1 l1 b2 l2 ≡ true) ↔ Inside b1 l1 b2 l2
  unfolding overlap
  lies_within_iff_Inside b2 l2 (inl empty) = (λ h. ground arith, λ s. absurd (omega arith))
  lies_within_iff_Inside b2 l2 (inr r2) = (λ h. ground arith, λ s. ground arith)

  check_mmap-head :
      (m : MbMmap) (rest : List MbMmap) (free : Bool)
      → IsSpan m.base_addr m.length
      → check_mmap b1 l1 (m ∷ rest) free ≡ some true
      → Lets b1 l1 m
  unfolding check_mmap
  check_mmap-head m rest free span h unavailable shares =
      let meet = (meets_iff_Shares m.base_addr m.length span).1 shares in ground arith

  check_mmap-tail :
      (m : MbMmap) (rest : List MbMmap) (free : Bool)
      → check_mmap b1 l1 (m ∷ rest) free ≡ some true
      → check_mmap b1 l1 rest ((is_avail m && lies_within b1 l1 m.base_addr m.length) || free)
        ≡ some true
  unfolding check_mmap
  check_mmap-tail m rest free h = ground arith

  check_mmap-cons :
      (m : MbMmap) (rest : List MbMmap) (free : Bool)
      → IsSpan m.base_addr m.length
      → Lets b1 l1 m
      → check_mmap b1 l1 (m ∷ rest) free
        ≡ check_mmap b1 l1 rest ((is_avail m && lies_within b1 l1 m.base_addr m.length) || free)
  unfolding check_mmap
  check_mmap-cons m rest free span lets = elim (Bool-cases (is_avail m)) [
    | inl available ↦ rw (available, check_mmap)
    | inr unavailable ↦ elim (Bool-cases (meets b1 l1 m.base_addr m.length)) [
      | inl meet ↦ absurd (lets unavailable ((meets_iff_Shares m.base_addr m.length span).0 meet))
      | inr apart ↦ ground arith
    ]
  ]

  found-Holds :
      (m : MbMmap) (free : Bool)
      → IsSpan m.base_addr m.length
      → ((is_avail m && lies_within b1 l1 m.base_addr m.length) || free) ≡ true
      → Holds b1 l1 m ⊎ (free ≡ true)
  found-Holds m free span h = elim (Bool-cases free) [
    | inl e ↦ inr e
    | inr e ↦
        let held : lies_within b1 l1 m.base_addr m.length ≡ true = ground arith in
        inl (ground arith, (lies_within_iff_Inside m.base_addr m.length span).0 held)
  ]

  Holds-found :
      (m : MbMmap) (free : Bool)
      → IsSpan m.base_addr m.length
      → Holds b1 l1 m
      → ((is_avail m && lies_within b1 l1 m.base_addr m.length) || free) ≡ true
  Holds-found m free span (available, inside) =
      let held = (lies_within_iff_Inside m.base_addr m.length span).1 inside in ground arith

  -- The loop over the memory map ends with `free` set exactly when no entry stands in the way and
  -- some entry holds the region, or `free` was set before.
  pub check_mmap_sound :
      (xs : List MbMmap) (free : Bool)
      → All (λ m. IsSpan m.base_addr m.length) xs
      → check_mmap b1 l1 xs free ≡ some true
      → All (Lets b1 l1) xs × ((free ≡ true) ⊎ Any (Holds b1 l1) xs)
  unfolding check_mmap
  check_mmap_sound [] free spans h = (tt, inl (ground arith))
  check_mmap_sound (m ∷ rest) free spans h =
      let (lets, ends) = check_mmap_sound rest _ spans.1 (check_mmap-tail m rest free h) in
      (
        (check_mmap-head m rest free spans.0 h, lets),
        elim ends [
          | inr later ↦ inr (inr later)
          | inl now ↦ elim (found-Holds m free spans.0 now) [
            | inl holds ↦ inr (inl holds)
            | inr before ↦ inl before
          ]
        ],
      )

  pub check_mmap_complete :
      (xs : List MbMmap) (free : Bool)
      → All (λ m. IsSpan m.base_addr m.length) xs
      → All (Lets b1 l1) xs
      → (free ≡ true) ⊎ Any (Holds b1 l1) xs
      → check_mmap b1 l1 xs free ≡ some true
  unfolding check_mmap
  check_mmap_complete [] free spans lets (inl e) = rw e
  check_mmap_complete [] free spans lets (inr none_holds) = absurd none_holds
  check_mmap_complete (m ∷ rest) free spans lets ends =
      check_mmap-cons m rest free spans.0 lets.0
      ∙ check_mmap_complete rest _ spans.1 lets.1 (elim ends [
        | inl e ↦ inl (ground arith)
        | inr (inl holds) ↦ inl (Holds-found m free spans.0 holds)
        | inr (inr later) ↦ inr later
      ])
