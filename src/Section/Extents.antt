-- ===== src/Section/Extents.antt =====
-- CheckExtents and Extent::Overlap (kernel/core/section.cpp) against unbounded arithmetic.
use tysos_cxx.Prelude.{
  ℕ, true, false, ◌&&◌, ◌+◌, ◌-◌, ◌%◌, ◌^◌, ◌<◌, ◌≤◌, ◌≡◌, ap, ◌∙◌, inl, inr, ◌↔◌, Bool-cases,
  sub32, ltb, leb, test_bit, arith,
}
use tysos_cxx.Section.Flag
use tysos_cxx.Section.{
  VirtMemManager, Section, Extent, IsWords, range_min, range_max, extent_length, check_upper,
  check_extents, overlap, overlaps,
}

-- What a section asks for, its padding and its room to grow included.
abbrev pub total : Section → ℕ
total s = s.lower_padding + s.expand_down + s.length + s.expand_up + s.upper_padding

-- The section is defined, is not empty, and lies in its range with padding and room to grow.
pub record Fits (v : VirtMemManager) (s : Section) : Type 0 where
  pub defined : test_bit s.flags Flag.defined ≡ true
  pub low : range_min v s + s.expand_down + s.lower_padding ≤ s.base
  pub high : s.base + s.length + s.expand_up + s.upper_padding ≤ range_max v s
  pub some_bytes : 0 < total s

-- The addresses of a section that fits.
abbrev pub extent_of : Section → Extent
extent_of s = record {
  upper = s.base + s.length + s.expand_up + s.upper_padding - 1;
  lower = s.base - s.expand_down - s.lower_padding;
  length = total s % 2 ^ 32;
}

pub extent_length_lem : (s : Section) → extent_length s ≡ total s % 2 ^ 32
unfolding extent_length
extent_length_lem s = omega arith

module _ (v : VirtMemManager) (s : Section) (e : Extent) (w : IsWords s)
    (top : range_max v s < 2 ^ 32) where
  check_upper-true :
      (r : ℕ)
      → s.base + s.length + s.expand_up + s.upper_padding ≤ range_max v s
      → r < s.base + s.length + s.expand_up + s.upper_padding
      → check_upper v s r e ≡ (
        true,
        record e { lower = r; upper = s.base + s.length + s.expand_up + s.upper_padding - 1 },
      )
  unfolding check_upper
  check_upper-true r high below = ground arith

  check_upper-inv :
      (r : ℕ)
      → (check_upper v s r e).0 ≡ true
      → (s.base + s.length + s.expand_up + s.upper_padding ≤ range_max v s)
        × (r < s.base + s.length + s.expand_up + s.upper_padding)
  unfolding check_upper
  check_upper-inv r h = ground arith

  check_upper-false : (r : ℕ) → (check_upper v s r e).0 ≡ false → check_upper v s r e ≡ (false, e)
  unfolding check_upper
  check_upper-false r h = ground arith

module _ (v : VirtMemManager) (s : Section) (e : Extent) (w : IsWords s)
    (top : range_max v s < 2 ^ 32) where
  -- CheckExtents below r_max, with r_min in unbounded arithmetic.
  check_lower :
      test_bit s.flags Flag.defined ≡ true
      → range_min v s + s.expand_down + s.lower_padding ≤ s.base
      → check_extents v s e
        ≡ check_upper v s
            (s.base - s.expand_down - s.lower_padding)
            (record e { length = extent_length s })
  unfolding check_extents
  check_lower d low = ground arith

  check_lower-inv :
      (check_extents v s e).0 ≡ true
      → (test_bit s.flags Flag.defined ≡ true)
        × (range_min v s + s.expand_down + s.lower_padding ≤ s.base)
  unfolding check_extents
  check_lower-inv h = ground arith

  check_extents_sound : (check_extents v s e).0 ≡ true → Fits v s
  check_extents_sound h =
      let (d, low) = check_lower-inv h in
      let h' = rw (check_lower d low) at h in
      let (high, below) = check_upper-inv v s _ w top _ h' in
      record { defined = d; low = low; high = high; some_bytes = omega arith }

  check_extents_complete : Fits v s → check_extents v s e ≡ (true, extent_of s)
  check_extents_complete f =
      check_lower f.defined f.low
      ∙ check_upper-true v s _ w top _ f.high (let b = f.some_bytes in let l = f.low in omega arith)
      ∙ ap (λ n. (true, record (extent_of s) { length = n })) (extent_length_lem s)

  check_extents-false :
      (check_extents v s e).0 ≡ false
      → check_extents v s e ≡ (false, record e { length = total s % 2 ^ 32 })
  unfolding check_extents
  check_extents-false h = ground (
    arith,
    extent_length_lem s,
    check_upper-false v s (record e { length = extent_length s }) w top
        (sub32 (sub32 s.base s.expand_down) s.lower_padding),
  )

  -- On a section of 32-bit words, CheckExtents succeeds exactly when the section is defined, not
  -- empty, and lies in its range in unbounded arithmetic, so that no guard wraps around. It then
  -- writes the true bounds; otherwise it writes the length alone.
  pub check_extents_iff_Fits :
      (((check_extents v s e).0 ≡ true) ↔ Fits v s)
      × (Fits v s → check_extents v s e ≡ (true, extent_of s))
      × (¬ Fits v s → check_extents v s e ≡ (false, record e { length = total s % 2 ^ 32 }))
  check_extents_iff_Fits = (
    (check_extents_sound, λ f. ap (λ r. r.0) (check_extents_complete f)),
    check_extents_complete,
    λ no_fit. elim (Bool-cases (check_extents v s e).0) [
      | inl h ↦ absurd (no_fit (check_extents_sound h))
      | inr h ↦ check_extents-false h
    ],
  )

  -- The length is written on every path.
  pub check_extents-length : (check_extents v s e).1.length ≡ total s % 2 ^ 32
  check_extents-length = elim (Bool-cases (check_extents v s e).0) [
    | inl h ↦ ap (λ r. r.1.length) (check_extents_complete (check_extents_sound h))
    | inr h ↦ ap (λ r. r.1.length) (check_extents-false h)
  ]

module _ (e1 e2 : Extent) (ne1 : e1.lower ≤ e1.upper) (ne2 : e2.lower ≤ e2.upper) where
  -- Of two extents that are not empty, Overlap sets LESS, MORE, EQUAL and WITHIN exactly when the
  -- first begins below the second, ends above it, shares an address with it, and lies inside it.
  pub overlap_bits :
      (test_bit (overlap e1 e2) 0 ≡ ltb e1.lower e2.lower)
      × (test_bit (overlap e1 e2) 1 ≡ ltb e2.upper e1.upper)
      × (test_bit (overlap e1 e2) 2 ≡ (leb e1.lower e2.upper && leb e2.lower e1.upper))
      × (test_bit (overlap e1 e2) 3 ≡ (leb e2.lower e1.lower && leb e1.upper e2.upper))
  unfolding overlap
  overlap_bits = ground arith

  pub overlaps_lem : overlaps e1 e2 ≡ (leb e1.lower e2.upper && leb e2.lower e1.upper)
  unfolding overlaps overlap
  overlaps_lem = ground arith
