-- ===== src/Memory/Fault/Reach.antt =====
-- Which faults a section serves (kernel/core/vmem.cpp), in unbounded arithmetic.
use tysos_cxx.Prelude.{
  ℕ, true, false, ◌&&◌, ◌+◌, ◌^◌, ◌<◌, ◌≤◌, ◌≡◌, inl, inr, ltb, leb, if◌then◌else◌, add32, sub32,
  test_bit, arith, Bool-cases, refl, ap,
}
use tysos_cxx.Section.{VirtMemManager, Section, IsWords, range_max, range_min}
use tysos_cxx.Section.Extents.{Fits}
use tysos_cxx.Section.Flag
use tysos_cxx.Memory.Fault.{serve, grow_down, grow_up}

-- The section holds the address.
abbrev pub Holds : ℕ → Section → Type 0
Holds a s = (s.base ≤ a) × (a < s.base + s.length)

-- The section may grow as far as the address.
abbrev pub MayGrow : ℕ → Section → Type 0
MayGrow a s =
    (test_bit s.flags Flag.auto_expand ≡ true)
    × (s.base ≤ a + s.expand_down)
    × (a ≤ s.base + s.length + s.expand_up)

module _ (v : VirtMemManager) (a : ℕ) (s : Section) (words : IsWords s) (fits : Fits v s)
    (top : range_max v s < 2 ^ 32) (word : a < 2 ^ 32) where
  module _ (start : 0 < range_min v s) where
    up-Holds : (s' : Section) → grow_up a (true, s) ≡ (false, s') → Holds a s'
    unfolding grow_up
    up-Holds s' h =
        let low = fits.low in
        let high = fits.high in
        elim (Bool-cases
          (leb (add32 s.base s.length) a && leb (sub32 a (add32 s.base s.length)) s.expand_up)) [
            | inl up ↦ ground arith
            | inr stays ↦ ground arith
          ]

    -- The section after the two growing steps, in each of the cases.
    grown-Holds : (s' : Section) → grow_up a (grow_down a (true, s)) ≡ (false, s') → Holds a s'
    unfolding grow_up grow_down
    grown-Holds s' h =
        let low = fits.low in
        let high = fits.high in
        elim (Bool-cases (ltb a s.base && leb (sub32 s.base a) s.expand_down)) [
          | inl down ↦ elim (Bool-cases (leb (add32 a s.length) a)) [
            | inl empty ↦ ground arith
            | inr some_bytes ↦ ground arith
          ]
          | inr stays ↦
              let here : grow_down a (true, s) ≡ (true, s) = rw stays refl in
              let up : grow_up a (true, s) ≡ (false, s') = rw here at h in up-Holds s' up
        ]

    kept-Holds :
        (s' : Section)
        → (if leb s'.base a && ltb a (add32 s'.base s'.length) then false else true) ≡ false
        → Holds a s'
    kept-Holds s' h = ground arith

    -- A section that fits into a range that does not begin at address 0 holds the address after it
    -- has served the fault.
    pub serve-Holds : (serve a s).0 ≡ false → Holds a (serve a s).1
    unfolding serve
    serve-Holds h = elim (Bool-cases (test_bit s.flags Flag.auto_expand)) [
      | inr off ↦ rw off (kept-Holds s (rw off at h))
      | inl on ↦ elim (Bool-cases (grow_up a (grow_down a (true, s))).0) [
        | inl err ↦
            let g = grow_up a (grow_down a (true, s)) in
            rw on (kept-Holds g.1 (rw err at (rw on at h)))
        | inr fine ↦ rw on (
            grown-Holds (grow_up a (grow_down a (true, s))).1
              (ap (λ b. (b, (grow_up a (grow_down a (true, s))).1)) fine))
      ]
    ]
