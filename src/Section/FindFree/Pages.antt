-- ===== src/Section/FindFree/Pages.antt =====
-- Rounding to pages, as the placement of sections needs it.
use tysos_cxx.Prelude.{
  ℕ, ◌+◌, ◌%◌, ◌^◌, ◌≤◌, ◌<◌, ◌≡◌, bit_and, arith, bit_and-page_mask, add32, sub32,
}
use native.Mathlib.Decide.{dec_lt}
use tysos_cxx.Section.{VirtMemManager, i386_vmm}
use tysos_cxx.Section.FindFree.{page_up}

-- A multiple of the page size.
abbrev pub IsAligned : VirtMemManager → ℕ → Type 0
IsAligned v x = bit_and x v.page_mask ≡ x

-- The page mask rounds down to a page, and pages lie a page size apart.
pub record RoundsToPages (v : VirtMemManager) : Type 0 where
  pub size_pos : 0 < v.page_size
  pub rounds : (x : ℕ) → x < 2 ^ 32 → IsAligned v (bit_and x v.page_mask)
  pub round_le : (x : ℕ) → x < 2 ^ 32 → bit_and x v.page_mask ≤ x
  pub round_gap : (x : ℕ) → x < 2 ^ 32 → x < bit_and x v.page_mask + v.page_size
  pub apart : (x y : ℕ) → IsAligned v x → IsAligned v y → y < 2 ^ 32 → x < y → x + v.page_size ≤ y
  pub last_page : (x : ℕ) → IsAligned v x → x < 2 ^ 32 → x + v.page_size ≤ 2 ^ 32

module _ (v : VirtMemManager) (r : RoundsToPages v) where
  pub page_up-IsAligned : (x : ℕ) → IsAligned v (page_up v x)
  unfolding page_up
  page_up-IsAligned x = r.rounds _ (omega arith)

  pub page_up-lt : (x : ℕ) → page_up v x < 2 ^ 32
  unfolding page_up
  page_up-lt x = omega (arith, r.round_le (sub32 (add32 x v.page_size) 1) (omega arith))

  -- Below an aligned address, rounding up does not wrap around and stays below it.
  pub le-page_up : (x y : ℕ) → IsAligned v y → y < 2 ^ 32 → x ≤ y → x ≤ page_up v x
  unfolding page_up
  le-page_up x y a small h = omega (
    arith,
    r.size_pos,
    r.last_page y a small,
    r.round_gap (sub32 (add32 x v.page_size) 1) (omega arith),
  )

  pub page_up-le : (x y : ℕ) → IsAligned v y → y < 2 ^ 32 → x ≤ y → page_up v x ≤ y
  unfolding page_up
  page_up-le x y a small h = elim (dec_lt y (page_up v x)) [
    | yes over ↦
        let far = r.apart y (page_up v x) a (page_up-IsAligned x) (page_up-lt x) over in
        let low = r.round_le (sub32 (add32 x v.page_size) 1) (omega arith) in
        absurd (omega (arith, r.size_pos, r.last_page y a small))
    | no fine ↦ omega arith
  ]

i386_aligned : (x : ℕ) → x < 2 ^ 32 → bit_and x 0xfffff000 ≡ x → x % 4096 ≡ 0
i386_aligned x small h = omega (arith, bit_and-page_mask x small)

-- The constants of the i386 build round to pages.
pub i386_vmm-RoundsToPages : RoundsToPages i386_vmm
i386_vmm-RoundsToPages = record {
  size_pos = omega arith;
  rounds = λ x h. omega (
    arith,
    bit_and-page_mask x h,
    bit_and-page_mask (bit_and x 0xfffff000) (omega (arith, bit_and-page_mask x h)),
  );
  round_le = λ x h. omega (arith, bit_and-page_mask x h);
  round_gap = λ x h. omega (arith, bit_and-page_mask x h);
  apart = λ x y a b h l. omega (arith, i386_aligned x (omega arith) a, i386_aligned y h b);
  last_page = λ x a h. omega (arith, i386_aligned x h a);
}
