-- ===== src/Memory/Bitmap.antt =====
-- class PhysMemBitmap (kernel/core/pmem.cpp, include/sys/pmem.h): one bit for each page, set where
-- the page is free. `none` is an access outside of the bitmap's memory.
pub mod FirstFit
use tysos_cxx.Prelude.{
  ℕ, zero, suc, ◌+◌, ◌-◌, ◌*◌, ◌/◌, ◌%◌, ◌^◌, ◌<◌, ◌≤◌, ◌≡◌, ◌≢◌, Bool, true, false, List, [], ◌∷◌,
  Option, none, some, refl, ltb, leb, ◌==◌, if◌then◌else◌, get_elem?, set, length, add32, sub32,
  mul32, test_bit, bit_or, arith, inl, inr, ◌⊎◌, Bool-cases, Option-cases,
}

pub record PhysMemBitmap : Type 0 where
  pub bmp : List ℕ
  pub base : ℕ
  pub end : ℕ
  pub ps : ℕ
  pub bmp_size : ℕ

-- `(arr[j / 32] >> (j % 32)) & 1`
unfoldable pub bit_at : List ℕ → ℕ → Option Bool
bit_at arr j = elim (get_elem? arr (j / 32)) [ none ↦ none | some w ↦ some (test_bit w (j % 32)) ]

-- PhysMemBitmap::Free; lock_bts sets the bit.
unfoldable pub free_page : ℕ → PhysMemBitmap → Option PhysMemBitmap
free_page paddr b =
    if ltb paddr b.base
    then some b
    else if leb b.end paddr
    then some b
    else (let bitno = (paddr - b.base) / b.ps in
        elim (get_elem? b.bmp (bitno / 32)) [
          | none ↦ none
          | some w ↦ some (record b { bmp = set b.bmp (bitno / 32) (bit_or w (2 ^ (bitno % 32))) })
        ])

-- The inner loop of AllocRange: `count` bits from `j` on. The result is the first bit that is
-- clear, if any.
unfoldable pub find_clear : List ℕ → ℕ → ℕ → Option (Option ℕ)
find_clear arr j zero = some none
find_clear arr j (suc count) = elim (bit_at arr j) [
  | none ↦ none
  | some true ↦ find_clear arr (suc j) count
  | some false ↦ some (some j)
]

-- The outer loop of AllocRange from bit `i` on, below `limit`: the bit where a range begins. The
-- outer `none` is an access outside of the bitmap, or that the fuel does not suffice.
unfoldable pub find_set : ℕ → List ℕ → ℕ → ℕ → ℕ → Option (Option ℕ)
find_set zero arr pages limit i = if ltb i limit then none else some none
find_set (suc fuel) arr pages limit i =
    if ltb i limit
    then elim (find_clear arr i pages) [
      | none ↦ none
      | some none ↦ some (some i)
      | some (some j) ↦ find_set fuel arr pages limit (suc j)
    ]
    else some none

-- The number of pages that hold `length` bytes.
unfoldable pub pages_for : PhysMemBitmap → ℕ → ℕ
pages_for b length = sub32 (add32 length b.ps) 1 / b.ps

unfoldable pub page_or_null : PhysMemBitmap → Option ℕ → ℕ
page_or_null b none = 0
page_or_null b (some i) = add32 b.base (mul32 i b.ps)

-- PhysMemBitmap::AllocRange; NULL is 0.
unfoldable pub alloc_range : ℕ → PhysMemBitmap → Option ℕ
unfolding find_set pages_for
alloc_range length b =
    let pages = pages_for b length in
    let limit = sub32 (mul32 b.bmp_size 8) pages in
    elim (find_set limit b.bmp pages limit 0) [ none ↦ none | some r ↦ some (page_or_null b r) ]
