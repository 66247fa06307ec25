-- ===== src/Memory/Bitmap/FirstFit.antt =====
-- PhysMemBitmap::AllocRange (kernel/core/pmem.cpp) finds the first range of free pages.
use tysos_cxx.Prelude.{
  ℕ, zero, suc, ◌+◌, ◌-◌, ◌*◌, ◌/◌, ◌%◌, ◌^◌, ◌<◌, ◌≤◌, ◌≡◌, Bool, true, false, List, [], ◌∷◌,
  Option, none, some, refl, ltb, leb, get_elem?, length, add32, sub32, mul32, test_bit, arith, inl,
  inr, Bool-cases, Option-cases, ap, ◌∙◌,
}
use tysos_cxx.Memory.Bitmap.{
  PhysMemBitmap, bit_at, find_clear, find_set, pages_for, alloc_range, page_or_null,
}

get_elem?_total {ℓ} :
    {A : Type ℓ} (xs : List A) (i : ℕ) → i < length xs → (a : A) × (get_elem? xs i ≡ some a)
get_elem?_total [] i l = absurd (omega arith)
get_elem?_total (x ∷ xs) zero l = (x, refl)
get_elem?_total (x ∷ xs) (suc i) l = get_elem?_total xs i (omega arith)

bit_at_total : (arr : List ℕ) (j : ℕ) → j < 32 * length arr → (v : Bool) × (bit_at arr j ≡ some v)
unfolding bit_at
bit_at_total arr j l =
    let (w, e) = get_elem?_total arr (j / 32) (omega arith) in
    (test_bit w (j % 32), rw (bit_at, e) refl)

-- All pages of the range are free.
abbrev pub AllSet : List ℕ → ℕ → ℕ → Type 0
AllSet arr i zero = Unit
AllSet arr i (suc count) = (bit_at arr i ≡ some true) × AllSet arr (suc i) count

-- Some page of the range is in use.
pub record SomeClear (arr : List ℕ) (i count : ℕ) : Type 0 where
  pub bit : ℕ
  pub from : i ≤ bit
  pub below : bit < i + count
  pub clear : bit_at arr bit ≡ some false

module _ (arr : List ℕ) where
  find_clear-none : (j count : ℕ) → find_clear arr j count ≡ some none → AllSet arr j count
  unfolding find_clear
  find_clear-none j zero h = tt
  find_clear-none j (suc count) h = elim (Option-cases (bit_at arr j)) [
    | inl out ↦ absurd (ground arith)
    | inr (true, is_set) ↦ (is_set, find_clear-none (suc j) count (ground arith))
    | inr (false, is_clear) ↦ absurd (ground arith)
  ]

  find_clear-some :
      (j count k : ℕ)
      → find_clear arr j count ≡ some (some k)
      → (j ≤ k) × (k < j + count) × (bit_at arr k ≡ some false)
  unfolding find_clear
  find_clear-some j zero k h = absurd (ground arith)
  find_clear-some j (suc count) k h = elim (Option-cases (bit_at arr j)) [
    | inl out ↦ absurd (ground arith)
    | inr (true, is_set) ↦
        let (a, b, c) = find_clear-some (suc j) count k (ground arith) in
        (omega arith, omega arith, c)
    | inr (false, is_clear) ↦ (ground arith, ground arith, ground arith)
  ]

  -- Within the bitmap the inner loop reads no word outside.
  find_clear_total :
      (j count : ℕ)
      → j + count ≤ 32 * length arr
      → (r : Option ℕ) × (find_clear arr j count ≡ some r)
  unfolding find_clear
  find_clear_total j zero l = (none, refl)
  find_clear_total j (suc count) l =
      let (v, e) = bit_at_total arr j (omega arith) in
      let (r, found) = find_clear_total (suc j) count (omega arith) in
      elim (Bool-cases v) [
        | inl is_set ↦ (r, rw (find_clear, e, is_set) found)
        | inr is_clear ↦ (some j, rw (find_clear, e, is_clear) refl)
      ]

-- The first start between `i` and `limit` whose pages are all free, if there is one.
abbrev pub FirstFit : List ℕ → ℕ → ℕ → ℕ → Option ℕ → Type 0
FirstFit arr pages limit i none = (k : ℕ) → i ≤ k → k < limit → SomeClear arr k pages
FirstFit arr pages limit i (some r) =
    (i ≤ r) × (r < limit) × AllSet arr r pages × ((k : ℕ) → i ≤ k → k < r → SomeClear arr k pages)

module _ (arr : List ℕ) (pages limit : ℕ) (inside : limit + pages ≤ 32 * length arr) where
  -- A clear bit stands in the way of every start up to it.
  FirstFit-skip :
      (i j : ℕ)
      → i ≤ j
      → j < i + pages
      → bit_at arr j ≡ some false
      → (r : Option ℕ) → FirstFit arr pages limit (suc j) r
      → FirstFit arr pages limit i r
  FirstFit-skip i j l m clear none f = λ k from below. elim (Bool-cases (leb k j)) [
    | inl early ↦ record { bit = j; from = ground arith; below = omega arith; clear = clear }
    | inr later ↦ f k (ground arith) below
  ]
  FirstFit-skip i j l m clear (some r) (from, below, free, before) = (
    omega arith,
    below,
    free,
    λ k start stop. elim (Bool-cases (leb k j)) [
      | inl early ↦ record { bit = j; from = ground arith; below = omega arith; clear = clear }
      | inr later ↦ before k (ground arith) stop
    ],
  )

  find_set-FirstFit :
      (fuel i : ℕ)
      → limit ≤ i + fuel
      → (r : Option ℕ) × (find_set fuel arr pages limit i ≡ some r) × FirstFit arr pages limit i r
  unfolding find_set
  find_set-FirstFit zero i l = (none, ground arith, λ k from below. absurd (omega arith))
  find_set-FirstFit (suc fuel) i l = elim (Bool-cases (ltb i limit)) [
    | inr past ↦ (none, rw (find_set, past) refl, λ k from below. absurd (ground arith))
    | inl more ↦
        let (r, found) = find_clear_total arr i pages (ground arith) in
        elim (Option-cases r) [
          | inl all ↦
              let free : find_clear arr i pages ≡ some none = rw all at found in
              (
                some i,
                rw (find_set, more, free) refl,
                (
                  omega arith,
                  ground arith,
                  find_clear-none arr i pages free,
                  λ k from below. absurd (omega arith),
                ),
              )
          | inr (j, hit) ↦
              let stopped : find_clear arr i pages ≡ some (some j) = rw hit at found in
              let (from, below, clear) = find_clear-some arr i pages j stopped in
              let (q, rest, fit) = find_set-FirstFit fuel (suc j) (omega arith) in
              (q, rw (find_set, more, stopped) rest, FirstFit-skip i j from below clear q fit)
        ]
  ]

le_mul : (n p : ℕ) → 0 < p → n ≤ n * p
le_mul n zero h = absurd (omega arith)
le_mul n (suc p) h = omega arith

mul_le : (m n p : ℕ) → m ≤ n → m * p ≤ n * p
mul_le m n p h = let d = n - m in let split : n ≡ m + d = omega arith in rw split (omega arith)

-- The address of a page, or NULL.
abbrev pub page_address : PhysMemBitmap → Option ℕ → ℕ
page_address b none = 0
page_address b (some i) = b.base + i * b.ps

-- The bitmap's memory holds its bits, and the pages end within 32 bits.
pub record IsBitmap (b : PhysMemBitmap) : Type 0 where
  pub some_size : 0 < b.ps
  pub bits : b.bmp_size * 8 ≡ 32 * length b.bmp
  pub pages_end : b.base + b.bmp_size * 8 * b.ps < 2 ^ 32

pages_lem :
    (b : PhysMemBitmap) (bytes : ℕ)
    → 0 < b.ps
    → bytes + b.ps ≤ 2 ^ 32
    → pages_for b bytes ≡ (bytes + b.ps - 1) / b.ps
unfolding pages_for
pages_lem b bytes pos small =
    let same : sub32 (add32 bytes b.ps) 1 ≡ bytes + b.ps - 1 = omega arith in rw same refl

address_lem :
    (b : PhysMemBitmap)
    → IsBitmap b
    → (pages limit : ℕ) → limit ≤ b.bmp_size * 8
    → (r : Option ℕ) → FirstFit b.bmp pages limit 0 r
    → page_or_null b r ≡ page_address b r
unfolding page_or_null
address_lem b is pages limit l none fit = refl
address_lem b is pages limit l (some i) (from, below, free, before) =
    let small = mul_le i (b.bmp_size * 8) b.ps (omega arith) in
    let last = is.pages_end in
    let same : add32 b.base (mul32 i b.ps) ≡ b.base + i * b.ps = omega arith in same

alloc_range-found :
    (b : PhysMemBitmap) (bytes pages limit : ℕ) (r : Option ℕ)
    → pages_for b bytes ≡ pages
    → sub32 (mul32 b.bmp_size 8) pages ≡ limit
    → find_set limit b.bmp pages limit 0 ≡ some r
    → alloc_range bytes b ≡ some (page_or_null b r)
unfolding alloc_range
alloc_range-found b bytes pages limit r is_pages is_limit found =
    rw (alloc_range, is_pages, is_limit, found) refl

-- AllocRange reads no word outside of a bitmap that holds at least the pages asked for. It
-- returns the address of the first page from which on enough pages are free, or NULL if there is
-- none; the last possible start is not tried.
pub alloc_range-FirstFit :
    (b : PhysMemBitmap) (bytes : ℕ)
    → IsBitmap b
    → bytes + b.ps ≤ 2 ^ 32
    → (bytes + b.ps - 1) / b.ps ≤ b.bmp_size * 8
    → (r : Option ℕ) × (alloc_range bytes b ≡ some (page_address b r))
      × FirstFit b.bmp ((bytes + b.ps - 1) / b.ps) (b.bmp_size * 8 - (bytes + b.ps - 1) / b.ps) 0 r
alloc_range-FirstFit b bytes is small fits =
    let pages = (bytes + b.ps - 1) / b.ps in
    let limit = b.bmp_size * 8 - pages in
    let bits = is.bits in
    let pages_end = is.pages_end in
    let some_size = is.some_size in
    let size = le_mul (b.bmp_size * 8) b.ps some_size in
    let is_pages : pages_for b bytes ≡ pages = pages_lem b bytes some_size small in
    let is_limit : sub32 (mul32 b.bmp_size 8) pages ≡ limit = omega arith in
    let (r, found, fit) = find_set-FirstFit b.bmp pages limit (omega arith) limit 0 (omega arith) in
    (
      r,
      alloc_range-found b bytes pages limit r is_pages is_limit found
          ∙ ap some (address_lem b is pages limit (omega arith) r fit),
      fit,
    )
