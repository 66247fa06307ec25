-- ===== src/Memory/Allocator/FreePages.antt =====
-- The loop of i386_PhysMemAllocator::Init (kernel/i386/i386_pmem.cpp) that frees the pages.
use tysos_cxx.Prelude.{
  ℕ, zero, suc, ◌+◌, ◌-◌, ◌*◌, ◌/◌, ◌%◌, ◌^◌, ◌<◌, ◌≤◌, ◌≡◌, ◌≢◌, true, false, List, [], ◌∷◌,
  Option, some, ◌==◌, ltb, leb, add32, sub32, mul32, get_elem?, set, length, All, refl, sym, ◌∙◌,
  ap, subst, inl, inr, Bool-cases, arith, bit_or,
}
use tysos_cxx.Multiboot.{Multiboot, check_range}
use tysos_cxx.Memory.PageStack.{push_page, holds, Stacked, push_page-Stacked}
use tysos_cxx.Memory.Bitmap.{PhysMemBitmap, free_page}
use tysos_cxx.Memory.Allocator.{
  PhysMemAllocator, get_page, free, free_if_unused, free_pages, page_size,
}

-- A bitmap of 16 MiB in pages of 4 KiB.
pub record CoversLow (b : PhysMemBitmap) : Type 0 where
  pub base : b.base ≡ 0
  pub end : b.end ≡ 0x1000000
  pub ps : b.ps ≡ 0x1000
  pub words : length b.bmp ≡ 128

-- The pages are from 16 MiB on, below the next one, aligned, and CheckRange accepts them.
abbrev pub FreePages : Multiboot → ℕ → List ℕ → Type 0
FreePages mb next =
    All (λ p. (0x1000000 ≤ p) × (p < next) × (p % 4096 ≡ 0) × (check_range mb p 0x1000 ≡ true))

widen :
    (mb : Multiboot) (n n' : ℕ) (pages : List ℕ)
    → n ≤ n'
    → FreePages mb n pages
    → FreePages mb n' pages
widen mb n n' [] l a = tt
widen mb n n' (p ∷ pages) l ((high, low, al, ok), a) =
    ((high, omega arith, al, ok), widen mb n n' pages l a)

FreePages-holds :
    (mb : Multiboot) (n : ℕ) (pages : List ℕ) → FreePages mb n pages → holds n pages ≡ false
FreePages-holds mb n [] a = refl
FreePages-holds mb n (p ∷ pages) ((high, low, al, ok), a) =
    let ih = FreePages-holds mb n pages a in ground arith

length-set : (xs : List ℕ) (i v : ℕ) → length (set xs i v) ≡ length xs
length-set [] i v = refl
length-set (x ∷ xs) zero v = refl
length-set (x ∷ xs) (suc i) v = ap (λ n. suc n) (length-set xs i v)

word_at : (xs : List ℕ) (i : ℕ) → i < length xs → (w : ℕ) × (get_elem? xs i ≡ some w)
word_at [] i l = absurd (omega arith)
word_at (x ∷ xs) zero l = (x, refl)
word_at (x ∷ xs) (suc i) l = word_at xs i (omega arith)

free_page-run :
    (b : PhysMemBitmap) (p w : ℕ)
    → ltb p b.base ≡ false
    → leb b.end p ≡ false
    → get_elem? b.bmp ((p - b.base) / b.ps / 32) ≡ some w
    → free_page p b
      ≡ some (record b {
        bmp = set b.bmp ((p - b.base) / b.ps / 32) (bit_or w (2 ^ ((p - b.base) / b.ps % 32)));
      })
unfolding free_page
free_page-run b p w low high e = rw (free_page, low, high, e) refl

-- Free of a low page stays within the bitmap.
free_page-CoversLow :
    (b : PhysMemBitmap) (p : ℕ)
    → CoversLow b
    → p < 0x1000000
    → (b' : PhysMemBitmap) × (free_page p b ≡ some b') × CoversLow b'
unfolding free_page
free_page-CoversLow b p c l =
    let base = c.base in
    let end = c.end in
    let ps = c.ps in
    let words = c.words in
    let bitno : (p - b.base) / b.ps ≡ p / 4096 = rw (base, ps) (omega arith) in
    let (w, e) = word_at b.bmp ((p - b.base) / b.ps / 32) (omega arith) in
    let low : ltb p b.base ≡ false = ground arith in
    let high : leb b.end p ≡ false = ground arith in
    (
      record b {
        bmp = set b.bmp ((p - b.base) / b.ps / 32) (bit_or w (2 ^ ((p - b.base) / b.ps % 32)));
      },
      free_page-run b p w low high e,
      record { base = base; end = end; ps = ps; words = length-set b.bmp _ _ ∙ words },
    )

-- The pages of a stack are among those of another.
abbrev pub Within : List ℕ → List ℕ → Type 0
Within pages pages' = (q : ℕ) → holds q pages ≡ true → holds q pages' ≡ true

get_page-next :
    (mb : Multiboot) (s : PhysMemAllocator) (limit : ℕ)
    → add32 (mul32 mb.header.mem_upper 1024) 0x100000 ≡ limit
    → s.nextpage + 4096 ≤ limit
    → limit < 2 ^ 32
    → get_page mb s ≡ (s.nextpage, record s { nextpage = s.nextpage + 4096 })
unfolding get_page
get_page-next mb s limit top l w =
    let next : add32 s.nextpage page_size ≡ s.nextpage + 4096 = omega arith in
    let back : sub32 (s.nextpage + 4096) page_size ≡ s.nextpage = omega arith in
    let more : ltb limit (s.nextpage + 4096) ≡ false = ground arith in
    rw (get_page, next, top, more, back) refl

get_page-end :
    (mb : Multiboot) (s : PhysMemAllocator) (limit : ℕ)
    → add32 (mul32 mb.header.mem_upper 1024) 0x100000 ≡ limit
    → limit < s.nextpage + 4096
    → s.nextpage + 4096 < 2 ^ 32
    → get_page mb s ≡ (0, record s { nextpage = s.nextpage + 4096 })
unfolding get_page
get_page-end mb s limit top l w =
    let next : add32 s.nextpage page_size ≡ s.nextpage + 4096 = omega arith in
    let over : ltb limit (s.nextpage + 4096) ≡ true = ground arith in
    rw (get_page, next, top, over) refl

free_pages-end :
    (fuel : ℕ) (mb : Multiboot) (s s1 : PhysMemAllocator)
    → get_page mb s ≡ (0, s1)
    → free_pages (suc fuel) mb s ≡ some s1
unfolding free_pages
free_pages-end fuel mb s s1 e =
    let page = ap (λ (x : ℕ × PhysMemAllocator). x.0) e in
    let next = ap (λ (x : ℕ × PhysMemAllocator). x.1) e in rw (free_pages, page, next) refl

free_pages-step :
    (fuel p : ℕ) (mb : Multiboot) (s s1 s2 : PhysMemAllocator) (r : Option PhysMemAllocator)
    → get_page mb s ≡ (p, s1)
    → (p == 0) ≡ false
    → free_if_unused mb p s1 ≡ some s2
    → free_pages fuel mb s2 ≡ r
    → free_pages (suc fuel) mb s ≡ r
unfolding free_pages
free_pages-step fuel p mb s s1 s2 r e ne used rest =
    let page = ap (λ (x : ℕ × PhysMemAllocator). x.0) e in
    let next = ap (λ (x : ℕ × PhysMemAllocator). x.1) e in
    let tested : ((get_page mb s).0 == 0) ≡ false = rw page ne in
    let freed : free_if_unused mb (get_page mb s).0 (get_page mb s).1 ≡ some s2 =
      rw (page, next) used in
    rw (free_pages, tested, freed) rest

-- One page: it is pushed when it is high and CheckRange accepts it.
free_if_unused-FreePages :
    (mb : Multiboot) (s : PhysMemAllocator) (n : ℕ) (pages : List ℕ)
    → n % 4096 ≡ 0
    → n ≢ 0
    → CoversLow s.bmp
    → Stacked s.stack pages
    → FreePages mb n pages
    → (s' : PhysMemAllocator) × (pages' : List ℕ) × (free_if_unused mb n s ≡ some s')
      × (s'.nextpage ≡ s.nextpage)
      × CoversLow s'.bmp
      × Stacked s'.stack pages'
      × FreePages mb (n + 4096) pages'
      × Within pages pages'
      × (0x1000000 ≤ n → check_range mb n 0x1000 ≡ true → holds n pages' ≡ true)
unfolding free_if_unused free
free_if_unused-FreePages mb s n pages al ne c st fr =
    let wider = widen mb n (n + 4096) pages (omega arith) fr in
    elim (Bool-cases (check_range mb n 0x1000)) [
      | inr used ↦ (s, pages, rw used refl, refl, c, st, wider, (λ q h. h), λ high ok. absurd (cc))
      | inl unused ↦ elim (Bool-cases (leb 0x1000000 n)) [
        | inl high ↦ (
          record s { stack = push_page n s.stack },
          n ∷ pages,
          rw (unused, high) refl,
          refl,
          c,
          push_page-Stacked s.stack pages n st ne (FreePages-holds mb n pages fr),
          ((ground arith, omega arith, al, unused), wider),
          (λ q h. ground arith),
          λ _ ok. ground arith,
        )
        | inr low ↦
            let (b, done, c') = free_page-CoversLow s.bmp n c (ground arith) in
            (
              record s { bmp = b },
              pages,
              rw (unused, low, done) refl,
              refl,
              c',
              st,
              wider,
              (λ q h. h),
              λ high ok. absurd (ground arith),
            )
      ]
    ]

-- With enough fuel the loop of Init ends. Every page on the stack is then an aligned page from
-- 16 MiB on, begins below the end of the memory and is accepted by CheckRange; the stack still has
-- the pages that it had before, and has every such page from `nextpage` on that ends within the
-- memory. Before, the stack has only such pages below `nextpage`, the bitmap covers the first
-- 16 MiB, `nextpage` is aligned, not 0 and not behind the end of the memory, and the memory ends a
-- page before 4 GiB.
pub free_pages-FreePages :
    (fuel : ℕ) (mb : Multiboot) (s : PhysMemAllocator) (pages : List ℕ) (limit : ℕ)
    → add32 (mul32 mb.header.mem_upper 1024) 0x100000 ≡ limit
    → limit + 4096 < 2 ^ 32
    → s.nextpage ≤ limit
    → s.nextpage % 4096 ≡ 0
    → s.nextpage ≢ 0
    → limit < s.nextpage + fuel * 4096
    → CoversLow s.bmp
    → Stacked s.stack pages
    → FreePages mb s.nextpage pages
    → (s' : PhysMemAllocator) × (pages' : List ℕ) × (free_pages fuel mb s ≡ some s')
      × CoversLow s'.bmp
      × Stacked s'.stack pages'
      × FreePages mb limit pages'
      × Within pages pages'
      × ((p : ℕ)
          → s.nextpage ≤ p
          → p + 4096 ≤ limit
          → p % 4096 ≡ 0
          → 0x1000000 ≤ p
          → check_range mb p 0x1000 ≡ true
          → holds p pages' ≡ true)
free_pages-FreePages zero mb s pages limit top w l al ne enough c st fr = absurd (omega arith)
free_pages-FreePages (suc fuel) mb s pages limit top w l al ne enough c st fr =
    elim (Bool-cases (ltb limit (s.nextpage + 4096))) [
      | inl over ↦ (
        record s { nextpage = s.nextpage + 4096 },
        pages,
        free_pages-end fuel mb s _ (get_page-end mb s limit top (ground arith) (omega arith)),
        c,
        st,
        widen mb s.nextpage limit pages l fr,
        (λ q h. h),
        λ p from to a high ok. absurd (ground arith),
      )
      | inr more ↦
          let room : s.nextpage + 4096 ≤ limit = ground arith in
          let s1 : PhysMemAllocator = record s { nextpage = s.nextpage + 4096 } in
          let (s2, pages1, used, next, c1, st1, fr1, kept1, pushed) =
            free_if_unused-FreePages mb s1 s.nextpage pages al ne c st fr in
          let (s', pages', ran, c', st', fr', kept', rest) =
            free_pages-FreePages fuel mb s2 pages1 limit top w (rw next room)
              (rw next (omega arith)) (rw next (omega arith)) (rw next (omega arith)) c1 st1
              (subst (λ n. FreePages mb n pages1) (sym next) fr1) in
          (
            s',
            pages',
            free_pages-step fuel s.nextpage mb s s1 s2 (some s')
                (get_page-next mb s limit top room (omega arith)) (ground arith) used ran,
            c',
            st',
            fr',
            (λ q h. kept' q (kept1 q h)),
            λ p from to a high ok. elim (Bool-cases (p == s.nextpage)) [
              | inl here ↦
                  let same : p ≡ s.nextpage = ground arith in
                  kept' p (
                    subst (λ n. holds n pages1 ≡ true) (sym same)
                      (pushed (omega arith) (rw (← same) ok)))
              | inr later ↦ rest p (rw next (later_le p s.nextpage al a from later)) to a high ok
            ],
          )
    ]
  where
    later_le : (p n : ℕ) → n % 4096 ≡ 0 → p % 4096 ≡ 0 → n ≤ p → (p == n) ≡ false → n + 4096 ≤ p
    later_le p n al a from later = let ne : p ≢ n = ground arith in omega arith
