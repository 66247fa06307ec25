-- ===== src/Section/FindFree/Complete.antt =====
-- Where `_findfree` gives up, there is no place for the section on any page of its range.
use tysos_cxx.Prelude.{
  ℕ, true, List, [], ◌∷◌, none, ◌+◌, ◌-◌, ◌^◌, ◌≤◌, ◌<◌, ◌≡◌, inl, inr, refl, sym, ◌∙◌, All, arith,
  Option-cases, Bool-cases,
}
use native.Mathlib.Decide.{dec_le}
use tysos_cxx.Section.{
  VirtMemManager, Section, Extent, IsWords, range_min, range_max, check_extents,
}
use tysos_cxx.Section.Extents.{Fits, total, extent_of, overlaps_lem}
use tysos_cxx.Section.FindFree.{
  is_free, page_up, section_end, candidate, place, find_loop, find_rounds, find_free_in,
}
use tysos_cxx.Section.FindFree.Pages.{IsAligned, RoundsToPages, le-page_up, page_up-le}
use tysos_cxx.Section.FindFree.Sound.{
  Disjoint, ClearOf, IsRange, range_max-lt, check_extents-Fits, check_extents-inv,
  find_free_in-rounds,
}

module _ (v : VirtMemManager) (range : IsRange v) (e : Extent) where
  clear_head :
      (s : Section) (rest : List Section) (re : Extent)
      → IsWords s
      → re.lower ≤ re.upper
      → (Fits v s → Disjoint re (extent_of s))
      → is_free v e rest re ≡ true
      → is_free v e (s ∷ rest) re ≡ true
  unfolding is_free
  clear_head s rest re w ne apart h = elim (Bool-cases (check_extents v s e).0) [
    | inl accepted ↦
        let f = check_extents-inv v range e s w accepted in
        let pos = f.some_bytes in
        let low = f.low in
        ground (
          arith,
          apart f,
          check_extents-Fits v range e s w f,
          overlaps_lem re (extent_of s) ne (omega arith),
        )
    | inr refused ↦ ground arith
  ]

  is_free_complete :
      (xs : List Section) (re : Extent)
      → All IsWords xs
      → re.lower ≤ re.upper
      → ClearOf v re xs
      → is_free v e xs re ≡ true
  unfolding is_free
  is_free_complete [] re w ne c = refl
  is_free_complete (s ∷ rest) re w ne c =
      clear_head s rest re w.0 ne c.0 (is_free_complete rest re w.1 ne c.1)

-- The last start that is not above `lower`, of `c` and the ends of the sections.
record Nearest (P : ℕ → Type 0) (lower c : ℕ) (xs : List Section) : Type 0 where
  start : ℕ
  is_start : P start
  ge : c ≤ start
  le : start ≤ lower
  last : All (λ s. section_end s ≤ lower → section_end s ≤ start) xs

Nearest-cons :
    (P : ℕ → Type 0) (lower c c' : ℕ) (s : Section) (rest : List Section)
    → c ≤ c'
    → (section_end s ≤ lower → section_end s ≤ c')
    → Nearest P lower c' rest
    → Nearest P lower c (s ∷ rest)
Nearest-cons P lower c c' s rest h k n =
    let ge = n.ge in
    record {
      start = n.start;
      is_start = n.is_start;
      ge = omega arith;
      le = n.le;
      last = (λ below. (let l = k below in omega arith), n.last);
    }

nearest :
    (P : ℕ → Type 0) (lower c : ℕ) (xs : List Section)
    → All (λ s. P (section_end s)) xs
    → P c
    → c ≤ lower
    → Nearest P lower c xs
nearest P lower c [] ps p h = record {
  start = c;
  is_start = p;
  ge = omega arith;
  le = h;
  last = tt;
}
nearest P lower c (s ∷ rest) ps p h = elim (dec_le (section_end s) c) [
  | yes low ↦
      Nearest-cons P lower c c s rest (omega arith) (λ _. low) (nearest P lower c rest ps.1 p h)
  | no over ↦ elim (dec_le (section_end s) lower) [
    | yes fits ↦
        Nearest-cons P lower c (section_end s) s rest (omega arith) (λ _. omega arith)
          (nearest P lower (section_end s) rest ps.1 ps.0 fits)
    | no above ↦
        Nearest-cons P lower c c s rest (omega arith) (λ below. absurd (above below))
          (nearest P lower c rest ps.1 p h)
  ]
]

-- The extent that a placement at `lower` claims.
abbrev pub claim : Section → ℕ → Extent
claim request lower = record {
  upper = lower + total request - 1;
  lower = lower;
  length = total request;
}

module _ (v : VirtMemManager) (range : IsRange v) (request : Section)
    (some_bytes : 0 < total request) (lower low : ℕ) (le : low ≤ lower) where
  slide_one :
      (s : Section)
      → IsWords s
      → (section_end s ≤ lower → section_end s ≤ low)
      → (Fits v s → Disjoint (claim request lower) (extent_of s))
      → Fits v s
      → Disjoint (claim request low) (extent_of s)
  unfolding section_end
  slide_one s w last apart f =
      let top = range_max-lt v s range in
      let bytes = f.some_bytes in
      let bottom = f.low in
      let high = f.high in
      elim (apart f) [
        | inl before ↦ inl (omega arith)
        | inr after ↦ inr (let l = last (omega arith) in omega arith)
      ]

  -- A claim that is clear stays so when it slides down to the end of the section below it.
  slide :
      (xs : List Section)
      → All IsWords xs
      → All (λ s. section_end s ≤ lower → section_end s ≤ low) xs
      → ClearOf v (claim request lower) xs
      → ClearOf v (claim request low) xs
  slide [] w last c = tt
  slide (s ∷ rest) w last c = (slide_one s w.0 last.0 c.0, slide rest w.1 last.1 c.1)

slide_last :
    (start page lower : ℕ) (xs : List Section)
    → start ≤ page
    → All (λ s. section_end s ≤ lower → section_end s ≤ start) xs
    → All (λ s. section_end s ≤ lower → section_end s ≤ page) xs
slide_last start page lower [] h last = tt
slide_last start page lower (s ∷ rest) h last =
    ((λ below. let l = last.0 below in omega arith), slide_last start page lower rest h last.1)

module _ (v : VirtMemManager) (range : IsRange v) (pages : RoundsToPages v) (e : Extent)
    (xs : List Section) (words : All IsWords xs) (request : Section)
    (some_bytes : 0 < total request) (small : total request < 2 ^ 32) where
  abbrev Missed : ℕ → Type 0
  Missed start = place v v e xs request (total request) start ≡ none

  find_loop-Missed :
      (rest : List Section)
      → find_loop v v e xs request (total request) rest ≡ none
      → All (λ s. Missed (section_end s)) rest
  unfolding find_loop
  find_loop-Missed [] h = tt
  find_loop-Missed (s ∷ rest) h =
      elim (Option-cases (place v v e xs request (total request) (section_end s))) [
        | inl missed ↦ (missed, find_loop-Missed rest (rw (missed, find_loop) at h))
        | inr (t, hit) ↦ absurd (cc (rw (hit, find_loop) at h))
      ]

  find_rounds-Missed :
      find_rounds v v e xs request (total request) ≡ none
      → Missed (range_min v request) × All (λ s. Missed (section_end s)) xs
  unfolding find_rounds
  find_rounds-Missed h =
      elim (Option-cases (place v v e xs request (total request) (range_min v request))) [
        | inl missed ↦ (missed, find_loop-Missed xs (rw (missed, find_rounds) at h))
        | inr (t, hit) ↦ absurd (cc (rw (hit, find_rounds) at h))
      ]

  -- A start whose page holds the request is not missed.
  place-hits :
      (start : ℕ)
      → range_min v request ≤ page_up v start
      → page_up v start + total request - 1 ≤ range_max v request
      → is_free v e xs (claim request (page_up v start)) ≡ true
      → ¬ Missed start
  unfolding place candidate
  place-hits start low high free missed =
      let top = range_max-lt v request range in
      let same : candidate v start (total request) ≡ claim request (page_up v start) =
        ground arith in
      let hit = rw (place, same) at missed in ground arith

  -- If `_findfree` gives up, then every page aligned claim of the request's size inside its range
  -- meets a section of the list that CheckExtents accepts.
  pub find_free_in_complete :
      IsWords request
      → find_free_in v v e xs request ≡ none
      → (lower : ℕ) → IsAligned v lower
      → range_min v request ≤ lower
      → lower + total request - 1 ≤ range_max v request
      → ¬ ClearOf v (claim request lower) xs
  find_free_in_complete w h lower aligned low high clear =
      let rounds = sym (find_free_in-rounds v range e xs request small w) in
      let (first, rest) = find_rounds-Missed (rounds ∙ h) in
      let n = nearest Missed lower (range_min v request) xs rest first low in
      let top = range_max-lt v request range in
      let start_le = n.le in
      let start_ge = n.ge in
      let up = le-page_up v pages n.start lower aligned (omega arith) start_le in
      let down = page_up-le v pages n.start lower aligned (omega arith) start_le in
      let page = page_up v n.start in
      let last = slide_last n.start page lower xs up n.last in
      place-hits n.start (omega arith) (omega arith)
        (is_free_complete v range e xs (claim request page) words (omega arith)
          (slide v range request some_bytes lower page down xs words last clear))
        n.is_start
