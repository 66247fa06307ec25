-- ===== src/Section/FindFree/Sound.antt =====
-- Where `_findfree` finds a place, the section fits there and touches no other section.
use tysos_cxx.Prelude.{
  ℕ, true, List, [], ◌∷◌, some, ◌+◌, ◌-◌, ◌^◌, ◌≤◌, ◌<◌, ◌≡◌, ◌⊎◌, inl, inr, refl, ap, sym, ◌∙◌,
  subst, ◌≢◌, All, arith, test_bit, Option-cases,
}
use tysos_cxx.Section.{
  VirtMemManager, Section, Extent, IsWords, range_min, range_max, check_extents,
}
use tysos_cxx.Section.Flag
use tysos_cxx.Section.Extents.{
  Fits, total, extent_of, check_extents_iff_Fits, check_extents-length, overlaps_lem,
}
use tysos_cxx.Section.FindFree.{
  is_free, page_up, section_end, candidate, place, find_loop, find_rounds, find_free_in,
}
use tysos_cxx.Section.FindFree.Pages.{IsAligned, RoundsToPages, page_up-IsAligned}

-- The two extents share no address.
abbrev pub Disjoint : Extent → Extent → Type 0
Disjoint a b = (a.upper < b.lower) ⊎ (b.upper < a.lower)

-- The extent is clear of every section that CheckExtents accepts.
abbrev pub ClearOf : VirtMemManager → Extent → List Section → Type 0
ClearOf v re = All λ s. Fits v s → Disjoint re (extent_of s)

-- The ranges end within 32 bits.
pub record IsRange (v : VirtMemManager) : Type 0 where
  pub kernel : v.kernel_end < 2 ^ 32
  pub process : v.process_end < 2 ^ 32

pub range_max-lt : (v : VirtMemManager) (s : Section) → IsRange v → range_max v s < 2 ^ 32
unfolding range_max
range_max-lt v s r = ground arith

module _ (v : VirtMemManager) (range : IsRange v) (e : Extent) where
  pub check_extents-Fits :
      (s : Section) → IsWords s → Fits v s → check_extents v s e ≡ (true, extent_of s)
  check_extents-Fits s w f = (check_extents_iff_Fits v s e w (range_max-lt v s range)).1 f

  pub check_extents-inv : (s : Section) → IsWords s → (check_extents v s e).0 ≡ true → Fits v s
  check_extents-inv s w h = (check_extents_iff_Fits v s e w (range_max-lt v s range)).0.0 h

  clear_head :
      (s : Section) (rest : List Section) (re : Extent)
      → IsWords s
      → re.lower ≤ re.upper
      → is_free v e (s ∷ rest) re ≡ true
      → Fits v s
      → Disjoint re (extent_of s)
  unfolding is_free
  clear_head s rest re w ne h f =
      let checked = check_extents-Fits s w f in
      let pos = f.some_bytes in
      let low = f.low in ground (arith, overlaps_lem re (extent_of s) ne (omega arith))

  clear_tail :
      (s : Section) (rest : List Section) (re : Extent)
      → is_free v e (s ∷ rest) re ≡ true
      → is_free v e rest re ≡ true
  unfolding is_free
  clear_tail s rest re h = ground arith

  pub is_free-ClearOf :
      (xs : List Section) (re : Extent)
      → All IsWords xs
      → re.lower ≤ re.upper
      → is_free v e xs re ≡ true
      → ClearOf v re xs
  is_free-ClearOf [] re w ne h = tt
  is_free-ClearOf (s ∷ rest) re w ne h =
      (clear_head s rest re w.0 ne h, is_free-ClearOf rest re w.1 ne (clear_tail s rest re h))

-- The outcome of a search that succeeds: the request, moved to a page that is free.
pub record Placed (v : VirtMemManager) (xs : List Section) (request r : Section) : Type 0 where
  pub moved : r ≡ record request { base = r.base }
  pub fits : Fits v r
  pub aligned : IsAligned v (extent_of r).lower
  pub clear : ClearOf v (extent_of r) xs

-- A start at which the request neither wraps around the end of the address space nor ends with
-- the last byte of its range.
abbrev pub HasRoom : VirtMemManager → Section → ℕ → Type 0
HasRoom v request start =
    (page_up v start + total request ≤ 2 ^ 32)
    × (page_up v start + total request ≢ range_max v request + 1)

-- The length that `_findfree` reads from CheckExtents is the request's total.
pub find_free_in-rounds :
    (v : VirtMemManager) (range : IsRange v) (e : Extent) (xs : List Section) (request : Section)
    → total request < 2 ^ 32
    → IsWords request
    → find_free_in v v e xs request ≡ find_rounds v v e xs request (total request)
unfolding find_free_in
find_free_in-rounds v range e xs request small w =
    ap (find_rounds v v e xs request)
      (check_extents-length v request e w (range_max-lt v request range) ∙ omega arith)

module _ (v : VirtMemManager) (range : IsRange v) (pages : RoundsToPages v) (e : Extent)
    (xs : List Section) (words : All IsWords xs) (request : Section)
    (defined : test_bit request.flags Flag.defined ≡ true) (some_bytes : 0 < total request)
    (small : total request < 2 ^ 32) where
  -- The request with its lower edge at `lower`.
  moved_to : ℕ → Section
  moved_to lower = record request { base = lower + request.lower_padding + request.expand_down }

  span : ℕ → Extent
  span lower = record { upper = lower + total request - 1; lower = lower; length = total request }

  candidate-span :
      (start : ℕ)
      → HasRoom v request start
      → candidate v start (total request) ≡ span (page_up v start)
  unfolding candidate span
  candidate-span start room = ground arith

  place-inv :
      (start : ℕ) (r : Section)
      → HasRoom v request start
      → place v v e xs request (total request) start ≡ some r
      → (range_min v request ≤ page_up v start)
        × (page_up v start + total request ≤ range_max v request)
        × (is_free v e xs (span (page_up v start)) ≡ true)
        × (r ≡ moved_to (page_up v start))
  unfolding place moved_to span
  place-inv start r room h =
      let placed = rw (place, candidate-span start room) at h in
      ground (arith, range_max-lt v request range)

  moved-Fits :
      (lower : ℕ)
      → range_min v request ≤ lower
      → lower + total request ≤ range_max v request
      → Fits v (moved_to lower)
  unfolding moved_to range_min range_max
  moved-Fits lower low high = record {
    defined = defined;
    low = ground arith;
    high = ground arith;
    some_bytes = some_bytes;
  }

  extent_of-moved : (lower : ℕ) → extent_of (moved_to lower) ≡ span lower
  unfolding moved_to span
  extent_of-moved lower = ground arith

  moved_to_lem : (lower : ℕ) → moved_to lower ≡ record request { base = (moved_to lower).base }
  unfolding moved_to
  moved_to_lem lower = refl

  place-Placed :
      (start : ℕ) (r : Section)
      → HasRoom v request start
      → place v v e xs request (total request) start ≡ some r
      → Placed v xs request r
  unfolding span
  place-Placed start r room h =
      let (low, high, free, eq) = place-inv start r room h in
      let lower = page_up v start in
      subst (Placed v xs request) (sym eq) (record {
        moved = moved_to_lem lower;
        fits = moved-Fits lower low high;
        aligned =
            subst (λ x. IsAligned v x.lower) (sym (extent_of-moved lower))
              (page_up-IsAligned v pages start);
        clear =
            subst (λ x. ClearOf v x xs) (sym (extent_of-moved lower))
              (is_free-ClearOf v range e xs (span lower) words (omega arith) free);
      })

  find_loop-Placed :
      (rest : List Section) (r : Section)
      → All (λ s. HasRoom v request (section_end s)) rest
      → find_loop v v e xs request (total request) rest ≡ some r
      → Placed v xs request r
  unfolding find_loop
  find_loop-Placed [] r room h = absurd (cc)
  find_loop-Placed (s ∷ rest) r room h =
      elim (Option-cases (place v v e xs request (total request) (section_end s))) [
        | inl missed ↦ find_loop-Placed rest r room.1 (rw (missed, find_loop) at h)
        | inr (t, hit) ↦ place-Placed (section_end s) r room.0 (hit ∙ (rw (hit, find_loop) at h))
      ]

  find_rounds-Placed :
      (r : Section)
      → HasRoom v request (range_min v request)
      → All (λ s. HasRoom v request (section_end s)) xs
      → find_rounds v v e xs request (total request) ≡ some r
      → Placed v xs request r
  unfolding find_rounds
  find_rounds-Placed r room rooms h =
      elim (Option-cases (place v v e xs request (total request) (range_min v request))) [
        | inl missed ↦ find_loop-Placed xs r rooms (rw (missed, find_rounds) at h)
        | inr (t, hit) ↦ place-Placed _ r room (hit ∙ (rw (hit, find_rounds) at h))
      ]

  -- A section that `_findfree` places is the request with a new base. It fits in its range with
  -- its padding and room to grow, its lower edge is page aligned, and it shares no address with
  -- any section of the list that CheckExtents accepts. The request is defined and not empty, and
  -- no candidate wraps around or ends with the last byte of the range.
  pub find_free_in-Placed :
      (r : Section)
      → HasRoom v request (range_min v request)
      → All (λ s. HasRoom v request (section_end s)) xs
      → IsWords request
      → find_free_in v v e xs request ≡ some r
      → Placed v xs request r
  find_free_in-Placed r room rooms w h =
      find_rounds-Placed r room rooms (sym (find_free_in-rounds v range e xs request small w) ∙ h)
