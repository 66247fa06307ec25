-- ===== src/Section/FindFree/Kept.antt =====
-- What SectionList::_findfree (kernel/core/section.cpp) leaves of the request: all but its base.
use tysos_cxx.Prelude.{List, [], ◌∷◌, ℕ, some, ◌≡◌, ◌∙◌, inl, inr, Option-cases, arith}
use tysos_cxx.Section.{VirtMemManager, Section, Extent, range_min}
use tysos_cxx.Section.FindFree.{place, section_end, find_loop, find_rounds, find_free_in}

module _ (v vmem : VirtMemManager) (e : Extent) (xs : List Section) (request : Section) where
  place-flags :
      (len start : ℕ) (r : Section)
      → place v vmem e xs request len start ≡ some r
      → r.flags ≡ request.flags
  unfolding place
  place-flags len start r h = ground arith

  find_loop-flags :
      (len : ℕ) (rest : List Section) (r : Section)
      → find_loop v vmem e xs request len rest ≡ some r
      → r.flags ≡ request.flags
  unfolding find_loop
  find_loop-flags len [] r h = absurd (cc)
  find_loop-flags len (s ∷ rest) r h =
      elim (Option-cases (place v vmem e xs request len (section_end s))) [
        | inl missed ↦ find_loop-flags len rest r (rw (missed, find_loop) at h)
        | inr (t, hit) ↦ place-flags len (section_end s) r (hit ∙ (rw (hit, find_loop) at h))
      ]

  find_rounds-flags :
      (len : ℕ) (r : Section)
      → find_rounds v vmem e xs request len ≡ some r
      → r.flags ≡ request.flags
  unfolding find_rounds
  find_rounds-flags len r h =
      elim (Option-cases (place v vmem e xs request len (range_min vmem request))) [
        | inl missed ↦ find_loop-flags len xs r (rw (missed, find_rounds) at h)
        | inr (t, hit) ↦ place-flags len _ r (hit ∙ (rw (hit, find_rounds) at h))
      ]

  pub find_free_in-flags :
      (r : Section) → find_free_in v vmem e xs request ≡ some r → r.flags ≡ request.flags
  unfolding find_free_in
  find_free_in-flags r h = find_rounds-flags _ r h
