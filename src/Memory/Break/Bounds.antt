-- ===== src/Memory/Break/Bounds.antt =====
-- sbrk (kernel/core/sbrk.cpp) ends, and keeps the heap within its room.
use tysos_cxx.Prelude.{
  ℕ, zero, suc, ◌+◌, ◌^◌, ◌/◌, ◌<◌, ◌≤◌, ◌≡◌, refl, List, [], ◌∷◌, Option, none, some, false, ltb,
  leb, add32, sub32, ℤ, pos, negsuc, arith, inl, inr, Bool-cases, Option-cases, ◌∙◌, subst,
}
use tysos_cxx.Section.{VirtMemManager, Section, Extent, range_min, check_extents}
use tysos_cxx.Section.FindFree.{find_free_in, find_rounds, find_loop, place, section_end}
use tysos_cxx.Memory.Break.{Break, heap_request, find_heap, resize, move_end, sbrk, failed}

-- The heap is no longer than its room to grow.
pub record IsHeap (h : Section) : Type 0 where
  pub used : h.length ≤ h.expand_up
  pub room : h.expand_up < 2 ^ 32

abbrev pub HasHeap : Option Section → Type 0
HasHeap none = Unit
HasHeap (some h) = IsHeap h

module _ (v : VirtMemManager) (e : Extent) (xs : List Section) (r : Section) where
  place-room :
      (n start : ℕ) (s : Section)
      → place v v e xs r n start ≡ some s
      → (s.length ≡ r.length) × (s.expand_up ≡ r.expand_up)
  unfolding place
  place-room n start s h = ground arith

  find_loop-room :
      (n : ℕ) (ys : List Section) (s : Section)
      → find_loop v v e xs r n ys ≡ some s
      → (s.length ≡ r.length) × (s.expand_up ≡ r.expand_up)
  unfolding find_loop
  find_loop-room n [] s h = absurd (cc h)
  find_loop-room n (y ∷ ys) s h = elim (Option-cases (place v v e xs r n (section_end y))) [
    | inl missed ↦ find_loop-room n ys s (rw (find_loop, missed) at h)
    | inr (t, hit) ↦ place-room n (section_end y) s (hit ∙ (rw (find_loop, hit) at h))
  ]

  -- A placed section keeps its length and its room to grow.
  find_free_in-room :
      (s : Section)
      → find_free_in v v e xs r ≡ some s
      → (s.length ≡ r.length) × (s.expand_up ≡ r.expand_up)
  unfolding find_free_in find_rounds
  find_free_in-room s h =
      let n = (check_extents v r e).1.length in
      elim (Option-cases (place v v e xs r n (range_min v r))) [
        | inl missed ↦ find_loop-room n xs s (rw (find_free_in, find_rounds, missed) at h)
        | inr (t, hit) ↦
            place-room n (range_min v r) s (hit ∙ (rw (find_free_in, find_rounds, hit) at h))
      ]

-- The halving loop ends with the request's room below 2 ^ fuel.
find_heap_total :
    (fuel : ℕ) (v : VirtMemManager) (e : Extent) (xs : List Section) (r : Section)
    → 0 < v.page_size
    → r.length ≡ 0
    → r.expand_up < 2 ^ fuel
    → r.expand_up < 2 ^ 32
    → (found : Option Section) × (find_heap fuel v e xs r ≡ some found) × HasHeap found
unfolding find_heap
find_heap_total zero v e xs r some_page empty small word = (none, ground arith, tt)
find_heap_total (suc fuel) v e xs r some_page empty small word =
    elim (Bool-cases (leb v.page_size r.expand_up)) [
      | inr done ↦ (none, rw (find_heap, done) refl, tt)
      | inl more ↦ elim (Option-cases (find_free_in v v e xs r)) [
        | inl missed ↦
            let half = record r { expand_up = r.expand_up / 2 } in
            let (found, ended, ok) =
              find_heap_total fuel v e xs half some_page empty (omega arith) (omega arith) in
            (found, rw (find_heap, more, missed) ended, ok)
        | inr (s, hit) ↦
            let (len, room) = find_free_in-room v e xs r s hit in
            (
              some s,
              rw (find_heap, more, hit) refl,
              record { used = omega arith; room = omega arith },
            )
      ]
    ]

-- The distances that an `intptr` holds.
abbrev pub IsDistance : ℤ → Type 0
IsDistance (pos d) = d < 2 ^ 31
IsDistance (negsuc n) = n < 2 ^ 31

module _ (enomem : ℕ) where
  move_end-IsHeap :
      (d : ℤ) (h : Section) (s : Break)
      → IsDistance d
      → IsHeap h
      → HasHeap (move_end enomem d h s).1.heap
  unfolding move_end
  move_end-IsHeap (pos d) h s l is =
      let used = is.used in
      let room = is.room in
      elim (Bool-cases (ltb (sub32 h.expand_up h.length) d)) [
        | inl refused ↦ rw (move_end, resize, refused) is
        | inr granted ↦ rw (move_end, resize, granted) (record { used = ground arith; room = room })
      ]
  move_end-IsHeap (negsuc n) h s l is =
      let used = is.used in
      let room = is.room in
      elim (Bool-cases (ltb h.length (suc n))) [
        | inl refused ↦ rw (move_end, resize, refused) is
        | inr granted ↦ rw (move_end, resize, granted) (record { used = ground arith; room = room })
      ]

  -- sbrk ends, also when it must first look for a place for the heap, and afterwards the heap, if
  -- there is one, is no longer than its room to grow. Pages are not empty, and the mask leaves a
  -- 32-bit word.
  pub sbrk-HasHeap :
      (v : VirtMemManager) (e : Extent) (d : ℤ) (s : Break)
      → 0 < v.page_size
      → (heap_request v).expand_up < 2 ^ 32
      → IsDistance d
      → HasHeap s.heap
      → (ret : ℕ) × (s' : Break) × (sbrk enomem v e d s ≡ some (ret, s')) × HasHeap s'.heap
  unfolding sbrk
  sbrk-HasHeap v e d s pages word l is = elim (Option-cases s.heap) [
    | inr (h, there) ↦
        let heap : IsHeap h = subst HasHeap there is in
        (
          (move_end enomem d h s).0,
          (move_end enomem d h s).1,
          rw (sbrk, there) refl,
          move_end-IsHeap d h s l heap,
        )
    | inl missing ↦
        let (found, ended, ok) =
          find_heap_total 32 v e s.sections (heap_request v) pages refl word word in
        elim (Option-cases found) [
          | inl nowhere ↦
              let stopped = rw nowhere at ended in
              (failed, record s { errno = enomem }, ground arith, is)
          | inr (ks, placed) ↦
              let stopped = rw placed at ended in
              let heap : IsHeap ks = subst HasHeap placed ok in
              (
                (move_end enomem d ks s).0,
                (move_end enomem d ks s).1,
                rw (sbrk, missing, stopped) refl,
                move_end-IsHeap d ks s l heap,
              )
        ]
  ]

  -- A request that the heap has room for returns the old end of the heap. Giving the same amount
  -- back returns the end that the heap had between, and restores the heap.
  pub sbrk-sbrk :
      (v : VirtMemManager) (e : Extent) (n : ℕ) (xs : List Section) (h : Section) (err : ℕ)
      → IsHeap h
      → h.length + suc n ≤ h.expand_up
      → (between : Break) × (sbrk enomem v e
            (pos (suc n))
            (record { sections = xs; heap = some h; errno = err })
          ≡ some (add32 h.base h.length, between))
        × (sbrk enomem v e (negsuc n) between
            ≡ some (
              add32 h.base (h.length + suc n),
              record { sections = xs; heap = some h; errno = err },
            ))
  unfolding sbrk move_end resize
  sbrk-sbrk v e n xs h err is fits =
      let room = is.room in
      let granted : ltb (sub32 h.expand_up h.length) (suc n) ≡ false = ground arith in
      let returned : ltb (h.length + suc n) (suc n) ≡ false = ground arith in
      let longer : add32 h.length (suc n) ≡ h.length + suc n = omega arith in
      let shorter : sub32 (h.length + suc n) (suc n) ≡ h.length = omega arith in
      (
        record { sections = xs; heap = some (record h { length = h.length + suc n }); errno = err },
        rw (sbrk, move_end, resize, granted, longer) refl,
        rw (sbrk, move_end, resize, returned, shorter) refl,
      )
