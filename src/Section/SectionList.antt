-- ===== src/Section/SectionList.antt =====
-- class SectionList (kernel/core/section.cpp, include/sys/sectionlist.h): a list of sections in a
-- kernel part and a process part. Each part is some list behind the interface IList, or NULL.
pub mod Parts
pub mod Search
use tysos_cxx.Prelude.{
  ℕ, zero, suc, ◌+◌, ◌-◌, Bool, true, false, List, [], ◌∷◌, Option, none, some, if◌then◌else◌, ℤ,
  pos, negsuc, ltb,
}
use tysos_cxx.Containers.IList.{Item, IList}
use tysos_cxx.Section.{VirtMemManager, Section, Extent, is_kernel}
use tysos_cxx.Section.FindFree.{find_free_in}

-- KernelSections and ProcessSections.
pub record SectionList (L : Type 0) : Type 0 where
  pub kernel : Option L
  pub process : Option L

-- How a method ends: by a fault, by `throw E_INDEX`, or with a value and the list after it.
pub data Outcome (S A : Type 0) : Type 0 where
  faults : Outcome S A
  throws_index : Outcome S A
  returns : A → S → Outcome S A

-- `index < Count()`, and `index - Count()`.
unfoldable pub below_count : ℤ → ℕ → Bool
below_count (pos i) n = ltb i n
below_count (negsuc k) n = true

unfoldable pub minus_count : ℤ → ℕ → ℤ
minus_count (pos i) n = if ltb i n then negsuc (n - i - 1) else pos (i - n)
minus_count (negsuc k) n = negsuc (k + n)

module _ {L : Type 0} (ops : IList L) where
  -- A call of a method of the kernel part; `k` is what the method does next.
  unfoldable pub on_kernel :
      {A : Type 0}
      → SectionList L
      → Option (A × L)
      → (A → SectionList L → Outcome (SectionList L) A)
      → Outcome (SectionList L) A
  on_kernel s none k = faults
  on_kernel s (some (a, l)) k = k a (record s { kernel = some l })

  unfoldable pub on_process :
      {A : Type 0} → SectionList L → Option (A × L) → Outcome (SectionList L) A
  on_process s none = faults
  on_process s (some (a, l)) = returns a (record s { process = some l })

  -- SectionList::Count
  unfoldable pub count : SectionList L → ℕ
  count s =
      elim s.kernel [ none ↦ 0 | some l ↦ ops.count l ]
      + elim s.process [ none ↦ 0 | some l ↦ ops.count l ]

  -- SectionList::Add; `at` are the sections in memory.
  unfoldable pub add : (Item → Section) → Item → SectionList L → Outcome (SectionList L) (Unit {0})
  add at item s =
      if is_kernel (at item)
      then elim s.kernel [ none ↦ returns tt s | some l ↦ on_kernel s (ops.add item l) returns ]
      else elim s.process [ none ↦ returns tt s | some l ↦ on_process s (ops.add item l) ]

  -- The second half of Clear.
  unfoldable pub clear_process : SectionList L → Outcome (SectionList L) (Unit {0})
  clear_process s = elim s.process [ none ↦ returns tt s | some l ↦ on_process s (ops.clear l) ]

  -- SectionList::Clear
  unfoldable pub clear : SectionList L → Outcome (SectionList L) (Unit {0})
  clear s = elim s.kernel [
    | none ↦ clear_process s
    | some l ↦ on_kernel s (ops.clear l) (λ _. clear_process)
  ]

  unfoldable pub contains_process : Item → SectionList L → Outcome (SectionList L) Bool
  contains_process item s = elim s.process [
    | none ↦ returns false s
    | some l ↦ on_process s (ops.contains item l)
  ]

  -- SectionList::Contains
  unfoldable pub contains : Item → SectionList L → Outcome (SectionList L) Bool
  contains item s = elim s.kernel [
    | none ↦ contains_process item s
    | some l ↦
        on_kernel s (ops.contains item l)
          (λ b s'. elim b [ true ↦ returns true s' | false ↦ contains_process item s' ])
  ]

  -- SectionList::Remove
  unfoldable pub remove : (Item → Section) → Item → SectionList L → Outcome (SectionList L) Bool
  remove at item s =
      if is_kernel (at item)
      then elim s.kernel [
        | none ↦ returns false s
        | some l ↦ on_kernel s (ops.remove item l) returns
      ]
      else elim s.process [ none ↦ returns false s | some l ↦ on_process s (ops.remove item l) ]

  -- What GetItem, SetItem and RemoveAt do with an index that is not below the number of kernel
  -- sections: they test the process part and call the method of the kernel part.
  unfoldable pub past_kernel :
      {A : Type 0}
      → (L → Option (A × L))
      → Outcome (SectionList L) A
      → SectionList L
      → Outcome (SectionList L) A
  past_kernel method otherwise s = elim s.process [
    | none ↦ otherwise
    | some _ ↦ elim s.kernel [ none ↦ faults | some l ↦ on_kernel s (method l) returns ]
  ]

  unfoldable pub by_index :
      {A : Type 0}
      → (ℤ → L → Option (A × L))
      → Outcome (SectionList L) A
      → ℤ
      → SectionList L
      → Outcome (SectionList L) A
  by_index method otherwise index s = elim s.kernel [
    | none ↦ past_kernel (method index) otherwise s
    | some l ↦
        if below_count index (ops.count l)
        then on_kernel s (method index l) returns
        else past_kernel (method (minus_count index (ops.count l))) otherwise s
  ]

  -- SectionList::GetItem
  unfoldable pub get_item : ℤ → SectionList L → Outcome (SectionList L) Item
  get_item index s = by_index ops.get_item throws_index index s

  -- SectionList::SetItem
  unfoldable pub set_item : ℤ → Item → SectionList L → Outcome (SectionList L) (Unit {0})
  set_item index item s = by_index (λ i. ops.set_item i item) throws_index index s

  -- SectionList::RemoveAt
  unfoldable pub remove_at : ℤ → SectionList L → Outcome (SectionList L) (Unit {0})
  remove_at index s = by_index ops.remove_at (returns tt s) index s

  unfoldable pub index_of_process : Item → SectionList L → Outcome (SectionList L) (Option ℕ)
  index_of_process item s = elim s.process [
    | none ↦ returns none s
    | some l ↦ on_process s (ops.index_of item l)
  ]

  -- SectionList::IndexOf, where none is -1.
  unfoldable pub index_of : Item → SectionList L → Outcome (SectionList L) (Option ℕ)
  index_of item s = elim s.kernel [
    | none ↦ index_of_process item s
    | some l ↦
        on_kernel s (ops.index_of item l)
          (λ r s'. elim r [ some i ↦ returns (some i) s' | none ↦ index_of_process item s' ])
  ]

  -- SectionList::Insert, which takes no notice of the index.
  unfoldable pub insert :
      (Item → Section) → Item → ℤ → SectionList L → Outcome (SectionList L) (Unit {0})
  insert at item index s = add at item s

  -- The sections that GetItem(i), GetItem(i + 1), … return, `n` of them.
  unfoldable pub sections_from : (Item → Section) → L → ℕ → ℕ → Option (List Section)
  sections_from at l i zero = some []
  sections_from at l i (suc n) = elim (ops.get_item (pos i) l) [
    | none ↦ none
    | some (p, _) ↦ elim (sections_from at l (suc i) n) [
      | none ↦ none
      | some rest ↦ some (at p ∷ rest)
    ]
  ]

  -- `_findfree` of a part: none is a fault, some none is NULL.
  unfoldable pub find_free_of :
      VirtMemManager
      → VirtMemManager
      → Extent
      → (Item → Section)
      → Option L
      → Section
      → Option (Option Section)
  find_free_of v vmem e at none request = some none
  find_free_of v vmem e at (some l) request = elim (sections_from at l 0 (ops.count l)) [
    | none ↦ none
    | some sections ↦ some (find_free_in v vmem e sections request)
  ]

  -- SectionList::FindFree
  unfoldable pub find_free :
      VirtMemManager
      → Option VirtMemManager
      → Extent
      → (Item → Section)
      → Option Section
      → SectionList L
      → Option (Option Section)
  find_free v vmem e at none s = some none
  find_free v none e at (some request) s = some none
  find_free v (some vmem) e at (some request) s =
      find_free_of v vmem e at (if is_kernel request then s.kernel else s.process) request
