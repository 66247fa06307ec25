-- ===== src/Memory/Fault.antt =====
-- VirtMemManager::ResolvePageFault (kernel/core/vmem.cpp) over the sections that the process's list
-- yields. The call of MapPage, which writes the page tables, is a value here.
pub mod Reach
use tysos_cxx.Prelude.{
  ℕ, Bool, true, false, not, ◌&&◌, List, [], ◌∷◌, Option, none, some, bit_and, ltb, leb,
  if◌then◌else◌, add32, sub32, test_bit,
}
use tysos_cxx.Section.{VirtMemManager, Section, Extent, check_extents, overlaps}
use tysos_cxx.Section.Flag

-- The arguments of MapPage that are not NULL: the page, where its contents come from, and the
-- rights.
pub record PageMapping : Type 0 where
  pub page : ℕ
  pub source : ℕ
  pub user : Bool
  pub writable : Bool

-- The two ways in which a section with AutoExpand grows to the address; the first component is
-- `protection_error`.
unfoldable pub grow_down : ℕ → Bool × Section → Bool × Section
grow_down a (err, s) =
    if ltb a s.base && leb (sub32 s.base a) s.expand_down
    then (false, record s { expand_down = sub32 s.expand_down (sub32 s.base a); base = a })
    else (err, s)

unfoldable pub grow_up : ℕ → Bool × Section → Bool × Section
grow_up a (err, s) =
    let end = add32 s.base s.length in
    if leb end a && leb (sub32 a end) s.expand_up
    then (
      false,
      record s { expand_up = sub32 s.expand_up (sub32 a end); length = add32 (sub32 a s.base) 1 },
    )
    else (err, s)

-- What the loop does with a section that holds the address.
unfoldable pub serve : ℕ → Section → Bool × Section
unfolding grow_down grow_up
serve a s =
    let (err, s') =
      if test_bit s.flags Flag.auto_expand then grow_up a (grow_down a (true, s)) else (true, s) in
    (if leb s'.base a && ltb a (add32 s'.base s'.length) then false else err, s')

unfoldable pub mapping : VirtMemManager → ℕ → Section → PageMapping
mapping v a s = record {
  page = bit_and a v.page_mask;
  source = bit_and (add32 (sub32 a s.base) s.mem_source) v.page_mask;
  user = not (test_bit s.flags Flag.kernel_section);
  writable = test_bit s.flags Flag.write;
}

-- The loop over the sections: their new state and the page to map, or `none` for the panic. `e` is
-- what the local extents hold before they are written.
unfoldable pub resolve :
    VirtMemManager → Extent → ℕ → List Section → Option (List Section × PageMapping)
unfolding serve mapping
resolve v e a [] = none
resolve v e a (s ∷ rest) =
    let later = resolve v e a rest in
    let (ok, se) = check_extents v s e in
    let (err, s') = serve a s in
    if ok && overlaps (record e { lower = a; upper = a }) se && not err
    then some (s' ∷ rest, mapping v a s')
    else elim later [ none ↦ none | some (rest', m) ↦ some (s ∷ rest', m) ]

-- ResolvePageFault: a fault on a present page is always an error.
unfoldable pub resolve_page_fault :
    VirtMemManager → Extent → ℕ → Bool → List Section → Option (List Section × PageMapping)
resolve_page_fault v e a protection_error sections =
    if protection_error then none else resolve v e a sections
