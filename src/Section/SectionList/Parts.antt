-- ===== src/Section/SectionList/Parts.antt =====
-- class SectionList (kernel/core/section.cpp) over two lists that keep the laws of IList: what its
-- methods do to the sequences of kernel and process sections.
use mathlib.Core.List.{append-nil}
use tysos_cxx.Prelude.{
  ℕ, ◌<◌, Bool, true, false, not, List, [], ◌∷◌, ◌++◌, some, ◌≡◌, ◌≢◌, refl, ◌∙◌, ap, ◌==◌,
  if◌then◌else◌, pos, inl, inr, Bool-cases, arith, length, get_elem?, All, ltb,
}
use tysos_cxx.Containers.IList.{Item, IList, ListLaws, without, has}
use tysos_cxx.Containers.IList.Sequences.{
  has_append, without-absent, All-without, All-append, position-none, get_elem-position,
  get_elem-absent, get_elem_below, below,
}
use tysos_cxx.Section.{Section, is_kernel}
use tysos_cxx.Section.SectionList.{
  SectionList, returns, on_kernel, on_process, add, remove, contains, contains_process, index_of,
  index_of_process, get_item, by_index, below_count,
}

-- A section list whose two parts are there.
abbrev pub parts : {L : Type 0} → L → L → SectionList L
parts k p = record { kernel = some k; process = some p }

-- The sequence with one section, or the empty one.
abbrev pub when : Bool → Item → List Item
when b item = if b then item ∷ [] else []

module _ {L : Type 0} (ops : IList L) (Rep : L → List Item → Type 0) (Room : L → Type 0)
    (laws : ListLaws ops Rep Room) (at : Item → Section) where
  -- The parts stand for the sequences, and each section is in the part that its flag names.
  pub record Holds (k p : L) (ks ps : List Item) : Type 0 where
    pub kernels : Rep k ks
    pub processes : Rep p ps
    pub in_kernel : All (λ x. is_kernel (at x) ≡ true) ks
    pub in_process : All (λ x. is_kernel (at x) ≡ false) ps

  absent :
      (item : Item) (b : Bool) (xs : List Item)
      → All (λ x. is_kernel (at x) ≡ b) xs
      → is_kernel (at item) ≡ not b
      → has item xs ≡ false
  absent item b [] a e = refl
  absent item b (x ∷ xs) a e = elim (Bool-cases (x == item)) [
    | inl hit ↦
        let same : x ≡ item = ground arith in
        absurd (let one = a.0 in let two = ap (λ y. is_kernel (at y)) same in ground arith)
    | inr miss ↦ rw miss (absent item b xs a.1 e)
  ]

  module _ (k p : L) (ks ps : List Item) (holds : Holds k p ks ps) where
    -- Add on two lists that keep the laws of IList and have room, with each section in the part
    -- that its flag names, puts the section at the end of the part that its own flag names and
    -- nothing into the other; so each section is still in its part.
    pub add-Holds :
        (item : Item)
        → Room k
        → Room p
        → (k' : L) × (p' : L) × (add ops at item (parts k p) ≡ returns tt (parts k' p'))
          × Holds k' p'
              (ks ++ when (is_kernel (at item)) item)
              (ps ++ when (not (is_kernel (at item))) item)
    unfolding add on_kernel on_process
    add-Holds item rk rp = elim (Bool-cases (is_kernel (at item))) [
      | inl kern ↦
          let (k', ran, rep) = laws.adds k ks item holds.kernels rk in
          rw kern (
            k',
            p,
            rw ran refl,
            record {
              kernels = rep;
              processes = rw (append-nil ps) holds.processes;
              in_kernel = All-append _ ks (item ∷ []) holds.in_kernel (kern, tt);
              in_process = rw (append-nil ps) holds.in_process;
            },
          )
      | inr proc ↦
          let (p', ran, rep) = laws.adds p ps item holds.processes rp in
          rw proc (
            k,
            p',
            rw ran refl,
            record {
              kernels = rw (append-nil ks) holds.kernels;
              processes = rep;
              in_kernel = rw (append-nil ks) holds.in_kernel;
              in_process = All-append _ ps (item ∷ []) holds.in_process (proc, tt);
            },
          )
    ]

    -- Remove on two lists that keep the laws of IList, with each section in the part that its flag
    -- names, takes the first occurrence of the section out of its part, and returns whether either
    -- part had one; each other section stays in its part and in its place.
    pub remove-Holds :
        (item : Item)
        → (k' : L) × (p' : L) × (remove ops at item (parts k p)
            ≡ returns (has item (ks ++ ps)) (parts k' p'))
          × Holds k' p' (without item ks) (without item ps)
    unfolding remove on_kernel on_process
    remove-Holds item = elim (Bool-cases (is_kernel (at item))) [
      | inl kern ↦
          let (k', ran, rep) = laws.removes k ks item holds.kernels in
          let out = absent item false ps holds.in_process kern in
          let same = without-absent item ps out in
          let found : has item (ks ++ ps) ≡ has item ks =
            let both = has_append item ks ps in ground arith in
          (
            k',
            p,
            rw (kern, ran, found) refl,
            record {
              kernels = rep;
              processes = rw same holds.processes;
              in_kernel = All-without _ item ks holds.in_kernel;
              in_process = rw same holds.in_process;
            },
          )
      | inr proc ↦
          let (p', ran, rep) = laws.removes p ps item holds.processes in
          let out = absent item true ks holds.in_kernel proc in
          let same = without-absent item ks out in
          let found : has item (ks ++ ps) ≡ has item ps =
            let both = has_append item ks ps in ground arith in
          (
            k,
            p',
            rw (proc, ran, found) refl,
            record {
              kernels = rw same holds.kernels;
              processes = rep;
              in_kernel = rw same holds.in_kernel;
              in_process = All-without _ item ps holds.in_process;
            },
          )
    ]

    -- Contains looks into both parts, and changes nothing.
    pub contains_lem :
        (item : Item) → contains ops item (parts k p) ≡ returns (has item (ks ++ ps)) (parts k p)
    unfolding contains contains_process on_kernel on_process
    contains_lem item =
        let ck = laws.checks k ks item holds.kernels in
        let cp = laws.checks p ps item holds.processes in
        let both = has_append item ks ps in
        elim (Bool-cases (has item ks)) [
          | inl there ↦
              let found : has item (ks ++ ps) ≡ true = ground arith in rw (ck, there, found) refl
          | inr out ↦
              let found : has item (ks ++ ps) ≡ has item ps = ground arith in
              rw (ck, out, cp, found) refl
        ]

    get_item-kernel :
        (i : ℕ) (q : Item)
        → i < length ks
        → get_elem? ks i ≡ some q
        → get_item ops (pos i) (parts k p) ≡ returns q (parts k p)
    unfolding get_item by_index below_count on_kernel
    get_item-kernel i q l e =
        let n = laws.counts k ks holds.kernels in
        let low : ltb i (ops.count k) ≡ true = ground arith in
        rw (low, laws.gets k ks i q holds.kernels e) refl

    -- On two lists that keep the laws of IList, with each section in the part that its flag names,
    -- IndexOf of a section that the list holds answers with an index. For a kernel section GetItem
    -- at this index returns the section. For a process section it returns another section, when
    -- the index is below the number of kernel sections.
    pub get_item-index_of :
        (item : Item)
        → has item (ks ++ ps) ≡ true
        → (i : ℕ) × (index_of ops item (parts k p) ≡ returns (some i) (parts k p))
          × (is_kernel (at item) ≡ true
              → get_item ops (pos i) (parts k p) ≡ returns item (parts k p))
          × (is_kernel (at item) ≡ false
              → i < length ks
              → (q : Item) × (get_item ops (pos i) (parts k p) ≡ returns q (parts k p))
                × (q ≢ item))
    unfolding index_of index_of_process on_kernel on_process
    get_item-index_of item there =
        let both = has_append item ks ps in
        elim (Bool-cases (is_kernel (at item))) [
          | inl kern ↦
              let out = absent item false ps holds.in_process kern in
              let (i, place, is) = get_elem-position item ks (ground arith) in
              let found = laws.finds k ks item holds.kernels in
              (
                i,
                rw (found, place) refl,
                λ _. get_item-kernel i item (below ks i item is) is,
                λ proc. absurd (ground arith),
              )
          | inr proc ↦
              let out = absent item true ks holds.in_kernel proc in
              let (i, place, is) = get_elem-position item ps (ground arith) in
              let missed =
                laws.finds k ks item holds.kernels
                ∙ ap (λ r. some (r, k)) (position-none item ks out) in
              let found = laws.finds p ps item holds.processes in
              (
                i,
                rw (missed, found, place) refl,
                λ kern. absurd (ground arith),
                λ _ l.
                    let (q, at_i) = get_elem_below ks i l in
                    (q, get_item-kernel i q l at_i, get_elem-absent item q ks i out at_i),
              )
        ]
