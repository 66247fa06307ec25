-- ===== src/Task/Create/Stacks.antt =====
-- Thread::Create (kernel/core/task.cpp) over a section list whose parts keep the laws of IList.
use tysos_cxx.Prelude.{
  Bool, true, false, List, [], ◌∷◌, ◌++◌, none, some, ◌≡◌, refl, ◌∙◌, ap, ◌==◌, if◌then◌else◌, inl,
  inr, Bool-cases, arith, map, All,
}
use tysos_cxx.Containers.IList.{Item, IList, ListLaws, has}
use tysos_cxx.Section.{VirtMemManager, Section, Extent, is_kernel}
use tysos_cxx.Section.FindFree.{find_free_in}
use tysos_cxx.Section.FindFree.Kept.{find_free_in-flags}
use tysos_cxx.Containers.IList.Sequences.{All-append}
use tysos_cxx.Section.SectionList.{SectionList, returns, find_free, add, on_kernel, on_process}
use tysos_cxx.Section.SectionList.Parts.{parts, Holds}
use tysos_cxx.Section.SectionList.Search.{find_free_lem}
use tysos_cxx.Task.Create.{Process, put, place_section}

pub put_other :
    (at : Item → Section) (item i : Item) (s : Section)
    → (i == item) ≡ false
    → put at item s i ≡ at i
unfolding put
put_other at item i s ne = rw ne refl

pub put_at : (at : Item → Section) (item : Item) (s : Section) → put at item s item ≡ s
unfolding put
put_at at item s = ground arith

-- A section elsewhere changes nothing about the sections of a list.
pub map-put :
    (at : Item → Section) (item : Item) (s : Section) (xs : List Item)
    → has item xs ≡ false
    → map (put at item s) xs ≡ map at xs
map-put at item s [] out = refl
map-put at item s (x ∷ xs) out = elim (Bool-cases (x == item)) [
  | inl hit ↦ absurd (ground arith)
  | inr miss ↦
      let rest = map-put at item s xs (rw miss at out) in
      let here = put_other at item x s miss in ground arith
]

All-put :
    (at : Item → Section) (item : Item) (s : Section) (b : Bool) (xs : List Item)
    → has item xs ≡ false
    → All (λ x. is_kernel (at x) ≡ b) xs
    → All (λ x. is_kernel (put at item s x) ≡ b) xs
All-put at item s b [] out a = tt
All-put at item s b (x ∷ xs) out a = elim (Bool-cases (x == item)) [
  | inl hit ↦ absurd (ground arith)
  | inr miss ↦
      (ap is_kernel (put_other at item x s miss) ∙ a.0, All-put at item s b xs (rw miss at out) a.1)
]

module _ {L T : Type 0} (ops : IList L) (Rep : L → List Item → Type 0) (Room : L → Type 0)
    (laws : ListLaws ops Rep Room) (threads : IList T) (v : VirtMemManager) (e : Extent) where
  pub Holds-put :
      (at : Item → Section) (item : Item) (s : Section) (k p : L) (ks ps : List Item)
      → has item ks ≡ false
      → has item ps ≡ false
      → Holds ops Rep Room laws at k p ks ps
      → Holds ops Rep Room laws (put at item s) k p ks ps
  Holds-put at item s k p ks ps ko po h = record {
    kernels = h.kernels;
    processes = h.processes;
    in_kernel = All-put at item s true ks ko h.in_kernel;
    in_process = All-put at item s false ps po h.in_process;
  }

  kernel-flags :
      (xs : List Section) (request r : Section)
      → find_free_in v v e xs request ≡ some r
      → is_kernel r ≡ is_kernel request
  unfolding is_kernel
  kernel-flags xs request r h = let f = find_free_in-flags v v e xs request r h in rw f refl

  module _ (item : Item) (request : Section) (k p : L) (ks ps : List Item)
      (ko : has item ks ≡ false) (po : has item ps ≡ false) where
    search :
        (at : Item → Section)
        → Holds ops Rep Room laws at k p ks ps
        → find_free ops v (some v) e (put at item request) (some request) (parts k p)
          ≡ some (find_free_in v v e (map at (if is_kernel request then ks else ps)) request)
    search at h =
        find_free_lem ops Rep Room laws (put at item request) k p ks ps v v e request
          (Holds-put at item request k p ks ps ko po h)
        ∙ elim (Bool-cases (is_kernel request)) [
          | inl kern ↦
              rw kern
                (ap (λ xs. some (find_free_in v v e xs request)) (map-put at item request ks ko))
          | inr proc ↦
              rw proc
                (ap (λ xs. some (find_free_in v v e xs request)) (map-put at item request ps po))
        ]

    place_section-missed :
        (w : Process L T)
        → find_free ops v (some v) e (put w.at item request) (some request) w.sections ≡ some none
        → place_section ops threads v e item request w
          ≡ some (false, record w { at = put w.at item request })
    unfolding place_section
    place_section-missed w missed = ground arith

    -- No place is free: the section is in no list.
    pub place_section-none :
        (w : Process L T)
        → w.sections ≡ parts k p
        → Holds ops Rep Room laws w.at k p ks ps
        → find_free_in v v e (map w.at (if is_kernel request then ks else ps)) request ≡ none
        → place_section ops threads v e item request w
          ≡ some (false, record w { at = put w.at item request })
    unfolding place_section
    place_section-none w here h missed = place_section-missed w (
        ap (find_free ops v (some v) e (put w.at item request) (some request)) here
        ∙ search w.at h
        ∙ ap some missed)

    add_kernel :
        (at : Item → Section)
        → is_kernel (at item) ≡ true
        → Holds ops Rep Room laws at k p ks ps
        → Room k
        → (k' : L) × (add ops at item (parts k p) ≡ returns tt (parts k' p))
          × Holds ops Rep Room laws at k' p (ks ++ item ∷ []) ps
    unfolding add on_kernel
    add_kernel at kern h room =
        let (k', ran, rep) = laws.adds k ks item h.kernels room in
        (
          k',
          rw (kern, ran) refl,
          record {
            kernels = rep;
            processes = h.processes;
            in_kernel = All-append _ ks (item ∷ []) h.in_kernel (kern, tt);
            in_process = h.in_process;
          },
        )

    add_process :
        (at : Item → Section)
        → is_kernel (at item) ≡ false
        → Holds ops Rep Room laws at k p ks ps
        → Room p
        → (p' : L) × (add ops at item (parts k p) ≡ returns tt (parts k p'))
          × Holds ops Rep Room laws at k p' ks (ps ++ item ∷ [])
    unfolding add on_process
    add_process at proc h room =
        let (p', ran, rep) = laws.adds p ps item h.processes room in
        (
          p',
          rw (proc, ran) refl,
          record {
            kernels = h.kernels;
            processes = rep;
            in_kernel = h.in_kernel;
            in_process = All-append _ ps (item ∷ []) h.in_process (proc, tt);
          },
        )

    place_section-run :
        (w : Process L T) (r : Section) (s : SectionList L)
        → find_free ops v (some v) e (put w.at item request) (some request) w.sections
          ≡ some (some r)
        → add ops (put w.at item r) item w.sections ≡ returns tt s
        → place_section ops threads v e item request w
          ≡ some (true, record w { at = put w.at item r; sections = s })
    unfolding place_section
    place_section-run w r s found added = ground arith

    -- A place is free: the section is at the end of the kernel part, or of the process part.
    pub place_section-kernel :
        (w : Process L T) (r : Section)
        → is_kernel request ≡ true
        → w.sections ≡ parts k p
        → Holds ops Rep Room laws w.at k p ks ps
        → Room k
        → find_free_in v v e (map w.at ks) request ≡ some r
        → (k' : L) × (place_section ops threads v e item request w
            ≡ some (true, record w { at = put w.at item r; sections = parts k' p }))
          × Holds ops Rep Room laws (put w.at item r) k' p (ks ++ item ∷ []) ps
    place_section-kernel w r kern here h room hit =
        let new = put_at w.at item r in
        let flag = ap is_kernel new ∙ kernel-flags (map w.at ks) request r hit ∙ kern in
        let (k', ran, holds) =
          add_kernel (put w.at item r) flag (Holds-put w.at item r k p ks ps ko po h) room in
        (
          k',
          place_section-run w r (parts k' p)
              (ap (find_free ops v (some v) e (put w.at item request) (some request)) here
                ∙ search w.at h
                ∙ rw kern (ap some hit))
              (ap (add ops (put w.at item r) item) here ∙ ran),
          holds,
        )

    pub place_section-process :
        (w : Process L T) (r : Section)
        → is_kernel request ≡ false
        → w.sections ≡ parts k p
        → Holds ops Rep Room laws w.at k p ks ps
        → Room p
        → find_free_in v v e (map w.at ps) request ≡ some r
        → (p' : L) × (place_section ops threads v e item request w
            ≡ some (true, record w { at = put w.at item r; sections = parts k p' }))
          × Holds ops Rep Room laws (put w.at item r) k p' ks (ps ++ item ∷ [])
    place_section-process w r proc here h room hit =
        let new = put_at w.at item r in
        let flag = ap is_kernel new ∙ kernel-flags (map w.at ps) request r hit ∙ proc in
        let (p', ran, holds) =
          add_process (put w.at item r) flag (Holds-put w.at item r k p ks ps ko po h) room in
        (
          p',
          place_section-run w r (parts k p')
              (ap (find_free ops v (some v) e (put w.at item request) (some request)) here
                ∙ search w.at h
                ∙ rw proc (ap some hit))
              (ap (add ops (put w.at item r) item) here ∙ ran),
          holds,
        )
