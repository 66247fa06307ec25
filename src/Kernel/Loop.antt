-- ===== src/Kernel/Loop.antt =====
-- The loop over the ELF headers in InitKernel (kernel/core/kernel.cpp), over the array lists of class
-- Kernel.
use mathlib.Core.List.{append-nil}
use tysos_cxx.Prelude.{
  ℕ, zero, suc, ◌+◌, ◌*◌, ◌^◌, ◌<◌, ◌≤◌, ◌≡◌, ◌≢◌, ◌||◌, refl, ap, subst, ◌∙◌, true, false, List,
  [], ◌∷◌, ◌++◌, map, some, ◌==◌, if◌then◌else◌, ℤ, pos, negsuc, inl, inr, Bool-cases, arith,
  length, length-append, All, take, test_bit, add32, mul32,
}
use tysos_cxx.Containers.IList.{Item, IList, has}
use tysos_cxx.Containers.IList.Sequences.{has_append}
use tysos_cxx.Containers.ArrayList.{ArrayList}
use tysos_cxx.Containers.ArrayList.{add}
use tysos_cxx.Containers.ArrayList.Elements.{Stands}
use tysos_cxx.Containers.ArrayList.Interface.{array_methods, add-Stands}
use tysos_cxx.Multiboot.{Elf32Shdr}
use tysos_cxx.Section.{Section, is_kernel}
use tysos_cxx.Section.SectionList.{SectionList, returns, on_kernel}
use tysos_cxx.Section.SectionList as Sections
use tysos_cxx.Section.SectionList.Parts.{parts}
use tysos_cxx.Strings.{strcmp}
use tysos_cxx.Task.Create.{put}
use tysos_cxx.Task.Create.Stacks.{map-put, put_at}
use tysos_cxx.Kernel.{
  Kernel, Image, headers_section, section_flags, section_of, sect, add_section, add_elf, add_elfs,
}

-- DEF_CAPACITY
abbrev pub capacity : ℕ
capacity = 1024

-- The headers that are not empty, and the addresses of their sections.
abbrev pub filled : List Elf32Shdr → List Elf32Shdr
filled [] = []
filled (e ∷ rest) = if e.sh_size == 0 then filled rest else e ∷ filled rest

abbrev pub sects : (base i : ℕ) → List Elf32Shdr → List Item
sects base i [] = []
sects base i (e ∷ rest) =
    if e.sh_size == 0 then sects base (suc i) rest else sect base i ∷ sects base (suc i) rest

section_of-kernel : (strings : ℕ) (e : Elf32Shdr) → is_kernel (section_of strings e) ≡ true
unfolding is_kernel section_of section_flags
section_of-kernel strings e = elim (Bool-cases (test_bit e.sh_flags 0)) [
  | inl w ↦ elim (Bool-cases (test_bit e.sh_flags 2)) [
    | inl x ↦ rw (w, x) refl
    | inr x ↦ rw (w, x) refl
  ]
  | inr w ↦ elim (Bool-cases (test_bit e.sh_flags 2)) [
    | inl x ↦ rw (w, x) refl
    | inr x ↦ rw (w, x) refl
  ]
]

append_one : {A : Type 0} (xs : List A) (y : A) (zs : List A) → (xs ++ y ∷ []) ++ zs ≡ xs ++ y ∷ zs
append_one [] y zs = refl
append_one (x ∷ xs) y zs = ap (λ l. x ∷ l) (append_one xs y zs)

map-append_one :
    {A B : Type 0} (f : A → B) (xs : List A) (y : A) → map f (xs ++ y ∷ []) ≡ map f xs ++ f y ∷ []
map-append_one f [] y = refl
map-append_one f (x ∷ xs) y = ap (λ l. f x ∷ l) (map-append_one f xs y)

regroup :
    {A B : Type 0} (xs : List A) (x : A) (xs' : List A) (ys : List B) (y : B) (ys' : List B)
    (P : List A → List B → Type 0)
    → P ((xs ++ x ∷ []) ++ xs') ((ys ++ y ∷ []) ++ ys')
    → P (xs ++ x ∷ xs') (ys ++ y ∷ ys')
regroup xs x xs' ys y ys' P h =
    subst (λ l. P l (ys ++ y ∷ ys')) (append_one xs x xs')
      (subst (λ l. P ((xs ++ x ∷ []) ++ xs') l) (append_one ys y ys') h)

sect_ne : (base i j : ℕ) → i < j → base + 36 * j < 2 ^ 32 → (sect base i == sect base j) ≡ false
unfolding sect
sect_ne base i j l bound =
    let differ : add32 base (mul32 i 36) ≢ add32 base (mul32 j 36) = λ e. omega arith in
    ground arith

absent_both :
    (p item : Item) (xs : List Item)
    → has p xs ≡ false
    → (item == p) ≡ false
    → (has p xs || has p (item ∷ [])) ≡ false
absent_both p item xs out ne = ground arith

pub length-take : {A : Type 0} (n : ℕ) (xs : List A) → length (take n xs) ≤ n
length-take zero xs = omega arith
length-take (suc n) [] = omega arith
length-take (suc n) (x ∷ xs) = let l = length-take n xs in omega arith

pub headers_section-kernel :
    (im : Image) (base num : ℕ) → is_kernel (headers_section im base num) ≡ true
unfolding is_kernel headers_section
headers_section-kernel im base num = refl

pub absent_one : (p item : Item) → item ≢ p → has p (item ∷ []) ≡ false
absent_one p item ne = ground arith

module _ {T : Type 0} (threads : IList T) (im : Image) where
  -- Add of a kernel section.
  add_kernel :
      (at : Item → Section) (item : Item) (a p : ArrayList)
      → is_kernel (at item) ≡ true
      → Sections.add (array_methods capacity) at item (parts a p)
        ≡ returns tt (parts (add capacity item a) p)
  unfolding Sections.add on_kernel
  add_kernel at item a p flag = rw flag refl

  add_section-run :
      (item : Item) (s : Section) (k : Kernel ArrayList T) (ss : SectionList ArrayList)
      → Sections.add (array_methods capacity) (put k.at item s) item k.sections ≡ returns tt ss
      → add_section (array_methods capacity) threads im item s k
        ≡ some (record k { at = put k.at item s; sections = ss })
  unfolding add_section
  add_section-run item s k ss added = rw (add_section, added) refl

  pub add_section_lem :
      (item : Item) (s : Section) (k : Kernel ArrayList T) (a p : ArrayList)
      → k.sections ≡ parts a p
      → is_kernel s ≡ true
      → add_section (array_methods capacity) threads im item s k
        ≡ some (record k { at = put k.at item s; sections = parts (add capacity item a) p })
  add_section_lem item s k a p here kern =
      let flag : is_kernel (put k.at item s item) ≡ true =
        ap is_kernel (put_at k.at item s) ∙ kern in
      add_section-run item s k (parts (add capacity item a) p) (
        ap (Sections.add (array_methods capacity) (put k.at item s) item) here
        ∙ add_kernel (put k.at item s) item a p flag)

  -- A round for a header that is not empty, when strcmp ends on the section's name.
  add_elf_lem :
      (st : ℕ) (item : Item) (e : Elf32Shdr) (k : Kernel ArrayList T) (a p : ArrayList) (r : ℤ)
      → k.sections ≡ parts a p
      → strcmp im.fuel im.bytes im.bss_name (add32 st e.sh_name) ≡ some r
      → (k' : Kernel ArrayList T) × (add_elf (array_methods capacity) threads im st item e k
          ≡ some k')
        × (k'.sections ≡ parts (add capacity item a) p)
        × (k'.at ≡ put k.at item (section_of st e))
        × (k'.threads ≡ k.threads)
  unfolding add_elf
  add_elf_lem st item e k a p r here named =
      let added = add_section_lem item (section_of st e) k a p here (section_of-kernel st e) in
      let k1 : Kernel ArrayList T = record k {
        at = put k.at item (section_of st e);
        sections = parts (add capacity item a) p;
      } in
      elim r
          as (λ r.
            strcmp im.fuel im.bytes im.bss_name (add32 st e.sh_name) ≡ some r
            → (k' : Kernel ArrayList T) × (add_elf (array_methods capacity) threads im st item e k
                ≡ some k')
              × (k'.sections ≡ parts (add capacity item a) p)
              × (k'.at ≡ put k.at item (section_of st e))
              × (k'.threads ≡ k.threads)) [
                | pos n ↦ λ named. elim (Bool-cases (n == 0)) [
                  | inl same ↦ (
                    record k1 { startup_stack = some item },
                    rw (add_elf, added, named, same) refl,
                    refl,
                    refl,
                    refl,
                  )
                  | inr differ ↦ (k1, rw (add_elf, added, named, differ) refl, refl, refl, refl)
                ]
                | negsuc n ↦ λ named. (k1, rw (add_elf, added, named) refl, refl, refl, refl)
              ]
        named

  -- The state of the loop: the kernel part stands for a sequence whose sections are those given.
  pub record SectionsAre (k : Kernel ArrayList T) (p : ArrayList) (xs : List Item)
      (ss : List Section) : Type 0 where
    pub a : ArrayList
    pub here : k.sections ≡ parts a p
    pub stands : Stands a xs
    pub are : map k.at xs ≡ ss

  module _ (base st : ℕ) (p : ArrayList) where
    pub grown :
        (k k' : Kernel ArrayList T) (xs : List Item) (ss : List Section) (item : Item) (s : Section)
        → (c : SectionsAre k p xs ss) → has item xs ≡ false
        → length xs < capacity
        → k'.sections ≡ parts (add capacity item c.a) p
        → k'.at ≡ put k.at item s
        → SectionsAre k' p (xs ++ item ∷ []) (ss ++ s ∷ [])
    grown k k' xs ss item s c out room sections at = record {
      a = add capacity item c.a;
      here = sections;
      stands = add-Stands capacity item c.a xs c.stands room;
      are =
          ap (λ f. map f (xs ++ item ∷ [])) at
          ∙ map-append_one (put k.at item s) xs item
          ∙ ap (λ l. l ++ put k.at item s item ∷ []) (map-put k.at item s xs out ∙ c.are)
          ∙ ap (λ x. ss ++ x ∷ []) (put_at k.at item s);
    }

    add_elfs-round :
        (e : Elf32Shdr) (rest : List Elf32Shdr) (i : ℕ) (k k' : Kernel ArrayList T)
        → (e.sh_size == 0) ≡ false
        → add_elf (array_methods capacity) threads im st (sect base i) e k ≡ some k'
        → add_elfs (array_methods capacity) threads im base (some st) i (e ∷ rest) k
          ≡ add_elfs (array_methods capacity) threads im base (some st) (suc i) rest k'
    unfolding add_elfs
    add_elfs-round e rest i k k' filled_one ran = rw (add_elfs, filled_one, ran) refl

    pub add_elfs_lem :
        (hs : List Elf32Shdr) (i : ℕ) (k : Kernel ArrayList T) (xs : List Item) (ss : List Section)
        → SectionsAre k p xs ss
        → length xs + length hs ≤ capacity
        → base + 36 * (i + length hs) < 2 ^ 32
        → ((j : ℕ) → i ≤ j → j < i + length hs → has (sect base j) xs ≡ false)
        → All
            (λ e. (r : ℤ) × (strcmp im.fuel im.bytes im.bss_name (add32 st e.sh_name) ≡ some r))
            hs
        → (k' : Kernel ArrayList T) × (add_elfs
              (array_methods capacity)
              threads
              im
              base
              (some st)
              i
              hs
              k
            ≡ some k')
          × SectionsAre k' p (xs ++ sects base i hs) (ss ++ map (section_of st) (filled hs))
          × (k'.threads ≡ k.threads)
    unfolding add_elfs
    add_elfs_lem [] i k xs ss c room bound out named =
        (k, refl, rw (append-nil xs, append-nil ss) c, refl)
    add_elfs_lem (e ∷ rest) i k xs ss c room bound out named = elim (Bool-cases (e.sh_size == 0)) [
      | inl empty ↦
          let (k', ran, c', same) =
            add_elfs_lem rest (suc i) k xs ss c (omega arith) (omega arith)
              (λ j l h. out j (omega arith) (omega arith)) named.1 in
          (k', rw (add_elfs, empty) ran, rw empty c', same)
      | inr full ↦
          let (r, ends) = named.0 in
          let item = sect base i in
          let (k1, ran1, sections1, at1, threads1) = add_elf_lem st item e k c.a p r c.here ends in
          let c1 =
            grown k k1 xs ss item (section_of st e) c (out i (omega arith) (omega arith))
              (omega arith) sections1 at1 in
          let (k', ran, c', same) =
            add_elfs_lem rest (suc i) k1 (xs ++ item ∷ []) (ss ++ section_of st e ∷ []) c1
              (let l = length-append xs (item ∷ []) in omega arith) (omega arith)
              (λ j l h.
                has_append (sect base j) xs (item ∷ [])
                ∙ absent_both (sect base j) item xs (out j (omega arith) (omega arith))
                    (sect_ne base i j (omega arith) (omega arith)))
              named.1 in
          (
            k',
            add_elfs-round e rest i k k1 full ran1 ∙ ran,
            rw full (
                regroup xs item (sects base (suc i) rest) ss (section_of st e)
                  (map (section_of st) (filled rest)) (λ l m. SectionsAre k' p l m) c'),
            same ∙ threads1,
          )
    ]
