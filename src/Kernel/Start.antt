-- ===== src/Kernel/Start.antt =====
-- The sections of the kernel process after InitKernel (kernel/core/kernel.cpp), over the array lists
-- of class Kernel.
use tysos_cxx.Prelude.{
  ℕ, ◌+◌, ◌*◌, ◌^◌, ◌<◌, ◌≤◌, ◌≡◌, ◌≢◌, refl, ap, sym, subst, ◌∙◌, false, List, [], ◌∷◌, map,
  Option, some, ◌==◌, if◌then◌else◌, ℤ, negsuc, arith, All, take, add32, mul32,
}
use tysos_cxx.Containers.IList.{Item, IList}
use tysos_cxx.Containers.ArrayList.{ArrayList}
use tysos_cxx.Containers.ArrayList.{add}
use tysos_cxx.Containers.ArrayList.Elements.{Stands}
use tysos_cxx.Containers.ArrayList.Interface.{array_methods}
use tysos_cxx.Multiboot.{elf_max, Elf32Shdr, Multiboot, find_range}
use tysos_cxx.Scheduler.{loc_current}
use tysos_cxx.Section.SectionList.Parts.{parts}
use tysos_cxx.Strings.{strcmp}
use tysos_cxx.Task.Create.{put}
use tysos_cxx.Kernel.{
  section_size, Kernel, Image, headers_section, section_of, sect, add_section, add_elfs,
  add_startup, load_sections, strings_at, init_kernel,
}
use tysos_cxx.Kernel.Loop.{
  capacity, filled, sects, length-take, headers_section-kernel, absent_one, add_section_lem, grown,
  add_elfs_lem,
}
use tysos_cxx.Kernel.Loaded.{HasFields, Loaded, sect_lem, sections-Loaded}

module _ {T : Type 0} (threads : IList T) (im : Image) where
  add_startup-run :
      (k : Kernel ArrayList T) (ts : T)
      → threads.add im.thread k.threads ≡ some (tt, ts)
      → add_startup (array_methods capacity) threads im k
        ≡ some (record k {
          threads = ts;
          startup_name = im.kst_name;
          startup_location = loc_current;
          startup_priority = negsuc 0;
          current_thread = some im.thread;
        })
  unfolding add_startup
  add_startup-run k ts joined = rw (add_startup, joined) refl

  load_sections-run :
      (base : ℕ) (strings : Option ℕ) (num : ℕ) (hs : List Elf32Shdr) (k k1 k2 : Kernel ArrayList T)
      (ts : T)
      → add_section (array_methods capacity) threads im im.headers (headers_section im base num) k
        ≡ some k1
      → add_elfs (array_methods capacity) threads im base strings 0 hs k1 ≡ some k2
      → threads.add im.thread k2.threads ≡ some (tt, ts)
      → load_sections (array_methods capacity) threads im base strings num hs k
        ≡ some (record k2 {
          threads = ts;
          startup_name = im.kst_name;
          startup_location = loc_current;
          startup_priority = negsuc 0;
          current_thread = some im.thread;
        })
  unfolding load_sections
  load_sections-run base strings num hs k k1 k2 ts added looped joined =
      rw (load_sections, added, looped) (add_startup-run k2 ts joined)

  init_kernel-sections :
      (mb : Multiboot) (k : Kernel ArrayList T) (base : ℕ) (a p : ArrayList) (st : ℕ) (ts : T)
      → k.sections ≡ parts a p
      → Stands a []
      → strings_at mb ≡ some st
      → find_range mb (mul32 mb.header.elf_num section_size) ≡ base
      → base ≢ 0
      → mb.header.elf_num ≤ elf_max
      → base + 36 * mb.header.elf_num < 2 ^ 32
      → ((j : ℕ) → j < mb.header.elf_num → im.headers ≢ sect base j)
      → All
          (λ e. (r : ℤ) × (strcmp im.fuel im.bytes im.bss_name (add32 st e.sh_name) ≡ some r))
          (take mb.header.elf_num mb.elf)
      → threads.add im.thread k.threads ≡ some (tt, ts)
      → (k' : Kernel ArrayList T) × (a' : ArrayList) × (init_kernel
            (array_methods capacity)
            threads
            im
            mb
            k
          ≡ some k')
        × (k'.sections ≡ parts a' p)
        × Stands a' (im.headers ∷ sects base 0 (take mb.header.elf_num mb.elf))
        × (map k'.at (im.headers ∷ sects base 0 (take mb.header.elf_num mb.elf))
            ≡ headers_section im base mb.header.elf_num
              ∷ map (section_of st) (filled (take mb.header.elf_num mb.elf)))
        × (k'.threads ≡ ts)
        × (k'.current_thread ≡ some im.thread)
  unfolding init_kernel
  init_kernel-sections mb k base a p st ts here empty strings range found few below apart named
        joined =
      let num = mb.header.elf_num in
      let hs = take num mb.elf in
      let small = length-take num mb.elf in
      let s = headers_section im base num in
      let k1 : Kernel ArrayList T = record k {
        at = put k.at im.headers s;
        sections = parts (add capacity im.headers a) p;
      } in
      let added =
        add_section_lem threads im im.headers s k a p here (headers_section-kernel im base num) in
      let c1 =
        grown threads im base st p k k1 [] [] im.headers s
          (record { a = a; here = here; stands = empty; are = refl }) refl (omega arith) refl
          refl in
      let (k2, looped, c2, same) =
        add_elfs_lem threads im base st p hs 0 k1 (im.headers ∷ []) (s ∷ []) c1 (omega arith)
          (omega arith) (λ j l h. absent_one (sect base j) im.headers (apart j (omega arith)))
          named in
      let load : ℕ → Option (Kernel ArrayList T) =
        λ x. load_sections (array_methods capacity) threads im x (strings_at mb) num hs k in
      let nonzero : (base == 0) ≡ false = ground arith in
      let loaded =
        load_sections-run base (some st) num hs k k1 k2 ts added looped
          (ap (threads.add im.thread) same ∙ joined) in
      (
        record k2 {
          threads = ts;
          startup_name = im.kst_name;
          startup_location = loc_current;
          startup_priority = negsuc 0;
          current_thread = some im.thread;
        },
        c2.a,
        ap (λ x. if x == 0 then some k else load x) range
            ∙ ap (λ b. if b then some k else load base) nonzero
            ∙ ap (λ o. load_sections (array_methods capacity) threads im base o num hs k) strings
            ∙ loaded,
        c2.here,
        c2.stands,
        c2.are,
        refl,
        refl,
      )

  headers_section-HasFields :
      (base num : ℕ)
      → 36 * num < 2 ^ 32
      → HasFields im.elfh_name 0x4087 base (36 * num) (headers_section im base num)
  unfolding headers_section
  headers_section-HasFields base num small = record {
    name = refl;
    flags = refl;
    base = refl;
    size = omega arith;
    mem_source = refl;
    expand_down = refl;
    expand_up = refl;
    lower_padding = refl;
    upper_padding = refl;
  }

  -- InitKernel on array lists without sections, when FindRange finds a place for the sections, of 36
  -- bytes each, below 2 ^ 32 and apart from the section of the headers, when there are no more
  -- headers than Parse keeps, their string table is one of them and strcmp ends on the names, and
  -- when the list of threads takes the startup thread: the kernel part holds the section of the
  -- headers, which covers the place found and is readable and writable, and then one section for each
  -- header that is not empty, in their order, with the address, the size and the name of the header,
  -- readable, and writable or executable as its flags say; all are kernel sections with their bits in
  -- memory; the startup thread is in its list and is the current thread.
  pub init_kernel_lem :
      (mb : Multiboot) (k : Kernel ArrayList T) (a p : ArrayList) (base st : ℕ) (ts : T)
      → k.sections ≡ parts a p
      → Stands a []
      → strings_at mb ≡ some st
      → find_range mb (36 * mb.header.elf_num) ≡ base
      → base ≢ 0
      → mb.header.elf_num ≤ elf_max
      → base + 36 * mb.header.elf_num < 2 ^ 32
      → ((j : ℕ) → j < mb.header.elf_num → im.headers ≢ base + 36 * j)
      → All
          (λ e. (r : ℤ) × (strcmp im.fuel im.bytes im.bss_name (add32 st e.sh_name) ≡ some r))
          (take mb.header.elf_num mb.elf)
      → threads.add im.thread k.threads ≡ some (tt, ts)
      → (k' : Kernel ArrayList T) × (a' : ArrayList) × (items : List Item) × (init_kernel
            (array_methods capacity)
            threads
            im
            mb
            k
          ≡ some k')
        × (k'.sections ≡ parts a' p)
        × Stands a' (im.headers ∷ items)
        × HasFields im.elfh_name 0x4087 base (36 * mb.header.elf_num) (k'.at im.headers)
        × Loaded base st k'.at 0 (take mb.header.elf_num mb.elf) items
        × (k'.threads ≡ ts)
        × (k'.current_thread ≡ some im.thread)
  init_kernel_lem mb k a p base st ts here empty strings place found few below apart named joined =
      let num = mb.header.elf_num in
      let hs = take num mb.elf in
      let bytes : mul32 num section_size ≡ 36 * num = omega arith in
      let range : find_range mb (mul32 num section_size) ≡ base =
        ap (find_range mb) bytes ∙ place in
      let (k', a', ran, sections, stands, are, joins, current) =
        init_kernel-sections mb k base a p st ts here empty strings range found few below
          (λ j l e. apart j l (e ∙ sect_lem base j (omega arith))) named joined in
      let first : k'.at im.headers ≡ headers_section im base num = cc in
      let others : map k'.at (sects base 0 hs) ≡ map (section_of st) (filled hs) = cc in
      let short = length-take num mb.elf in
      (
        k',
        a',
        sects base 0 hs,
        ran,
        sections,
        stands,
        subst (HasFields im.elfh_name 0x4087 base (36 * num)) (sym first)
            (headers_section-HasFields base num (omega arith)),
        sections-Loaded base st k'.at 0 hs (omega arith) others,
        joins,
        current,
      )
