-- ===== src/Task/Create/Threads.antt =====
-- Thread::Create (kernel/core/task.cpp) over a section list whose parts keep the laws of IList, and
-- the first switch to the thread that it makes.
use tysos_cxx.Prelude.{
  ℕ, ◌+◌, ◌<◌, ◌≤◌, ◌^◌, ◌%◌, Bool, true, false, not, List, [], ◌∷◌, ◌++◌, Option, none, some, ◌≡◌,
  refl, sym, ◌∙◌, ap, subst, ◌⊎◌, ◌==◌, if◌then◌else◌, arith, map,
}
use tysos_cxx.Containers.IList.{Item, IList, ListLaws, has}
use tysos_cxx.Section.{VirtMemManager, Section, Extent, is_kernel}
use tysos_cxx.Section.FindFree.{find_free_in}
use tysos_cxx.Section.SectionList.Parts.{parts, Holds}
use tysos_cxx.Task.{Symbols, user_data, user_code, init, Cpu, resume}
use tysos_cxx.Task.Frames.{Frame}
use tysos_cxx.Task.Resume.{AtEntry}
use tysos_cxx.Task.Start.{resume-init_user}
use tysos_cxx.Task.Create.{
  Process, Thread, New, Names, put, stack_request, kernel_stack_request, stack_size, place_section,
  start_thread, new_thread, with_kernel_stack, create,
}
use tysos_cxx.Task.Create.Stacks.{
  map-put, Holds-put, put_other, put_at, place_section-none, place_section-kernel,
  place_section-process,
}

kernel_stack_request-kernel :
    (v : VirtMemManager) (names : Names) (new : New)
    → is_kernel (kernel_stack_request v names new) ≡ true
unfolding kernel_stack_request is_kernel
kernel_stack_request-kernel v names new = refl

stack_request-kernel :
    (v : VirtMemManager) (names : Names) (new : New) (user : Bool) (n : ℕ)
    → is_kernel (stack_request v names new user n) ≡ not user
unfolding stack_request is_kernel
stack_request-kernel v names new true n = refl
stack_request-kernel v names new false n = refl

start_thread-run :
    {L T : Type 0} (ops : IList L) (threads : IList T) (symbols : Symbols) (new : New)
    (v : VirtMemManager) (e : Extent) (th : Thread) (entry param : ℕ) (w : Process L T)
    (ks : Option Section) (ts : T)
    → elim th.kernel_stack [ none ↦ none | some i ↦ some (w.at i) ] ≡ ks
    → threads.add new.thread w.threads ≡ some (tt, ts)
    → start_thread ops threads v e symbols new th entry param w
      ≡ some (
        some (record th { tsi = (init symbols entry (w.at th.stack) param ks th.tsi w.mem).0 }),
        record w {
          mem = (init symbols entry (w.at th.stack) param ks th.tsi w.mem).1;
          threads = ts;
        },
      )
unfolding start_thread
start_thread-run ops threads symbols new v e th entry param w ks ts same added = ground arith

-- The thread's stack and its kernel stack have room for the first frames, end within 32 bits, and
-- the words of the first frames lie apart.
pub record FitsFrames (stack kernel_stack : Section) : Type 0 where
  pub stack_top : stack.base + stack.length < 2 ^ 32
  pub stack_room : 12 ≤ stack.base + stack.length
  pub kernel_top : kernel_stack.base + kernel_stack.length < 2 ^ 32
  pub kernel_room : 72 ≤ kernel_stack.base + kernel_stack.length
  pub apart :
      (stack.base + stack.length + 72 ≤ kernel_stack.base + kernel_stack.length)
      ⊎ (kernel_stack.base + kernel_stack.length + 12 ≤ stack.base + stack.length)

module _ {L T : Type 0} (ops : IList L) (Rep : L → List Item → Type 0) (Room : L → Type 0)
    (laws : ListLaws ops Rep Room) (threads : IList T) (v : VirtMemManager) (e : Extent) where
  -- The parts of a process stand for the two sequences, and neither of them has the new sections.
  pub record Fresh (w : Process L T) (new : New) (k p : L) (ks ps : List Item) : Type 0 where
    pub sections : w.sections ≡ parts k p
    pub holds : Holds ops Rep Room laws w.at k p ks ps
    pub stack_kernel : has new.stack ks ≡ false
    pub stack_process : has new.stack ps ≡ false
    pub other_kernel : has new.kernel_stack ks ≡ false
    pub other_process : has new.kernel_stack ps ≡ false
    pub other : (new.stack == new.kernel_stack) ≡ false

  has_last :
      (x item : Item) (xs : List Item)
      → has item xs ≡ false
      → (x == item) ≡ false
      → has item (xs ++ x ∷ []) ≡ false
  has_last x item [] out ne = rw ne refl
  has_last x item (y ∷ xs) out ne = let rest = has_last x item xs in ground arith

  module _ (symbols : Symbols) (names : Names) (new : New) (entry param name size : ℕ)
      (w : Process L T) (k p : L) (ks ps : List Item) (fresh : Fresh w new k p ks ps) where
    abbrev own : Section
    own = stack_request v names new w.user_mode (stack_size v size)

    create-none :
        (w' : Process L T)
        → place_section ops threads v e new.stack own w ≡ some (false, w')
        → create ops threads v e symbols names new entry param name size w ≡ some (none, w')
    unfolding create
    create-none w' h = rw (create, h) refl

    create_user :
        (w' : Process L T)
        → w.user_mode ≡ true
        → place_section ops threads v e new.stack own w ≡ some (true, w')
        → create ops threads v e symbols names new entry param name size w
          ≡ with_kernel_stack ops threads v e symbols names new
              (new_thread names new w name)
              entry
              param
              w'
    unfolding create
    create_user w' user h = rw (create, h, user) refl

    abbrev other : Section
    other = kernel_stack_request v names new

    -- The process with a section at its stack, and a new process part.
    abbrev with_stack : Section → L → Process L T
    with_stack r p' = record w { at = put w.at new.stack r; sections = parts k p' }

    with_kernel_stack-none :
        (th : Thread) (w1 w' : Process L T)
        → place_section ops threads v e new.kernel_stack other w1 ≡ some (false, w')
        → with_kernel_stack ops threads v e symbols names new th entry param w1 ≡ some (none, w')
    unfolding with_kernel_stack
    with_kernel_stack-none th w1 w' h = rw (with_kernel_stack, h) refl

    with_kernel_stack-run :
        (th : Thread) (w1 w' : Process L T)
        → place_section ops threads v e new.kernel_stack other w1 ≡ some (true, w')
        → with_kernel_stack ops threads v e symbols names new th entry param w1
          ≡ start_thread ops threads v e symbols new
              (record th { kernel_stack = some new.kernel_stack })
              entry
              param
              w'
    unfolding with_kernel_stack
    with_kernel_stack-run th w1 w' h = rw (with_kernel_stack, h) refl

    -- The search for a kernel stack does not see the thread's own stack.
    same_kernels : (r : Section) → map (put w.at new.stack r) ks ≡ map w.at ks
    same_kernels r = map-put w.at new.stack r ks fresh.stack_kernel

    fresh-process : has new.kernel_stack (ps ++ new.stack ∷ []) ≡ false
    fresh-process = has_last new.stack new.kernel_stack ps fresh.other_process fresh.other

    place_own :
        (r : Section)
        → w.user_mode ≡ true
        → Room p
        → find_free_in v v e (map w.at ps) own ≡ some r
        → (p' : L) × (place_section ops threads v e new.stack own w ≡ some (true, with_stack r p'))
          × Holds ops Rep Room laws (put w.at new.stack r) k p' ks (ps ++ new.stack ∷ [])
    place_own r user room hit =
        place_section-process ops Rep Room laws threads v e new.stack own k p ks ps
          fresh.stack_kernel fresh.stack_process w r
          (stack_request-kernel v names new w.user_mode (stack_size v size) ∙ ap not user)
          fresh.sections fresh.holds room hit

    own_part : (if not w.user_mode then ks else ps) ≡ (if w.user_mode then ps else ks)
    own_part = ground arith

    -- Create on a section list whose parts keep the laws of IList and do not have the new sections,
    -- when no place is free for the stack, returns NULL and changes no section list.
    create_no_stack :
        find_free_in v v e (map w.at (if w.user_mode then ps else ks)) own ≡ none
        → create ops threads v e symbols names new entry param name size w
          ≡ some (none, record w { at = put w.at new.stack own })
    create_no_stack missed = create-none _ (
        place_section-none ops Rep Room laws threads v e new.stack own k p ks ps fresh.stack_kernel
          fresh.stack_process w fresh.sections fresh.holds
          (rw (stack_request-kernel v names new w.user_mode (stack_size v size), own_part) missed))

    -- Create for a user process whose parts keep the laws of IList and do not have the new sections,
    -- with room in the process part: when there is a place for the stack and none for the kernel
    -- stack, it returns NULL, and the stack, which no thread has, is left at the end of the process
    -- part.
    pub create_no_kernel_stack :
        (r : Section)
        → w.user_mode ≡ true
        → Room p
        → find_free_in v v e (map w.at ps) own ≡ some r
        → find_free_in v v e (map w.at ks) other ≡ none
        → (w' : Process L T) × (p' : L) × (create ops threads v e symbols names new entry param name
              size w
            ≡ some (none, w'))
          × (w'.sections ≡ parts k p')
          × (w'.threads ≡ w.threads)
          × Holds ops Rep Room laws w'.at k p' ks (ps ++ new.stack ∷ [])
    create_no_kernel_stack r user room hit missed =
        let (p', placed, holds) = place_own r user room hit in
        let w1 = with_stack r p' in
        let failed =
          place_section-none ops Rep Room laws threads v e new.kernel_stack other k p' ks
            (ps ++ new.stack ∷ []) fresh.other_kernel fresh-process w1 refl holds
            (rw (kernel_stack_request-kernel v names new, same_kernels r) missed) in
        (
          record w1 { at = put w1.at new.kernel_stack other },
          p',
          create_user w1 user placed ∙ with_kernel_stack-none _ w1 _ failed,
          refl,
          refl,
          Holds-put ops Rep Room laws threads v e w1.at new.kernel_stack other k p' ks
              (ps ++ new.stack ∷ []) fresh.other_kernel fresh-process holds,
        )

    -- What Create gives for a user process: the thread and both its stacks are in their lists, and
    -- the first switch to the thread gets it to its entry.
    pub record Started (c : Cpu) (r rk : Section) (ts : T) (th : Thread) (w' : Process L T)
        : Type 0 where
      pub k' : L
      pub p' : L
      pub sections : w'.sections ≡ parts k' p'
      pub holds :
          Holds ops Rep Room laws w'.at k' p' (ks ++ new.kernel_stack ∷ []) (ps ++ new.stack ∷ [])
      pub threads_after : w'.threads ≡ ts
      pub stack : w'.at th.stack ≡ r
      pub kernel_stack : th.kernel_stack ≡ some new.kernel_stack
      pub kernel_section : w'.at new.kernel_stack ≡ rk
      pub c' : Cpu
      pub ran : resume symbols th.tsi w'.mem c ≡ some c'
      pub entered : AtEntry c' entry user_data user_code
      pub stack_segment : c'.ss ≡ user_data
      pub on_stack : c'.esp + 12 ≡ r.base + r.length
      pub arguments : Frame w'.mem c'.esp (symbols.exit ∷ param ∷ 0 ∷ [])
      pub top : th.tsi.esp0_top ≡ rk.base + rk.length

    -- Create for a user process whose parts keep the laws of IList, have room and do not have the
    -- new sections, when there are places for the stack and for the kernel stack in which the first
    -- frames fit, and the list of threads takes the thread: the stack is at the end of the process
    -- part, the kernel stack at the end of the kernel part, the thread is in the list, and the first
    -- switch to it, from kernel mode, starts it at its entry in user mode with interrupts enabled,
    -- on its own stack with a return address to __exit and its parameter.
    pub create-Started :
        (r rk : Section) (ts : T) (c : Cpu)
        → w.user_mode ≡ true
        → Room k
        → Room p
        → find_free_in v v e (map w.at ps) own ≡ some r
        → find_free_in v v e (map w.at ks) other ≡ some rk
        → threads.add new.thread w.threads ≡ some (tt, ts)
        → FitsFrames r rk
        → c.cs % 4 ≡ 0
        → (th : Thread) × (w' : Process L T) × (create ops threads v e symbols names new entry param
              name size w
            ≡ some (some th, w'))
          × Started c r rk ts th w'
    unfolding new_thread
    create-Started r rk ts c user rk_room p_room hit other_hit added fits level =
        let (p', placed, holds) = place_own r user p_room hit in
        let w1 = with_stack r p' in
        let (k', other_placed, other_holds) =
          place_section-kernel ops Rep Room laws threads v e new.kernel_stack other k p' ks
            (ps ++ new.stack ∷ []) fresh.other_kernel fresh-process w1 rk
            (kernel_stack_request-kernel v names new) refl holds rk_room
            (ap (λ xs. find_free_in v v e xs other) (same_kernels r) ∙ other_hit) in
        let w2 : Process L T = record w1 {
          at = put w1.at new.kernel_stack rk;
          sections = parts k' p';
        } in
        let th0 = new_thread names new w name in
        let th1 : Thread = record th0 { kernel_stack = some new.kernel_stack } in
        let at_stack : w2.at new.stack ≡ r =
          put_other w1.at new.kernel_stack new.stack rk fresh.other ∙ put_at w.at new.stack r in
        let at_kernel : w2.at new.kernel_stack ≡ rk = put_at w1.at new.kernel_stack rk in
        let started =
          start_thread-run ops threads symbols new v e th1 entry param w2 (some rk) ts
            (ap some at_kernel) added in
        let f = subst (λ s. FitsFrames s rk) (sym at_stack) fits in
        let (c', ran, entered, ss, esp, frame, top) =
          resume-init_user symbols entry param (w2.at new.stack) rk th1.tsi w2.mem c f.stack_top
            f.stack_room f.kernel_top f.kernel_room f.apart level in
        (
          _,
          _,
          create_user w1 user placed ∙ with_kernel_stack-run th0 w1 w2 other_placed ∙ started,
          record {
            k' = k';
            p' = p';
            sections = refl;
            holds = other_holds;
            threads_after = refl;
            stack = at_stack;
            kernel_stack = refl;
            kernel_section = at_kernel;
            c' = c';
            ran = ran;
            entered = entered;
            stack_segment = ss;
            on_stack = esp ∙ ap (λ s. s.base + s.length) at_stack;
            arguments = frame;
            top = top;
          },
        )
