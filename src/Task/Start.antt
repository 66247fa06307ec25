-- ===== src/Task/Start.antt =====
-- The first switch to a thread whose stacks i386_TaskSwitchInfo::Init has set up
-- (kernel/i386/i386_task.cpp, kernel/i386/i386_switcher.asm).
use tysos_cxx.Prelude.{
  ℕ, ◌+◌, ◌%◌, ◌^◌, ◌<◌, ◌≤◌, ◌≡◌, ◌⊎◌, inl, inr, List, [], ◌∷◌, none, some, refl, sym, ◌∙◌, subst,
  arith,
}
use tysos_cxx.Section.{Section}
use tysos_cxx.Task.{
  Stack, push_all, TaskSwitchInfo, Symbols, kernel_data, kernel_code, user_data, user_code,
  section_top, arguments, first_frame, init, Cpu, resume,
}
use tysos_cxx.Task.Frames.{Frame, Frame-moved, Pushed, push_all-Pushed}
use tysos_cxx.Task.Resume.{AtEntry, resume_same, resume_other}

first_frame-Pushed :
    (symbols : Symbols) (entry d_seg c_seg : ℕ) (rest : List ℕ) (s : Stack)
    → Frame s.mem s.sp rest
    → 64 ≤ s.sp
    → s.sp < 2 ^ 32
    → Pushed
        (first_frame symbols entry d_seg c_seg)
        rest
        s
        (push_all (first_frame symbols entry d_seg c_seg) s)
unfolding first_frame
first_frame-Pushed symbols entry d_seg c_seg rest s f l h =
    push_all-Pushed (first_frame symbols entry d_seg c_seg) rest s f (omega arith) h

first_frame-sp :
    (symbols : Symbols) (entry d_seg c_seg : ℕ) (rest : List ℕ) (s t : Stack)
    → Pushed (first_frame symbols entry d_seg c_seg) rest s t
    → t.sp + 64 ≡ s.sp
unfolding first_frame
first_frame-sp symbols entry d_seg c_seg rest s t pushed = pushed.sp

-- The thread's own stack after Init has pushed the arguments.
module _ (symbols : Symbols) (param : ℕ) (stack : Section) (mem : ℕ → ℕ)
    (top : stack.base + stack.length < 2 ^ 32) (room : 12 ≤ stack.base + stack.length) where
  abbrev called : Stack
  called = push_all (arguments symbols param) (record { sp = section_top stack; mem = mem })

  stack_top : section_top stack ≡ stack.base + stack.length
  unfolding section_top
  stack_top = omega arith

  called-Pushed :
      Pushed (arguments symbols param) [] (record { sp = section_top stack; mem = mem }) called
  unfolding arguments
  called-Pushed =
      push_all-Pushed (arguments symbols param) [] (record { sp = section_top stack; mem = mem }) tt
        (let e = stack_top in omega arith) (let e = stack_top in omega arith)

  called-sp : called.sp + 12 ≡ stack.base + stack.length
  unfolding arguments
  called-sp = let e = stack_top in let s = called-Pushed.sp in omega arith

  called-Frame : Frame called.mem called.sp (symbols.exit ∷ param ∷ 0 ∷ [])
  unfolding arguments
  called-Frame = called-Pushed.frame

-- Init without a kernel stack and the first switch, in kernel mode: the thread starts at its entry
-- with interrupts enabled, in kernel segments, with a return address to __exit and its parameter on
-- its stack. The stack has room for 19 words and ends within 32 bits.
pub resume-init_kernel :
    (symbols : Symbols) (entry param : ℕ) (stack : Section) (tsi : TaskSwitchInfo) (mem : ℕ → ℕ)
    (c : Cpu)
    → stack.base + stack.length < 2 ^ 32
    → 76 ≤ stack.base + stack.length
    → c.cs % 4 ≡ 0
    → (c' : Cpu) × (resume symbols
          (init symbols entry stack param none tsi mem).0
          (init symbols entry stack param none tsi mem).1
          c
        ≡ some c')
      × AtEntry c' entry kernel_data kernel_code
      × (c'.esp + 12 ≡ stack.base + stack.length)
      × Frame (init symbols entry stack param none tsi mem).1 c'.esp (symbols.exit ∷ param ∷ 0 ∷ [])
unfolding init
resume-init_kernel symbols entry param stack tsi mem c top room level =
    let p = called symbols param stack mem top (omega arith) in
    let p_sp = called-sp symbols param stack mem top (omega arith) in
    let p_frame = called-Frame symbols param stack mem top (omega arith) in
    let frame = first_frame symbols entry kernel_data kernel_code in
    let k = push_all frame p in
    let pushed =
      first_frame-Pushed symbols entry kernel_data kernel_code (symbols.exit ∷ param ∷ 0 ∷ []) p
        p_frame (omega arith) (omega arith) in
    let k_sp : k.sp + 64 ≡ p.sp =
      first_frame-sp symbols entry kernel_data kernel_code (symbols.exit ∷ param ∷ 0 ∷ []) p k
        pushed in
    let (c', ran, entered, esp) =
      resume_same symbols entry kernel_data kernel_code (symbols.exit ∷ param ∷ 0 ∷ []) k.mem k.sp c
        (record tsi { esp0 = k.sp }) refl pushed.frame (omega arith) (omega arith) in
    let esp' : c'.esp ≡ p.sp = omega arith in
    (
      c',
      ran,
      entered,
      omega arith,
      subst (λ q. Frame k.mem q (symbols.exit ∷ param ∷ 0 ∷ [])) (sym esp')
          (Frame-moved p.mem k.mem p.sp (symbols.exit ∷ param ∷ 0 ∷ [])
            (λ a low high. pushed.kept a (inr low)) p_frame),
    )

-- Init with a kernel stack and the first switch from kernel mode: the thread starts at its entry in
-- user mode with interrupts enabled, in user segments, on its own stack, which has a return address
-- to __exit and its parameter; esp0_top is the top of the kernel stack. The stack has room for 3
-- words, the kernel stack for 18, they end within 32 bits, and these words lie apart.
pub resume-init_user :
    (symbols : Symbols) (entry param : ℕ) (stack kernel_stack : Section) (tsi : TaskSwitchInfo)
    (mem : ℕ → ℕ) (c : Cpu)
    → stack.base + stack.length < 2 ^ 32
    → 12 ≤ stack.base + stack.length
    → kernel_stack.base + kernel_stack.length < 2 ^ 32
    → 72 ≤ kernel_stack.base + kernel_stack.length
    → (stack.base + stack.length + 72 ≤ kernel_stack.base + kernel_stack.length)
      ⊎ (kernel_stack.base + kernel_stack.length + 12 ≤ stack.base + stack.length)
    → c.cs % 4 ≡ 0
    → (c' : Cpu) × (resume symbols
          (init symbols entry stack param (some kernel_stack) tsi mem).0
          (init symbols entry stack param (some kernel_stack) tsi mem).1
          c
        ≡ some c')
      × AtEntry c' entry user_data user_code
      × (c'.ss ≡ user_data)
      × (c'.esp + 12 ≡ stack.base + stack.length)
      × Frame
          (init symbols entry stack param (some kernel_stack) tsi mem).1
          c'.esp
          (symbols.exit ∷ param ∷ 0 ∷ [])
      × ((init symbols entry stack param (some kernel_stack) tsi mem).0.esp0_top
          ≡ kernel_stack.base + kernel_stack.length)
unfolding init
resume-init_user symbols entry param stack kernel_stack tsi mem c top room ktop kroom apart level =
    let p = called symbols param stack mem top room in
    let p_sp = called-sp symbols param stack mem top room in
    let p_frame = called-Frame symbols param stack mem top room in
    let kt = stack_top symbols param kernel_stack mem ktop (omega arith) in
    let start : Stack = record { sp = section_top kernel_stack; mem = p.mem } in
    let words = user_data ∷ p.sp ∷ [] in
    let u = push_all words start in
    let own = push_all-Pushed words [] start tt (omega arith) (omega arith) in
    let u_sp : u.sp + 8 ≡ start.sp = own.sp in
    let k = push_all (first_frame symbols entry user_data user_code) u in
    let pushed =
      first_frame-Pushed symbols entry user_data user_code (p.sp ∷ user_data ∷ []) u own.frame
        (omega arith) (omega arith) in
    let k_sp : k.sp + 64 ≡ u.sp =
      first_frame-sp symbols entry user_data user_code (p.sp ∷ user_data ∷ []) u k pushed in
    let still =
      Frame-moved u.mem k.mem u.sp (p.sp ∷ user_data ∷ []) (λ a low high. pushed.kept a (inr low))
        own.frame in
    let (c', ran, entered, esp, ss) =
      resume_other symbols entry user_data user_code (p.sp ∷ user_data ∷ []) k.mem k.sp c
        (record { esp0 = k.sp; esp0_top = section_top kernel_stack }) refl pushed.frame
        (omega arith) p.sp user_data (omega arith) (rw k_sp still) (omega arith) in
    (
      c',
      ran,
      entered,
      ss,
      rw esp p_sp,
      subst (λ q. Frame k.mem q (symbols.exit ∷ param ∷ 0 ∷ [])) (sym esp)
          (Frame-moved p.mem k.mem p.sp (symbols.exit ∷ param ∷ 0 ∷ [])
            (λ a low high.
              pushed.kept a
                (elim apart [ inl below ↦ inl (omega arith) | inr above ↦ inr (omega arith) ])
              ∙ own.kept a
                  (elim apart [ inl below ↦ inl (omega arith) | inr above ↦ inr (omega arith) ]))
            p_frame),
      kt,
    )
