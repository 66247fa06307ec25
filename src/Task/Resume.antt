-- ===== src/Task/Resume.antt =====
-- do_switch and perform_iret (kernel/i386/i386_switcher.asm) on the frame of a first switch.
use tysos_cxx.Prelude.{
  ℕ, zero, suc, ◌+◌, ◌*◌, ◌%◌, ◌^◌, ◌<◌, ◌≤◌, ◌≡◌, ◌≢◌, true, false, List, [], ◌∷◌, some, refl, sym,
  ◌∙◌, ap, ◌==◌, add32, arith, get_elem?,
}
use tysos_cxx.Task.{
  TaskSwitchInfo, Symbols, flag_if, first_frame, Cpu, word, pop_registers, iret, resume,
}
use tysos_cxx.Task.Frames.{Frame, onto}

word_lem :
    (mem : ℕ → ℕ) (sp i w : ℕ) (ws : List ℕ)
    → Frame mem sp ws
    → get_elem? ws i ≡ some w
    → sp + 4 * i < 2 ^ 32
    → word mem sp (4 * i) ≡ w
unfolding word
word_lem mem sp i w [] f e l = absurd (cc)
word_lem mem sp zero w (v ∷ ws) f e l =
    let at : add32 sp (4 * 0) ≡ sp = omega arith in
    let same : v ≡ w = ground arith in ap mem at ∙ f.0 ∙ same
word_lem mem sp (suc i) w (v ∷ ws) f e l =
    let next : add32 sp (4 * suc i) ≡ add32 (sp + 4) (4 * i) = omega arith in
    ap mem next ∙ word_lem mem (sp + 4) i w ws f.1 e (omega arith)

-- The frame that Init leaves at `esp0`, in the order in which it is popped.
abbrev pub switch_frame : Symbols → (entry d_seg c_seg : ℕ) → List ℕ → List ℕ
switch_frame sym entry d_seg c_seg rest = onto (first_frame sym entry d_seg c_seg) rest

-- The processor at the entry of a thread, with the data and code selectors.
pub record AtEntry (c : Cpu) (entry d_seg c_seg : ℕ) : Type 0 where
  pub eip : c.eip ≡ entry
  pub cs : c.cs ≡ c_seg
  pub eflags : c.eflags ≡ flag_if
  pub ds : c.ds ≡ d_seg
  pub es : c.es ≡ d_seg
  pub fs : c.fs ≡ d_seg
  pub gs : c.gs ≡ d_seg
  pub eax : c.eax ≡ 0
  pub ecx : c.ecx ≡ 0
  pub edx : c.edx ≡ 0
  pub ebx : c.ebx ≡ 0
  pub ebp : c.ebp ≡ 0
  pub esi : c.esi ≡ 0
  pub edi : c.edi ≡ 0

iret-stay :
    (mem : ℕ → ℕ) (c : Cpu)
    → (word mem c.esp 4 % 4 == c.cs % 4) ≡ true
    → iret mem c ≡ record c {
      eip = word mem c.esp 0;
      cs = word mem c.esp 4;
      eflags = word mem c.esp 8;
      esp = add32 c.esp 12;
    }
unfolding iret
iret-stay mem c level = rw (iret, level) refl

iret-leave :
    (mem : ℕ → ℕ) (c : Cpu)
    → (word mem c.esp 4 % 4 == c.cs % 4) ≡ false
    → iret mem c ≡ record c {
      eip = word mem c.esp 0;
      cs = word mem c.esp 4;
      eflags = word mem c.esp 8;
      esp = word mem c.esp 12;
      ss = word mem c.esp 16;
    }
unfolding iret
iret-leave mem c level = rw (iret, level) refl

module _ (sym : Symbols) (entry d_seg c_seg : ℕ) (rest : List ℕ) (mem : ℕ → ℕ) (sp : ℕ) (c : Cpu)
    (tsi : TaskSwitchInfo) (at : tsi.esp0 ≡ sp)
    (f : Frame mem sp (switch_frame sym entry d_seg c_seg rest)) (room : sp + 64 ≤ 2 ^ 32) where
  slot :
      (i w : ℕ)
      → i < 16
      → get_elem? (switch_frame sym entry d_seg c_seg rest) i ≡ some w
      → word mem sp (4 * i) ≡ w
  unfolding first_frame
  slot i w l e = word_lem mem sp i w (switch_frame sym entry d_seg c_seg rest) f e (omega arith)

  later : (k : ℕ) → k ≤ 8 → word mem (add32 sp 52) k ≡ word mem sp (52 + k)
  unfolding word
  later k l = let e : add32 (add32 sp 52) k ≡ add32 sp (52 + k) = omega arith in ap mem e

  popped : Cpu
  popped = pop_registers mem (record c { esp = tsi.esp0 })

  at_word : (k : ℕ) → word mem tsi.esp0 k ≡ word mem sp k
  at_word k = ap (λ q. word mem q k) at

  popped-esp : popped.esp ≡ add32 sp 52
  unfolding popped pop_registers
  popped-esp = ap (λ q. add32 q 52) at

  returns : (popped.eip == sym.perform_iret) ≡ true
  unfolding popped pop_registers first_frame
  returns = let e = at_word 48 ∙ slot 12 sym.perform_iret (omega arith) refl in ground arith

  resume-run : resume sym tsi mem c ≡ some (iret mem popped)
  unfolding resume popped
  resume-run = rw (resume, returns) refl

  level_word : (k w : ℕ) → k ≤ 8 → word mem sp (52 + k) ≡ w → word mem popped.esp k ≡ w
  level_word k w l e = ap (λ q. word mem q k) popped-esp ∙ later k l ∙ e

  entry_word : word mem popped.esp 0 ≡ entry
  unfolding first_frame
  entry_word = level_word 0 entry (omega arith) (slot 13 entry (omega arith) refl)

  code_word : word mem popped.esp 4 ≡ c_seg
  unfolding first_frame
  code_word = level_word 4 c_seg (omega arith) (slot 14 c_seg (omega arith) refl)

  flags_word : word mem popped.esp 8 ≡ flag_if
  unfolding first_frame
  flags_word = level_word 8 flag_if (omega arith) (slot 15 flag_if (omega arith) refl)

  popped_slot :
      (i w : ℕ)
      → i < 16
      → get_elem? (switch_frame sym entry d_seg c_seg rest) i ≡ some w
      → word mem tsi.esp0 (4 * i) ≡ w
  popped_slot i w l e = at_word (4 * i) ∙ slot i w l e

  -- Before iret, and after an iret that keeps what popad has loaded.
  at_entry :
      (c' : Cpu)
      → c'.eip ≡ word mem popped.esp 0
      → c'.cs ≡ word mem popped.esp 4
      → c'.eflags ≡ word mem popped.esp 8
      → record c' { eip = 0; cs = 0; eflags = 0; esp = 0; ss = 0 }
        ≡ record popped { eip = 0; cs = 0; eflags = 0; esp = 0; ss = 0 }
      → AtEntry c' entry d_seg c_seg
  unfolding popped pop_registers first_frame
  at_entry c' ip cs fl same = record {
    eip = ip ∙ entry_word;
    cs = cs ∙ code_word;
    eflags = fl ∙ flags_word;
    ds = ap (λ (x : Cpu). x.ds) same ∙ popped_slot 8 d_seg (omega arith) refl;
    es = ap (λ (x : Cpu). x.es) same ∙ popped_slot 9 d_seg (omega arith) refl;
    fs = ap (λ (x : Cpu). x.fs) same ∙ popped_slot 10 d_seg (omega arith) refl;
    gs = ap (λ (x : Cpu). x.gs) same ∙ popped_slot 11 d_seg (omega arith) refl;
    eax = ap (λ (x : Cpu). x.eax) same ∙ popped_slot 7 0 (omega arith) refl;
    ecx = ap (λ (x : Cpu). x.ecx) same ∙ popped_slot 6 0 (omega arith) refl;
    edx = ap (λ (x : Cpu). x.edx) same ∙ popped_slot 5 0 (omega arith) refl;
    ebx = ap (λ (x : Cpu). x.ebx) same ∙ popped_slot 4 0 (omega arith) refl;
    ebp = ap (λ (x : Cpu). x.ebp) same ∙ popped_slot 2 0 (omega arith) refl;
    esi = ap (λ (x : Cpu). x.esi) same ∙ popped_slot 1 0 (omega arith) refl;
    edi = ap (λ (x : Cpu). x.edi) same ∙ popped_slot 0 0 (omega arith) refl;
  }

  same_level : c_seg % 4 ≡ c.cs % 4 → (word mem popped.esp 4 % 4 == popped.cs % 4) ≡ true
  unfolding popped pop_registers
  same_level level = let e = code_word in ground arith

  other_level : c_seg % 4 ≢ c.cs % 4 → (word mem popped.esp 4 % 4 == popped.cs % 4) ≡ false
  unfolding popped pop_registers
  other_level level = let e = code_word in ground arith

  -- To the same privilege level: the thread goes on with the stack of the switch.
  pub resume_same :
      c_seg % 4 ≡ c.cs % 4
      → (c' : Cpu) × (resume sym tsi mem c ≡ some c')
        × AtEntry c' entry d_seg c_seg
        × (c'.esp ≡ add32 sp 64)
  resume_same level =
      let c' : Cpu = record popped {
        eip = word mem popped.esp 0;
        cs = word mem popped.esp 4;
        eflags = word mem popped.esp 8;
        esp = add32 popped.esp 12;
      } in
      (
        c',
        resume-run ∙ ap (λ x. some x) (iret-stay mem popped (same_level level)),
        at_entry c' refl refl refl refl,
        ap (λ q. add32 q 12) popped-esp ∙ omega arith,
      )

  -- To another privilege level: the thread's stack is in the frame.
  pub resume_other :
      (p ss : ℕ)
      → c_seg % 4 ≢ c.cs % 4
      → Frame mem (sp + 64) (p ∷ ss ∷ [])
      → sp + 72 ≤ 2 ^ 32
      → (c' : Cpu) × (resume sym tsi mem c ≡ some c')
        × AtEntry c' entry d_seg c_seg
        × (c'.esp ≡ p)
        × (c'.ss ≡ ss)
  unfolding word
  resume_other p ss level (here, (next, _)) room' =
      let c' : Cpu = record popped {
        eip = word mem popped.esp 0;
        cs = word mem popped.esp 4;
        eflags = word mem popped.esp 8;
        esp = word mem popped.esp 12;
        ss = word mem popped.esp 16;
      } in
      let a : add32 (add32 sp 52) 12 ≡ sp + 64 = omega arith in
      let b : add32 (add32 sp 52) 16 ≡ sp + 64 + 4 = omega arith in
      (
        c',
        resume-run ∙ ap (λ x. some x) (iret-leave mem popped (other_level level)),
        at_entry c' refl refl refl refl,
        ap (λ q. mem (add32 q 12)) popped-esp ∙ ap mem a ∙ here,
        ap (λ q. mem (add32 q 16)) popped-esp ∙ ap mem b ∙ next,
      )
