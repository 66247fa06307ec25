-- ===== src/Task.antt =====
-- The stacks of a new thread and the switch to it: class i386_TaskSwitchInfo
-- (kernel/i386/i386_task.cpp), and c_switch, do_switch and perform_iret
-- (kernel/i386/i386_switcher.asm). Memory is read and written by 32-bit words.
pub mod Frames
pub mod Resume
pub mod Start
pub mod Create
use tysos_cxx.Prelude.{
  ℕ, ◌+◌, ◌%◌, Bool, true, false, List, [], ◌∷◌, Option, none, some, ◌==◌, if◌then◌else◌, add32,
  sub32,
}
use tysos_cxx.Section.{Section}

-- A stack pointer, and memory.
pub record Stack : Type 0 where
  pub sp : ℕ
  pub mem : ℕ → ℕ

unfoldable pub poke : (ℕ → ℕ) → ℕ → ℕ → ℕ → ℕ
poke mem p w a = if a == p then w else mem a

-- `*--st = v`
unfoldable pub push : ℕ → Stack → Stack
unfolding poke
push v s = let p = sub32 s.sp 4 in record { sp = p; mem = poke s.mem p v }

unfoldable pub push_all : List ℕ → Stack → Stack
push_all [] s = s
push_all (v ∷ vs) s = push_all vs (push v s)

-- The fields of i386_TaskSwitchInfo.
pub record TaskSwitchInfo : Type 0 where
  pub esp0 : ℕ
  pub esp0_top : ℕ

-- The addresses of __exit and perform_iret.
pub record Symbols : Type 0 where
  pub exit : ℕ
  pub perform_iret : ℕ

-- i386_TaskSwitchInfo::IF, and the selectors of kernel and user mode.
abbrev pub flag_if : ℕ
flag_if = 0x200

abbrev pub kernel_data : ℕ
kernel_data = 0x10

abbrev pub kernel_code : ℕ
kernel_code = 0x08

abbrev pub user_data : ℕ
user_data = 0x23

abbrev pub user_code : ℕ
user_code = 0x1b

unfoldable pub section_top : Section → ℕ
section_top s = add32 s.base s.length

-- What Init pushes on the stack on which the thread runs.
unfoldable pub arguments : Symbols → ℕ → List ℕ
arguments sym param = 0 ∷ param ∷ sym.exit ∷ []

-- What Init pushes on the stack of the first switch, from EFLAGS on.
unfoldable pub first_frame : Symbols → ℕ → (d_seg c_seg : ℕ) → List ℕ
first_frame sym entry d_seg c_seg =
    flag_if ∷ c_seg ∷ entry ∷ sym.perform_iret ∷ d_seg ∷ d_seg ∷ d_seg ∷ d_seg ∷ 0 ∷ 0 ∷ 0 ∷ 0 ∷ 0
    ∷ 0 ∷ 0 ∷ 0 ∷ []

-- i386_TaskSwitchInfo::Init
unfoldable pub init :
    Symbols
    → (entry : ℕ) → Section
    → (param : ℕ) → Option Section
    → TaskSwitchInfo
    → (ℕ → ℕ)
    → TaskSwitchInfo × (ℕ → ℕ)
init sym entry stack param none tsi mem =
    let p = push_all (arguments sym param) (record { sp = section_top stack; mem = mem }) in
    let k = push_all (first_frame sym entry kernel_data kernel_code) p in
    (record tsi { esp0 = k.sp }, k.mem)
init sym entry stack param (some kernel_stack) tsi mem =
    let p = push_all (arguments sym param) (record { sp = section_top stack; mem = mem }) in
    let top = section_top kernel_stack in
    let k =
      push_all (first_frame sym entry user_data user_code)
        (push_all (user_data ∷ p.sp ∷ []) (record { sp = top; mem = p.mem })) in
    (record { esp0 = k.sp; esp0_top = top }, k.mem)

-- The registers that the switch loads.
pub record Cpu : Type 0 where
  pub eip : ℕ
  pub cs : ℕ
  pub eflags : ℕ
  pub esp : ℕ
  pub ss : ℕ
  pub eax : ℕ
  pub ecx : ℕ
  pub edx : ℕ
  pub ebx : ℕ
  pub ebp : ℕ
  pub esi : ℕ
  pub edi : ℕ
  pub ds : ℕ
  pub es : ℕ
  pub fs : ℕ
  pub gs : ℕ

unfoldable pub word : (ℕ → ℕ) → ℕ → ℕ → ℕ
word mem sp k = mem (add32 sp k)

-- From `.dopop` on: popad, which passes over the saved esp, the segment registers, and ret.
unfoldable pub pop_registers : (ℕ → ℕ) → Cpu → Cpu
unfolding word
pop_registers mem c = record c {
  edi = word mem c.esp 0;
  esi = word mem c.esp 4;
  ebp = word mem c.esp 8;
  ebx = word mem c.esp 16;
  edx = word mem c.esp 20;
  ecx = word mem c.esp 24;
  eax = word mem c.esp 28;
  ds = word mem c.esp 32;
  es = word mem c.esp 36;
  fs = word mem c.esp 40;
  gs = word mem c.esp 44;
  eip = word mem c.esp 48;
  esp = add32 c.esp 52;
}

-- perform_iret: a return to another privilege level also loads the stack pointer.
unfoldable pub iret : (ℕ → ℕ) → Cpu → Cpu
unfolding word
iret mem c =
    let cs = word mem c.esp 4 in
    let c' = record c { eip = word mem c.esp 0; cs = cs; eflags = word mem c.esp 8 } in
    if cs % 4 == c.cs % 4
    then record c' { esp = add32 c.esp 12 }
    else record c' { esp = word mem c.esp 12; ss = word mem c.esp 16 }

-- The switch to a thread that has not run yet: do_switch loads the stack pointer from `esp0`, pops
-- the registers and returns to perform_iret; none when the return address is another.
unfoldable pub resume : Symbols → TaskSwitchInfo → (ℕ → ℕ) → Cpu → Option Cpu
resume sym tsi mem c =
    let popped = pop_registers mem (record c { esp = tsi.esp0 }) in
    if popped.eip == sym.perform_iret then some (iret mem popped) else none
