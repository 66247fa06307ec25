-- ===== src/Tests/Threads.antt =====
-- kernel/core/task.cpp: threads of a user process of one kernel section and one process section.
use tysos_cxx.Prelude.{
  ℕ, ◌+◌, ◌≡◌, true, [], ◌∷◌, none, some, refl, arith, ◌==◌, if◌then◌else◌, inr, negsuc, map,
}
use tysos_cxx.Containers.IList.{Item}
use tysos_cxx.Containers.LinkedList.{
  LinkedList, new_node, set_prev, set_next, insertend, store, load,
}
use tysos_cxx.Containers.LinkedList.Methods.{add, make_node}
use tysos_cxx.Containers.LinkedList.Methods.Insertion.{IsFresh}
use tysos_cxx.Containers.LinkedList.Methods.Interface.{linked_list, Rep, linked_list-ListLaws}
use tysos_cxx.Section.{Section, Extent, empty_section, i386_vmm, is_kernel}
use tysos_cxx.Section.{
  check_extents, check_upper, extent_length, range_min, range_max, overlaps, overlap,
}
use tysos_cxx.Section.FindFree.{
  find_free_in, find_rounds, find_loop, place, candidate, is_free, page_up, section_end,
}
use tysos_cxx.Section.SectionList.Parts.{parts, Holds}
use tysos_cxx.Task.{TaskSwitchInfo, Symbols, Cpu, init, resume, kernel_data, kernel_code}
use tysos_cxx.Task.Frames.{Frame}
use tysos_cxx.Task.Resume.{AtEntry}
use tysos_cxx.Task.Start.{resume-init_kernel}
use tysos_cxx.Task.Create.{
  Process, Thread, New, Names, create, stack_request, kernel_stack_request, stack_size,
}
use tysos_cxx.Task.Create.Threads.{
  Fresh, FitsFrames, Started, create_no_kernel_stack, create-Started,
}
use tysos_cxx.Tests.Parts.{one_node, one_node-Rep, alloc, alloc-IsFresh, at}

abbrev symbols : Symbols
symbols = record { exit = 0x105000; perform_iret = 0x106000 }

abbrev names : Names
names = record { def_thr = 1; stack_str = 2; kstack_str = 3 }

abbrev new : New
new = record {
  thread = 60;
  stack = 50;
  kernel_stack = 51;
  mem_source = 0;
  tsi = record { esp0 = 0; esp0_top = 0 };
}

-- Before the loop of FindFree writes it.
abbrev garbage : Extent
garbage = record { upper = 0; lower = 0; length = 0 }

abbrev process : (Item → Section) → Item → Process LinkedList LinkedList
process sections k = record {
  user_mode = true;
  priority = negsuc 0;
  default_slice = 10;
  sections = parts (one_node k) (one_node 22);
  threads = one_node 59;
  at = sections;
  mem = λ a. 0;
}

-- The section 12 leaves no whole page of the kernel's range.
abbrev full : Item → Section
full p =
    if p == 12
    then record (empty_section 0) { flags = 0x4001; base = 0x100000; length = 0x3faff001 }
    else at p

abbrev FreshHere : (Item → Section) → Item → Type 0
FreshHere sections k =
    Fresh (linked_list alloc) Rep (λ s. IsFresh alloc s.heap) (linked_list-ListLaws alloc)
      (linked_list alloc) i386_vmm garbage (process sections k) new (one_node k) (one_node 22)
      (k ∷ []) (22 ∷ [])

process-Fresh : FreshHere at 11
unfolding is_kernel
process-Fresh = record {
  sections = refl;
  holds = record {
    kernels = one_node-Rep 11;
    processes = one_node-Rep 22;
    in_kernel = (refl, tt);
    in_process = (refl, tt);
  };
  stack_kernel = refl;
  stack_process = refl;
  other_kernel = refl;
  other_process = refl;
  other = refl;
}

full-Fresh : FreshHere full 12
unfolding is_kernel
full-Fresh = record {
  sections = refl;
  holds = record {
    kernels = one_node-Rep 12;
    processes = one_node-Rep 22;
    in_kernel = (refl, tt);
    in_process = (refl, tt);
  };
  stack_kernel = refl;
  stack_process = refl;
  other_kernel = refl;
  other_process = refl;
  other = refl;
}

-- The stack above the process section 22 and a page of padding.
abbrev stack : Section
stack = record {
  name = 2;
  flags = 0x47;
  base = 0x40007000;
  length = 0x1000;
  expand_down = 0x5000;
  expand_up = 0;
  lower_padding = 0x1000;
  upper_padding = 0x1000;
  mem_source = 0;
}

abbrev kernel_stack : Section
kernel_stack = record {
  name = 3;
  flags = 0x4047;
  base = 0x101000;
  length = 0x1000;
  expand_down = 0;
  expand_up = 0;
  lower_padding = 0;
  upper_padding = 0;
  mem_source = 0;
}

stack-found :
    find_free_in i386_vmm i386_vmm garbage
      (map at (22 ∷ []))
      (stack_request i386_vmm names new true (stack_size i386_vmm 0))
    ≡ some stack
unfolding find_free_in find_rounds find_loop place candidate is_free page_up section_end
    check_extents check_upper extent_length range_min range_max is_kernel overlaps overlap
    stack_request stack_size
stack-found = refl

kernel_stack-found :
    find_free_in i386_vmm i386_vmm garbage
      (map at (11 ∷ []))
      (kernel_stack_request i386_vmm names new)
    ≡ some kernel_stack
unfolding find_free_in find_rounds find_loop place candidate is_free page_up section_end
    check_extents check_upper extent_length range_min range_max is_kernel overlaps overlap
    kernel_stack_request
kernel_stack-found = refl

kernel_stack-missed :
    find_free_in i386_vmm i386_vmm garbage
      (map full (12 ∷ []))
      (kernel_stack_request i386_vmm names new)
    ≡ none
unfolding find_free_in find_rounds find_loop place candidate is_free page_up section_end
    check_extents check_upper extent_length range_min range_max is_kernel overlaps overlap
    kernel_stack_request
kernel_stack-missed = refl

create_no_kernel_stack_example :
    (w' : Process LinkedList LinkedList) × (p' : LinkedList) × (create
        (linked_list alloc)
        (linked_list alloc)
        i386_vmm
        garbage
        symbols
        names
        new
        0x40000000
        7
        0
        0
        (process full 12)
      ≡ some (none, w'))
    × (w'.sections ≡ parts (one_node 12) p')
    × (w'.threads ≡ one_node 59)
    × Holds
        (linked_list alloc)
        Rep
        (λ s. IsFresh alloc s.heap)
        (linked_list-ListLaws alloc)
        w'.at
        (one_node 12)
        p'
        (12 ∷ [])
        (22 ∷ 50 ∷ [])
create_no_kernel_stack_example =
    create_no_kernel_stack (linked_list alloc) Rep (λ s. IsFresh alloc s.heap)
      (linked_list-ListLaws alloc) (linked_list alloc) i386_vmm garbage symbols names new 0x40000000
      7 0 0 (process full 12) (one_node 12) (one_node 22) (12 ∷ []) (22 ∷ []) full-Fresh stack refl
      (alloc-IsFresh 22) stack-found kernel_stack-missed

stacks-FitsFrames : FitsFrames stack kernel_stack
stacks-FitsFrames = record {
  stack_top = omega arith;
  stack_room = omega arith;
  kernel_top = omega arith;
  kernel_room = omega arith;
  apart = inr (omega arith);
}

abbrev cpu : Cpu
cpu = record {
  eip = 0;
  cs = 8;
  eflags = 0;
  esp = 0;
  ss = 0x10;
  eax = 1;
  ecx = 0;
  edx = 0;
  ebx = 0;
  ebp = 0;
  esi = 0;
  edi = 0;
  ds = 0;
  es = 0;
  fs = 0;
  gs = 0;
}

abbrev threads_after : LinkedList
threads_after = elim ((linked_list alloc).add 60 (one_node 59)) [
  | none ↦ one_node 59
  | some (_, ts) ↦ ts
]

thread-added : (linked_list alloc).add 60 (one_node 59) ≡ some (tt, threads_after)
unfolding add make_node new_node set_prev set_next insertend store load
thread-added = refl

create-Started_example :
    (th : Thread) × (w' : Process LinkedList LinkedList) × (create
        (linked_list alloc)
        (linked_list alloc)
        i386_vmm
        garbage
        symbols
        names
        new
        0x40000000
        7
        0
        0
        (process at 11)
      ≡ some (some th, w'))
    × Started
        (linked_list alloc)
        Rep
        (λ s. IsFresh alloc s.heap)
        (linked_list-ListLaws alloc)
        (linked_list alloc)
        i386_vmm
        garbage
        symbols
        names
        new
        0x40000000
        7
        0
        0
        (process at 11)
        (one_node 11)
        (one_node 22)
        (11 ∷ [])
        (22 ∷ [])
        process-Fresh
        cpu
        stack
        kernel_stack
        threads_after
        th
        w'
create-Started_example =
    create-Started (linked_list alloc) Rep (λ s. IsFresh alloc s.heap) (linked_list-ListLaws alloc)
      (linked_list alloc) i386_vmm garbage symbols names new 0x40000000 7 0 0 (process at 11)
      (one_node 11) (one_node 22) (11 ∷ []) (22 ∷ []) process-Fresh stack kernel_stack threads_after
      cpu refl (alloc-IsFresh 11) (alloc-IsFresh 22) stack-found kernel_stack-found thread-added
      stacks-FitsFrames refl

-- A stack of the kernel that begins at address 0x10000.
abbrev boot_stack : Section
boot_stack = record (empty_section 0) { flags = 0x4047; base = 0x10000; length = 0x1000 }

abbrev started : TaskSwitchInfo × (ℕ → ℕ)
started = init symbols 0x102000 boot_stack 7 none (record { esp0 = 0; esp0_top = 0 }) (λ a. 0)

resume-init_kernel_example :
    (c' : Cpu) × (resume symbols started.0 started.1 cpu ≡ some c')
    × AtEntry c' 0x102000 kernel_data kernel_code
    × (c'.esp + 12 ≡ boot_stack.base + boot_stack.length)
    × Frame started.1 c'.esp (symbols.exit ∷ 7 ∷ 0 ∷ [])
resume-init_kernel_example =
    resume-init_kernel symbols 0x102000 7 boot_stack (record { esp0 = 0; esp0_top = 0 }) (λ a. 0)
      cpu (omega arith) (omega arith) refl
