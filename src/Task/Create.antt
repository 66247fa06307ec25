-- ===== src/Task/Create.antt =====
-- Thread::Create (kernel/core/task.cpp): a thread with its stacks, placed in the sections of its
-- process. The addresses of the new objects are a parameter; `none` is a fault.
pub mod Stacks
pub mod Threads
use tysos_cxx.Prelude.{
  ℕ, ◌*◌, Bool, true, false, not, Option, none, some, ◌==◌, if◌then◌else◌, ℤ, bit_or, mul32,
}
use tysos_cxx.Containers.IList.{Item, IList}
use tysos_cxx.Scheduler.{loc_released}
use tysos_cxx.Section.{VirtMemManager, Section, Extent, empty_section}
use tysos_cxx.Section.SectionList.{SectionList, Outcome, returns, faults, throws_index, find_free}
use tysos_cxx.Section.SectionList as Sections
use tysos_cxx.Task.{Symbols, TaskSwitchInfo, init}

-- The fields of class Process that Create uses. The process has an address for each section.
pub record Process (L T : Type 0) : Type 0 where
  pub user_mode : Bool
  pub priority : ℤ
  pub default_slice : ℕ
  pub sections : SectionList L
  pub threads : T
  pub at : Item → Section
  pub mem : ℕ → ℕ

-- The fields of class Thread that Create sets; the stacks are addresses of sections.
pub record Thread : Type 0 where
  pub name : ℕ
  pub tsi : TaskSwitchInfo
  pub priority : ℤ
  pub default_slice : ℕ
  pub location : ℤ
  pub stack : Item
  pub kernel_stack : Option Item

-- The addresses that `new` returns, and what the new objects hold where no constructor writes.
pub record New : Type 0 where
  pub thread : Item
  pub stack : Item
  pub kernel_stack : Item
  pub mem_source : ℕ
  pub tsi : TaskSwitchInfo

-- def_thr, stack_str and kstack_str.
pub record Names : Type 0 where
  pub def_thr : ℕ
  pub stack_str : ℕ
  pub kstack_str : ℕ

-- Section::Defined | Section::Read | Section::Write | Section::AutoExpand, and KernelSection.
abbrev pub stack_flags : ℕ
stack_flags = 0x47

abbrev pub kernel_section : ℕ
kernel_section = 0x4000

unfoldable pub put : (Item → Section) → Item → Section → Item → Section
put at item s i = if i == item then s else at i

-- The request for the thread's stack.
unfoldable pub stack_request : VirtMemManager → Names → New → (user_mode : Bool) → ℕ → Section
stack_request v names new user_mode size = record (empty_section new.mem_source) {
  name = names.stack_str;
  length = v.page_size;
  expand_down = size;
  upper_padding = v.page_size;
  lower_padding = v.page_size;
  flags = if user_mode then stack_flags else bit_or stack_flags kernel_section;
}

-- The request for the kernel stack of a user thread.
unfoldable pub kernel_stack_request : VirtMemManager → Names → New → Section
kernel_stack_request v names new = record (empty_section new.mem_source) {
  name = names.kstack_str;
  length = v.page_size;
  flags = bit_or stack_flags kernel_section;
}

-- `stacksize`, with the default put in.
unfoldable pub stack_size : VirtMemManager → ℕ → ℕ
stack_size v size = if size == 0 then mul32 v.page_size 5 else size

-- The thread before its stacks are placed.
unfoldable pub new_thread : {L T : Type 0} → Names → New → Process L T → (name : ℕ) → Thread
new_thread names new w name = record {
  name = if name == 0 then names.def_thr else name;
  tsi = new.tsi;
  priority = w.priority;
  default_slice = w.default_slice;
  location = loc_released;
  stack = new.stack;
  kernel_stack = none;
}

module _ {L T : Type 0} (ops : IList L) (threads : IList T) (v : VirtMemManager) (e : Extent) where
  -- FindFree for a new section at `item`, and Add: false is that no place is free.
  unfoldable pub place_section : Item → Section → Process L T → Option (Bool × Process L T)
  unfolding put
  place_section item request w =
      let at = put w.at item request in
      elim (find_free ops v (some v) e at (some request) w.sections) [
        | none ↦ none
        | some none ↦ some (false, record w { at = at })
        | some (some r) ↦ elim (Sections.add ops (put at item r) item w.sections) [
          | faults ↦ none
          | throws_index ↦ none
          | returns _ s ↦ some (true, record w { at = put at item r; sections = s })
        ]
      ]

  -- `tsi->Init` and `Threads->Add`.
  unfoldable pub start_thread :
      Symbols
      → New
      → Thread
      → (entry param : ℕ) → Process L T
      → Option (Option Thread × Process L T)
  start_thread symbols new th entry param w =
      let (tsi, mem) =
        init symbols entry (w.at th.stack) param
          (elim th.kernel_stack [ none ↦ none | some i ↦ some (w.at i) ]) th.tsi w.mem in
      elim (threads.add new.thread w.threads) [
        | none ↦ none
        | some (_, ts) ↦ some (some (record th { tsi = tsi }), record w { mem = mem; threads = ts })
      ]

  -- The part of Create for user_mode.
  unfoldable pub with_kernel_stack :
      Symbols
      → Names
      → New
      → Thread
      → (entry param : ℕ) → Process L T
      → Option (Option Thread × Process L T)
  with_kernel_stack symbols names new th entry param w =
      elim (place_section new.kernel_stack (kernel_stack_request v names new) w) [
        | none ↦ none
        | some (false, w') ↦ some (none, w')
        | some (true, w') ↦
            start_thread symbols new (record th { kernel_stack = some new.kernel_stack }) entry
              param w'
      ]

  -- Thread::Create; the thread is none for NULL.
  unfoldable pub create :
      Symbols
      → Names
      → New
      → (entry param name size : ℕ) → Process L T
      → Option (Option Thread × Process L T)
  create symbols names new entry param name size w =
      elim (place_section new.stack (stack_request v names new w.user_mode (stack_size v size)) w) [
        | none ↦ none
        | some (false, w') ↦ some (none, w')
        | some (true, w') ↦
            if w.user_mode
            then with_kernel_stack symbols names new (new_thread names new w name) entry param w'
            else start_thread symbols new (new_thread names new w name) entry param w'
      ]
