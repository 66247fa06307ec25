-- ===== src/Lib.antt =====
-- Tysos, a small 32-bit kernel in C++ (include/ and kernel/). The boot loader hands it tables of
-- memory, ELF sections and modules, which class Multiboot copies and searches for free ranges.
-- Address spaces are lists of sections; SectionList::FindFree places a new section between them.
-- Threads are in the queues of the scheduler, which the timer interrupt drives through a queue of
-- delays. Lists and queues are doubly linked nodes.
--
-- Files:
-- - Prelude, Prelude/*: Boolean tests, lists over the native numbers, and 32-bit words with their
--   wrap-around.
-- - Section, Section/Extents, Section/FindFree and below: class Section and SectionList::_findfree
--   (kernel/core/section.cpp, include/sys/section.h). `check_extents` is Section::CheckExtents,
--   `find_free_in` is _findfree over the sections that the list holds.
-- - Multiboot and below: class Multiboot (kernel/core/multiboot.cpp, include/sys/multiboot.h).
--   `parse`, `check_range`, `find_range` are the methods of these names; the boot loader's memory
--   is a parameter (BootMemory).
-- - Section/SectionList and below: class SectionList (kernel/core/section.cpp,
--   include/sys/sectionlist.h) over two lists behind the interface of Containers/IList, whose laws
--   Containers/LinkedList/Methods/Interface proves of class LinkedList.
-- - Containers/IList and below: the interface IList (include/list.h).
-- - Containers/ArrayList and below: class ArrayList (include/arraylist.h).
-- - Containers/LinkedList and below: class LinkedList (include/linkedlist.h) on a heap of nodes: the
--   operations on nodes, and in Containers/LinkedList/Methods the public methods over them.
-- - Containers/DeltaQueue and below: class DeltaQueue (include/queue.h) on the sequence of its
--   nodes.
-- - Scheduler and below: class Scheduler (include/sys/sched.h) over the fields of class Thread
--   (include/sys/task.h).
-- - Memory/PageStack, Memory/Bitmap: classes PhysMemStack and PhysMemBitmap (kernel/core/pmem.cpp,
--   include/sys/pmem.h).
-- - Memory/Break: sbrk (kernel/core/sbrk.cpp).
-- - Memory/Fault: VirtMemManager::ResolvePageFault (kernel/core/vmem.cpp) as far as the call of
--   MapPage.
-- - Memory/Allocator and below: class i386_PageProvider and class i386_PhysMemAllocator
--   (kernel/i386/i386_pmem.cpp).
-- - Memory/Paging and below: MapPage, TempMap, TempUnmap and i386_AddressSpace::Init
--   (kernel/i386/i386_vmem.cpp) on physical memory, with the translation that the processor makes.
-- - Lock and below: the spin lock of class Lockable (kernel/i386/concurrent.cpp,
--   include/i386/concurrent.h), one instruction at a time. `move` is what may happen next to the
--   threads of one processor, `Reach` are the states that they reach.
-- - Scheduler/Calls: any sequence of calls of the scheduler.
-- - Task and below: class i386_TaskSwitchInfo (kernel/i386/i386_task.cpp) and the part of
--   kernel/i386/i386_switcher.asm that loads a thread; Task/Create is Thread::Create
--   (kernel/core/task.cpp) over the section list of a process.
-- - Kernel and below: Kernel::InitKernel (kernel/core/kernel.cpp, include/sys/kernel.h) after Parse.
-- - Interrupts and below: AddGate (kernel/i386/i386_interrupt.cpp) and class Pic_8259a
--   (kernel/i386/pic_8259a.cpp); the devices behind the ports are a parameter.
-- - Timer and below: class Pit_8253 and pit_stub (kernel/i386/pit_8253.cpp), which calls the
--   controllers and the scheduler.
-- - Memory/KernelTables: the loop of i386_VirtMemManager::Init that fills the kernel page tables.
-- - Formatter and below: class Formatter (kernel/core/formatter.cpp) and class ReversibleString
--   (include/sys/formatter.h). `vf_printf` is vfPrintf, `num_to_str` is NumToStr.
-- - Console and below: class Video (kernel/core/video.cpp) with class Vga (kernel/i386/vga.cpp).
-- - Strings and below: the C functions on memory and strings (kernel/core/stdclib.cpp).
-- - Tests/*: each theorem at a concrete input, and runs of the operations.
--
-- Bounds and fuel: addresses and lengths are 32-bit words, deltas are 64-bit words. The loop of
-- TimerTick runs on fuel, one more than the threads that sleep: each round takes one of them out
-- of the queue. The loop of AllocRange has as much fuel as there are starts to try, and the loop
-- of sbrk, which halves a 32-bit word, has 32, and so has NumToStr, which divides one. A walk
-- through a LinkedList has one round more than the list counts nodes. The loops over C strings
-- take their fuel as a parameter, and more fuel than the string is long is enough. The loop that
-- frees the pages needs one round for each page of the memory, and one more. MapPage calls itself,
-- and its fuel bounds the depth of the calls: for one page of the current address space with a
-- page table one is enough. The loop that maps the pages of a section has one round for each page
-- and one more. All other loops are structural.
--
-- Not modelled: locks outside of Lock (each operation runs as a whole), the messages that the
-- kernel prints on its way, kernel/core/malloc.cpp (a copy of a library), CopyTo of the
-- collections, the temporary sections of i386_VirtMemManager::Init, the save of a thread's state on a
-- switch, and the order of the initialisation in kernel/core/main.cpp.
pub mod Prelude
pub mod Section
pub mod Multiboot
pub mod Containers
pub mod Lock
pub mod Scheduler
pub mod Task
pub mod Kernel
pub mod Interrupts
pub mod Timer
pub mod Memory
pub mod Formatter
pub mod Console
pub mod Strings
pub mod Tests
