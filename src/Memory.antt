-- ===== src/Memory.antt =====
-- Physical pages (kernel/core/pmem.cpp, include/sys/pmem.h) and the kernel heap
-- (kernel/core/sbrk.cpp).
pub mod PageStack
pub mod Bitmap
pub mod Break
pub mod Fault
pub mod KernelTables
pub mod Paging
pub mod Allocator
