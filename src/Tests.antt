-- ===== src/Tests.antt =====
-- Each theorem at a concrete input, and runs of the operations.
pub mod Sections
pub mod Boot
pub mod Lists
pub mod Scheduling
pub mod Pages
pub mod Faults
pub mod Printing
pub mod Text
pub mod Collections
pub mod Parts
pub mod Threads
pub mod Locks
pub mod Devices
pub mod Startup
pub mod Paging
pub mod Allocation
