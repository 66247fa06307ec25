-- ===== src/Containers.antt =====
-- The kernel's containers (include/list.h, include/linkedlist.h, include/queue.h,
-- include/arraylist.h).
pub mod LinkedList
pub mod DeltaQueue
pub mod IList
pub mod ArrayList
