-- ===== src/Sched.antt =====
-- kern/schedule and libs/skew_heap.h: the scheduler.
pub mod SkewHeap
pub mod Proc
pub mod Class
pub mod Core
pub mod Stride
pub mod Timer
pub mod Semaphore
mod Tests
