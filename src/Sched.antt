-- ===== src/Sched.antt =====
-- src/sched: the ready queues, threads and their table, the context switch and load balancing.
pub mod Queue
pub mod Registers
pub mod Thread
pub mod Table
pub mod Switch
pub mod Balance
pub mod Timer
pub mod Spawn
pub mod Closure
pub mod Interrupt
pub mod Locking
pub mod Tests
