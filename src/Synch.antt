-- ===== src/Synch.antt =====
-- rumphyper_synch.c: the threads, locks and condition variables that a rump kernel gets from the
-- scheduler, on one virtual CPU with no preemption.
pub mod Waiters
pub mod Mutex
pub mod Rwlock
pub mod Condvar
pub mod Thread
mod Tests
