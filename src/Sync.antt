-- ===== src/Sync.antt =====
-- src/thread_sync.c in the single-core build: mutexes, semaphores and signals between threads. The
-- ready list and a wait queue share `sched_next`, so a thread is in one of them at most.
pub mod Mutex
pub mod Semaphore
pub mod Signal
pub mod Parked
