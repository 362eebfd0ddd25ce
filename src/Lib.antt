-- ===== src/Lib.antt =====
-- A user-level thread library: cooperative threads with their own stacks, joins with a deadlock test,
-- mutexes, semaphores and signals. The model is the single-core build of the library (no MULTICORE,
-- no FP, no preemption), on x86-64, and of the multicore build the queues of its scheduler, the
-- caches of descriptors and stacks, and creation, yield, join and exit on a worker; the table of the
-- FP build; the contexts of the build without assembly; and the first version, under options/src.
--
-- A pointer to a descriptor is a number: 0 is NULL, `k + 1` is entry `k` of `hot_slab` and of
-- `cold_slab`, so that THREAD_COLD is the identity. Addresses of stacks, functions and values are
-- numbers too. A call takes the globals as a `State` (Mono) and ends with an `Outcome`: it returns,
-- it switches to the thread that is `current` in the new state, it jumps to a jump buffer, it leaves
-- for the end of the process, it aborts, or it crashes. What a call does when its thread runs again
-- is a function of its own, named `_resume`. A call on a worker of the multicore build takes a
-- `Cores`, ends with an `Ending`, and has the suffix `_mn`; at a spinlock that is held it stops there.
--
--   Base        numbers, Boolean tests, lists of slots, bits of a byte
--   Sched       src/scheduler.h: the circular list of ready threads. `Ring h c xs` says that `c` runs
--               and `xs` are ready, in the order of `sched_next`
--   FreeList    chains through one link: free lists and queues
--   WaitQueue   src/thread_sync.c: `wq_append`, `wq_pop`
--   Cold        src/thread_internal.h: `thread_cold_t`, `thread_cold_reset`
--   Mono        src/thread.c, src/context_switch.S: globals, allocators, first frame, switch
--   UnionFind   src/thread.c: `uf_find`, `uf_union`
--   Sync        src/thread_sync.c: mutexes, semaphores, signals
--   Thread      src/thread.c: create, yield, join, exit, priorities, start and
--               end of the process, which leaves `Remains` and notes the areas given to `munmap`
--   Cache       src/thread_mn.c: `thread_alloc`, `thread_release` of a worker, with its cache of
--               descriptors
--   StackCache  src/thread_mn.c: `stack_alloc` and `lazy_stack_alloc` of a worker, with its cache of
--               stacks
--   Deque       src/scheduler_mn.c: the Chase-Lev deque, each operation as a whole, and access by
--               access with the owner and any number of thieves interleaved
--   Runq        src/scheduler_mn.c: `try_steal`
--   Injector    src/scheduler_mn.c: `inj_push`, `try_drain_injector`
--   Balance     src/scheduler_mn.c: `runq_push`, `schedule_push_balance_cb`, the wake-ups, and one round of
--               `runq_pop_block`
--   Cores       src/thread_mn.c: create, yield, join and exit on a worker, with the locks of the threads; from
--               src/scheduler_mn.c: `schedule`, `schedule_park`, `schedule_exit`, the callbacks
--   Dedup       src/dedup.h: the table of the FP build, from a function and its argument to a thread
--   Portable    src/ctx_ucontext.c: contexts of the build without the assembly, their layout, and its
--               yield; `getcontext` and `makecontext` are the interface `Ucontext`
--   Early       options/src: the first version of the library, with descriptors of `malloc`, one
--               first-in first-out queue, `_setjmp` and `_longjmp`, in the build with preemption. The
--               queues of <sys/queue.h> are the interface `TailQueue`; its `Process` holds the signal
--               mask and the blocks that are allocated, and its calls have the suffix `_early`
--   Examples    concrete states on which the theorems are applied
--
-- Threads interact through the slab: the ready list and the wait queues use the same links, and
-- `Sync.Parked.Parked` states that they stand side by side. The function of a thread is not part of
-- the library: `thread_join` takes a `Body`, which runs it.
--
-- Loops run on fuel: `uf_find` needs more than the length of the way to the root, `uf_order` at most
-- two rounds, `sched_pick_highest` one round for each ready thread, `try_steal` gives its loop the
-- `n - 1` rounds that it has, and `thread_system_destroy` needs one round more than threads are
-- ready. The searches of Dedup are stated for any fuel where they are compared, and end within 256
-- rounds, one for each group, when a slot was never used. A refill of a cache of
-- descriptors has the 16 rounds that the code gives it, and one of a cache of stacks 8, and 9 to put
-- at most 8 stacks into the cache. The deadlock test of Early has fuel for its walk along `joining`, and its
-- `thread_system_destroy` one round more than threads are ready.
--
-- The deque is stated for indices below 2^63, and its interleavings for fewer than 2^63 accesses, which
-- no run reaches; its functions wrap around as the code does. All workers see the accesses in one
-- order: what weaker orderings than `seq_cst` allow is not modelled. A round of `runq_pop_block` is one
-- step of the model, which other workers do not interrupt; the sleep behind a round that finds nothing
-- is its result `waits`. The counter of a semaphore is an integer without bounds.
--
-- Not modelled: registers, Valgrind, signal masks and timers of src/ (calls of the system), condition
-- variables, the uses of the FP table in src/thread.c, of src/thread_mn.c start and end of the
-- process, the lock branches of src/thread_sync.c, the timer of
-- options/src, and the declarations for pthread in src/thread.h.
pub mod Base
pub mod Sched
pub mod FreeList
pub mod WaitQueue
pub mod Cold
pub mod Mono
pub mod UnionFind
pub mod Sync
pub mod Thread
pub mod Cache
pub mod Dedup
pub mod Deque
pub mod Runq
pub mod Injector
pub mod Early
pub mod Portable
pub mod StackCache
pub mod Balance
pub mod Cores
pub mod Examples
