-- ===== src/Thread/Boot.antt =====
-- The start of the process in src/thread.c: `mem_init` and `init_system`. What `mmap` answers for the
-- stacks and the two slabs is an argument, `none` for MAP_FAILED; the result is `none` where the
-- process ends with `exit(1)`. The exit stack is not modelled.
use ein8_proj.Base.{
  ℕ, ◌≡◌, ◌≢◌, refl, true, arith, ◌==◌, if◌then◌else◌, not, [], ◌∷◌, Option, some, none,
}
use ein8_proj.Sched.{write}
use ein8_proj.Cold.{thread_cold_reset}
use ein8_proj.Mono.{State, write_cold}
use ein8_proj.Mono.Memory.{thread_alloc}
use ein8_proj.Mono.Memory.Stacks.{Stacks}
use ein8_proj.Mono.Memory.Threads.{Threads}
use ein8_proj.Thread.{default_priority}
use ein8_proj.Thread.Flush.{Ready}

unfoldable pub mem_init : (stacks hot cold : Option ℕ) → State → Option State
mem_init none hot cold s = none
mem_init (some a) none cold s = none
mem_init (some a) (some h) none s = none
mem_init (some a) (some h) (some c) s = some (record s {
  stack_arena = a;
  stack_arena_next = 0;
  stack_free_head = 0;
  thread_slab_next = 0;
  thread_free_head = 0;
})

-- `init_system` behind `thread_alloc`: the main thread is alone in the list, and runs already.
unfoldable pub init_main : Option ℕ × State → Option State
init_main (none, s) = none
init_main (some t, s) = some (record s {
  current = t;
  hot =
      write s.hot t
        (record { rsp = 0; sched_next = t; sched_prev = t; priority = default_priority });
  cold = write_cold s.cold t (record (thread_cold_reset t) { started = 1 });
})

unfoldable pub init_from : Option State → Option State
init_from none = none
init_from (some s) = init_main (thread_alloc (record s { last_created = 0 }))

unfoldable pub init_system : (stacks hot cold : Option ℕ) → State → Option State
init_system stacks hot cold s =
    if not (s.current == 0) then some s else init_from (mem_init stacks hot cold s)

-- What holds when the process starts: the main thread runs alone, it has the only descriptor that is
-- handed out, no stack is, and no thread has been created.
pub record Booted (s : State) : Type 0 where
  pub main : s.current ≡ 1
  pub ready : Ready s []
  pub none_created : s.last_created ≡ 0
  pub threads : Threads s [] (1 ∷ [])
  pub stacks : Stacks s [] []
  pub started : (s.cold 1).started ≡ 1
  pub joinable : (s.cold 1).refcount ≡ 1

-- The state of a process that has just started.
abbrev booted : (arena : ℕ) → State → State
booted arena s = record s {
  stack_arena = arena;
  stack_arena_next = 0;
  stack_free_head = 0;
  thread_slab_next = 1;
  thread_free_head = 0;
  last_created = 0;
  current = 1;
  hot =
      write s.hot 1
        (record { rsp = 0; sched_next = 1; sched_prev = 1; priority = default_priority });
  cold = write_cold s.cold 1 (record (thread_cold_reset 1) { started = 1 });
}

-- `init_system` on a process that has no running thread, when `mmap` gives the three areas and the
-- stacks are not at address 0, leaves a state in which the invariants of the ready list and of both
-- allocators hold.
pub init_system-Booted :
    (a h c : ℕ) (s : State)
    → a ≢ 0
    → s.current ≡ 0
    → (s' : State) × (init_system (some a) (some h) (some c) s ≡ some s') × Booted s'
unfolding init_system mem_init init_from init_main thread_alloc thread_cold_reset
init_system-Booted a h c s ne out =
    let idle : (s.current == 0) ≡ true = ground arith in
    (
      booted a s,
      rw idle refl,
      record {
        main = refl;
        ready = record {
          ring = record { links = (refl, refl); distinct = (refl, tt); nonnull = refl };
          outside = λ none_yet. absurd (none_yet refl);
        };
        none_created = refl;
        threads = record {
          linked = refl;
          distinct_free = tt;
          distinct_used = (refl, tt);
          apart = λ x i. cc;
          free_placed = λ x i. cc;
          used_placed = λ x i. (ground arith, ground arith);
          counted = refl;
          bounded = omega arith;
        };
        stacks = record {
          linked = refl;
          distinct_free = tt;
          distinct_used = tt;
          apart = λ x i. cc;
          free_placed = λ x i. cc;
          used_placed = λ x i. cc;
          counted = refl;
          bounded = omega arith;
          mapped = ne;
        };
        started = refl;
        joinable = refl;
      },
    )
