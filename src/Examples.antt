-- ===== src/Examples.antt =====
-- Concrete states on which the theorems are applied.
mod Lists
mod Locks
mod Memory
mod Running
mod Joins
mod Multicore
mod Table
mod Race
mod Workers
mod First
mod Contexts
mod Arena
use ein8_proj.Base.{
  ℕ, suc, ◌+◌, ◌-◌, ◌*◌, ◌^◌, ◌≤◌, ◌<◌, ◌≡◌, ◌≢◌, refl, ◌⊎◌, inl, inr, Option, none, some, List, [],
  ◌∷◌, ◌++◌, true, false, arith, ◌==◌, ◌∈◌, ◌∉◌, IsDistinct, has, length, if◌then◌else◌, Bool-cases,
  bit_and, bit_or, ℕ_discrete, ◌&&◌, ◌%◌, ==_ne, ==_eq, sym, ap, ◌∙◌,
}
use ein8_proj.Cold.{Cold, ready}
use ein8_proj.Mono.{State}
use ein8_proj.Mono.Memory.Stacks.{Stacks}
use ein8_proj.Mono.Memory.Threads.{Threads}
use ein8_proj.Sched.{Hot, Slab}
use ein8_proj.Sched.Ring.{Ring}
use ein8_proj.Sync.Parked.{Parked}
use ein8_proj.Thread.Flush.{Ready}
use ein8_proj.WaitQueue.{Ends}
use ein8_proj.WaitQueue.Fifo.{IsQueue}

-- An entry of the slab.
abbrev pub entry : (rsp next prev priority : ℕ) → Hot
entry r n p v = record { rsp = r; sched_next = n; sched_prev = p; priority = v }

-- Thread 1 runs, 2 and 3 are ready, 4 and 5 wait in a queue, 6 is on the free list; `r` is the stack
-- pointer of 3.
abbrev pub hot_with : ℕ → Slab
hot_with r a =
    if a == 1
    then entry 0 2 3 3
    else if a == 2
    then entry 70000 3 1 5
    else if a == 3
    then entry r 1 2 5
    else if a == 4
    then entry 80000 5 0 3
    else entry 0 0 0 3

abbrev pub hot0 : Slab
hot0 = hot_with 140000

-- Thread 1 alone.
abbrev pub hot_alone : Slab
hot_alone a = entry 0 1 1 3

abbrev pub fresh_cold : ℕ → Cold
fresh_cold a = record {
  retval = 0;
  stack_base = 0;
  waiting = 0;
  parent = a;
  rank = 0;
  state = ready;
  func = 11;
  func_arg = 12;
  inline_jmpbuf = 0;
  refcount = 1;
  started = 1;
  pending_sigs = 6;
  wait_mask = 8;
  sig_waiting = 1;
  received_sig = 0;
}

-- Threads 2 and 3 have the first two stacks; thread 4 has joined thread 1; thread 5 stands below 2.
abbrev pub cold0 : ℕ → Cold
cold0 a =
    if a == 1
    then record (fresh_cold a) { waiting = 4 }
    else if a == 2
    then record (fresh_cold a) { stack_base = 65536; retval = 9 }
    else if a == 3
    then record (fresh_cold a) { stack_base = 131072 }
    else if a == 5
    then record (fresh_cold a) { parent = 2 }
    else fresh_cold a

abbrev pub s0 : State
s0 = record {
  hot = hot0;
  cold = cold0;
  mem = λ a. 0;
  current = 1;
  last_created = 0;
  last_created_func = 0;
  last_created_arg = 0;
  inline_executing = 0;
  stack_arena = 65536;
  stack_arena_next = 3;
  stack_free_head = 196608;
  pending_dead_stack = 0;
  thread_slab_next = 6;
  thread_free_head = 6;
  stack_color_counter = 0;
  thread_trampoline = 4242;
}

abbrev pub waiting_queue : Ends
waiting_queue = record { head = 4; tail = 5 }

abbrev pub empty_queue : Ends
empty_queue = record { head = 0; tail = 0 }

pub Ring-with : (r : ℕ) → Ring (hot_with r) 1 (2 ∷ 3 ∷ [])
Ring-with r = record {
  links = (refl, refl, (refl, refl, (refl, refl)));
  distinct = (refl, (refl, (refl, tt)));
  nonnull = refl;
}

pub alone-Ring : Ring hot_alone 1 []
alone-Ring = record { links = (refl, refl); distinct = (refl, tt); nonnull = refl }

pub IsQueue-with : (r : ℕ) → IsQueue (hot_with r) waiting_queue (4 ∷ 5 ∷ [])
IsQueue-with r = record {
  linked = (refl, omega arith, (refl, omega arith, refl));
  tail = refl;
  distinct = (refl, (refl, tt));
}

pub Parked-with : (r : ℕ) → Parked (hot_with r) 1 (2 ∷ 3 ∷ []) waiting_queue (4 ∷ 5 ∷ [])
Parked-with r = record { ring = Ring-with r; queue = IsQueue-with r; apart = λ a i. ground arith }

pub ready0 : Ready s0 (2 ∷ 3 ∷ [])
ready0 = record { ring = Ring-with 140000; outside = λ ne. absurd (ne refl) }

pub threads0 : Threads s0 (6 ∷ []) (1 ∷ 2 ∷ 3 ∷ 4 ∷ 5 ∷ [])
threads0 = record {
  linked = (refl, omega arith, refl);
  distinct_free = (refl, tt);
  distinct_used = (refl, (refl, (refl, (refl, (refl, tt)))));
  apart = λ a i. ground arith;
  free_placed = λ a i. (ground arith, ground arith);
  used_placed = λ a i. (ground arith, ground arith);
  counted = refl;
  bounded = omega arith;
}

pub stacks0 : Stacks s0 (196608 ∷ []) (65536 ∷ 131072 ∷ [])
stacks0 = record {
  linked = (refl, omega arith, refl);
  distinct_free = (refl, tt);
  distinct_used = (refl, (refl, tt));
  apart = λ a i. ground arith;
  free_placed = λ a i. (2, omega arith, ground arith);
  used_placed = λ a i. elim (ℕ_discrete a 65536) [
    | yes e ↦ (0, omega arith, e)
    | no ne ↦ (1, omega arith, ground arith)
  ];
  counted = refl;
  bounded = omega arith;
  mapped = omega arith;
}
