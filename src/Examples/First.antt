-- ===== src/Examples/First.antt =====
-- The first version of the library, under options/src, on a concrete state.
use ein8_proj.Base.{
  ℕ, ◌+◌, ◌≡◌, ◌≢◌, refl, arith, ◌==◌, if◌then◌else◌, Bool, true, false, List, [], ◌∷◌, ◌++◌, none,
  some, ◌⊎◌, inl, inr, length, ap,
}
use ein8_proj.Base.Int.{pos}
use ein8_proj.Early.{
  Phase, is_ready, is_running, is_blocked, is_finished, Env, env_init, env_start, env_yield,
  env_join, env_lock, Thread, MutexOf, Process, Outcome, returned,
}
use ein8_proj.Early.Queue.{TailQueue}
use ein8_proj.Early.Calls.{
  set_joining, is_end, early_edeadlk, thread_join_early, thread_yield_early, thread_create_first,
}
use ein8_proj.Early.Mutex.{mutex_lock_early, mutex_unlock_early}
use ein8_proj.Early.Places.{Place, absent, at_cpu, in_ready, ended, in_mutex, in_join, Parts}
use ein8_proj.Early.Sound.{Sound, SoundOutcome, IsSound}
use ein8_proj.Early.Begin.{thread_create_first-IsSound}
use ein8_proj.Early.Run.{call_join, expected, perform, perform-SoundOutcome}
use ein8_proj.Early.Turns.{Runs, thread_yield_early-Runs}
use ein8_proj.Early.Faults.{thread_join_early_endless, mutex_unlock_early-mutex_lock_early}

abbrev first_of : List ℕ → ℕ
first_of [] = 0
first_of (x ∷ xs) = x

abbrev rest_of : List ℕ → List ℕ
rest_of [] = []
rest_of (x ∷ xs) = xs

abbrev none_in : List ℕ → Bool
none_in [] = true
none_in (x ∷ xs) = false

-- A list as a tail queue.
abbrev fifo : TailQueue
fifo = record {
  Queue = List ℕ;
  contents = λ q. q;
  init = [];
  is_empty = none_in;
  first = first_of;
  insert_tail = λ q t. q ++ t ∷ [];
  remove_head = rest_of;
  contents-init = refl;
  is_empty-nil = λ q e. rw e refl;
  is_empty-cons = λ q x xs e. rw e refl;
  first-cons = λ q x xs e. rw e refl;
  contents-insert_tail = λ q t ne out. refl;
  contents-remove_head = λ q x xs e. rw e refl;
}

abbrev early_thread : (env : Env) (stack : ℕ) (state : Phase) (waiting joining : ℕ) → Thread
early_thread e b p w j = record {
  env = e;
  stack = b;
  stack_size = 65536;
  retval = 0;
  state = p;
  waiting = w;
  joining = j;
  func = 21;
  func_arg = 22;
}

-- Thread 1 runs, 2 and 3 are ready, 4 waits for mutex 7, 5 has ended, 6 waits for 2.
abbrev early_heap : ℕ → Thread
early_heap a =
    if a == 1
    then early_thread env_init 0 is_running 0 0
    else if a == 2
    then early_thread (env_yield false) 200 is_ready 6 0
    else if a == 3
    then early_thread env_start 300 is_ready 0 0
    else if a == 4
    then early_thread (env_lock false) 400 is_blocked 0 0
    else if a == 5
    then early_thread env_start 500 is_finished 0 0
    else early_thread (env_join 2 false) 600 is_blocked 0 2

abbrev early_place : ℕ → Place
early_place a =
    if a == 1
    then at_cpu
    else if a == 2
    then in_ready
    else if a == 3
    then in_ready
    else if a == 4
    then in_mutex 7
    else if a == 5
    then ended
    else if a == 6
    then in_join 2
    else absent

abbrev early_waits : ℕ → List ℕ
early_waits m = if m == 7 then 4 ∷ [] else []

abbrev early_mutexes : ℕ → MutexOf (List ℕ)
early_mutexes m = record { locked = if m == 7 then 1 else 0; waiting = early_waits m }

abbrev early0 : Process (List ℕ)
early0 = record {
  heap = early_heap;
  blocks = 1 ∷ 2 ∷ 3 ∷ 4 ∷ 5 ∷ 6 ∷ 200 ∷ 300 ∷ 400 ∷ 500 ∷ 600 ∷ [];
  current = 1;
  ready_queue = 2 ∷ 3 ∷ [];
  mutexes = early_mutexes;
  masked = false;
}

early0-Parts : Parts early_heap early_place (2 ∷ 3 ∷ []) early_waits
early0-Parts = record {
  ready = λ a. ground arith;
  blocked = λ m a. ground arith;
  distinct_ready = ground arith;
  distinct_blocked = λ m. ground arith;
  joins = λ a t e. ground (arith, e);
  waited = λ t w e k. ground (arith, w, e, k);
  ends = λ a k. ground (arith, k);
  woken = λ a t r e. ground (arith, r, e);
  resumes = λ a r. ground (arith, r);
  locks = λ a m e. ground (arith, e);
  null = refl;
}

early0-Sound :
    Sound fifo early_heap (2 ∷ 3 ∷ []) early_mutexes 1 early_place (2 ∷ 3 ∷ []) early_waits
early0-Sound = record {
  parts = early0-Parts;
  ready_is = refl;
  blocked_is = λ m. refl;
  running = refl;
  only = λ a k. ground (arith, k);
}

-- Thread 1 runs, and thread 2 waits for it.
abbrev early1 : Process (List ℕ)
early1 = record early0 {
  heap = λ a. if a == 2 then early_thread (env_join 1 false) 200 is_blocked 0 1 else early_heap a;
}

perform-SoundOutcome_example :
    (o : Outcome (List ℕ)) × (perform fifo 3 (call_join 3) early0 ≡ some o)
    × SoundOutcome fifo (expected fifo early_place (call_join 3)) o
unfolding set_joining
perform-SoundOutcome_example =
    perform-SoundOutcome fifo 3 (call_join 3) early0 early_place (2 ∷ 3 ∷ []) early_waits
      early0-Sound
      (
        refl,
        refl,
        (λ e. absurd (ground (arith, ap length e))),
        (
          1,
          false,
          ground arith,
          inr (
            (λ e. absurd (omega (arith, e))),
            (λ e. absurd (omega (arith, e))),
            inl (refl, refl),
          ),
        ),
      )

abbrev early_blank : Process (List ℕ)
early_blank = record early0 { current = 0; mutexes = λ m. record { locked = 0; waiting = [] } }

thread_create_first-IsSound_example :
    (s' : Process (List ℕ)) × (thread_create_first fifo 9 8 800 21 22 early_blank
      ≡ returned (pos 0) (some 8) s')
    × (s'.current ≡ 9)
    × (s'.ready_queue ≡ 8 ∷ [])
    × IsSound fifo s'
thread_create_first-IsSound_example =
    thread_create_first-IsSound fifo 9 8 800 21 22 early_blank refl (omega arith) (omega arith)
      (omega arith) (omega arith) (λ m. refl)

thread_yield_early-Runs_example :
    ((◌≡◌ {A = List ℕ} (2 ∷ 3 ∷ []) [])
      × (thread_yield_early fifo early0 ≡ returned (pos 0) none early0))
    ⊎ ((x : ℕ) × (rest : List ℕ) × (2 ∷ 3 ∷ [] ≡ x ∷ rest)
        × Runs fifo x (rest ++ 1 ∷ []) (thread_yield_early fifo early0))
thread_yield_early-Runs_example =
    thread_yield_early-Runs fifo early0 early_place (2 ∷ 3 ∷ []) early_waits early0-Sound

thread_join_early_endless_example :
    (s' : Process (List ℕ)) × ((n : ℕ)
      → thread_join_early fifo (2 + n) 2 early1 ≡ some (returned early_edeadlk none s'))
    × ((fuel : ℕ) (r : Process (List ℕ))
        → r.current ≢ 1
        → r.current ≢ 2
        → (r.heap 1).joining ≡ (s'.heap 1).joining
        → (r.heap 2).joining ≡ (s'.heap 2).joining
        → is_end (r.heap 1).state ≡ false
        → thread_join_early fifo fuel 1 r ≡ none)
thread_join_early_endless_example =
    thread_join_early_endless fifo 2 early1 (omega arith) (omega arith) (omega arith) refl refl

mutex_unlock_early-mutex_lock_early_example :
    (s' : Process (List ℕ)) × (s'' : Process (List ℕ)) × (mutex_lock_early fifo 3 early0
      ≡ returned (pos 0) none s')
    × (mutex_unlock_early fifo 3 s' ≡ returned (pos 0) none s'')
    × (s''.mutexes ≡ early_mutexes)
    × (s''.heap ≡ early_heap)
    × (s''.ready_queue ≡ 2 ∷ 3 ∷ [])
    × (s''.current ≡ 1)
    × (s''.masked ≡ true)
mutex_unlock_early-mutex_lock_early_example =
    mutex_unlock_early-mutex_lock_early fifo 3 early0 refl refl
