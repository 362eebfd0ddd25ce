-- ===== src/Early.antt =====
-- The first version of the library, under options/src: threads that `malloc` gives, a first-in
-- first-out queue of ready threads, and switches by `_setjmp` and `_longjmp`.
pub mod Queue
pub mod Calls
pub mod Mutex
pub mod Places
pub mod Sound
pub mod Steps
pub mod Walk
pub mod Join
pub mod Leave
pub mod Locks
pub mod Run
pub mod Begin
pub mod End
pub mod Turns
pub mod Faults
use ein8_proj.Base.{ℕ, Option, Bool, List, ◌==◌, if◌then◌else◌}
use ein8_proj.Base.Int.{ℤ}

-- `state_t`
pub data Phase : Type 0 where
  is_ready is_running is_blocked is_finished : Phase

-- What a `jmp_buf` holds: where the thread goes on when it is jumped to, with the signal mask that
-- the call had saved.
pub data Env : Type 0 where
  env_init : Env  -- `_setjmp` in `init_system`
  env_start : Env  -- `_setjmp` in `thread_create`: the thread has not begun
  env_yield : (old : Bool) → Env
  env_join : (t : ℕ) → (old : Bool) → Env
  env_lock : (old : Bool) → Env

-- `thread_m`, less the Valgrind identifier and the link, which belongs to the queues
pub record Thread : Type 0 where
  pub env : Env
  pub stack : ℕ
  pub stack_size : ℕ
  pub retval : ℕ
  pub state : Phase
  pub waiting : ℕ
  pub joining : ℕ
  pub func : ℕ
  pub func_arg : ℕ

-- `thread_mutex_m`
pub record MutexOf (Queue : Type 0) : Type 0 where
  pub locked : ℕ
  pub waiting : Queue

-- The globals, the descriptors and mutexes by their addresses, the blocks that `malloc` gave and
-- nobody freed, and whether SIGALRM is blocked.
pub record Process (Queue : Type 0) : Type 0 where
  pub heap : ℕ → Thread
  pub blocks : List ℕ
  pub current : ℕ
  pub ready_queue : Queue
  pub mutexes : ℕ → MutexOf Queue
  pub masked : Bool

-- How a call ends, for the thread that is `current` in the new state: it goes on behind its own call,
-- it begins, the process ends, or a jump goes to a frame that is gone.
pub data Outcome (Queue : Type 0) : Type 0 where
  returned : (code : ℤ) → (value : Option ℕ) → Process Queue → Outcome Queue
  began : (func arg : ℕ) → Process Queue → Outcome Queue
  exited : (code : ℕ) → Process Queue → Outcome Queue
  undefined : Outcome Queue

abbrev pub write_thread : (ℕ → Thread) → ℕ → Thread → ℕ → Thread
write_thread h t v a = if a == t then v else h a

abbrev pub set_state : ℕ → Phase → (ℕ → Thread) → ℕ → Thread
set_state t p h = write_thread h t (record (h t) { state = p })

abbrev pub set_env : ℕ → Env → (ℕ → Thread) → ℕ → Thread
set_env t e h = write_thread h t (record (h t) { env = e })
