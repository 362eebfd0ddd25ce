-- ===== src/Mono.antt =====
-- src/thread.c and src/context_switch.S, single-core build without FP, USE_PREEMPTION and
-- USE_PRIORITY: the global state, and how a call ends. `THREAD_COLD` keeps the index, so one pointer
-- names both halves of a descriptor.
pub mod Memory
pub mod Switch
use ein8_proj.Base.{Option, none, some, ℕ, ◌==◌, if◌then◌else◌}
use ein8_proj.Base.Int.{ℤ}
use ein8_proj.Sched.{Slab, set_rsp}
use ein8_proj.Cold.{Cold}

-- The globals of thread.c. `mem` is the words of the stack arena, by address; `thread_trampoline` is
-- the address of that routine.
pub record State : Type 0 where
  pub hot : Slab
  pub cold : ℕ → Cold
  pub mem : ℕ → ℕ
  pub current : ℕ
  pub last_created : ℕ
  pub last_created_func : ℕ
  pub last_created_arg : ℕ
  pub inline_executing : ℕ
  pub stack_arena : ℕ
  pub stack_arena_next : ℕ
  pub stack_free_head : ℕ
  pub pending_dead_stack : ℕ
  pub thread_slab_next : ℕ
  pub thread_free_head : ℕ
  pub stack_color_counter : ℕ
  pub thread_trampoline : ℕ

-- How a call of the library ends.
pub data Outcome : Type 0 where
  returned : (code : ℤ) → State → Outcome  -- the caller goes on
  switched : State → Outcome  -- the thread `current` of the new state goes on
  jumped : (jmpbuf : ℕ) → State → Outcome  -- `_longjmp`
  exited : State → Outcome  -- on the exit stack, to `clean_exit`
  aborted : Outcome  -- `abort()`
  crashed : Outcome  -- a switch to a stack pointer that is NULL

abbrev pub write_cold : (ℕ → Cold) → ℕ → Cold → ℕ → Cold
write_cold f p c a = if a == p then c else f a

abbrev pub write_word : (ℕ → ℕ) → ℕ → ℕ → ℕ → ℕ
write_word f p v a = if a == p then v else f a

-- `if (pointer) *pointer = value;`: what is stored, if anything.
abbrev pub stored : (pointer value : ℕ) → Option ℕ
stored pointer value = if pointer == 0 then none else some value

-- `context_switch(&prev->rsp, next->rsp)`, where `sp` is the stack pointer that it saves.
unfoldable pub context_switch : (sp prev next : ℕ) → State → Outcome
context_switch sp prev next s =
    if (s.hot next).rsp == 0 then crashed else switched (record s { hot = set_rsp prev sp s.hot })

-- `context_restore(next->rsp)`: nothing is saved.
unfoldable pub context_restore : (next : ℕ) → State → Outcome
context_restore next s = if (s.hot next).rsp == 0 then crashed else switched s
