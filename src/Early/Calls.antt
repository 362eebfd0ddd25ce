-- ===== src/Early/Calls.antt =====
-- options/src/thread.c without its mutexes, in the build with preemption. What `malloc` gives is an
-- argument; timers are calls of the system.
use ein8_proj.Base.{
  ℕ, zero, suc, ◌==◌, if◌then◌else◌, Option, none, some, Bool, true, false, List, [], ◌∷◌,
}
use ein8_proj.Base.Int.{ℤ, pos, negsuc}
use ein8_proj.Early.{
  Phase, is_ready, is_running, is_blocked, is_finished, Env, env_init, env_start, env_yield,
  env_join, env_lock, Thread, Process, Outcome, returned, began, exited, undefined, write_thread,
  set_state, set_env,
}
use ein8_proj.Early.Queue.{
  TailQueue, sched_init_early, sched_enqueue_early, is_sched_empty_early, sched_dequeue_early,
}

abbrev pub stack_size_of : ℕ
stack_size_of = 65536

abbrev pub early_edeadlk : ℤ
early_edeadlk = pos 35

-- `free`: NULL is in no list of blocks.
unfoldable pub free_block : (a : ℕ) → List ℕ → List ℕ
free_block a [] = []
free_block a (b ∷ bs) = let rest = free_block a bs in if a == b then rest else b ∷ rest

abbrev pub is_end : Phase → Bool
is_end is_finished = true
is_end _ = false

module _ (Q : TailQueue) where
  open Q use {Queue}

  -- The mask that `block_sigvtalrm` saves is the `masked` of the state before.
  unfoldable pub block_sigvtalrm : Process Queue → Process Queue
  block_sigvtalrm s = record s { masked = true }

  unfoldable pub restore_sigmask : (old : Bool) → Process Queue → Process Queue
  restore_sigmask old s = record s { masked = old }

  -- The end of `thread_join`.
  unfoldable pub join_end : (t : ℕ) → (old : Bool) → Process Queue → Outcome Queue
  join_end t old s = returned (pos 0) (some (s.heap t).retval) (
      restore_sigmask old
        (record s { blocks = free_block t (free_block (s.heap t).stack s.blocks) }))

  -- `_longjmp` to the buffer of the thread that runs now. `thread_start` unblocks the signal.
  unfoldable pub jump : Env → Process Queue → Outcome Queue
  jump env_init s = undefined
  jump env_start s =
      began (s.heap s.current).func (s.heap s.current).func_arg (record s { masked = false })
  jump (env_yield old) s = returned (pos 0) none (restore_sigmask old s)
  jump (env_join t old) s = join_end t old s
  jump (env_lock old) s = returned (pos 0) none (restore_sigmask old s)

  unfoldable pub longjmp : Process Queue → Outcome Queue
  longjmp s = jump (s.heap s.current).env s

  -- `next->state = RUNNING; current = next;` and the jump, from a thread whose `_setjmp` is `env`.
  unfoldable pub switch_to : (next : ℕ) → Env → Process Queue → Outcome Queue
  switch_to next env s =
      let h = set_state next is_running s.heap in
      longjmp (record s { heap = set_env s.current env h; current = next })

  -- `init_system`, on the descriptor that `malloc` gave; 0 leads to `exit(1)`.
  unfoldable pub init_system_early : (main : ℕ) → Process Queue → Option (Process Queue)
  init_system_early main s =
      let s = sched_init_early Q s in
      let t : Thread = record {
        env = env_init;
        stack = 0;
        stack_size = 0;
        retval = 0;
        state = is_running;
        waiting = 0;
        joining = 0;
        func = (s.heap main).func;
        func_arg = (s.heap main).func_arg;
      } in
      if main == 0
      then none
      else some
          (record s { heap = write_thread s.heap main t; blocks = main ∷ s.blocks; current = main })

  -- `thread_create` behind `init_system`, on the two blocks that `malloc` gave.
  unfoldable pub thread_create_early : (t stack func arg : ℕ) → Process Queue → Outcome Queue
  thread_create_early t stack func arg s =
      let new : Thread = record {
        env = env_start;
        stack = stack;
        stack_size = stack_size_of;
        retval = 0;
        state = is_ready;
        waiting = 0;
        joining = 0;
        func = func;
        func_arg = arg;
      } in
      let made = record s { heap = write_thread s.heap t new; blocks = t ∷ stack ∷ s.blocks } in
      if t == 0
      then returned (negsuc 0) none s
      else if stack == 0
      then returned (negsuc 0) none s
      else returned (pos 0) (some t) (sched_enqueue_early Q t made)

  -- `thread_yield` behind `init_system`
  unfoldable pub thread_yield_early : Process Queue → Outcome Queue
  thread_yield_early s =
      let prev = s.current in
      let queued =
        sched_enqueue_early Q prev
          (record (block_sigvtalrm s) { heap = set_state prev is_ready s.heap }) in
      let (next, rest) = sched_dequeue_early Q queued in
      if is_sched_empty_early Q s
      then returned (pos 0) none s
      else switch_to next (env_yield s.masked) rest

  -- `for (p = t; p != NULL; p = p->joining) if (p == current)`: whether the walk meets `current`;
  -- `none` when the fuel is used up.
  unfoldable pub meets : (fuel p : ℕ) → Process Queue → Option Bool
  meets zero p s = none
  meets (suc fuel) p s =
      let rest = meets fuel (s.heap p).joining s in
      if p == 0 then some false else if p == s.current then some true else rest

  unfoldable pub set_joining : (t : ℕ) → Process Queue → Process Queue
  set_joining t s = record s {
    heap = write_thread s.heap s.current (record (s.heap s.current) { joining = t });
  }

  -- The joiner waits.
  unfoldable pub join_wait_early : (t : ℕ) → (old : Bool) → Process Queue → Outcome Queue
  join_wait_early t old s =
      let h = write_thread s.heap t (record (s.heap t) { waiting = s.current }) in
      let (next, rest) =
        sched_dequeue_early Q (record s { heap = set_state s.current is_blocked h }) in
      if next == 0
      then returned (negsuc 0) none (restore_sigmask old rest)
      else switch_to next (env_join t old) rest

  unfoldable pub join_met :
      (t : ℕ) → (old : Bool) → Process Queue → Option Bool → Option (Outcome Queue)
  join_met t old s none = none
  join_met t old s (some true) = some (returned early_edeadlk none (restore_sigmask old s))
  join_met t old s (some false) = some (join_wait_early t old s)

  -- `none` when the fuel of the walk is used up.
  unfoldable pub thread_join_early : (fuel t : ℕ) → Process Queue → Option (Outcome Queue)
  thread_join_early fuel t s =
      let old = s.masked in
      let s = set_joining t (block_sigvtalrm s) in
      if is_end (s.heap t).state then some (join_end t old s) else join_met t old s (meets fuel t s)

  -- The joiner of a thread that ends becomes ready.
  unfoldable pub wake_joiner : (j : ℕ) → Process Queue → Process Queue
  wake_joiner j s =
      if j == 0
      then s
      else sched_enqueue_early Q j (record s { heap = set_state j is_ready s.heap })

  -- `clean_exit`: the last thread frees itself and ends the process.
  unfoldable pub clean_exit_early : Process Queue → Outcome Queue
  clean_exit_early s = exited 0 (record s {
    blocks = free_block s.current (free_block (s.heap s.current).stack s.blocks);
    current = 0;
  })

  -- A thread that has ended does not save where it is.
  unfoldable pub exit_to : (next : ℕ) → Process Queue → Outcome Queue
  exit_to next s = longjmp (record s { heap = set_state next is_running s.heap; current = next })

  unfoldable pub thread_exit_early : (value : ℕ) → Process Queue → Outcome Queue
  thread_exit_early value s =
      let me = s.current in
      let ended = record (block_sigvtalrm s) {
        heap = write_thread s.heap me (record (s.heap me) { retval = value; state = is_finished });
      } in
      let s' = wake_joiner (s.heap me).waiting ended in
      let (next, rest) = sched_dequeue_early Q s' in
      if is_sched_empty_early Q s' then clean_exit_early s' else exit_to next rest

  -- The test of `current` at the start of `thread_create` and `thread_yield`: the first call starts the
  -- library, on the descriptor `main` that `malloc` gave.
  unfoldable pub begin_call :
      (Process Queue → Outcome Queue) → Process Queue → Option (Process Queue) → Outcome Queue
  begin_call call s none = exited 1 s
  begin_call call s (some s') = call s'

  unfoldable pub start_call :
      (main : ℕ) → (Process Queue → Outcome Queue) → Process Queue → Outcome Queue
  start_call main call s =
      let started = begin_call call s (init_system_early main s) in
      if s.current == 0 then started else call s

  -- `thread_create` as a whole
  unfoldable pub thread_create_first : (main t stack func arg : ℕ) → Process Queue → Outcome Queue
  thread_create_first main t stack func arg =
      start_call main (λ s. thread_create_early t stack func arg s)

  -- `thread_yield` as a whole
  unfoldable pub thread_yield_first : (main : ℕ) → Process Queue → Outcome Queue
  thread_yield_first main = start_call main (λ s. thread_yield_early s)

  -- `thread_self`
  unfoldable pub thread_self_early : (main : ℕ) → Process Queue → Outcome Queue
  thread_self_early main = start_call main (λ s. returned (pos 0) (some s.current) s)
