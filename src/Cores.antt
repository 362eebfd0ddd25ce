-- ===== src/Cores.antt =====
-- The workers of the multicore build: the state of src/thread_mn.c, and the switches of
-- src/scheduler_mn.c between a thread and the scheduler of its worker. A call is a step of its own, up
-- to a spinlock that another worker holds.
pub mod Memory
pub mod Join
pub mod Create
pub mod Exit
pub mod Park
pub mod Leave
pub mod Handshake
use ein8_proj.Base.{ℕ, ◌+◌, ◌==◌, if◌then◌else◌, Option, none, some, Bool, true, false}
use ein8_proj.Base.Int.{ℤ, pos}
use ein8_proj.Sched.{set_rsp}
use ein8_proj.Cold.{Cold}
use ein8_proj.Mono.{write_cold}
use ein8_proj.Balance.{Runqs, runq_push, schedule_push_balance_cb}

-- `after_switch` with `after_arg`
pub data After : Type 0 where
  no_callback : After
  push_balance : (t : ℕ) → After  -- schedule_push_balance_cb
  unlock_cold : (t : ℕ) → After  -- unlock_cold_cb
  wake_waiter : (t : ℕ) → After  -- exit_wake_waiter_cb

-- `worker_t`, with the caches of `src/thread_mn.c` that each worker has
pub record Worker : Type 0 where
  pub current : ℕ
  pub last_created : ℕ
  pub last_created_func : ℕ
  pub last_created_arg : ℕ
  pub inline_executing : ℕ
  pub after : After
  pub t_cache_head : ℕ
  pub t_cache_count : ℕ
  pub s_cache_head : ℕ
  pub s_cache_count : ℕ

pub record Cores : Type 0 where
  pub runqs : Runqs
  pub cold : ℕ → Cold
  pub cold_lock : ℕ → Bool
  pub mem : ℕ → ℕ
  pub worker : ℕ → Worker
  pub alive_count : ℕ
  pub thread_free_head : ℕ
  pub stack_free_head : ℕ
  pub thread_slab_next : ℕ

abbrev pub write_worker : (ℕ → Worker) → ℕ → Worker → ℕ → Worker
write_worker f i w a = if a == i then w else f a

abbrev pub write_lock : (ℕ → Bool) → ℕ → Bool → ℕ → Bool
write_lock f t b a = if a == t then b else f a

-- How a call ends.
pub data Ending : Type 0 where
  returns : (value : Option ℕ) → (code : ℤ) → Cores → Ending
  to_scheduler : Cores → Ending  -- the worker goes on in `worker_loop`
  spins : Cores → Ending  -- at a lock that another worker holds
  jumps : (buffer : ℕ) → Cores → Ending
  exits : Cores → Ending  -- the process ends
  aborts : Ending

-- `runq_push`, less the signal to an idle worker; `none` is `abort()`.
unfoldable pub pushed_state : Cores → Option (Option ℕ × Runqs) → Option Cores
pushed_state s none = none
pushed_state s (some (signal, r)) = some (record s { runqs = r })

-- The thread created last, not yet published, goes to the deque of the worker.
unfoldable pub flush_last_created_mn : (self : ℕ) → Cores → Option Cores
flush_last_created_mn self s =
    let w = s.worker self in
    let t = w.last_created in
    let flushed = record s {
      cold =
          write_cold s.cold t
            (record (s.cold t) { func = w.last_created_func; func_arg = w.last_created_arg });
      worker = write_worker s.worker self (record w { last_created = 0 });
    } in
    if t == 0 then some s else pushed_state flushed (runq_push self t flushed.runqs)

-- `schedule_park`: the frame of the running thread is saved, and the callback noted.
unfoldable pub schedule_park : (self rsp : ℕ) → After → Cores → Cores
schedule_park self rsp cb s =
    let w = s.worker self in
    record s {
      runqs = record s.runqs { hot = set_rsp w.current rsp s.runqs.hot };
      worker = write_worker s.worker self (record w { current = 0; after = cb });
    }

unfoldable pub schedule : (self rsp : ℕ) → Cores → Cores
schedule self rsp s = schedule_park self rsp (push_balance (s.worker self).current) s

unfoldable pub schedule_exit : (self : ℕ) → Cores → Cores
schedule_exit self s = record s {
  worker = write_worker s.worker self (record (s.worker self) { current = 0 });
}

unfoldable pub run_callback : (self : ℕ) → After → Cores → Option Cores
run_callback self no_callback s = some s
run_callback self (push_balance t) s = pushed_state s (schedule_push_balance_cb self t s.runqs)
run_callback self (unlock_cold t) s = some (record s { cold_lock = write_lock s.cold_lock t false })
run_callback self (wake_waiter t) s = pushed_state s (runq_push self t s.runqs)

-- The first part of a round of `worker_loop`: the callback that the last thread left behind.
unfoldable pub run_after : (self : ℕ) → Cores → Option Cores
run_after self s =
    let w = s.worker self in
    run_callback self w.after
      (record s { worker = write_worker s.worker self (record w { after = no_callback }) })

-- `thread_yield` on a worker, in the build without preemption.
unfoldable pub yield_end : (self rsp : ℕ) → Option Cores → Ending
yield_end self rsp none = aborts
yield_end self rsp (some s) = to_scheduler (schedule self rsp s)

unfoldable pub thread_yield_mn : (self rsp : ℕ) → Cores → Ending
thread_yield_mn self rsp s =
    if (s.worker self).inline_executing == 0
    then yield_end self rsp (flush_last_created_mn self s)
    else returns none (pos 0) s
