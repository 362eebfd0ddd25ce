-- ===== src/Early/Mutex.antt =====
-- The mutexes of options/src/thread.c.
use ein8_proj.Base.{ℕ, ◌==◌, if◌then◌else◌, none}
use ein8_proj.Base.Int.{pos}
use ein8_proj.Early.{
  is_running, is_blocked, env_lock, MutexOf, Process, Outcome, returned, set_state,
}
use ein8_proj.Early.Queue.{TailQueue, sched_enqueue_early, sched_dequeue_early}
use ein8_proj.Early.Calls.{block_sigvtalrm, restore_sigmask, switch_to}

module _ (Q : TailQueue) where
  open Q use {Queue, init, is_empty, first, insert_tail, remove_head}

  abbrev pub write_mutex : (ℕ → MutexOf Queue) → ℕ → MutexOf Queue → ℕ → MutexOf Queue
  write_mutex f m v a = if a == m then v else f a

  unfoldable pub mutex_init_early : (m : ℕ) → Process Queue → Outcome Queue
  mutex_init_early m s =
      returned (pos 0) none
        (record s { mutexes = write_mutex s.mutexes m (record { locked = 0; waiting = init }) })

  unfoldable pub mutex_destroy_early : (m : ℕ) → Process Queue → Outcome Queue
  mutex_destroy_early m s = returned (pos 0) none s

  -- A free mutex is taken, without `restore_sigmask`.
  unfoldable pub mutex_lock_early : (m : ℕ) → Process Queue → Outcome Queue
  mutex_lock_early m s =
      let k = s.mutexes m in
      let taken = record (block_sigvtalrm Q s) {
        mutexes = write_mutex s.mutexes m (record k { locked = 1 });
      } in
      let queued = record (block_sigvtalrm Q s) {
        heap = set_state s.current is_blocked s.heap;
        mutexes = write_mutex s.mutexes m (record k { waiting = insert_tail k.waiting s.current });
      } in
      let (next, rest) = sched_dequeue_early Q queued in
      if k.locked == 0
      then returned (pos 0) none taken
      else switch_to Q next (env_lock s.masked) rest

  -- A mutex for which nobody waits is freed, without `restore_sigmask`.
  unfoldable pub mutex_unlock_early : (m : ℕ) → Process Queue → Outcome Queue
  mutex_unlock_early m s =
      let k = s.mutexes m in
      let freed = record (block_sigvtalrm Q s) {
        mutexes = write_mutex s.mutexes m (record k { locked = 0 });
      } in
      let t = first k.waiting in
      let handed = sched_enqueue_early Q t (record (block_sigvtalrm Q s) {
        mutexes = write_mutex s.mutexes m (record k { waiting = remove_head k.waiting });
        heap = set_state t is_running s.heap;
      }) in
      if is_empty k.waiting
      then returned (pos 0) none freed
      else returned (pos 0) none (restore_sigmask Q s.masked handed)
