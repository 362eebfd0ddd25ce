-- ===== src/Examples/Locks.antt =====
-- Mutexes, semaphores and signals, on concrete states.
use ein8_proj.Base.{ℕ, ◌-◌, ◌^◌, ◌≡◌, ◌≢◌, refl, [], ◌∷◌, ◌++◌, arith, bit_and}
use ein8_proj.Base.Int.{negsuc, pos, suc_ℤ}
use ein8_proj.Examples.{
  Parked-with, Ring-with, alone-Ring, empty_queue, hot_alone, hot_with, s0, waiting_queue,
}
use ein8_proj.Mono.{State, crashed, returned, stored, switched}
use ein8_proj.Sched.{Slab}
use ein8_proj.Sched.Ops.{is_sched_empty_iff}
use ein8_proj.Sched.Ring.{Ring}
use ein8_proj.Sync.Mutex.{
  Mutex, thread_mutex_lock, thread_mutex_lock-Blocked, thread_mutex_lock-crashed,
  thread_mutex_unlock, thread_mutex_unlock-wake,
}
use ein8_proj.Sync.Parked.{Blocked, Parked}
use ein8_proj.Sync.Semaphore.{
  Counts, Semaphore, thread_sem_post, thread_sem_post-wake, thread_sem_wait, thread_sem_wait_alone,
}
use ein8_proj.Sync.Signal.{thread_kill, thread_kill-wake, thread_sigwait_resume}
use ein8_proj.WaitQueue.{Ends}

abbrev held : Mutex
held = record { locked = 1; queue = waiting_queue }

abbrev waited : Semaphore
waited = record { count = negsuc 1; queue = waiting_queue }

abbrev unused : Semaphore
unused = record { count = pos 0; queue = empty_queue }

abbrev s_new : State
s_new = record s0 { hot = hot_with 0 }

abbrev s_alone : State
s_alone = record s0 { hot = hot_alone }

thread_mutex_lock-Blocked_example :
    (m' : Mutex) × (s' : State) × (thread_mutex_lock 500 held s0 ≡ (m', switched s'))
    × (m'.locked ≡ held.locked)
    × Blocked 500 s0 3 (2 ∷ []) (4 ∷ 5 ∷ []) m'.queue s'
thread_mutex_lock-Blocked_example =
    thread_mutex_lock-Blocked 500 held s0 3 (2 ∷ []) (4 ∷ 5 ∷ []) (omega arith) (Parked-with 140000)
      (omega arith)

thread_mutex_lock-crashed_example : (thread_mutex_lock 500 held s_new).1 ≡ crashed
thread_mutex_lock-crashed_example =
    thread_mutex_lock-crashed 500 held s_new 3 (2 ∷ []) (4 ∷ 5 ∷ []) (omega arith) (Parked-with 0)
      refl

thread_mutex_unlock-wake_example :
    (q : Ends) × (h : Slab) × (thread_mutex_unlock held s0
      ≡ (record held { queue = q }, returned (pos 0) (record s0 { hot = h })))
    × Parked h s0.current ((2 ∷ 3 ∷ []) ++ 4 ∷ []) q (5 ∷ [])
thread_mutex_unlock-wake_example =
    thread_mutex_unlock-wake held s0 4 (2 ∷ 3 ∷ []) (5 ∷ []) (Parked-with 140000)

thread_sem_wait_alone_example :
    (sem' : Semaphore) × (thread_sem_wait 500 unused s_alone ≡ (sem', returned (negsuc 0) s_alone))
    × (sem'.queue ≡ unused.queue)
    × (suc_ℤ sem'.count ≡ unused.count)
    × ((t : ℕ) → Counts sem'.count (([]) ++ t ∷ []))
    × ¬ Counts sem'.count ([])
thread_sem_wait_alone_example =
    thread_sem_wait_alone 500 unused s_alone ([]) refl refl
      ((is_sched_empty_iff hot_alone 1 [] alone-Ring).1 refl)

thread_sem_post-wake_example :
    (sem' : Semaphore) × (h : Slab) × (thread_sem_post waited s0
      ≡ (sem', returned (pos 0) (record s0 { hot = h })))
    × Counts sem'.count (5 ∷ [])
    × Parked h s0.current ((2 ∷ 3 ∷ []) ++ 4 ∷ []) sem'.queue (5 ∷ [])
thread_sem_post-wake_example =
    thread_sem_post-wake waited s0 4 (2 ∷ 3 ∷ []) (5 ∷ []) refl (Parked-with 140000)

thread_kill-wake_example :
    (s' : State) × (thread_kill 6 (pos 3) s0 ≡ returned (pos 0) s')
    × Ring s'.hot s0.current ((2 ∷ 3 ∷ []) ++ 6 ∷ [])
    × ((s'.cold 6).sig_waiting ≡ 0)
    × ((s'.cold 6).pending_sigs ≡ bit_and (s0.cold 6).pending_sigs (255 - 2 ^ 3))
    × (thread_sigwait_resume 6 77 s' ≡ (stored 77 3, returned (pos 0) s'))
    × ((a : ℕ) → a ≢ 6 → s'.cold a ≡ s0.cold a)
thread_kill-wake_example =
    thread_kill-wake 6 3 77 s0 (2 ∷ 3 ∷ []) (omega arith) (omega arith) (omega arith) (omega arith)
      refl (Ring-with 140000) refl (omega arith)
