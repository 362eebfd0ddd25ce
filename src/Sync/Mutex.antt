-- ===== src/Sync/Mutex.antt =====
-- Mutexes of src/thread_sync.c.
use ein8_proj.Base.{
  ℕ, ◌≡◌, ◌≢◌, refl, List, [], ◌∷◌, ◌++◌, arith, ◌==◌, ==_ne, if◌then◌else◌, true, false, ◌⊎◌, inl,
  inr,
}
use ein8_proj.Base.Int.{ℤ, pos, negsuc}
use ein8_proj.Sched.{Slab, sched_enqueue, sched_remove, sched_pick_next, is_sched_empty, set_rsp}
use ein8_proj.Sched.Ops.{is_sched_empty_busy}
use ein8_proj.Sched.Replace.{sched_pick_next-last}
use ein8_proj.Sched.Frame.{sched_remove-rsp}
use ein8_proj.WaitQueue.{Ends, wq_append, wq_pop}
use ein8_proj.WaitQueue.Fifo.{wq_append-rsp, wq_pop-nil}
use ein8_proj.Mono.{State, Outcome, returned, switched, crashed, context_switch}
use ein8_proj.Sync.Parked.{Parked, Blocked, Parked-block, Parked-wake, Parked-frame}

-- `mutex_internal_t`
pub record Mutex : Type 0 where
  pub locked : ℕ
  pub queue : Ends

pub thread_mutex_init : Mutex → ℤ × Mutex
thread_mutex_init m = (pos 0, record { locked = 0; queue = record { head = 0; tail = 0 } })

pub thread_mutex_destroy : Mutex → ℤ × Mutex
thread_mutex_destroy m = (pos 0, m)

-- `sp` is the stack pointer that the switch saves. A thread that is woken later returns 0.
pub thread_mutex_lock : (sp : ℕ) → Mutex → State → Mutex × Outcome
thread_mutex_lock sp m s =
    if m.locked == 0
    then (record m { locked = 1 }, returned (pos 0) s)
    else if is_sched_empty s.current s.hot
    then (m, returned (negsuc 0) s)
    else let me = s.current in
      let next = sched_pick_next s.current s.hot in
      let h = sched_remove s.current s.hot in
      let (q, h) = wq_append m.queue me h in
      (record m { queue = q }, context_switch sp me next (record s { hot = h; current = next }))

pub thread_mutex_unlock : Mutex → State → Mutex × Outcome
thread_mutex_unlock m s =
    let (w, q) = wq_pop m.queue s.hot in
    if w == 0 then (record m { locked = 0; queue = q }, returned (pos 0) s) else (
      record m { queue = q },
      returned (pos 0) (record s { hot = sched_enqueue s.current w s.hot }),
    )

-- `thread_mutex_lock` on a locked mutex, while another thread is ready whose stack exists, parks the
-- caller behind the threads that wait already, elects the last of the list, and leaves the mutex
-- locked.
pub thread_mutex_lock-Blocked :
    (sp : ℕ) (m : Mutex) (s : State) (l : ℕ) (xs ws : List ℕ)
    → m.locked ≢ 0
    → Parked s.hot s.current (xs ++ l ∷ []) m.queue ws
    → (s.hot l).rsp ≢ 0
    → (m' : Mutex) × (s' : State) × (thread_mutex_lock sp m s ≡ (m', switched s'))
      × (m'.locked ≡ m.locked)
      × Blocked sp s l xs ws m'.queue s'
unfolding thread_mutex_lock context_switch
thread_mutex_lock-Blocked sp m s l xs ws taken p stack =
    let g = sched_remove s.current s.hot in
    let r = wq_append m.queue s.current g in
    let e : sched_pick_next s.current s.hot ≡ l =
      sched_pick_next-last s.hot s.current l xs p.ring in
    let has_stack : ((r.1 (sched_pick_next s.current s.hot)).rsp == 0) ≡ false =
      ground (arith, e, wq_append-rsp m.queue s.current g l, sched_remove-rsp s.current s.hot l) in
    (
      record m { queue = r.0 },
      record s { hot = set_rsp s.current sp r.1; current = sched_pick_next s.current s.hot },
      rw (==_ne m.locked 0 taken, is_sched_empty_busy s.hot s.current l xs p.ring, has_stack) refl,
      refl,
      record {
        elected = e;
        lists =
            Parked-frame r.1 (set_rsp s.current sp r.1) l xs r.0 (ws ++ s.current ∷ [])
              (Parked-block s.hot s.current l xs m.queue ws p) (λ a. ground arith);
        saved = ground arith;
      },
    )

-- The same call where the elected thread has never run: it has no stack yet, and the switch crashes,
-- for `thread_mutex_lock` calls no `lazy_stack_alloc`.
pub thread_mutex_lock-crashed :
    (sp : ℕ) (m : Mutex) (s : State) (l : ℕ) (xs ws : List ℕ)
    → m.locked ≢ 0
    → Parked s.hot s.current (xs ++ l ∷ []) m.queue ws
    → (s.hot l).rsp ≡ 0
    → (thread_mutex_lock sp m s).1 ≡ crashed
unfolding thread_mutex_lock context_switch
thread_mutex_lock-crashed sp m s l xs ws taken p none =
    let g = sched_remove s.current s.hot in
    let r = wq_append m.queue s.current g in
    let e : sched_pick_next s.current s.hot ≡ l =
      sched_pick_next-last s.hot s.current l xs p.ring in
    let no_stack : ((r.1 (sched_pick_next s.current s.hot)).rsp == 0) ≡ true =
      ground (arith, e, wq_append-rsp m.queue s.current g l, sched_remove-rsp s.current s.hot l) in
    rw (==_ne m.locked 0 taken, is_sched_empty_busy s.hot s.current l xs p.ring, no_stack) refl

-- `thread_mutex_lock` returns without a switch in two cases: a free mutex is taken, and with nobody
-- else ready a locked one gives -1 and changes nothing.
pub thread_mutex_lock_at_once :
    (sp : ℕ) (m : Mutex) (s : State)
    → (m.locked ≡ 0) ⊎ (is_sched_empty s.current s.hot ≡ true)
    → thread_mutex_lock sp m s ≡ (
        if m.locked == 0
        then (record m { locked = 1 }, returned (pos 0) s)
        else (m, returned (negsuc 0) s))
unfolding thread_mutex_lock
thread_mutex_lock_at_once sp m s (inl e) = rw e refl
thread_mutex_lock_at_once sp m s (inr e) = rw e refl

-- `thread_mutex_unlock` with threads waiting: the oldest becomes ready, last in the list, and the
-- mutex stays as it is, so that it passes to that thread.
pub thread_mutex_unlock-wake :
    (m : Mutex) (s : State) (w : ℕ) (xs ws : List ℕ)
    → Parked s.hot s.current xs m.queue (w ∷ ws)
    → (q : Ends) × (h : Slab) × (thread_mutex_unlock m s
        ≡ (record m { queue = q }, returned (pos 0) (record s { hot = h })))
      × Parked h s.current (xs ++ w ∷ []) q ws
unfolding thread_mutex_unlock
thread_mutex_unlock-wake m s w xs ws p =
    let (e, lists) = Parked-wake s.hot s.current w xs m.queue ws p in
    let woken : ((wq_pop m.queue s.hot).0 == 0) ≡ false = ground (arith, p.queue.linked) in
    ((wq_pop m.queue s.hot).1, sched_enqueue s.current w s.hot, rw (woken, e) refl, lists)

-- `thread_mutex_unlock` with nobody waiting frees the mutex, and changes no list.
pub thread_mutex_unlock-free :
    (m : Mutex) (s : State) (xs : List ℕ)
    → Parked s.hot s.current xs m.queue []
    → thread_mutex_unlock m s ≡ (record m { locked = 0 }, returned (pos 0) s)
unfolding thread_mutex_unlock
thread_mutex_unlock-free m s xs p = rw (wq_pop-nil s.hot m.queue p.queue) refl
