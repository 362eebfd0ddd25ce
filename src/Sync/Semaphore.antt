-- ===== src/Sync/Semaphore.antt =====
-- Counting semaphores of src/thread_sync.c. The count is an `int`, taken as an integer without bound.
use ein8_proj.Base.{
  ℕ, zero, suc, ◌≡◌, refl, List, [], ◌∷◌, ◌++◌, arith, ◌==◌, if◌then◌else◌, ◌⊎◌, inl, inr, length,
  length-append, ap, ◌∙◌, true, false,
}
use ein8_proj.Base.Int.{ℤ, pos, negsuc, pred_ℤ, suc_ℤ, is_nonneg, is_nonpos}
use ein8_proj.Sched.{Slab, sched_enqueue, sched_remove, sched_pick_next, is_sched_empty}
use ein8_proj.Sched.Ops.{is_sched_empty_busy}
use ein8_proj.Sched.Replace.{sched_pick_next-last}
use ein8_proj.WaitQueue.{Ends, wq_append, wq_pop}
use ein8_proj.Mono.{State, Outcome, returned, switched, aborted}
use ein8_proj.Mono.Switch.{switch_lazy}
use ein8_proj.Mono.Switch.Stacked.{IsExhausted, switch_lazy-Switched}
use ein8_proj.Sync.Parked.{Parked, Blocked, Parked-block, Parked-wake, Parked-frame}

-- `sem_internal_t`
pub record Semaphore : Type 0 where
  pub count : ℤ
  pub queue : Ends

pub thread_sem_init : Semaphore → ℤ → ℤ × Semaphore
thread_sem_init sem value = (pos 0, record { count = value; queue = record { head = 0; tail = 0 } })

pub thread_sem_destroy : Semaphore → ℤ × Semaphore
thread_sem_destroy sem = (pos 0, sem)

-- A thread that is woken later returns 0.
pub thread_sem_wait : (sp : ℕ) → Semaphore → State → Semaphore × Outcome
thread_sem_wait sp sem s =
    let sem = record sem { count = pred_ℤ sem.count } in
    if is_nonneg sem.count
    then (sem, returned (pos 0) s)
    else if is_sched_empty s.current s.hot
    then (sem, returned (negsuc 0) s)
    else let me = s.current in
      let next = sched_pick_next s.current s.hot in
      let h = sched_remove s.current s.hot in
      let (q, h) = wq_append sem.queue me h in
      (record sem { queue = q }, switch_lazy sp me next (record s { hot = h; current = next }))

pub thread_sem_post : Semaphore → State → Semaphore × Outcome
thread_sem_post sem s =
    let sem = record sem { count = suc_ℤ sem.count } in
    let (w, q) = if is_nonpos sem.count then wq_pop sem.queue s.hot else (0, sem.queue) in
    (
      record sem { queue = q },
      returned (pos 0) (if w == 0 then s else record s { hot = sched_enqueue s.current w s.hot }),
    )

-- The count below zero is the number of threads in the queue.
abbrev pub Counts : ℤ → List ℕ → Type 0
Counts (pos n) ws = ws ≡ []
Counts (negsuc n) ws = length ws ≡ suc n

pred-is_nonneg : (n : ℤ) → is_nonpos n ≡ true → is_nonneg (pred_ℤ n) ≡ false
unfolding pred_ℤ
pred-is_nonneg (pos zero) h = refl
pred-is_nonneg (pos (suc n)) h = cc
pred-is_nonneg (negsuc n) h = refl

Counts-pred :
    (n : ℤ) (ws : List ℕ) (t : ℕ)
    → is_nonpos n ≡ true
    → Counts n ws
    → Counts (pred_ℤ n) (ws ++ t ∷ [])
unfolding pred_ℤ
Counts-pred (pos zero) ws t h c = rw c refl
Counts-pred (pos (suc n)) ws t h c = cc
Counts-pred (negsuc n) ws t h c = omega (arith, length-append ws (t ∷ []))

Counts-pred_not : (n : ℤ) (ws : List ℕ) → is_nonpos n ≡ true → Counts n ws → ¬ Counts (pred_ℤ n) ws
unfolding pred_ℤ
Counts-pred_not (pos zero) ws h c c' = absurd (omega (arith, ap (λ (l : List ℕ). length l) c))
Counts-pred_not (pos (suc n)) ws h c c' = cc
Counts-pred_not (negsuc n) ws h c c' = absurd (omega arith)

Counts-suc :
    (n : ℤ) (w : ℕ) (ws : List ℕ)
    → Counts n (w ∷ ws)
    → (is_nonpos (suc_ℤ n) ≡ true) × Counts (suc_ℤ n) ws
unfolding suc_ℤ
Counts-suc (pos n) w ws c = absurd (omega (arith, ap (λ (l : List ℕ). length l) c))
Counts-suc (negsuc zero) w [] c = (refl, refl)
Counts-suc (negsuc zero) w (x ∷ ws) c = absurd (omega arith)
Counts-suc (negsuc (suc n)) w ws c = (refl, omega arith)

Counts-suc_nil : (n : ℤ) → Counts n [] → (is_nonpos (suc_ℤ n) ≡ false) × Counts (suc_ℤ n) []
unfolding suc_ℤ
Counts-suc_nil (pos n) c = (refl, refl)
Counts-suc_nil (negsuc n) c = absurd (omega arith)

-- The queue and the slab when the caller has left the ready list for the queue.
parked_ends : Semaphore → State → Ends × Slab
parked_ends sem s = wq_append sem.queue s.current (sched_remove s.current s.hot)

thread_sem_wait_parks :
    (sp : ℕ) (sem : Semaphore) (s : State)
    → is_nonpos sem.count ≡ true
    → is_sched_empty s.current s.hot ≡ false
    → thread_sem_wait sp sem s ≡ (
      record { count = pred_ℤ sem.count; queue = (parked_ends sem s).0 },
      switch_lazy sp s.current
          (sched_pick_next s.current s.hot)
          (record s { hot = (parked_ends sem s).1; current = sched_pick_next s.current s.hot }),
    )
unfolding thread_sem_wait parked_ends
thread_sem_wait_parks sp sem s low busy = rw (pred-is_nonneg sem.count low, busy) refl

-- `thread_sem_wait` on a count that is not positive, while another thread is ready: the caller waits
-- behind the others, the count goes down with it, and the last of the list is elected, unless no
-- stack is left for that thread.
pub thread_sem_wait-Blocked :
    (sp : ℕ) (sem : Semaphore) (s : State) (l : ℕ) (xs ws : List ℕ)
    → is_nonpos sem.count ≡ true
    → Counts sem.count ws
    → Parked s.hot s.current (xs ++ l ∷ []) sem.queue ws
    → (IsExhausted s × ((thread_sem_wait sp sem s).1 ≡ aborted))
      ⊎ ((sem' : Semaphore) × (s' : State) × (thread_sem_wait sp sem s ≡ (sem', switched s'))
          × Counts sem'.count (ws ++ s.current ∷ [])
          × Blocked sp s l xs ws sem'.queue s')
unfolding parked_ends
thread_sem_wait-Blocked sp sem s l xs ws low counts p =
    elim (switch_lazy-Switched sp s.current (sched_pick_next s.current s.hot) after) [
      | inl (full, e) ↦ inl (full, rw parks e)
      | inr (s', e, sw) ↦ inr (
        record { count = pred_ℤ sem.count; queue = (parked_ends sem s).0 },
        s',
        rw (parks, e) refl,
        Counts-pred sem.count ws s.current low counts,
        record {
          elected = sw.current ∙ sched_pick_next-last s.hot s.current l xs p.ring;
          lists =
              Parked-frame after.hot s'.hot l xs (parked_ends sem s).0 (ws ++ s.current ∷ [])
                (Parked-block s.hot s.current l xs sem.queue ws p) sw.links;
          saved = sw.saved;
        },
      )
    ]
  where
    after : State
    after = record s { hot = (parked_ends sem s).1; current = sched_pick_next s.current s.hot }

    parks : thread_sem_wait sp sem s ≡ (
      record { count = pred_ℤ sem.count; queue = (parked_ends sem s).0 },
      switch_lazy sp s.current (sched_pick_next s.current s.hot) after,
    )
    parks = thread_sem_wait_parks sp sem s low (is_sched_empty_busy s.hot s.current l xs p.ring)

-- `thread_sem_wait` on a positive count takes one unit and returns 0; no list changes.
pub thread_sem_wait-pos :
    (sp n : ℕ) (q : Ends) (s : State)
    → thread_sem_wait sp (record { count = pos (suc n); queue = q }) s
      ≡ (record { count = pos n; queue = q }, returned (pos 0) s)
unfolding thread_sem_wait pred_ℤ
thread_sem_wait-pos sp n q s = refl

suc-pred_ℤ : (n : ℤ) → is_nonpos n ≡ true → suc_ℤ (pred_ℤ n) ≡ n
unfolding suc_ℤ pred_ℤ
suc-pred_ℤ (pos zero) low = refl
suc-pred_ℤ (pos (suc n)) low = cc
suc-pred_ℤ (negsuc n) low = refl

-- `thread_sem_wait` when nobody else is ready returns -1, but the count is lowered by one although no
-- thread entered the queue: it tells one waiting thread more than there are.
pub thread_sem_wait_alone :
    (sp : ℕ) (sem : Semaphore) (s : State) (ws : List ℕ)
    → is_nonpos sem.count ≡ true
    → Counts sem.count ws
    → is_sched_empty s.current s.hot ≡ true
    → (sem' : Semaphore) × (thread_sem_wait sp sem s ≡ (sem', returned (negsuc 0) s))
      × (sem'.queue ≡ sem.queue)
      × (suc_ℤ sem'.count ≡ sem.count)
      × ((t : ℕ) → Counts sem'.count (ws ++ t ∷ []))
      × ¬ Counts sem'.count ws
unfolding thread_sem_wait
thread_sem_wait_alone sp sem s ws low counts alone = (
  record sem { count = pred_ℤ sem.count },
  rw (pred-is_nonneg sem.count low, alone) refl,
  refl,
  suc-pred_ℤ sem.count low,
  λ t. Counts-pred sem.count ws t low counts,
  Counts-pred_not sem.count ws low counts,
)

-- `thread_sem_post` with threads waiting, whose number the count tells, makes the oldest ready, last in
-- the list, and the count tells the number of the others.
pub thread_sem_post-wake :
    (sem : Semaphore) (s : State) (w : ℕ) (xs ws : List ℕ)
    → Counts sem.count (w ∷ ws)
    → Parked s.hot s.current xs sem.queue (w ∷ ws)
    → (sem' : Semaphore) × (h : Slab) × (thread_sem_post sem s
        ≡ (sem', returned (pos 0) (record s { hot = h })))
      × Counts sem'.count ws
      × Parked h s.current (xs ++ w ∷ []) sem'.queue ws
unfolding thread_sem_post
thread_sem_post-wake sem s w xs ws counts p =
    let (e, lists) = Parked-wake s.hot s.current w xs sem.queue ws p in
    let (low, counts') = Counts-suc sem.count w ws counts in
    let woken : ((wq_pop sem.queue s.hot).0 == 0) ≡ false = ground (arith, p.queue.linked) in
    (
      record { count = suc_ℤ sem.count; queue = (wq_pop sem.queue s.hot).1 },
      sched_enqueue s.current w s.hot,
      rw (low, woken, e) refl,
      counts',
      lists,
    )

-- With none waiting it adds one unit and leaves the lists alone.
pub thread_sem_post-free :
    (sem : Semaphore) (s : State) (xs : List ℕ)
    → Counts sem.count []
    → Parked s.hot s.current xs sem.queue []
    → (thread_sem_post sem s ≡ (record sem { count = suc_ℤ sem.count }, returned (pos 0) s))
      × Counts (suc_ℤ sem.count) []
unfolding thread_sem_post
thread_sem_post-free sem s xs counts p =
    let (high, counts') = Counts-suc_nil sem.count counts in (rw high refl, counts')
