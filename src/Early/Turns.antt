-- ===== src/Early/Turns.antt =====
-- The order in which the first version of the library, under options/src, runs its threads.
use ein8_proj.Base.{
  ℕ, ◌≡◌, ◌≢◌, refl, ◌∙◌, ap, arith, ==_self, true, false, List, [], ◌∷◌, ◌++◌, none, inl, inr, ◌⊎◌,
}
use ein8_proj.Base.Int.{pos}
use ein8_proj.Early.{
  Env, env_init, env_start, env_yield, env_join, env_lock, Process, Outcome, returned, began,
  exited, undefined,
}
use ein8_proj.Early.Queue.{
  TailQueue, sched_enqueue_early, is_sched_empty_early, sched_dequeue_early,
}
use ein8_proj.Early.Calls.{
  block_sigvtalrm, restore_sigmask, join_end, jump, longjmp, switch_to, thread_yield_early,
}
use ein8_proj.Early.Mutex.{mutex_unlock_early}
use ein8_proj.Early.Places.{Place, gone_env, mutex_here, ready_here}
use ein8_proj.Early.Sound.{Sound, List-cases}
use ein8_proj.Early.Steps.{running_nonnull, running_out}

module _ (Q : TailQueue) where
  open Q use {
    Queue, contents, is_empty, first, insert_tail, remove_head, is_empty-nil, is_empty-cons,
    first-cons, contents-insert_tail, contents-remove_head,
  }

  -- The thread `x` goes on, and the threads `ts` are ready in this order.
  abbrev pub Runs : (x : ℕ) → List ℕ → Outcome Queue → Type 0
  Runs x ts (returned code value s) = (s.current ≡ x) × (contents s.ready_queue ≡ ts)
  Runs x ts (began func arg s) = (s.current ≡ x) × (contents s.ready_queue ≡ ts)
  Runs x ts (exited code s) = ◌≡◌ {A = ℕ} 0 1
  Runs x ts undefined = ◌≡◌ {A = ℕ} 0 1

  jump-Runs :
      (e : Env) (s : Process Queue) (x : ℕ) (ts : List ℕ)
      → gone_env e ≡ false
      → s.current ≡ x
      → contents s.ready_queue ≡ ts
      → Runs x ts (jump Q e s)
  unfolding jump join_end restore_sigmask
  jump-Runs env_init s x ts there here queue = cc
  jump-Runs env_start s x ts there here queue = (here, queue)
  jump-Runs (env_yield old) s x ts there here queue = (here, queue)
  jump-Runs (env_join t old) s x ts there here queue = (here, queue)
  jump-Runs (env_lock old) s x ts there here queue = (here, queue)

  switch_to-Runs :
      (x : ℕ) (e : Env) (s : Process Queue) (ts : List ℕ)
      → x ≢ s.current
      → gone_env (s.heap x).env ≡ false
      → contents s.ready_queue ≡ ts
      → Runs x ts (switch_to Q x e s)
  unfolding switch_to longjmp
  switch_to-Runs x e s ts apart there queue =
      jump-Runs _ _ x ts (ground (arith, there, apart)) refl queue

  -- A yield lets the first ready thread run, and the thread that yields becomes the last one; without
  -- a ready thread it goes on.
  pub thread_yield_early-Runs :
      (s : Process Queue) (place : ℕ → Place) (rs : List ℕ) (bs : ℕ → List ℕ)
      → Sound Q s.heap s.ready_queue s.mutexes s.current place rs bs
      → ((rs ≡ []) × (thread_yield_early Q s ≡ returned (pos 0) none s))
        ⊎ ((x : ℕ) × (rest : List ℕ) × (rs ≡ x ∷ rest)
            × Runs x (rest ++ s.current ∷ []) (thread_yield_early Q s))
  unfolding thread_yield_early sched_enqueue_early sched_dequeue_early is_sched_empty_early
      block_sigvtalrm
  thread_yield_early-Runs s place rs bs so = elim (List-cases rs) [
    | inl e ↦ inl (e, rw (is_empty-nil s.ready_queue (so.ready_is ∙ e)) refl)
    | inr (x, rest, e) ↦
        let full : contents s.ready_queue ≡ x ∷ rest = so.ready_is ∙ e in
        let out = running_out Q s place rs bs so in
        let real = running_nonnull Q s place rs bs so in
        let apart : x ≢ s.current = ground (arith, rw e at out) in
        let listed : ready_here (place x) ≡ true = ground (arith, rw e at (so.parts.ready x)) in
        let grown : contents (insert_tail s.ready_queue s.current) ≡ x ∷ rest ++ s.current ∷ [] =
          contents-insert_tail s.ready_queue s.current real (rw so.ready_is out)
          ∙ ap (λ ts. ts ++ s.current ∷ []) full in
        inr (
          x,
          rest,
          e,
          rw
              (
                is_empty-cons s.ready_queue x rest full,
                first-cons (insert_tail s.ready_queue s.current) x (rest ++ s.current ∷ []) grown,
              )
              (switch_to-Runs x (env_yield s.masked) _ (rest ++ s.current ∷ []) apart
                (ground (arith, so.parts.resumes x listed, apart))
                (contents-remove_head (insert_tail s.ready_queue s.current) x
                  (rest ++ s.current ∷ []) grown)),
        )
  ]

  -- An unlock hands the mutex on to the first thread that waits for it, which becomes the last ready
  -- one, with the signal mask as it was; when nobody waits it frees the mutex.
  pub mutex_unlock_early_handover :
      (m : ℕ) (s : Process Queue) (place : ℕ → Place) (rs : List ℕ) (bs : ℕ → List ℕ)
      → Sound Q s.heap s.ready_queue s.mutexes s.current place rs bs
      → (s' : Process Queue) × (mutex_unlock_early Q m s ≡ returned (pos 0) none s')
        × (((bs m ≡ []) × ((s'.mutexes m).locked ≡ 0) × (contents s'.ready_queue ≡ rs))
            ⊎ ((x : ℕ) × (ys : List ℕ) × (bs m ≡ x ∷ ys)
                × ((s'.mutexes m).locked ≡ (s.mutexes m).locked)
                × (contents ((s'.mutexes m).waiting) ≡ ys)
                × (contents s'.ready_queue ≡ rs ++ x ∷ [])
                × (s'.masked ≡ s.masked)))
  unfolding mutex_unlock_early block_sigvtalrm restore_sigmask sched_enqueue_early
  mutex_unlock_early_handover m s place rs bs so = elim (List-cases (bs m)) [
    | inl e ↦
        rw (is_empty-nil (s.mutexes m).waiting (so.blocked_is m ∙ e))
          (_, refl, inl (e, rw (==_self m) refl, so.ready_is))
    | inr (x, ys, e) ↦
        let full : contents (s.mutexes m).waiting ≡ x ∷ ys = so.blocked_is m ∙ e in
        let here : mutex_here m (place x) ≡ true = ground (arith, rw e at (so.parts.blocked m x)) in
        let real : x ≢ 0 =
          λ z. absurd (ground (arith, here, so.parts.null, ap (λ a. mutex_here m (place a)) z)) in
        rw
          (
            is_empty-cons (s.mutexes m).waiting x ys full,
            first-cons (s.mutexes m).waiting x ys full,
          )
          (
            _,
            refl,
            inr (
              x,
              ys,
              e,
              rw (==_self m) refl,
              rw (==_self m) (contents-remove_head (s.mutexes m).waiting x ys full),
              contents-insert_tail s.ready_queue x real
                    (rw so.ready_is (ground (arith, so.parts.ready x, here)))
                  ∙ ap (λ ts. ts ++ x ∷ []) so.ready_is,
              refl,
            ),
          )
  ]
