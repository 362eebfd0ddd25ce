-- ===== src/Early/Locks.antt =====
-- The mutexes of the first version of the library, under options/src: what they do to the places of
-- the threads.
use ein8_proj.Base.{
  ℕ, ◌≡◌, ◌≢◌, sym, ◌∙◌, ap, subst, arith, ==_self, ==_ne, true, ℕ_discrete, List, [], ◌∷◌, ◌++◌,
  inl, inr, ◌⊎◌,
}
use ein8_proj.Early.{is_blocked, env_lock, MutexOf, Process, set_state, set_env}
use ein8_proj.Early.Queue.{TailQueue, sched_enqueue_early, sched_dequeue_early}
use ein8_proj.Early.Calls.{block_sigvtalrm, restore_sigmask}
use ein8_proj.Early.Mutex.{write_mutex, mutex_init_early, mutex_lock_early, mutex_unlock_early}
use ein8_proj.Early.Places.{known, Place, in_ready, in_mutex, mutex_here, put, Parts, replace}
use ein8_proj.Early.Places.Waits.{lock-Parts, unlock-Parts}
use ein8_proj.Early.Sound.{Sound, SoundOutcome, List-cases, switch_to-SoundOutcome}
use ein8_proj.Early.Steps.{running_nonnull, running_out}

module _ (Q : TailQueue) where
  open Q use {
    Queue, contents, is_empty, first, insert_tail, remove_head, is_empty-nil, is_empty-cons,
    first-cons, contents-init, init, contents-insert_tail, contents-remove_head,
  }

  write_mutex-contents :
      (ms : ℕ → MutexOf Queue) (bs : ℕ → List ℕ) (m : ℕ) (v : MutexOf Queue) (xs : List ℕ)
      → ((k : ℕ) → contents ((ms k).waiting) ≡ bs k)
      → contents v.waiting ≡ xs
      → (k : ℕ) → contents ((write_mutex Q ms m v k).waiting) ≡ replace bs m xs k
  write_mutex-contents ms bs m v xs same here k = elim (ℕ_discrete k m) [
    | yes e ↦ rw (e, ==_self m) here
    | no ne ↦ rw (==_ne k m ne) (same k)
  ]

  write_mutex-same :
      (ms : ℕ → MutexOf Queue) (bs : ℕ → List ℕ) (m n : ℕ)
      → ((k : ℕ) → contents ((ms k).waiting) ≡ bs k)
      → (k : ℕ) → contents ((write_mutex Q ms m (record (ms m) { locked = n }) k).waiting) ≡ bs k
  write_mutex-same ms bs m n same k = elim (ℕ_discrete k m) [
    | yes e ↦ rw (e, ==_self m) (same m)
    | no ne ↦ rw (==_ne k m ne) (same k)
  ]

  -- The set-up of a mutex for which nobody waits keeps each thread in one place.
  pub mutex_init_early-SoundOutcome :
      (m : ℕ) (s : Process Queue) (place : ℕ → Place) (rs : List ℕ) (bs : ℕ → List ℕ)
      → Sound Q s.heap s.ready_queue s.mutexes s.current place rs bs
      → bs m ≡ []
      → SoundOutcome Q (λ a. known (place a)) (mutex_init_early Q m s)
  unfolding mutex_init_early
  mutex_init_early-SoundOutcome m s place rs bs so nobody = (
    place,
    rs,
    bs,
    record {
      parts = so.parts;
      ready_is = so.ready_is;
      blocked_is = λ k. elim (ℕ_discrete k m) [
        | yes e ↦ rw (e, ==_self m) (contents-init ∙ sym nobody)
        | no ne ↦ rw (==_ne k m ne) (so.blocked_is k)
      ];
      running = so.running;
      only = so.only;
    },
    λ a k. inl k,
  )

  -- A lock keeps each thread in one place, when the mutex is free or another thread is ready.
  pub mutex_lock_early-SoundOutcome :
      (m : ℕ) (s : Process Queue) (place : ℕ → Place) (rs : List ℕ) (bs : ℕ → List ℕ)
      → Sound Q s.heap s.ready_queue s.mutexes s.current place rs bs
      → ((s.mutexes m).locked ≡ 0) ⊎ (rs ≢ [])
      → SoundOutcome Q (λ a. known (place a)) (mutex_lock_early Q m s)
  unfolding mutex_lock_early block_sigvtalrm sched_dequeue_early
  mutex_lock_early-SoundOutcome m s place rs bs so can = elim (ℕ_discrete (s.mutexes m).locked 0) [
    | yes e ↦ rw e (
      place,
      rs,
      bs,
      record {
        parts = so.parts;
        ready_is = so.ready_is;
        blocked_is = write_mutex-same s.mutexes bs m 1 so.blocked_is;
        running = so.running;
        only = so.only;
      },
      λ a k. inl k,
    )
    | no ne ↦ elim (List-cases rs) [
      | inl e ↦ absurd (ground (arith, can, ne, e))
      | inr (x, rest, e) ↦
          let full : contents s.ready_queue ≡ x ∷ rest = so.ready_is ∙ e in
          let out = rw e at (running_out Q s place rs bs so) in
          let real = running_nonnull Q s place rs bs so in
          let grown : contents (insert_tail (s.mutexes m).waiting s.current)
              ≡ bs m ++ s.current ∷ [] =
            contents-insert_tail (s.mutexes m).waiting s.current real
              (rw (so.blocked_is m) (ground (arith, so.parts.blocked m s.current, so.running)))
            ∙ ap (λ ts. ts ++ s.current ∷ []) (so.blocked_is m) in
          rw (==_ne (s.mutexes m).locked 0 ne, first-cons s.ready_queue x rest full)
            (switch_to-SoundOutcome Q (λ a. known (place a)) x (env_lock s.masked)
              (record s {
                heap = set_state s.current is_blocked s.heap;
                ready_queue = remove_head s.ready_queue;
                mutexes = write_mutex Q s.mutexes m (record (s.mutexes m) {
                  waiting = insert_tail (s.mutexes m).waiting s.current;
                });
                masked = true;
              })
              (put place s.current (in_mutex m)) rest (replace bs m (bs m ++ s.current ∷ []))
              (subst
                (λ ts.
                  Parts
                    (set_env s.current (env_lock s.masked) (set_state s.current is_blocked s.heap))
                    (put place s.current (in_mutex m)) ts (replace bs m (bs m ++ s.current ∷ [])))
                e (lock-Parts s.current m s.masked s.heap place rs bs so.parts so.running))
              (contents-remove_head s.ready_queue x rest full)
              (write_mutex-contents s.mutexes bs m _ (bs m ++ s.current ∷ []) so.blocked_is grown)
              (λ a. ground (arith, so.only a)) (ground (arith, out)) (λ a k. ground (arith, k)))
    ]
  ]

  -- An unlock keeps each thread in one place.
  pub mutex_unlock_early-SoundOutcome :
      (m : ℕ) (s : Process Queue) (place : ℕ → Place) (rs : List ℕ) (bs : ℕ → List ℕ)
      → Sound Q s.heap s.ready_queue s.mutexes s.current place rs bs
      → SoundOutcome Q (λ a. known (place a)) (mutex_unlock_early Q m s)
  unfolding mutex_unlock_early block_sigvtalrm restore_sigmask sched_enqueue_early
  mutex_unlock_early-SoundOutcome m s place rs bs so = elim (List-cases (bs m)) [
    | inl e ↦ rw (is_empty-nil (s.mutexes m).waiting (so.blocked_is m ∙ e)) (
      place,
      rs,
      bs,
      record {
        parts = so.parts;
        ready_is = so.ready_is;
        blocked_is = write_mutex-same s.mutexes bs m 0 so.blocked_is;
        running = so.running;
        only = so.only;
      },
      λ a k. inl k,
    )
    | inr (x, ys, e) ↦
        let full : contents (s.mutexes m).waiting ≡ x ∷ ys = so.blocked_is m ∙ e in
        let here : mutex_here m (place x) ≡ true = ground (arith, rw e at (so.parts.blocked m x)) in
        let real : x ≢ 0 =
          λ z. absurd (ground (arith, here, so.parts.null, ap (λ a. mutex_here m (place a)) z)) in
        rw
          (
            is_empty-cons (s.mutexes m).waiting x ys full,
            first-cons (s.mutexes m).waiting x ys full,
          )
          (
            put place x in_ready,
            rs ++ x ∷ [],
            replace bs m ys,
            record {
              parts = unlock-Parts x m s.heap place rs ys bs so.parts e;
              ready_is =
                  contents-insert_tail s.ready_queue x real
                    (rw so.ready_is (ground (arith, so.parts.ready x, here)))
                  ∙ ap (λ ts. ts ++ x ∷ []) so.ready_is;
              blocked_is =
                  write_mutex-contents s.mutexes bs m _ ys so.blocked_is
                    (contents-remove_head (s.mutexes m).waiting x ys full);
              running = ground (arith, so.running, here);
              only = λ a. ground (arith, so.only a, here);
            },
            λ a k. inl (ground (arith, k)),
          )
  ]
