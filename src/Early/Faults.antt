-- ===== src/Early/Faults.antt =====
-- Where the deadlock test and the mutexes of the first version of the library, under options/src, do
-- not do what the rest of the code relies on.
use ein8_proj.Base.{
  ℕ, zero, suc, ◌+◌, fun_ext, ◌≡◌, ◌≢◌, refl, sym, ◌∙◌, ap, arith, ◌==◌, ==_self, ==_ne, if_true,
  if_false, Bool, true, false, ℕ_discrete, [], Option, none, some, inr,
}
use ein8_proj.Base.Int.{pos}
use ein8_proj.Early.{Process, returned}
use ein8_proj.Early.Queue.{TailQueue}
use ein8_proj.Early.Calls.{
  is_end, early_edeadlk, block_sigvtalrm, restore_sigmask, meets, set_joining, join_met,
  thread_join_early,
}
use ein8_proj.Early.Mutex.{write_mutex, mutex_lock_early, mutex_unlock_early}
use ein8_proj.Early.Walk.{meets-Walk}

module _ (Q : TailQueue) where
  open Q use {Queue, contents, is_empty, is_empty-nil}

  -- Two threads that join one another, the thread that runs being neither: the walk does not end.
  meets_endless :
      (fuel a b : ℕ) (s : Process Queue)
      → a ≢ 0
      → b ≢ 0
      → a ≢ s.current
      → b ≢ s.current
      → (s.heap a).joining ≡ b
      → (s.heap b).joining ≡ a
      → meets Q fuel a s ≡ none
  unfolding meets
  meets_endless zero a b s ra rb na nb ab ba = refl
  meets_endless (suc fuel) a b s ra rb na nb ab ba =
      rw (==_ne a 0 ra, ==_ne a s.current na, ab) (meets_endless fuel b a s rb ra nb na ba ab)

  -- A join that does not find its thread at the end, by what the walk of the test gives.
  join_walks :
      (fuel t : ℕ) (s : Process Queue) (walked : Option Bool)
      → is_end (s.heap t).state ≡ false
      → meets Q fuel t (set_joining Q t (block_sigvtalrm Q s)) ≡ walked
      → thread_join_early Q fuel t s
        ≡ join_met Q t s.masked (set_joining Q t (block_sigvtalrm Q s)) walked
  unfolding thread_join_early set_joining block_sigvtalrm
  join_walks fuel t s walked going e =
      if_false (is_end ((set_joining Q t (block_sigvtalrm Q s)).heap t).state) _ _
        (ground (arith, going))
      ∙ ap (join_met Q t s.masked (set_joining Q t (block_sigvtalrm Q s))) e

  -- A thread whose join of the thread `b` is refused with EDEADLK, since `b` joins it, keeps `b` in
  -- its `joining`. When, after that, a third thread runs and joins it, while it has not ended and
  -- the two still have these `joining`, the walk of the test does not end, whatever the fuel.
  pub thread_join_early_endless :
      (b : ℕ) (s : Process Queue)
      → b ≢ 0
      → s.current ≢ 0
      → b ≢ s.current
      → (s.heap b).joining ≡ s.current
      → is_end (s.heap b).state ≡ false
      → (s' : Process Queue) × ((n : ℕ)
          → thread_join_early Q (2 + n) b s ≡ some (returned early_edeadlk none s'))
        × ((fuel : ℕ) (r : Process Queue)
            → r.current ≢ s.current
            → r.current ≢ b
            → (r.heap s.current).joining ≡ (s'.heap s.current).joining
            → (r.heap b).joining ≡ (s'.heap b).joining
            → is_end (r.heap s.current).state ≡ false
            → thread_join_early Q fuel s.current r ≡ none)
  unfolding join_met set_joining block_sigvtalrm restore_sigmask
  thread_join_early_endless b s rb rc apart back going =
      let c = s.current in
      let s' = set_joining Q b (block_sigvtalrm Q s) in
      (
        restore_sigmask Q s.masked s',
        (λ n. join_walks (2 + n) b s (some true) going (
            meets-Walk Q 1 (2 + n) b s' true
              (inr (rb, apart, rw (==_ne b c apart, back) (inr (rc, refl, refl)))) (omega arith))),
        (λ fuel r rc' rb' jc jb unfinished. join_walks fuel c r none unfinished (
            meets_endless fuel c b (set_joining Q c (block_sigvtalrm Q r)) rc rb (λ e. rc' (sym e))
              (λ e. rb' (sym e)) (ground (arith, jc, rc')) (ground (arith, jb, rb', back, apart)))),
      )

  -- A lock of a free mutex for which nobody waits, then an unlock, leave the mutex free, the threads
  -- and the ready queue as they were, and the signal SIGALRM blocked.
  pub mutex_unlock_early-mutex_lock_early :
      (m : ℕ) (s : Process Queue)
      → (s.mutexes m).locked ≡ 0
      → contents ((s.mutexes m).waiting) ≡ []
      → (s' : Process Queue) × (s'' : Process Queue) × (mutex_lock_early Q m s
          ≡ returned (pos 0) none s')
        × (mutex_unlock_early Q m s' ≡ returned (pos 0) none s'')
        × (s''.mutexes ≡ s.mutexes)
        × (s''.heap ≡ s.heap)
        × (s''.ready_queue ≡ s.ready_queue)
        × (s''.current ≡ s.current)
        × (s''.masked ≡ true)
  unfolding mutex_lock_early mutex_unlock_early block_sigvtalrm
  mutex_unlock_early-mutex_lock_early m s free nobody =
      let k = s.mutexes m in
      let s' = record s {
        mutexes = write_mutex Q s.mutexes m (record k { locked = 1 });
        masked = true;
      } in
      let s'' = record s {
        mutexes = write_mutex Q s'.mutexes m (record (s'.mutexes m) { locked = 0 });
        masked = true;
      } in
      (
        s',
        s'',
        if_true (k.locked == 0) _ _ (rw free refl),
        if_true (is_empty (s'.mutexes m).waiting) _ _ (is_empty-nil _ (rw (==_self m) nobody)),
        fun_ext (λ a. elim (ℕ_discrete a m) [
          | yes e ↦ rw (e, ==_self m) (ap (λ n. record (s.mutexes m) { locked = n }) (sym free))
          | no ne ↦ rw (==_ne a m ne) refl
        ]),
        refl,
        refl,
        refl,
        refl,
      )
