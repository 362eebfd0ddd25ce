-- ===== src/Early/Begin.antt =====
-- The start of the first version of the library, under options/src, by its first call.
use ein8_proj.Base.{◌||◌, ℕ, ◌≡◌, ◌≢◌, refl, arith, ==_self, ==_ne, [], some}
use ein8_proj.Base.Int.{pos}
use ein8_proj.Early.{Process, returned}
use ein8_proj.Early.Queue.{TailQueue}
use ein8_proj.Early.Calls.{thread_create_early}
use ein8_proj.Early.Places.{is_new, known, absent, at_cpu, put}
use ein8_proj.Early.Sound.{Sound, SoundOutcome}
use ein8_proj.Early.Calls.{init_system_early, begin_call, start_call, thread_create_first}
use ein8_proj.Early.Queue.{sched_init_early, sched_enqueue_early}
use ein8_proj.Early.Steps.{thread_create_early-SoundOutcome}
use ein8_proj.Early.Sound.{IsSound}
use ein8_proj.Base.{if_true, if_false, ◌==◌, ==_ne, ==_self, ◌∷◌, ◌++◌, ◌∙◌, ap, subst, sym}

module _ (Q : TailQueue) where
  open Q use {Queue, contents, contents-init, insert_tail, contents-insert_tail}

  -- When no descriptor is in use and nobody waits for a mutex, `init_system` on the block that
  -- `malloc` gave leaves the thread of `main` alone, and running.
  init_system_early-Sound :
      (main : ℕ) (s : Process Queue)
      → main ≢ 0
      → ((m : ℕ) → contents ((s.mutexes m).waiting) ≡ [])
      → (s' : Process Queue) × (init_system_early Q main s ≡ some s')
        × (s'.current ≡ main)
        × Sound Q s'.heap s'.ready_queue s'.mutexes main
            (put (λ a. absent) main at_cpu)
            []
            (λ m. [])
  unfolding init_system_early sched_init_early
  init_system_early-Sound main s ne free = rw (==_ne main 0 ne) (
    _,
    refl,
    refl,
    record {
      parts = record {
        ready = λ a. ground arith;
        blocked = λ m a. ground arith;
        distinct_ready = tt;
        distinct_blocked = λ m. tt;
        joins = λ a t e. ground (arith, e);
        waited = λ t w e k. ground (arith, w, e, k);
        ends = λ a k. ground (arith, k);
        woken = λ a t r e. ground (arith, r, e);
        resumes = λ a r. ground (arith, r);
        locks = λ a m e. ground (arith, e);
        null = ground (arith, ne);
      };
      ready_is = contents-init;
      blocked_is = free;
      running = rw (==_self main) refl;
      only = λ a k. ground (arith, k);
    },
  )

  create_made :
      (t stack func arg : ℕ) (s : Process Queue)
      → t ≢ 0
      → stack ≢ 0
      → (s' : Process Queue) × (thread_create_early Q t stack func arg s
          ≡ returned (pos 0) (some t) s')
        × (s'.current ≡ s.current)
        × (s'.ready_queue ≡ insert_tail s.ready_queue t)
  unfolding thread_create_early sched_enqueue_early
  create_made t stack func arg s ne ne' = (
    _,
    if_false (t == 0) _ _ (==_ne t 0 ne) ∙ if_false (stack == 0) _ _ (==_ne stack 0 ne'),
    refl,
    refl,
  )

  -- The first `thread_create` of a process, on three blocks that `malloc` gave, when nobody waits for a
  -- mutex: it returns 0 and the new thread, which is ready, while the thread of `main` runs; each
  -- thread stands in one place.
  pub thread_create_first-IsSound :
      (main t stack func arg : ℕ) (s : Process Queue)
      → s.current ≡ 0
      → main ≢ 0
      → t ≢ 0
      → stack ≢ 0
      → t ≢ main
      → ((m : ℕ) → contents ((s.mutexes m).waiting) ≡ [])
      → (s' : Process Queue) × (thread_create_first Q main t stack func arg s
          ≡ returned (pos 0) (some t) s')
        × (s'.current ≡ main)
        × (contents s'.ready_queue ≡ t ∷ [])
        × IsSound Q s'
  unfolding thread_create_first start_call begin_call
  thread_create_first-IsSound main t stack func arg s blank real real' room apart free =
      let (s1, e, cur, so) = init_system_early-Sound main s real free in
      let (s2, made, same, queued) = create_made t stack func arg s1 real' room in
      let place = put (λ a. absent) main at_cpu in
      let sound1 : Sound Q s1.heap s1.ready_queue s1.mutexes s1.current place [] (λ m. []) =
        subst (λ c. Sound Q s1.heap s1.ready_queue s1.mutexes c place [] (λ m. [])) (sym cur) so in
      let sound =
        thread_create_early-SoundOutcome Q t stack func arg s1 place [] (λ m. []) sound1
          (rw (==_ne t main apart) refl) in
      let made_sound =
        subst (SoundOutcome Q (λ a. known (place a) || is_new t stack a)) made sound in
      (
        s2,
        if_true (s.current == 0) _ _ (rw blank refl)
            ∙ ap (begin_call Q (λ u. thread_create_early Q t stack func arg u) s) e
            ∙ made,
        same ∙ cur,
        ap contents queued
            ∙ contents-insert_tail s1.ready_queue t real' (rw so.ready_is refl)
            ∙ ap (λ ts. ts ++ t ∷ []) so.ready_is,
        (made_sound.0, made_sound.1, made_sound.2, made_sound.3),
      )
