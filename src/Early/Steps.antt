-- ===== src/Early/Steps.antt =====
-- The calls of the first version of the library, under options/src, one by one: what each does to
-- the places of the threads.
use ein8_proj.Base.{
  ◌||◌, ℕ, ◌≡◌, ◌≢◌, refl, ◌∙◌, ap, subst, arith, ==_ne, true, ℕ_discrete, List, [], ◌∷◌, ◌++◌, ◌∉◌,
  inl, inr,
}
use ein8_proj.Early.{is_ready, env_yield, Process, set_state, set_env}
use ein8_proj.Early.Queue.{
  TailQueue, sched_enqueue_early, is_sched_empty_early, sched_dequeue_early,
}
use ein8_proj.Early.Calls.{block_sigvtalrm, thread_yield_early, thread_create_early}
use ein8_proj.Early.Places.{is_new, Place, absent, in_ready, known, put, Parts}
use ein8_proj.Early.Places.Moves.{yield-Parts, create-Parts}
use ein8_proj.Early.Sound.{Sound, SoundOutcome, List-cases, switch_to-SoundOutcome}

module _ (Q : TailQueue) where
  open Q use {
    Queue, contents, is_empty, first, insert_tail, remove_head, is_empty-nil, is_empty-cons,
    first-cons, contents-insert_tail, contents-remove_head,
  }

  pub running_nonnull :
      (s : Process Queue) (place : ℕ → Place) (rs : List ℕ) (bs : ℕ → List ℕ)
      → Sound Q s.heap s.ready_queue s.mutexes s.current place rs bs
      → s.current ≢ 0
  running_nonnull s place rs bs so e =
      absurd (ground (arith, so.running, so.parts.null, ap (λ a. known (place a)) e))

  pub running_out :
      (s : Process Queue) (place : ℕ → Place) (rs : List ℕ) (bs : ℕ → List ℕ)
      → Sound Q s.heap s.ready_queue s.mutexes s.current place rs bs
      → s.current ∉ rs
  running_out s place rs bs so = ground (arith, so.parts.ready s.current, so.running)

  -- A yield keeps each thread in one place.
  pub thread_yield_early-SoundOutcome :
      (s : Process Queue) (place : ℕ → Place) (rs : List ℕ) (bs : ℕ → List ℕ)
      → Sound Q s.heap s.ready_queue s.mutexes s.current place rs bs
      → SoundOutcome Q (λ a. known (place a)) (thread_yield_early Q s)
  unfolding thread_yield_early sched_enqueue_early sched_dequeue_early is_sched_empty_early
      block_sigvtalrm
  thread_yield_early-SoundOutcome s place rs bs so = elim (List-cases rs) [
    | inl e ↦ rw (is_empty-nil s.ready_queue (so.ready_is ∙ e)) (place, rs, bs, so, λ a k. inl k)
    | inr (x, rest, e) ↦
        let full : contents s.ready_queue ≡ x ∷ rest = so.ready_is ∙ e in
        let out = running_out s place rs bs so in
        let real = running_nonnull s place rs bs so in
        let grown : contents (insert_tail s.ready_queue s.current) ≡ x ∷ rest ++ s.current ∷ [] =
          contents-insert_tail s.ready_queue s.current real (rw so.ready_is out)
          ∙ ap (λ ts. ts ++ s.current ∷ []) full in
        let queued = record s {
          heap = set_state s.current is_ready s.heap;
          ready_queue = remove_head (insert_tail s.ready_queue s.current);
          masked = true;
        } in
        rw
          (
            is_empty-cons s.ready_queue x rest full,
            first-cons (insert_tail s.ready_queue s.current) x (rest ++ s.current ∷ []) grown,
          )
          (switch_to-SoundOutcome Q (λ a. known (place a)) x (env_yield s.masked) queued
            (put place s.current in_ready) (rest ++ s.current ∷ []) bs
            (subst
              (λ ts.
                Parts (set_env s.current (env_yield s.masked) (set_state s.current is_ready s.heap))
                  (put place s.current in_ready) (ts ++ s.current ∷ []) bs)
              e (yield-Parts s.current s.masked s.heap place rs bs so.parts so.running))
            (contents-remove_head (insert_tail s.ready_queue s.current) x (rest ++ s.current ∷ [])
              grown)
            so.blocked_is (λ a. ground (arith, so.only a)) (ground (arith, rw e at out))
            (λ a k. ground (arith, k)))
  ]

  -- A creation keeps each thread and the new one in one place, when `malloc` gives no block that is a
  -- descriptor.
  pub thread_create_early-SoundOutcome :
      (t stack func arg : ℕ) (s : Process Queue) (place : ℕ → Place) (rs : List ℕ) (bs : ℕ → List ℕ)
      → Sound Q s.heap s.ready_queue s.mutexes s.current place rs bs
      → place t ≡ absent
      → SoundOutcome Q
          (λ a. known (place a) || is_new t stack a)
          (thread_create_early Q t stack func arg s)
  unfolding thread_create_early sched_enqueue_early
  thread_create_early-SoundOutcome t stack func arg s place rs bs so fresh = elim (ℕ_discrete t 0) [
    | yes e ↦ rw e (place, rs, bs, so, λ a k. inl (ground (arith, k)))
    | no ne ↦ elim (ℕ_discrete stack 0) [
      | yes e ↦ rw (==_ne t 0 ne, e) (place, rs, bs, so, λ a k. inl (ground (arith, k)))
      | no ne' ↦
          rw (==_ne t 0 ne, ==_ne stack 0 ne')
            (
              put place t in_ready,
              rs ++ t ∷ [],
              bs,
              record {
                parts = create-Parts t _ s.heap place rs bs so.parts fresh ne refl refl refl;
                ready_is =
                    contents-insert_tail s.ready_queue t ne
                      (rw so.ready_is (ground (arith, so.parts.ready t, fresh)))
                    ∙ ap (λ ts. ts ++ t ∷ []) so.ready_is;
                blocked_is = so.blocked_is;
                running = elim (ℕ_discrete s.current t) [
                  | yes e ↦ absurd (ground (arith, so.running, fresh, e))
                  | no away ↦ rw (==_ne s.current t away) so.running
                ];
                only = λ a k. ground (arith, k, so.only a);
              },
              λ a k. inl (ground (arith, k)),
            )
    ]
  ]
