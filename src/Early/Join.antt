-- ===== src/Early/Join.antt =====
-- `thread_join` of the first version of the library, under options/src: what it does to the places of
-- the threads.
use ein8_proj.Base.{
  ℕ, ◌<◌, ◌≡◌, ◌≢◌, refl, ◌∙◌, ap, subst, arith, ==_ne, Bool, true, false, Bool-cases, List, [],
  ◌∷◌, none, some, inl, inr,
}
use ein8_proj.Early.{
  is_blocked, env_join, Process, Outcome, returned, write_thread, set_state, set_env,
}
use ein8_proj.Early.Queue.{TailQueue, sched_dequeue_early}
use ein8_proj.Early.Calls.{
  is_end, early_edeadlk, block_sigvtalrm, restore_sigmask, join_end, set_joining, join_wait_early,
  join_met, thread_join_early,
}
use ein8_proj.Early.Places.{Place, ended, in_join, known, ready_here, put, Parts}
use ein8_proj.Early.Places.Moves.{Parts-same}
use ein8_proj.Early.Places.Waits.{join-Parts}
use ein8_proj.Early.Sound.{
  Sound, SoundOutcome, List-cases, switch_to-SoundOutcome, join_end-SoundOutcome, ended_only,
}
use ein8_proj.Early.Walk.{Walk, meets-Walk, Walk-apart}
use ein8_proj.Early.Steps.{running_out}

module _ (Q : TailQueue) where
  open Q use {
    Queue, contents, is_empty, first, insert_tail, remove_head, first-cons, contents-remove_head,
  }

  joining-Sound :
      (t : ℕ) (s : Process Queue) (place : ℕ → Place) (rs : List ℕ) (bs : ℕ → List ℕ)
      → Sound Q s.heap s.ready_queue s.mutexes s.current place rs bs
      → Sound Q (set_joining Q t s).heap s.ready_queue s.mutexes s.current place rs bs
  unfolding set_joining
  joining-Sound t s place rs bs so = record {
    parts =
        Parts-same s.heap _ place rs bs (λ a. (ground arith, ground arith, ground arith)) so.parts;
    ready_is = so.ready_is;
    blocked_is = so.blocked_is;
    running = so.running;
    only = so.only;
  }

  joining-waiting :
      (t : ℕ) (s : Process Queue)
      → (s.heap t).waiting ≡ 0
      → ((set_joining Q t s).heap t).waiting ≡ 0
  unfolding set_joining
  joining-waiting t s free = ground (arith, free)

  join_wait_early-SoundOutcome :
      (t : ℕ) (old : Bool) (s : Process Queue) (place : ℕ → Place) (rs : List ℕ) (bs : ℕ → List ℕ)
      → Sound Q s.heap s.ready_queue s.mutexes s.current place rs bs
      → known (place t) ≡ true
      → is_end (s.heap t).state ≡ false
      → (s.heap t).waiting ≡ 0
      → t ≢ s.current
      → rs ≢ []
      → SoundOutcome Q (λ a. known (place a)) (join_wait_early Q t old s)
  unfolding join_wait_early sched_dequeue_early
  join_wait_early-SoundOutcome t old s place rs bs so there unfinished free apart others =
      elim (List-cases rs) [
        | inl e ↦ absurd (others e)
        | inr (x, rest, e) ↦
            let full : contents s.ready_queue ≡ x ∷ rest = so.ready_is ∙ e in
            let out = rw e at (running_out Q s place rs bs so) in
            let listed : ready_here (place x) ≡ true = ground (arith, rw e at (so.parts.ready x)) in
            let real : x ≢ 0 = λ z.
              absurd (ground (arith, listed, so.parts.null, ap (λ a. ready_here (place a)) z)) in
            rw (first-cons s.ready_queue x rest full, ==_ne x 0 real)
              (switch_to-SoundOutcome Q (λ a. known (place a)) x (env_join t old)
                (record s {
                  heap =
                      set_state s.current is_blocked
                        (write_thread s.heap t (record (s.heap t) { waiting = s.current }));
                  ready_queue = remove_head s.ready_queue;
                })
                (put place s.current (in_join t)) rest bs
                (subst
                  (λ ts.
                    Parts
                      (set_env s.current (env_join t old) (
                        set_state s.current is_blocked
                          (write_thread s.heap t (record (s.heap t) { waiting = s.current }))))
                      (put place s.current (in_join t)) ts bs)
                  e
                  (join-Parts s.current t old s.heap place rs bs so.parts so.running there
                    unfinished free apart))
                (contents-remove_head s.ready_queue x rest full) so.blocked_is
                (λ a. ground (arith, so.only a)) (ground (arith, out)) (λ a k. ground (arith, k)))
      ]

  -- A join of a thread that nobody else joins, whose test ends, returns with each thread in one
  -- place, when another thread is ready.
  pub thread_join_early-SoundOutcome :
      (fuel n t : ℕ) (met : Bool) (s : Process Queue) (place : ℕ → Place) (rs : List ℕ)
      (bs : ℕ → List ℕ)
      → Sound Q s.heap s.ready_queue s.mutexes s.current place rs bs
      → known (place t) ≡ true
      → (s.heap t).waiting ≡ 0
      → rs ≢ []
      → Walk (set_joining Q t s).heap s.current n t met
      → n < fuel
      → (o : Outcome Queue) × (thread_join_early Q fuel t s ≡ some o)
        × SoundOutcome Q (λ a. known (place a)) o
  unfolding thread_join_early block_sigvtalrm restore_sigmask join_met set_joining
  thread_join_early-SoundOutcome fuel n t met s place rs bs so there free others walk low =
      let s' = set_joining Q t (record s { masked = true }) in
      let so' = joining-Sound t s place rs bs so in
      let free' : (s'.heap t).waiting ≡ 0 = joining-waiting t s free in
      let test = meets-Walk Q n fuel t s' met walk low in
      elim (Bool-cases (is_end (s'.heap t).state)) [
        | inl e ↦
            let finished : place t ≡ ended = ended_only (place t) (so'.parts.ends t there ∙ e) in
            (
              join_end Q t s.masked s',
              rw e refl,
              join_end-SoundOutcome Q (λ a. known (place a)) t s.masked s' place rs bs so' finished
                  free' (λ a k. k),
            )
        | inr e ↦ elim (Bool-cases met) [
          | inl yes_met ↦ (
            returned early_edeadlk none (record s' { masked = s.masked }),
            rw (e, test, yes_met) refl,
            (place, rs, bs, so', λ a k. inl k),
          )
          | inr no_met ↦
              let real : t ≢ 0 =
                λ z. absurd (ground (arith, there, so.parts.null, ap (λ a. known (place a)) z)) in
              let apart = Walk-apart s'.heap s.current n t real (rw no_met at walk) in
              (
                join_wait_early Q t s.masked s',
                rw (e, test, no_met) refl,
                join_wait_early-SoundOutcome t s.masked s' place rs bs so' there e free' apart
                    others,
              )
        ]
      ]
