-- ===== src/Early/Places/Moves.antt =====
-- The places of the threads of the first version of the library, under options/src, when a thread is
-- made, runs, yields or is freed.
use ein8_proj.Base.{
  ℕ, ◌≡◌, ◌≢◌, arith, Bool, true, false, List, [], ◌∷◌, ◌++◌, has-append, IsDistinct-append_one,
}
use ein8_proj.Early.{
  is_ready, is_running, env_start, env_yield, Thread, write_thread, set_state, set_env,
}
use ein8_proj.Early.Calls.{is_end}
use ein8_proj.Early.Places.{Place, absent, at_cpu, in_ready, ended, ready_here, put, Parts}

-- The running thread goes to the end of the ready queue.
pub yield-Parts :
    (c : ℕ) (old : Bool) (h : ℕ → Thread) (place : ℕ → Place) (rs : List ℕ) (bs : ℕ → List ℕ)
    → Parts h place rs bs
    → place c ≡ at_cpu
    → Parts
        (set_env c (env_yield old) (set_state c is_ready h))
        (put place c in_ready)
        (rs ++ c ∷ [])
        bs
yield-Parts c old h place rs bs ps here = record {
  ready = λ a. ground (arith, ps.ready a, has-append a rs (c ∷ []));
  blocked = λ m a. ground (arith, ps.blocked m a, here);
  distinct_ready = IsDistinct-append_one rs c ps.distinct_ready (ground (arith, ps.ready c, here));
  distinct_blocked = ps.distinct_blocked;
  joins = λ a t e. ground (arith, e, ps.joins a t, here, ps.ends t, ps.ends c);
  waited = λ t w e k. ground (arith, w, e, k, ps.waited t, here, ps.ends c, ps.joins c t);
  ends = λ a k. ground (arith, k, ps.ends a, ps.ends c, here);
  woken = λ a t r e. ground (arith, r, e, ps.woken a t, here);
  resumes = λ a r. ground (arith, r, ps.resumes a);
  locks = λ a m e. ground (arith, e, ps.locks a m, here);
  null = ground (arith, ps.null, here);
}

-- The first of the ready queue runs.
pub dispatch-Parts :
    (x : ℕ) (h : ℕ → Thread) (place : ℕ → Place) (rs : List ℕ) (bs : ℕ → List ℕ)
    → Parts h place (x ∷ rs) bs
    → Parts (set_state x is_running h) (put place x at_cpu) rs bs
dispatch-Parts x h place rs bs ps =
    let here : ready_here (place x) ≡ true = ground (arith, ps.ready x) in
    record {
      ready = λ a. ground (arith, ps.ready a, ps.distinct_ready);
      blocked = λ m a. ground (arith, ps.blocked m a, here);
      distinct_ready = ps.distinct_ready.1;
      distinct_blocked = ps.distinct_blocked;
      joins = λ a t e. ground (arith, e, ps.joins a t, here, ps.ends t, ps.ends x);
      waited = λ t w e k. ground (arith, w, e, k, ps.waited t, here, ps.ends x, ps.joins x t);
      ends = λ a k. ground (arith, k, ps.ends a, ps.ends x, here);
      woken = λ a t r e. ground (arith, r, e, ps.woken a t, here);
      resumes = λ a r. ground (arith, r, ps.resumes a);
      locks = λ a m e. ground (arith, e, ps.locks a m, here);
      null = ground (arith, ps.null, here);
    }

-- A new thread is ready.
pub create-Parts :
    (t : ℕ) (new : Thread) (h : ℕ → Thread) (place : ℕ → Place) (rs : List ℕ) (bs : ℕ → List ℕ)
    → Parts h place rs bs
    → place t ≡ absent
    → t ≢ 0
    → new.env ≡ env_start
    → new.waiting ≡ 0
    → is_end new.state ≡ false
    → Parts (write_thread h t new) (put place t in_ready) (rs ++ t ∷ []) bs
create-Parts t new h place rs bs ps here ne starts free unfinished = record {
  ready = λ a. ground (arith, ps.ready a, has-append a rs (t ∷ []));
  blocked = λ m a. ground (arith, ps.blocked m a, here);
  distinct_ready = IsDistinct-append_one rs t ps.distinct_ready (ground (arith, ps.ready t, here));
  distinct_blocked = ps.distinct_blocked;
  joins = λ a u e. ground (arith, e, ps.joins a u, here);
  waited = λ u w e k. ground (arith, w, e, k, ps.waited u, here, free);
  ends = λ a k. ground (arith, k, ps.ends a, unfinished);
  woken = λ a u r e. ground (arith, r, e, ps.woken a u, here, starts);
  resumes = λ a r. ground (arith, r, ps.resumes a, starts);
  locks = λ a m e. ground (arith, e, ps.locks a m, here);
  null = ground (arith, ps.null, ne);
}

-- A thread that has ended is freed, and no ready thread is about to read it.
pub free-Parts :
    (t : ℕ) (h : ℕ → Thread) (place : ℕ → Place) (rs : List ℕ) (bs : ℕ → List ℕ)
    → Parts h place rs bs
    → place t ≡ ended
    → ready_here (place (h t).waiting) ≡ false
    → Parts h (put place t absent) rs bs
free-Parts t h place rs bs ps here alone = record {
  ready = λ a. ground (arith, ps.ready a, here);
  blocked = λ m a. ground (arith, ps.blocked m a, here);
  distinct_ready = ps.distinct_ready;
  distinct_blocked = ps.distinct_blocked;
  joins = λ a u e. ground (arith, e, ps.joins a u, here, ps.ends u);
  waited = λ u w e k. ground (arith, w, e, k, ps.waited u, here, ps.joins t u);
  ends = λ a k. ground (arith, k, ps.ends a);
  woken = λ a u r e. ground (arith, r, e, ps.woken a u, here, alone);
  resumes = λ a r. ground (arith, r, ps.resumes a);
  locks = λ a m e. ground (arith, e, ps.locks a m, here);
  null = ground (arith, ps.null, here);
}

-- What the invariant does not read may change.
pub Parts-same :
    (h h' : ℕ → Thread) (place : ℕ → Place) (rs : List ℕ) (bs : ℕ → List ℕ)
    → ((a : ℕ)
        → ((h' a).env ≡ (h a).env)
          × ((h' a).waiting ≡ (h a).waiting)
          × (is_end (h' a).state ≡ is_end (h a).state))
    → Parts h place rs bs
    → Parts h' place rs bs
Parts-same h h' place rs bs same ps = record {
  ready = ps.ready;
  blocked = ps.blocked;
  distinct_ready = ps.distinct_ready;
  distinct_blocked = ps.distinct_blocked;
  joins = λ a t e. ground (arith, e, ps.joins a t, same t, same a);
  waited = λ t w e k. ground (arith, w, e, k, ps.waited t, same t);
  ends = λ a k. ground (arith, k, ps.ends a, same a);
  woken = λ a t r e. ground (arith, r, e, ps.woken a t, same t, same a);
  resumes = λ a r. ground (arith, r, ps.resumes a, same a);
  locks = λ a m e. ground (arith, e, ps.locks a m, same a);
  null = ps.null;
}
