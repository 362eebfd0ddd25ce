-- ===== src/Early/Places/Waits.antt =====
-- The places of the threads of the first version of the library, under options/src, when a thread
-- waits, is woken or ends.
use ein8_proj.Base.{
  ℕ, ◌≡◌, ◌≢◌, refl, arith, ==_self, ==_ne, Bool, true, false, ℕ_discrete, List, [], ◌∷◌, ◌++◌, has,
  has-append, IsDistinct-append_one,
}
use ein8_proj.Early.{
  is_ready, is_running, is_blocked, is_finished, Env, env_init, env_start, env_yield, env_join,
  env_lock, Thread, write_thread, set_state, set_env,
}
use ein8_proj.Early.Calls.{is_end}
use ein8_proj.Early.Places.{
  Place, at_cpu, in_ready, ended, in_mutex, in_join, known, mutex_here, join_here, joins_env,
  lock_env, gone_env, put, Parts, replace,
}

-- The running thread waits for thread `t`.
pub join-Parts :
    (c t : ℕ) (old : Bool) (h : ℕ → Thread) (place : ℕ → Place) (rs : List ℕ) (bs : ℕ → List ℕ)
    → Parts h place rs bs
    → place c ≡ at_cpu
    → known (place t) ≡ true
    → is_end (h t).state ≡ false
    → (h t).waiting ≡ 0
    → t ≢ c
    → Parts
        (set_env c
          (env_join t old)
          (set_state c is_blocked (write_thread h t (record (h t) { waiting = c }))))
        (put place c (in_join t))
        rs
        bs
join-Parts c t old h place rs bs ps here there unfinished free apart = record {
  ready = λ a. ground (arith, ps.ready a, here);
  blocked = λ m a. ground (arith, ps.blocked m a, here);
  distinct_ready = ps.distinct_ready;
  distinct_blocked = ps.distinct_blocked;
  joins = λ a u e.
      ground (
        arith,
        e,
        ps.joins a u,
        here,
        ps.ends u,
        ps.ends c,
        there,
        unfinished,
        free,
        apart,
        ps.null,
      );
  waited = λ u w e k.
      ground (arith, w, e, k, ps.waited u, here, ps.ends c, ps.joins c u, there, unfinished, apart);
  ends = λ a k. ground (arith, k, ps.ends a, ps.ends c, ps.ends t, here, apart);
  woken = λ a u r e. ground (arith, r, e, ps.woken a u, here, ps.ends t, there, unfinished);
  resumes = λ a r. ground (arith, r, ps.resumes a);
  locks = λ a m e. ground (arith, e, ps.locks a m, here);
  null = ground (arith, ps.null, here);
}

-- The running thread waits for mutex `m`.
pub lock-Parts :
    (c m : ℕ) (old : Bool) (h : ℕ → Thread) (place : ℕ → Place) (rs : List ℕ) (bs : ℕ → List ℕ)
    → Parts h place rs bs
    → place c ≡ at_cpu
    → Parts
        (set_env c (env_lock old) (set_state c is_blocked h))
        (put place c (in_mutex m))
        rs
        (replace bs m (bs m ++ c ∷ []))
lock-Parts c m old h place rs bs ps here = record {
  ready = λ a. ground (arith, ps.ready a, here);
  blocked = λ k a. elim (ℕ_discrete k m) [
    | yes e ↦ rw (e, ==_self m) (ground (arith, ps.blocked m a, has-append a (bs m) (c ∷ []), here))
    | no ne ↦ rw (==_ne k m ne) (ground (arith, ps.blocked k a, here, ne))
  ];
  distinct_ready = ps.distinct_ready;
  distinct_blocked = λ k. elim (ℕ_discrete k m) [
    | yes e ↦
        rw (e, ==_self m)
          (IsDistinct-append_one (bs m) c (ps.distinct_blocked m)
            (ground (arith, ps.blocked m c, here)))
    | no ne ↦ rw (==_ne k m ne) (ps.distinct_blocked k)
  ];
  joins = λ a t e. ground (arith, e, ps.joins a t, here, ps.ends t, ps.ends c);
  waited = λ t w e k. ground (arith, w, e, k, ps.waited t, here, ps.ends c, ps.joins c t);
  ends = λ a k. ground (arith, k, ps.ends a, ps.ends c, here);
  woken = λ a t r e. ground (arith, r, e, ps.woken a t, here);
  resumes = λ a r. ground (arith, r, ps.resumes a);
  locks = λ a k e. ground (arith, e, ps.locks a k, here);
  null = ground (arith, ps.null, here);
}

lock_env-joins_env :
    (t : ℕ) (e : Env) → lock_env e ≡ true → (joins_env t e ≡ false) × (gone_env e ≡ false)
lock_env-joins_env t env_init l = cc
lock_env-joins_env t env_start l = cc
lock_env-joins_env t (env_yield old) l = cc
lock_env-joins_env t (env_join k old) l = cc
lock_env-joins_env t (env_lock old) l = (refl, refl)

-- The first thread that waits for mutex `m` becomes ready.
pub unlock-Parts :
    (x m : ℕ) (h : ℕ → Thread) (place : ℕ → Place) (rs ys : List ℕ) (bs : ℕ → List ℕ)
    → Parts h place rs bs
    → bs m ≡ x ∷ ys
    → Parts (set_state x is_running h) (put place x in_ready) (rs ++ x ∷ []) (replace bs m ys)
unlock-Parts x m h place rs ys bs ps head =
    let mine : has x (bs m) ≡ true = rw head (ground arith) in
    let here : mutex_here m (place x) ≡ true = ground (arith, ps.blocked m x, mine) in
    let distinct = rw head at (ps.distinct_blocked m) in
    let locked = ps.locks x m here in
    record {
      ready = λ a. ground (arith, ps.ready a, has-append a rs (x ∷ []));
      blocked = λ k a. elim (ℕ_discrete k m) [
        | yes e ↦ rw (e, ==_self m) (ground (arith, rw head at (ps.blocked m a), distinct))
        | no ne ↦ rw (==_ne k m ne) (ground (arith, ps.blocked k a, here, ne))
      ];
      distinct_ready =
          IsDistinct-append_one rs x ps.distinct_ready (ground (arith, ps.ready x, here));
      distinct_blocked = λ k. elim (ℕ_discrete k m) [
        | yes e ↦ rw (e, ==_self m) distinct.1
        | no ne ↦ rw (==_ne k m ne) (ps.distinct_blocked k)
      ];
      joins = λ a t e. ground (arith, e, ps.joins a t, here, ps.ends t, ps.ends x);
      waited = λ t w e k. ground (arith, w, e, k, ps.waited t, here, ps.ends x, ps.joins x t);
      ends = λ a k. ground (arith, k, ps.ends a, ps.ends x, here);
      woken = λ a t r e.
          ground (arith, r, e, ps.woken a t, here, lock_env-joins_env t (h x).env locked);
      resumes = λ a r. ground (arith, r, ps.resumes a, lock_env-joins_env 0 (h x).env locked);
      locks = λ a k e. ground (arith, e, ps.locks a k, here);
      null = ground (arith, ps.null, here);
    }

-- The running thread ends, and nobody waits for it.
pub exit-Parts :
    (c value : ℕ) (h : ℕ → Thread) (place : ℕ → Place) (rs : List ℕ) (bs : ℕ → List ℕ)
    → Parts h place rs bs
    → place c ≡ at_cpu
    → (h c).waiting ≡ 0
    → Parts
        (write_thread h c (record (h c) { retval = value; state = is_finished }))
        (put place c ended)
        rs
        bs
exit-Parts c value h place rs bs ps here alone = record {
  ready = λ a. ground (arith, ps.ready a, here);
  blocked = λ m a. ground (arith, ps.blocked m a, here);
  distinct_ready = ps.distinct_ready;
  distinct_blocked = ps.distinct_blocked;
  joins = λ a t e. ground (arith, e, ps.joins a t, here, alone, ps.null);
  waited = λ t w e k. ground (arith, w, e, k, ps.waited t, here);
  ends = λ a k. ground (arith, k, ps.ends a);
  woken = λ a t r e. ground (arith, r, e, ps.woken a t, here);
  resumes = λ a r. ground (arith, r, ps.resumes a, here);
  locks = λ a m e. ground (arith, e, ps.locks a m, here);
  null = ground (arith, ps.null, here);
}

-- The running thread ends, and its joiner becomes ready.
pub exit_joined-Parts :
    (c j value : ℕ) (h : ℕ → Thread) (place : ℕ → Place) (rs : List ℕ) (bs : ℕ → List ℕ)
    → Parts h place rs bs
    → place c ≡ at_cpu
    → (h c).waiting ≡ j
    → j ≢ 0
    → Parts
        (set_state j is_ready
          (write_thread h c (record (h c) { retval = value; state = is_finished })))
        (put (put place c ended) j in_ready)
        (rs ++ j ∷ [])
        bs
exit_joined-Parts c j value h place rs bs ps here joined ne =
    let running : is_end (h c).state ≡ false = ground (arith, ps.ends c, here) in
    let there : join_here c (place j) ≡ true =
      ground (arith, ps.waited c, here, joined, ne, running) in
    let mine = ps.joins j c there in
    record {
      ready = λ a. ground (arith, ps.ready a, has-append a rs (j ∷ []), here);
      blocked = λ m a. ground (arith, ps.blocked m a, here, there);
      distinct_ready =
          IsDistinct-append_one rs j ps.distinct_ready (ground (arith, ps.ready j, there));
      distinct_blocked = ps.distinct_blocked;
      joins = λ a t e. ground (arith, e, ps.joins a t, here, there, ps.ends j, joined);
      waited = λ t w e k. ground (arith, w, e, k, ps.waited t, here, there, ps.ends j, joined);
      ends = λ a k. ground (arith, k, ps.ends a, ps.ends j, here, there);
      woken = λ a t r e. ground (arith, r, e, ps.woken a t, here, there, mine, joined);
      resumes = λ a r. ground (arith, r, ps.resumes a, mine);
      locks = λ a m e. ground (arith, e, ps.locks a m, here, there);
      null = ground (arith, ps.null, here, there);
    }
