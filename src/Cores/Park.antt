-- ===== src/Cores/Park.antt =====
-- A join in src/thread_mn.c that has to wait: the joiner leaves its worker.
use ein8_proj.Base.{
  ℕ, ◌≡◌, ◌≢◌, refl, sym, ◌∙◌, arith, ◌==◌, ==_self, ==_ne, true, false, some, ap, inl, inr, ◌<◌,
}
use ein8_proj.Base.Int.{pos}
use ein8_proj.Cold.{Cold, ready}
use ein8_proj.Mono.{write_cold}
use ein8_proj.UnionFind.{uf_union}
use ein8_proj.UnionFind.Rep.{Rep}
use ein8_proj.UnionFind.Union.{uf_union-UnionResult}
use ein8_proj.Cores.{
  Cores, write_worker, write_lock, no_callback, unlock_cold, to_scheduler, flush_last_created_mn,
  schedule_park, run_callback, run_after,
}
use ein8_proj.Cores.Join.{RunBody, join_park, join_locked, join_flushed, thread_join_mn}

-- Thread `j` has left worker `a` to wait for thread `t`, and its callback has not yet run.
pub record Leaving (a t j rsp : ℕ) (s : Cores) : Type 0 where
  pub locked : s.cold_lock t ≡ true
  pub waiting : (s.cold t).waiting ≡ j
  pub after : (s.worker a).after ≡ unlock_cold t
  pub gone : (s.worker a).current ≡ 0
  pub saved : (s.runqs.hot j).rsp ≡ rsp

pub flush_nothing :
    (a : ℕ) (s : Cores) → (s.worker a).last_created ≡ 0 → flush_last_created_mn a s ≡ some s
unfolding flush_last_created_mn
flush_nothing a s flushed = rw flushed refl

join_locked-park :
    (fuel a rsp t n : ℕ) (s : Cores) (cold' : ℕ → Cold)
    → s.cold_lock t ≡ false
    → (s.cold t).state ≡ ready
    → uf_union fuel (s.worker a).current t s.cold ≡ (pos n, cold')
    → join_locked fuel a rsp t s ≡ join_park a rsp t (record s { cold = cold' }) (pos n)
unfolding join_locked
join_locked-park fuel a rsp t n s cold' free unfinished apart = rw (free, unfinished, apart) refl

join-unflushed :
    (body : RunBody) (fuel a jmpbuf rsp t : ℕ) (s : Cores)
    → t ≢ 0
    → (s.worker a).last_created ≡ 0
    → thread_join_mn body fuel a jmpbuf rsp t s ≡ join_locked fuel a rsp t s
unfolding thread_join_mn join_flushed
join-unflushed body fuel a jmpbuf rsp t s ne flushed =
    let other : ((s.worker a).last_created == t) ≡ false = ground (arith, ne, flushed) in
    rw (other, flush_nothing a s flushed) refl

-- Thread `t`, its worker and the deques as the join of `t` on worker `a` leaves them.
pub record Apart (a t : ℕ) (s s' : Cores) : Type 0 where
  pub alive_count : s'.alive_count ≡ s.alive_count
  pub deques : s'.runqs.deques ≡ s.runqs.deques
  pub inline_jmpbuf : (s'.cold t).inline_jmpbuf ≡ (s.cold t).inline_jmpbuf
  pub workers : (b : ℕ) → a ≢ b → s'.worker b ≡ s.worker b

join_park-Leaving :
    (a rsp t n : ℕ) (s : Cores)
    → (s' : Cores) × (join_park a rsp t s (pos n) ≡ to_scheduler s')
      × Leaving a t (s.worker a).current rsp s'
      × Apart a t s s'
unfolding join_park schedule_park
join_park-Leaving a rsp t n s =
    let mid = record s {
      cold = write_cold s.cold t (record (s.cold t) { waiting = (s.worker a).current });
      cold_lock = write_lock s.cold_lock t true;
    } in
    (
      schedule_park a rsp (unlock_cold t) mid,
      refl,
      record {
        locked = rw (==_self t) refl;
        waiting = rw (==_self t) refl;
        after = rw (==_self a) refl;
        gone = rw (==_self a) refl;
        saved = rw (==_self (s.worker a).current) refl;
      },
      record {
        alive_count = refl;
        deques = refl;
        inline_jmpbuf = rw (==_self t) refl;
        workers = λ b away. rw (==_ne b a (λ e. away (sym e))) refl;
      },
    )

-- A join of a thread that has not ended and is of another class of the graph of joins: the joiner
-- leaves its worker with the lock of the thread.
pub thread_join_mn-Leaving :
    (body : RunBody) (fuel a jmpbuf rsp t n m ra rb : ℕ) (s : Cores)
    → t ≢ 0
    → (s.worker a).last_created ≡ 0
    → s.cold_lock t ≡ false
    → (s.cold t).state ≡ ready
    → Rep s.cold n (s.worker a).current ra
    → Rep s.cold m t rb
    → ra ≢ rb
    → n < fuel
    → m < fuel
    → (s' : Cores) × (thread_join_mn body fuel a jmpbuf rsp t s ≡ to_scheduler s')
      × Leaving a t (s.worker a).current rsp s'
      × Apart a t s s'
thread_join_mn-Leaving body fuel a jmpbuf rsp t n m ra rb s ne flushed free unfinished da db two ha
      hb =
    elim (uf_union-UnionResult fuel n m (s.worker a).current t ra rb s.cold da db ha hb) [
      | inl (one, code, keeps) ↦ absurd (two one)
      | inr (_, code, joined) ↦
          let cold' = (uf_union fuel (s.worker a).current t s.cold).1 in
          let (s', e, parked, apart) = join_park-Leaving a rsp t 0 (record s { cold = cold' }) in
          (
            s',
            join-unflushed body fuel a jmpbuf rsp t s ne flushed
                ∙ join_locked-park fuel a rsp t 0 s cold' free unfinished
                    (ap (λ k. (k, cold')) code)
                ∙ e,
            parked,
            record {
              alive_count = apart.alive_count;
              deques = apart.deques;
              inline_jmpbuf =
                  apart.inline_jmpbuf
                  ∙ ap (λ (x : Cold). x.inline_jmpbuf) {x = cold' t}
                      {y = record (s.cold t) { parent = (cold' t).parent; rank = (cold' t).rank }}
                      (joined.fields t);
              workers = apart.workers;
            },
          )
    ]

-- The callback of the joiner gives the lock back and changes nothing else.
pub unpark :
    (a t j rsp : ℕ) (s : Cores)
    → Leaving a t j rsp s
    → (s' : Cores) × (run_after a s ≡ some s')
      × (s'.cold ≡ s.cold)
      × (s'.runqs ≡ s.runqs)
      × (s'.alive_count ≡ s.alive_count)
      × (s'.cold_lock t ≡ false)
      × ((b : ℕ) → a ≢ b → s'.worker b ≡ s.worker b)
unfolding run_after run_callback
unpark a t j rsp s parked = (
  record s {
    worker = write_worker s.worker a (record (s.worker a) { after = no_callback });
    cold_lock = write_lock s.cold_lock t false;
  },
  rw parked.after refl,
  refl,
  refl,
  refl,
  rw (==_self t) refl,
  λ b away. rw (==_ne b a (λ e. away (sym e))) refl,
)
