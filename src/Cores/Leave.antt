-- ===== src/Cores/Leave.antt =====
-- The exit of a thread in src/thread_mn.c, at its lock and behind it.
use ein8_proj.Base.{
  ℕ, ◌+◌, ◌<◌, ◌≤◌, ◌≡◌, ◌≢◌, refl, ◌∙◌, ap, arith, ◌==◌, ==_self, ==_ne, true, false,
}
use ein8_proj.Base.Word.{u32}
use ein8_proj.Cold.{finished}
use ein8_proj.Mono.{write_cold}
use ein8_proj.Cores.{Cores, write_worker, wake_waiter, to_scheduler, spins, schedule_exit}
use ein8_proj.Cores.Exit.{note_waiter, exit_counted, exit_locked, exit_flushed, thread_exit_mn}
use ein8_proj.Cores.Park.{flush_nothing}

note_waiter-real :
    (b j : ℕ) (s : Cores)
    → j ≢ 0
    → note_waiter b j s ≡ record s {
      worker = write_worker s.worker b (record (s.worker b) { after = wake_waiter j });
    }
unfolding note_waiter
note_waiter-real b j s real = rw (==_ne j 0 real) refl

exit_counted-more :
    (b : ℕ) (s : Cores)
    → 2 ≤ s.alive_count
    → s.alive_count < 4294967296
    → exit_counted b s
      ≡ to_scheduler (schedule_exit b (record s { alive_count = u32 (s.alive_count + 4294967295) }))
unfolding exit_counted
exit_counted-more b s some_alive bounded =
    let not_last : (u32 (s.alive_count + 4294967295) == 0) ≡ false = ground arith in
    rw not_last refl

exit_locked-free :
    (b t j : ℕ) (s : Cores)
    → (s.worker b).current ≡ t
    → (s.cold t).waiting ≡ j
    → s.cold_lock t ≡ false
    → exit_locked b s
      ≡ exit_counted b (
          note_waiter b j (record s {
            cold = write_cold s.cold t (record (s.cold t) { state = finished; waiting = 0 });
          }))
unfolding exit_locked
exit_locked-free b t j s running waiting free = rw (running, free, waiting) refl

-- The exit of a thread that has a joiner, at its lock.
exit_locked-waited :
    (b t j : ℕ) (s : Cores)
    → (s.worker b).current ≡ t
    → (s.cold t).waiting ≡ j
    → s.cold_lock t ≡ false
    → j ≢ 0
    → 2 ≤ s.alive_count
    → s.alive_count < 4294967296
    → (s' : Cores) × (exit_locked b s ≡ to_scheduler s')
      × (s'.runqs ≡ s.runqs)
      × ((s'.worker b).after ≡ wake_waiter j)
      × ((s'.cold t).state ≡ finished)
      × ((s'.cold t).retval ≡ (s.cold t).retval)
      × (s'.cold_lock t ≡ false)
unfolding schedule_exit
exit_locked-waited b t j s running waiting free real some_alive bounded =
    let ended = record s {
      cold = write_cold s.cold t (record (s.cold t) { state = finished; waiting = 0 });
    } in
    let noted = record ended {
      worker = write_worker s.worker b (record (s.worker b) { after = wake_waiter j });
    } in
    let counted = record noted { alive_count = u32 (s.alive_count + 4294967295) } in
    (
      schedule_exit b counted,
      exit_locked-free b t j s running waiting free
          ∙ ap (λ k. exit_counted b k) (note_waiter-real b j ended real)
          ∙ exit_counted-more b noted some_alive bounded,
      refl,
      rw (==_self b) refl,
      rw (==_self t) refl,
      rw (==_self t) refl,
      free,
    )

-- Up to its lock the exit stores the value.
exit-unflushed :
    (b v t : ℕ) (s : Cores)
    → (s.worker b).current ≡ t
    → (s.worker b).last_created ≡ 0
    → (s.cold t).inline_jmpbuf ≡ 0
    → thread_exit_mn b v s
      ≡ exit_locked b (record s { cold = write_cold s.cold t (record (s.cold t) { retval = v }) })
unfolding thread_exit_mn exit_flushed
exit-unflushed b v t s running flushed outer =
    let kept = record s { cold = write_cold s.cold t (record (s.cold t) { retval = v }) } in
    let test : ((s.cold t).inline_jmpbuf == 0) ≡ true = ground (arith, outer) in
    rw (running, ==_self t, test, flush_nothing b kept flushed) refl

pub exit-waited :
    (b v t j : ℕ) (s : Cores)
    → (s.worker b).current ≡ t
    → (s.worker b).last_created ≡ 0
    → (s.cold t).inline_jmpbuf ≡ 0
    → (s.cold t).waiting ≡ j
    → s.cold_lock t ≡ false
    → j ≢ 0
    → 2 ≤ s.alive_count
    → s.alive_count < 4294967296
    → (s' : Cores) × (thread_exit_mn b v s ≡ to_scheduler s')
      × (s'.runqs ≡ s.runqs)
      × ((s'.worker b).after ≡ wake_waiter j)
      × ((s'.cold t).state ≡ finished)
      × ((s'.cold t).retval ≡ v)
      × (s'.cold_lock t ≡ false)
exit-waited b v t j s running flushed outer waiting free real some_alive bounded =
    let kept = record s { cold = write_cold s.cold t (record (s.cold t) { retval = v }) } in
    let (s', e, same, noted, ended, value, unlocked) =
      exit_locked-waited b t j kept running (rw (==_self t) waiting) free real some_alive bounded in
    (
      s',
      exit-unflushed b v t s running flushed outer ∙ e,
      same,
      noted,
      ended,
      value ∙ rw (==_self t) refl,
      unlocked,
    )

pub exit-spins :
    (b v t : ℕ) (s : Cores)
    → (s.worker b).current ≡ t
    → (s.worker b).last_created ≡ 0
    → (s.cold t).inline_jmpbuf ≡ 0
    → s.cold_lock t ≡ true
    → (s' : Cores) × (thread_exit_mn b v s ≡ spins s')
unfolding exit_locked
exit-spins b v t s running flushed outer locked =
    let kept = record s { cold = write_cold s.cold t (record (s.cold t) { retval = v }) } in
    (kept, exit-unflushed b v t s running flushed outer ∙ rw (running, locked) refl)
