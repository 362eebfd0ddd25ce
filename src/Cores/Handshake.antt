-- ===== src/Cores/Handshake.antt =====
-- A join and the exit that it waits for, on two workers of src/thread_mn.c: the lock of the thread
-- passes from the joiner to its callback, and the joiner is pushed by the callback of the exit.
use ein8_proj.Base.{
  ℕ, ◌+◌, ◌<◌, ◌≤◌, ◌≡◌, ◌≢◌, refl, ◌∙◌, ap, arith, ◌==◌, ==_self, if◌then◌else◌, false, List, [],
  ◌∷◌, ◌++◌, length, some, inl, inr,
}
use ein8_proj.Base.Int.{pos}
use ein8_proj.Base.Word.{u16}
use ein8_proj.Mono.{write_cold}
use ein8_proj.Deque.{cl_cap}
use ein8_proj.Deque.Lifo.{IsDeque, cl_push_bottom-IsDeque}
use ein8_proj.Runq.{write_deque}
use ein8_proj.Balance.{push_done, runq_push}
use ein8_proj.Cores.{
  Cores, write_worker, no_callback, wake_waiter, returns, to_scheduler, spins, pushed_state,
  run_callback, run_after,
}
use ein8_proj.Cores.Join.{RunBody, join_cleanup_mn, give_back, thread_join_mn}
use ein8_proj.Cores.Exit.{thread_exit_mn}
use ein8_proj.Cores.Park.{Leaving, thread_join_mn-Leaving, unpark}
use ein8_proj.UnionFind.Rep.{Rep}
use ein8_proj.Cold.{ready}
use ein8_proj.Cores.Leave.{exit-waited, exit-spins}

-- The callback of the exit puts the joiner behind the others in the deque of its worker.
wake :
    (b j : ℕ) (s : Cores) (xs : List ℕ)
    → (s.worker b).after ≡ wake_waiter j
    → IsDeque (s.runqs.deques b) xs
    → length xs < cl_cap
    → (s.runqs.deques b).bottom + 1 < 9223372036854775808
    → (s' : Cores) × (run_after b s ≡ some s')
      × IsDeque (s'.runqs.deques b) (xs ++ j ∷ [])
      × (s'.cold ≡ s.cold)
      × (s'.cold_lock ≡ s.cold_lock)
unfolding run_after run_callback runq_push push_done pushed_state
wake b j s xs noted is room small = elim (cl_push_bottom-IsDeque j (s.runqs.deques b) xs is small) [
  | inl (full, _) ↦ absurd (omega (arith, full, room))
  | inr (q, e, is') ↦ (
    record s {
      worker = write_worker s.worker b (record (s.worker b) { after = no_callback });
      runqs = record s.runqs { deques = write_deque s.runqs.deques b q };
    },
    rw (noted, e) refl,
    rw (==_self b) is',
    refl,
    refl,
  )
]

cleanup-value :
    (c t v : ℕ) (s : Cores)
    → s.cold_lock t ≡ false
    → (s.cold t).retval ≡ v
    → (s' : Cores) × (join_cleanup_mn c t s ≡ returns (some v) (pos 0) s')
unfolding join_cleanup_mn
cleanup-value c t v s free value =
    let tc = record (s.cold t) { refcount = u16 ((s.cold t).refcount + 65535) } in
    let kept = record s { cold = write_cold s.cold t tc } in
    (
      (if tc.refcount == 0 then give_back c t kept else kept),
      rw free (
          ap
            (λ (x : ℕ).
              returns (some x) (pos 0) (if tc.refcount == 0 then give_back c t kept else kept))
            value),
    )

-- While the joiner of thread `t` has not yet left its worker, the exit of `t` on another worker waits
-- at the lock. Behind the callback of the joiner it ends; behind its own callback the joiner stands
-- last in the deque of the worker of `t`, and its join returns 0 with the value of `t`, whatever
-- worker runs it.
pub thread_exit_mn-handshake :
    (a b c t j rsp v : ℕ) (s : Cores) (xs : List ℕ)
    → Leaving a t j rsp s
    → a ≢ b
    → j ≢ 0
    → (s.worker b).current ≡ t
    → (s.worker b).last_created ≡ 0
    → (s.cold t).inline_jmpbuf ≡ 0
    → 2 ≤ s.alive_count
    → s.alive_count < 4294967296
    → IsDeque (s.runqs.deques b) xs
    → length xs < cl_cap
    → (s.runqs.deques b).bottom + 1 < 9223372036854775808
    → ((s1 : Cores) × (thread_exit_mn b v s ≡ spins s1))
      × ((s2 : Cores) × (run_after a s ≡ some s2)
          × ((s3 : Cores) × (thread_exit_mn b v s2 ≡ to_scheduler s3)
              × ((s4 : Cores) × (run_after b s3 ≡ some s4)
                  × IsDeque (s4.runqs.deques b) (xs ++ j ∷ [])
                  × ((s5 : Cores) × (join_cleanup_mn c t s4 ≡ returns (some v) (pos 0) s5)))))
thread_exit_mn-handshake a b c t j rsp v s xs parked apart real running flushed outer some_alive
      bounded is room small =
    let (s2, e2, cold2, runqs2, alive2, free2, same2) = unpark a t j rsp s parked in
    let worker2 = same2 b apart in
    let (s3, e3, runqs3, noted3, _, value3, free3) =
      exit-waited b v t j s2 (rw worker2 running) (rw worker2 flushed) (rw cold2 outer)
        (rw cold2 parked.waiting) free2 real (omega (arith, alive2, some_alive))
        (omega (arith, alive2, bounded)) in
    let there : s3.runqs ≡ s.runqs = runqs3 ∙ runqs2 in
    let (s4, e4, is4, cold4, lock4) = wake b j s3 xs noted3 (rw there is) room (rw there small) in
    (
      exit-spins b v t s running flushed outer parked.locked,
      (s2, e2, (s3, e3, (s4, e4, is4, cleanup-value c t v s4 (rw lock4 free3) (rw cold4 value3)))),
    )

-- A join on worker `a` and the exit of the thread it waits for on worker `b`, from before the join, in
-- the order in which the exit comes before the callback of the joiner. The thread has not ended, its
-- lock is free, and it stands in another class of the graph of joins than the joiner `j`. The join goes
-- to the scheduler; the exit then waits at the lock until the callback of the joiner has run, and ends
-- behind it; its own callback puts the joiner last in the deque of worker `b`, and the join returns 0
-- with the value of the thread, whatever worker runs it.
pub thread_join_mn-handshake :
    (body : RunBody) (fuel a b c jmpbuf rsp j t n m ra rb v : ℕ) (s : Cores) (xs : List ℕ)
    → (s.worker a).current ≡ j
    → (s.worker b).current ≡ t
    → a ≢ b
    → j ≢ 0
    → t ≢ 0
    → (s.worker a).last_created ≡ 0
    → (s.worker b).last_created ≡ 0
    → s.cold_lock t ≡ false
    → (s.cold t).state ≡ ready
    → (s.cold t).inline_jmpbuf ≡ 0
    → Rep s.cold n j ra
    → Rep s.cold m t rb
    → ra ≢ rb
    → n < fuel
    → m < fuel
    → 2 ≤ s.alive_count
    → s.alive_count < 4294967296
    → IsDeque (s.runqs.deques b) xs
    → length xs < cl_cap
    → (s.runqs.deques b).bottom + 1 < 9223372036854775808
    → (s0 : Cores) × (thread_join_mn body fuel a jmpbuf rsp t s ≡ to_scheduler s0)
      × ((s1 : Cores) × (thread_exit_mn b v s0 ≡ spins s1))
      × ((s2 : Cores) × (run_after a s0 ≡ some s2)
          × ((s3 : Cores) × (thread_exit_mn b v s2 ≡ to_scheduler s3)
              × ((s4 : Cores) × (run_after b s3 ≡ some s4)
                  × IsDeque (s4.runqs.deques b) (xs ++ j ∷ [])
                  × ((s5 : Cores) × (join_cleanup_mn c t s4 ≡ returns (some v) (pos 0) s5)))))
thread_join_mn-handshake body fuel a b c jmpbuf rsp j t n m ra rb v s xs joiner running apart real
      thread flushed_a flushed free unfinished outer da db two ha hb some_alive bounded is room
      small =
    let (s0, e0, parked, left) =
      thread_join_mn-Leaving body fuel a jmpbuf rsp t n m ra rb s thread flushed_a free unfinished
        (rw joiner da) db two ha hb in
    let other = left.workers b apart in
    let (spinning, rest) =
      thread_exit_mn-handshake a b c t j rsp v s0 xs (rw joiner at parked) apart real
        (rw other running) (rw other flushed) (left.inline_jmpbuf ∙ outer)
        (omega (arith, left.alive_count, some_alive)) (omega (arith, left.alive_count, bounded))
        (rw left.deques is) room (rw left.deques small) in
    (s0, e0, spinning, rest)
