-- ===== src/Examples/Workers.antt =====
-- Two workers of the multicore build, on concrete states.
use ein8_proj.Base.{
  ℕ, ◌+◌, ◌≡◌, ◌≢◌, refl, some, List, [], ◌∷◌, ◌++◌, false, arith, ◌==◌, if◌then◌else◌,
}
use ein8_proj.Base.Int.{pos}
use ein8_proj.Cache.{refill, refill_free, refill_slab, thread_alloc_mn}
use ein8_proj.Cores.{
  Cores, Worker, no_callback, returns, run_after, spins, to_scheduler, unlock_cold,
}
use ein8_proj.Cores.Create.{StashResult, thread_create_mn, thread_create_mn-StashResult}
use ein8_proj.Cores.Exit.{thread_exit_mn}
use ein8_proj.Cores.Handshake.{thread_exit_mn-handshake, thread_join_mn-handshake}
use ein8_proj.Cores.Join.{RunBody, came_back, join_cleanup_mn, thread_join_mn}
use ein8_proj.Cores.Memory.{pools_of}
use ein8_proj.Cores.Park.{Leaving}
use ein8_proj.Deque.{Deque}
use ein8_proj.Deque.Lifo.{IsDeque}
use ein8_proj.Examples.{cold0, empty_queue, hot0}
use ein8_proj.UnionFind.{uf_find, uf_join, uf_link, uf_order, uf_union}

abbrev no_callback_worker : (running : ℕ) → Worker
no_callback_worker running = record {
  current = running;
  last_created = 0;
  last_created_func = 0;
  last_created_arg = 0;
  inline_executing = 0;
  after = no_callback;
  t_cache_head = 0;
  t_cache_count = 0;
  s_cache_head = 0;
  s_cache_count = 0;
}

abbrev queued_threads : List ℕ
queued_threads = 3 ∷ 4 ∷ []

abbrev queued : Deque
queued = record { top = 5; bottom = 7; items = λ a. if a == 5 then 3 else 4 }

queued-IsDeque : IsDeque queued queued_threads
queued-IsDeque = record {
  holds = (refl, (refl, tt));
  ends = refl;
  room = omega arith;
  small = omega arith;
}

-- Worker 0 runs thread 1, worker 1 thread 2.
abbrev cores0 : Cores
cores0 = record {
  runqs = record {
    hot = hot0;
    deques = λ v. queued;
    injectors = λ v. record { ends = empty_queue; size = 0 };
    n_runqs = 2;
    runq_shutdown_flag = 0;
    idle_bitmap = 0;
    push_rr = 0;
  };
  cold = cold0;
  cold_lock = λ t. false;
  mem = λ a. 0;
  worker = λ i. no_callback_worker (i + 1);
  alive_count = 2;
  thread_free_head = 0;
  stack_free_head = 0;
  thread_slab_next = 6;
}

-- Thread 1 has left worker 0 to wait for thread 2.
abbrev cores_parked : Cores
cores_parked = record cores0 {
  cold = λ t. record (cold0 t) { waiting = 1 };
  cold_lock = λ t. t == 2;
  worker = λ i.
      if i == 0
      then record (no_callback_worker 0) { after = unlock_cold 2 }
      else no_callback_worker 2;
}

abbrev runs_nothing : RunBody
runs_nothing fn ar s = came_back ar s

united : uf_union 2 1 2 cold0 ≡ (pos 0, (uf_union 2 1 2 cold0).1)
unfolding uf_union uf_find uf_join uf_order uf_link
united = refl

cores-Leaving : Leaving 0 2 1 0 cores_parked
cores-Leaving = record { locked = refl; waiting = refl; after = refl; gone = refl; saved = refl }

-- Each worker keeps thread 6 back.
abbrev cores_kept : Cores
cores_kept = record cores0 {
  worker = λ i. record (no_callback_worker (i + 1)) {
    last_created = 6;
    last_created_func = 11;
    last_created_arg = 12;
  };
}

another : (cores_kept.worker 0).last_created ≢ (thread_alloc_mn (pools_of 0 cores_kept)).0
unfolding thread_alloc_mn refill refill_slab refill_free
another = omega arith

thread_create_mn-StashResult_example :
    StashResult 0 21 22
      (thread_alloc_mn (pools_of 0 cores_kept)).0
      (cores_kept.worker 0).last_created
      (cores_kept.worker 0).last_created_func
      (cores_kept.worker 0).last_created_arg
      queued_threads
      (thread_create_mn 0 21 22 cores_kept)
thread_create_mn-StashResult_example =
    thread_create_mn-StashResult 0 21 22 cores_kept queued_threads another (queued-IsDeque)
      (omega arith)

thread_join_mn-handshake_example :
    (s0 : Cores) × (thread_join_mn runs_nothing 2 0 500 70 2 cores0 ≡ to_scheduler s0)
    × ((s1 : Cores) × (thread_exit_mn 1 33 s0 ≡ spins s1))
    × ((s2 : Cores) × (run_after 0 s0 ≡ some s2)
        × ((s3 : Cores) × (thread_exit_mn 1 33 s2 ≡ to_scheduler s3)
            × ((s4 : Cores) × (run_after 1 s3 ≡ some s4)
                × IsDeque (s4.runqs.deques 1) (queued_threads ++ 1 ∷ [])
                × ((s5 : Cores) × (join_cleanup_mn 0 2 s4 ≡ returns (some 33) (pos 0) s5)))))
thread_join_mn-handshake_example =
    thread_join_mn-handshake runs_nothing 2 0 1 0 500 70 1 2 0 0 1 2 33 cores0 queued_threads refl
      refl (omega arith) (omega arith) (omega arith) refl refl refl refl refl (refl, refl)
      (refl, refl) (omega arith) (omega arith) (omega arith) (omega arith) (omega arith)
      (queued-IsDeque) (omega arith) (omega arith)

thread_exit_mn-handshake_example :
    ((s1 : Cores) × (thread_exit_mn 1 33 cores_parked ≡ spins s1))
    × ((s2 : Cores) × (run_after 0 cores_parked ≡ some s2)
        × ((s3 : Cores) × (thread_exit_mn 1 33 s2 ≡ to_scheduler s3)
            × ((s4 : Cores) × (run_after 1 s3 ≡ some s4)
                × IsDeque (s4.runqs.deques 1) (queued_threads ++ 1 ∷ [])
                × ((s5 : Cores) × (join_cleanup_mn 0 2 s4 ≡ returns (some 33) (pos 0) s5)))))
thread_exit_mn-handshake_example =
    thread_exit_mn-handshake 0 1 0 2 1 0 33 cores_parked queued_threads (cores-Leaving)
      (omega arith) (omega arith) refl refl refl (omega arith) (omega arith) (queued-IsDeque)
      (omega arith) (omega arith)
