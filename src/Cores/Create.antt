-- ===== src/Cores/Create.antt =====
-- `thread_create` of src/thread_mn.c, in the build without preemption: the thread created before is
-- published, and the new one is kept back.
use ein8_proj.Base.{
  ℕ, ◌+◌, ◌<◌, ◌≡◌, ◌≢◌, refl, sym, arith, ◌==◌, ==_self, ==_ne, if◌then◌else◌, true, false, List,
  [], ◌∷◌, ◌++◌, length, Option, none, some, inl, inr, ◌⊎◌, ℕ_discrete,
}
use ein8_proj.Base.Int.{pos, negsuc}
use ein8_proj.Base.Word.{u32}
use ein8_proj.Sched.{write}
use ein8_proj.Cold.{thread_cold_reset}
use ein8_proj.Mono.{write_cold}
use ein8_proj.Deque.{cl_cap}
use ein8_proj.Deque.Lifo.{IsDeque, cl_push_bottom-IsDeque}
use ein8_proj.Balance.{push_done, runq_push}
use ein8_proj.Cache.{thread_alloc_mn}
use ein8_proj.Cores.{
  Cores, write_worker, Ending, returns, aborts, pushed_state, flush_last_created_mn,
}
use ein8_proj.Cores.Memory.{pools_of, with_pools}

-- The new thread is kept back, and counted.
unfoldable pub stash : (self t func arg : ℕ) → Option Cores → Ending
stash self t func arg none = aborts
stash self t func arg (some s) = returns (some t) (pos 0) (record s {
  worker = write_worker s.worker self (record (s.worker self) {
    last_created = t;
    last_created_func = func;
    last_created_arg = arg;
  });
  alive_count = u32 (s.alive_count + 1);
})

-- A fresh descriptor.
unfoldable pub reset_thread : (t : ℕ) → Cores → Cores
reset_thread t s = record s {
  cold = write_cold s.cold t (thread_cold_reset t);
  runqs = record s.runqs {
    hot = write s.runqs.hot t (record (s.runqs.hot t) { rsp = 0; sched_next = 0; sched_prev = 0 });
  };
}

unfoldable pub create_given : (self func arg t : ℕ) → Cores → Ending
create_given self func arg t s =
    if t == 0
    then returns none (negsuc 0) s
    else stash self t func arg (flush_last_created_mn self (reset_thread t s))

unfoldable pub thread_create_mn : (self func arg : ℕ) → Cores → Ending
thread_create_mn self func arg s =
    let (t, p) = thread_alloc_mn (pools_of self s) in
    create_given self func arg t (with_pools self p s)

-- What a creation comes to, when `t` was allocated, `prev` was kept back with its function and
-- argument, and the deque of the worker held `xs`.
abbrev pub StashResult : (self func arg t prev pf pa : ℕ) → List ℕ → Ending → Type 0
StashResult self func arg t prev pf pa xs aborts = (prev ≢ 0) × (length xs ≡ cl_cap)
StashResult self func arg t prev pf pa xs (returns none code s) = (t ≡ 0) × (code ≡ negsuc 0)
StashResult self func arg t prev pf pa xs (returns (some u) code s) =
    (u ≡ t)
    × (t ≢ 0)
    × (code ≡ pos 0)
    × ((s.worker self).last_created ≡ t)
    × ((s.worker self).last_created_func ≡ func)
    × ((s.worker self).last_created_arg ≡ arg)
    × (s.cold t ≡ thread_cold_reset t)
    × (((prev ≡ 0) × IsDeque (s.runqs.deques self) xs)
        ⊎ ((prev ≢ 0)
            × IsDeque (s.runqs.deques self) (xs ++ prev ∷ [])
            × ((s.cold prev).func ≡ pf)
            × ((s.cold prev).func_arg ≡ pa)))
StashResult self func arg t prev pf pa xs _ = ◌≡◌ {A = ℕ} 0 1

create_given-StashResult :
    (self func arg t prev pf pa : ℕ) (s : Cores) (xs : List ℕ)
    → (s.worker self).last_created ≡ prev
    → (s.worker self).last_created_func ≡ pf
    → (s.worker self).last_created_arg ≡ pa
    → prev ≢ t
    → IsDeque (s.runqs.deques self) xs
    → (s.runqs.deques self).bottom + 1 < 9223372036854775808
    → StashResult self func arg t prev pf pa xs (create_given self func arg t s)
unfolding create_given stash reset_thread flush_last_created_mn runq_push push_done pushed_state
create_given-StashResult self func arg t prev pf pa s xs kept kept_func kept_arg apart is small =
    elim (ℕ_discrete t 0) [
      | yes e ↦ rw e (refl, refl)
      | no ne ↦ elim (ℕ_discrete prev 0) [
        | yes z ↦
            let nothing : ((s.worker self).last_created == 0) ≡ true = ground (arith, kept, z) in
            rw (==_ne t 0 ne, nothing)
              (
                refl,
                ne,
                refl,
                rw (==_self self) refl,
                rw (==_self self) refl,
                rw (==_self self) refl,
                rw (==_self t) refl,
                inl (z, is),
              )
        | no nz ↦
            let pending : ((s.worker self).last_created == 0) ≡ false = ground (arith, kept, nz) in
            elim (cl_push_bottom-IsDeque prev (s.runqs.deques self) xs is small) [
              | inl (full, e) ↦ rw (==_ne t 0 ne, pending, kept, e) (nz, full)
              | inr (q, e, is') ↦
                  rw (==_ne t 0 ne, pending, kept, e)
                    (
                      refl,
                      ne,
                      refl,
                      rw (==_self self) refl,
                      rw (==_self self) refl,
                      rw (==_self self) refl,
                      rw (==_ne t prev (λ x. apart (sym x)), ==_self t) refl,
                      inr (
                        nz,
                        rw (==_self self) is',
                        rw (==_self prev) kept_func,
                        rw (==_self prev) kept_arg,
                      ),
                    )
            ]
      ]
    ]

-- A creation on a worker fails with -1 exactly when no descriptor is left. Else the new descriptor is
-- reset and kept back by the worker with its function and argument; the thread that was kept back
-- before stands last in the deque of the worker, with its own function and argument. It aborts only
-- on 4096 threads in that deque. The condition is that the allocator does not give out the thread
-- that is kept back.
pub thread_create_mn-StashResult :
    (self func arg : ℕ) (s : Cores) (xs : List ℕ)
    → (s.worker self).last_created ≢ (thread_alloc_mn (pools_of self s)).0
    → IsDeque (s.runqs.deques self) xs
    → (s.runqs.deques self).bottom + 1 < 9223372036854775808
    → StashResult self func arg
        (thread_alloc_mn (pools_of self s)).0
        (s.worker self).last_created
        (s.worker self).last_created_func
        (s.worker self).last_created_arg
        xs
        (thread_create_mn self func arg s)
unfolding thread_create_mn
thread_create_mn-StashResult self func arg s xs apart is small =
    let r = thread_alloc_mn (pools_of self s) in
    create_given-StashResult self func arg r.0 (s.worker self).last_created
      (s.worker self).last_created_func (s.worker self).last_created_arg (with_pools self r.1 s) xs
      (rw (==_self self) refl) (rw (==_self self) refl) (rw (==_self self) refl) apart is small
