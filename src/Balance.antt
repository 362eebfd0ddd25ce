-- ===== src/Balance.antt =====
-- The queues of all workers in src/scheduler_mn.c, with what a worker puts into them and how it finds
-- its next thread. Each operation on one queue is taken as a whole; condition variables are calls of
-- the system, of which the model keeps the worker that is signalled.
pub mod Push
pub mod Search
pub mod Round
use ein8_proj.Base.{
  ℕ, zero, suc, ◌+◌, ◌-◌, ◌%◌, ◌^◌, bit_and, bit_or, ◌==◌, leb, if◌then◌else◌, not, ◌&&◌, Option,
  none, some,
}
use ein8_proj.Base.Bits.{ctz}
use ein8_proj.Base.Word.{u32}
use ein8_proj.Sched.{Slab}
use ein8_proj.Deque.{Deque, cl_push_bottom, cl_pop_bottom}
use ein8_proj.Injector.{Injector, inj_push, try_drain_injector}
use ein8_proj.Runq.{Deques, write_deque, try_steal}

-- `runqs` and the globals beside it; the links of the injector queues are in `hot_slab`.
pub record Runqs : Type 0 where
  pub hot : Slab
  pub deques : Deques
  pub injectors : ℕ → Injector
  pub n_runqs : ℕ
  pub runq_shutdown_flag : ℕ
  pub idle_bitmap : ℕ
  pub push_rr : ℕ

abbrev pub write_injector : (ℕ → Injector) → ℕ → Injector → ℕ → Injector
write_injector js v j a = if a == v then j else js a

-- `~(1ULL << i)`
abbrev pub all_but : ℕ → ℕ
all_but i = 18446744073709551615 - 2 ^ i

-- The worker that `wake_one_idle` signals, if it signals one.
unfoldable pub wake_one_idle : (self : ℕ) → Runqs → Option ℕ
wake_one_idle self s =
    let idle = bit_and s.idle_bitmap (all_but self) in
    if idle == 0 then none else if leb s.n_runqs (ctz 64 idle) then none else some (ctz 64 idle)

unfoldable pub wake_specific : (target : ℕ) → Runqs → Option ℕ
wake_specific target s = if bit_and s.idle_bitmap (2 ^ target) == 0 then none else some target

-- `runq_push` behind the push, given its result.
unfoldable pub push_done : (self : ℕ) → Runqs → Option (ℕ × Deque) → Option (Option ℕ × Runqs)
push_done self s none = none
push_done self s (some (size, q)) = some (
  if leb 2 size then wake_one_idle self s else none,
  record s { deques = write_deque s.deques self q },
)

-- The worker that is signalled and the new state; `none` is `abort()`.
unfoldable pub runq_push : (self t : ℕ) → Runqs → Option (Option ℕ × Runqs)
runq_push self t s = push_done self s (cl_push_bottom t (s.deques self))

unfoldable pub push_external : (target t : ℕ) → Runqs → Option ℕ × Runqs
push_external target t s =
    let (j, h) = inj_push t (s.injectors target) s.hot in
    (wake_specific target s, record s { hot = h; injectors = write_injector s.injectors target j })

unfoldable pub schedule_push_balance_cb : (self t : ℕ) → Runqs → Option (Option ℕ × Runqs)
schedule_push_balance_cb self t s =
    let target = s.push_rr % s.n_runqs in
    let s = record s { push_rr = u32 (s.push_rr + 1) } in
    if target == self then runq_push self t s else some (push_external target t s)

-- How a round of `runq_pop_block` ends: with a thread, with NULL, in `pthread_cond_wait`, or in the
-- next round.
pub data Found : Type 0 where
  got : (t : ℕ) → Found
  stopped : Found
  waits : Found
  again : Found

-- The last part of a round. A worker that waits has its bit set; it clears it when it is signalled.
unfoldable pub sleep_round : (self : ℕ) → Runqs → Found × Runqs
sleep_round self s =
    let q = s.deques self in
    if (q.bottom == q.top) && (((s.injectors self).size == 0) && (s.runq_shutdown_flag == 0))
    then (waits, record s { idle_bitmap = bit_or s.idle_bitmap (2 ^ self) })
    else (
      again,
      record s { idle_bitmap = bit_and (bit_or s.idle_bitmap (2 ^ self)) (all_but self) },
    )

unfoldable pub steal_round : (self : ℕ) → Runqs → Found × Runqs
steal_round self s =
    let (t, qs) = try_steal self s.n_runqs s.deques in
    let s = record s { deques = qs } in
    let rest = sleep_round self s in if not (t == 0) then (got t, s) else rest

unfoldable pub drain_round : (self : ℕ) → Runqs → Found × Runqs
drain_round self s =
    let (t, j, h) = try_drain_injector (s.injectors self) s.hot in
    let s = record s { hot = h; injectors = write_injector s.injectors self j } in
    let rest = steal_round self s in
    if not (t == 0)
    then (got t, s)
    else if not (s.runq_shutdown_flag == 0)
    then (stopped, s)
    else rest

-- One round of the `for` of `runq_pop_block`, taken as one step: the calls that other workers make
-- between its accesses are not interleaved with it.
unfoldable pub pop_round : (self : ℕ) → Runqs → Found × Runqs
pop_round self s =
    let (t, q) = cl_pop_bottom (s.deques self) in
    let s = record s { deques = write_deque s.deques self q } in
    let rest = drain_round self s in if not (t == 0) then (got t, s) else rest
