-- ===== src/WaitQueue.antt =====
-- src/thread_sync.c: the wait queues of mutexes and semaphores, linked by `sched_next`. A queue is
-- its two ends, which `wq_append` and `wq_pop` take by address.
pub mod Fifo
use ein8_proj.Base.{ℕ, ◌==◌, if◌then◌else◌}
use ein8_proj.Sched.{Slab, set_next}

pub record Ends : Type 0 where
  pub head : ℕ
  pub tail : ℕ

unfoldable pub wq_append : Ends → (t : ℕ) → Slab → Ends × Slab
wq_append q t h =
    let h = set_next t 0 h in
    if q.tail == 0
    then (record { head = t; tail = t }, h)
    else (record { head = q.head; tail = t }, set_next q.tail t h)

-- 0 is the NULL of an empty queue.
unfoldable pub wq_pop : Ends → Slab → ℕ × Ends
wq_pop q h =
    if q.head == 0
    then (0, q)
    else let rest = (h q.head).sched_next in
      (q.head, record { head = rest; tail = if rest == 0 then 0 else q.tail })
