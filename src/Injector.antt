-- ===== src/Injector.antt =====
-- The injector queues of src/scheduler_mn.c, by which a worker hands threads to another one. The lock
-- that guards a queue makes each operation one step; the wake-up of the other worker is a call of the
-- operating system and left out.
pub mod Order
use ein8_proj.Base.{ℕ, ◌+◌, ◌-◌, ◌==◌, if◌then◌else◌}
use ein8_proj.Sched.{Slab, set_next}
use ein8_proj.WaitQueue.{Ends}

-- `inj_head`, `inj_tail` and `inj_size` of `worker_runq_t`
pub record Injector : Type 0 where
  pub ends : Ends
  pub size : ℕ

unfoldable pub inj_push : (t : ℕ) → Injector → Slab → Injector × Slab
inj_push t j h =
    let h = set_next t 0 h in
    if j.ends.tail == 0
    then (record { ends = record { head = t; tail = t }; size = j.size + 1 }, h)
    else (
      record { ends = record { head = j.ends.head; tail = t }; size = j.size + 1 },
      set_next j.ends.tail t h,
    )

-- `try_drain_injector`; 0 is NULL.
unfoldable pub try_drain_injector : Injector → Slab → ℕ × Injector × Slab
try_drain_injector j h =
    let t = j.ends.head in
    let rest = (h t).sched_next in
    if j.size == 0 then (0, j, h) else if t == 0 then (0, j, h) else (
      t,
      record {
        ends = record { head = rest; tail = if rest == 0 then 0 else j.ends.tail };
        size = j.size - 1;
      },
      set_next t 0 h,
    )
