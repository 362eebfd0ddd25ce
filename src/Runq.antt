-- ===== src/Runq.antt =====
-- `try_steal` of src/scheduler_mn.c: a worker without work looks at the deques of the other workers,
-- one after the other. Each steal is taken as a whole, as in Deque.
pub mod Steal
use ein8_proj.Base.{ℕ, zero, suc, ◌+◌, ◌-◌, ◌%◌, ◌==◌, leb, if◌then◌else◌}
use ein8_proj.Deque.{Deque, cl_steal}

-- The deques of the workers, by their number.
abbrev pub Deques : Type 0
Deques = ℕ → Deque

abbrev pub write_deque : Deques → ℕ → Deque → Deques
write_deque qs v q a = if a == v then q else qs a

-- The `for` of `try_steal` from `i` on, with the rounds that are left as fuel.
unfoldable pub steal_loop : (fuel i self n : ℕ) → Deques → ℕ × Deques
steal_loop zero i self n qs = (0, qs)
steal_loop (suc fuel) i self n qs =
    let v = (self + i) % n in
    let (t, q) = cl_steal (qs v) in
    let rest = steal_loop fuel (i + 1) self n (write_deque qs v q) in
    if t == 0 then rest else (t, write_deque qs v q)

unfoldable pub try_steal : (self n : ℕ) → Deques → ℕ × Deques
try_steal self n qs = if leb n 1 then (0, qs) else steal_loop (n - 1) 1 self n qs
