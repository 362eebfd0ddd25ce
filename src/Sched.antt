-- ===== src/Sched.antt =====
-- src/scheduler.h and the slab entries of src/thread_internal.h: the circular, doubly linked list of
-- ready threads, in which the running thread always stands.
pub mod Ring
pub mod Ops
pub mod Replace
pub mod Pick
pub mod Frame
use ein8_proj.Base.{ℕ, Bool, ◌==◌, if◌then◌else◌, ltb, zero, suc}

-- `thread_hot_t`
pub record Hot : Type 0 where
  pub rsp : ℕ
  pub sched_next : ℕ
  pub sched_prev : ℕ
  pub priority : ℕ

-- The slab of hot descriptors, read through a pointer.
abbrev pub Slab : Type 0
Slab = ℕ → Hot

abbrev pub write : Slab → ℕ → Hot → Slab
write h p c a = if a == p then c else h a

abbrev pub set_next : ℕ → ℕ → Slab → Slab
set_next p v h = write h p (record (h p) { sched_next = v })

abbrev pub set_prev : ℕ → ℕ → Slab → Slab
set_prev p v h = write h p (record (h p) { sched_prev = v })

abbrev pub set_rsp : ℕ → ℕ → Slab → Slab
set_rsp p v h = write h p (record (h p) { rsp = v })

-- `current` is an argument of each function that reads it.
pub sched_enqueue : (current t : ℕ) → Slab → Slab
sched_enqueue current t h =
    let prev = (h current).sched_prev in
    let h = set_next t current h in
    let h = set_prev t prev h in let h = set_next prev t h in set_prev current t h

pub sched_dequeue_fifo : (current : ℕ) → Slab → ℕ × Slab
sched_dequeue_fifo current h =
    let t = (h current).sched_next in
    let h = set_next current (h t).sched_next h in (t, set_prev (h t).sched_next current h)

pub is_sched_empty : (current : ℕ) → Slab → Bool
is_sched_empty current h = (h current).sched_next == current

pub sched_remove : (t : ℕ) → Slab → Slab
sched_remove t h =
    let h = set_next (h t).sched_prev (h t).sched_next h in
    set_prev (h t).sched_next (h t).sched_prev h

pub sched_replace : (old new_t : ℕ) → Slab → Slab
sched_replace old new_t h =
    let h = set_next new_t (h old).sched_next h in
    let h = set_prev new_t (h old).sched_prev h in
    if (h old).sched_next == old
    then set_prev new_t new_t (set_next new_t new_t h)
    else let h = set_prev (h new_t).sched_next new_t h in set_next (h new_t).sched_prev new_t h

-- The `for` of `sched_pick_highest`, with the threads still to look at on fuel.
pub pick_loop : (fuel current best t : ℕ) → Slab → ℕ
pick_loop zero current best t h = best
pick_loop (suc fuel) current best t h =
    let best' = if ltb (h best).priority (h t).priority then t else best in
    let rest = pick_loop fuel current best' (h t).sched_next h in
    if t == current then best else rest

pub sched_pick_highest : (fuel current : ℕ) → Slab → ℕ
sched_pick_highest fuel current h =
    let best = (h current).sched_next in pick_loop fuel current best (h best).sched_next h

-- `sched_pick_next` without USE_PRIORITY
pub sched_pick_next : (current : ℕ) → Slab → ℕ
sched_pick_next current h = (h current).sched_prev
