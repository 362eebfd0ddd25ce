-- ===== src/Injector/Order.antt =====
-- An injector queue of src/scheduler_mn.c is first in, first out, and its size is right.
use ein8_proj.Base.{
  ℕ, ◌+◌, ◌≡◌, ◌≢◌, refl, arith, ◌==◌, ==_ne, true, false, List, [], ◌∷◌, ◌++◌, length,
  length-append, ◌∉◌, ℕ_discrete,
}
use ein8_proj.Sched.{Slab, set_next}
use ein8_proj.WaitQueue.{wq_append, wq_pop}
use ein8_proj.WaitQueue.Fifo.{
  IsQueue, wq_append-IsQueue, wq_append-frame, wq_pop-cons, IsQueue-frame,
}
use ein8_proj.Injector.{Injector, inj_push, try_drain_injector}

-- The queue holds the threads `ts`, oldest first, and counts them.
pub record IsInjector (h : Slab) (j : Injector) (ts : List ℕ) : Type 0 where
  pub queue : IsQueue h j.ends ts
  pub counted : j.size ≡ length ts

-- It is the queue of mutexes and semaphores, with a count.
inj_push-wq_append :
    (t : ℕ) (j : Injector) (h : Slab)
    → (((inj_push t j h).0).ends ≡ (wq_append j.ends t h).0)
      × ((inj_push t j h).1 ≡ (wq_append j.ends t h).1)
      × (((inj_push t j h).0).size ≡ j.size + 1)
unfolding inj_push wq_append
inj_push-wq_append t j h = elim (ℕ_discrete j.ends.tail 0) [
  | yes e ↦
      let first : (j.ends.tail == 0) ≡ true = ground arith in
      (rw first refl, rw first refl, rw first refl)
  | no ne ↦ rw (==_ne j.ends.tail 0 ne) (refl, refl, refl)
]

-- `inj_push` puts a thread that is not in the queue behind the others.
pub inj_push-IsInjector :
    (t : ℕ) (j : Injector) (h : Slab) (ts : List ℕ)
    → IsInjector h j ts
    → t ∉ ts
    → t ≢ 0
    → IsInjector (inj_push t j h).1 (inj_push t j h).0 (ts ++ t ∷ [])
inj_push-IsInjector t j h ts is out ne =
    let (e, g, n) = inj_push-wq_append t j h in
    record {
      queue = rw (e, g) (wq_append-IsQueue h j.ends ts t is.queue out ne);
      counted = omega (arith, n, is.counted, length-append ts (t ∷ []));
    }

-- `try_drain_injector` takes the oldest thread out, clears its link and keeps the others.
pub try_drain_injector-cons :
    (x : ℕ) (j : Injector) (h : Slab) (ts : List ℕ)
    → IsInjector h j (x ∷ ts)
    → ((try_drain_injector j h).0 ≡ x)
      × IsInjector (try_drain_injector j h).2 (try_drain_injector j h).1 ts
      × (((try_drain_injector j h).2 x).sched_next ≡ 0)
unfolding try_drain_injector wq_pop
try_drain_injector-cons x j h ts is =
    let (e, more) = wq_pop-cons h j.ends x ts is.queue in
    let some_there : (j.size == 0) ≡ false = ground (arith, is.counted) in
    let real : (j.ends.head == 0) ≡ false = ground (arith, is.queue.linked) in
    let ends = (wq_pop j.ends h).1 in
    let left =
      IsQueue-frame h (set_next j.ends.head 0 h) ends ts more
        (λ a i. ground (arith, is.queue.linked, is.queue.distinct)) in
    rw (some_there, real)
      (
        is.queue.linked.0,
        record { queue = rw real at left; counted = omega (arith, is.counted) },
        ground (arith, is.queue.linked),
      )

-- A push writes the links of its thread and of the queue's threads alone.
pub inj_push-frame :
    (t : ℕ) (j : Injector) (h : Slab) (ts : List ℕ) (a : ℕ)
    → IsInjector h j ts
    → a ∉ ts
    → a ≢ t
    → (inj_push t j h).1 a ≡ h a
inj_push-frame t j h ts a is out ne =
    let (_, g, _) = inj_push-wq_append t j h in
    rw g (wq_append-frame h j.ends ts t a is.queue out ne)

-- A drain writes the link of its thread alone.
pub try_drain_injector-frame :
    (x : ℕ) (j : Injector) (h : Slab) (ts : List ℕ) (a : ℕ)
    → IsInjector h j (x ∷ ts)
    → a ≢ x
    → (try_drain_injector j h).2 a ≡ h a
unfolding try_drain_injector
try_drain_injector-frame x j h ts a is ne =
    let some_there : (j.size == 0) ≡ false = ground (arith, is.counted) in
    let real : (j.ends.head == 0) ≡ false = ground (arith, is.queue.linked) in
    rw (some_there, real) (ground (arith, is.queue.linked))

-- An empty queue gives NULL and stays as it is.
pub try_drain_injector-nil :
    (j : Injector) (h : Slab) → IsInjector h j [] → try_drain_injector j h ≡ (0, j, h)
unfolding try_drain_injector
try_drain_injector-nil j h is =
    let nothing : (j.size == 0) ≡ true = ground (arith, is.counted) in rw nothing refl
