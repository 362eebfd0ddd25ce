-- ===== src/Thread/Priority.antt =====
-- Priorities of src/thread.c.
use ein8_proj.Base.{
  ℕ, ◌≤◌, ◌≡◌, ◌≢◌, false, refl, arith, ==_self, ==_ne, if◌then◌else◌, ltb, Option, some, none,
  List,
}
use ein8_proj.Base.Int.{ℤ, pos, negsuc}
use ein8_proj.Sched.Ring.{Ring, Ring-relink}
use ein8_proj.Mono.{State, Outcome, returned}
use ein8_proj.Thread.{set_priority}

abbrev pub max_priority : ℕ
max_priority = 7

-- `priority` is an `int`; below 0 and above 7 it is refused.
pub thread_setpriority : (thread : ℕ) → ℤ → State → Outcome
thread_setpriority thread (negsuc n) s = returned (negsuc 0) s
thread_setpriority thread (pos n) s =
    if ltb max_priority n
    then returned (negsuc 0) s
    else returned (pos 0) (record s { hot = set_priority thread n s.hot })

-- `stored` says whether the pointer for the result is not NULL.
pub thread_getpriority : (thread : ℕ) → (stored : Option (Unit {0})) → State → Option ℕ × Outcome
thread_getpriority thread none s = (none, returned (negsuc 0) s)
thread_getpriority thread (some _) s = (some (s.hot thread).priority, returned (pos 0) s)

-- A priority from 0 to 7 that is set is read back, the priorities of the other threads and the ready
-- list stay as they are; any other number gives -1 and changes nothing.
pub getpriority-setpriority :
    (thread n c : ℕ) (xs : List ℕ) (s : State)
    → n ≤ max_priority
    → Ring s.hot c xs
    → (s' : State) × (thread_setpriority thread (pos n) s ≡ returned (pos 0) s')
      × (thread_getpriority thread (some tt) s' ≡ (some n, returned (pos 0) s'))
      × ((a : ℕ) → a ≢ thread → s'.hot a ≡ s.hot a)
      × Ring s'.hot c xs
unfolding thread_setpriority thread_getpriority
getpriority-setpriority thread n c xs s h r =
    let small : ltb max_priority n ≡ false = ground arith in
    (
      record s { hot = set_priority thread n s.hot },
      rw small refl,
      rw (==_self thread) refl,
      λ a ne. rw (==_ne a thread ne) refl,
      Ring-relink s.hot (set_priority thread n s.hot) c xs r (λ a. ground arith),
    )
