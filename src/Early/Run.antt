-- ===== src/Early/Run.antt =====
-- The calls of the first version of the library together, under options/src.
use ein8_proj.Base.{
  inl, ◌||◌, ℕ, ◌<◌, ◌≡◌, ◌≢◌, refl, Bool, true, List, [], Option, none, some, ◌⊎◌,
}
use ein8_proj.Base.Int.{pos}
use ein8_proj.Early.{Process, Outcome, returned}
use ein8_proj.Early.Queue.{TailQueue}
use ein8_proj.Early.Calls.{
  thread_yield_early, thread_create_early, set_joining, thread_join_early, thread_exit_early,
}
use ein8_proj.Early.Mutex.{mutex_lock_early, mutex_unlock_early}
use ein8_proj.Early.Places.{is_new, Place, absent, known}
use ein8_proj.Early.Sound.{Sound, SoundOutcome}
use ein8_proj.Early.Walk.{Walk}
use ein8_proj.Early.Mutex.{mutex_init_early, mutex_destroy_early}
use ein8_proj.Early.Steps.{thread_yield_early-SoundOutcome, thread_create_early-SoundOutcome}
use ein8_proj.Early.Join.{thread_join_early-SoundOutcome}
use ein8_proj.Early.Leave.{thread_exit_early-SoundOutcome}
use ein8_proj.Early.Locks.{
  mutex_lock_early-SoundOutcome, mutex_unlock_early-SoundOutcome, mutex_init_early-SoundOutcome,
}

-- A call of the running thread, with the blocks that `malloc` gives it.
pub data Call : Type 0 where
  call_create : (t stack func arg : ℕ) → Call
  call_yield : Call
  call_join : (t : ℕ) → Call
  call_exit : (value : ℕ) → Call
  call_init call_destroy call_lock call_unlock : (m : ℕ) → Call

module _ (Q : TailQueue) where
  open Q use {Queue, contents, contents-init}

  abbrev pub perform : (fuel : ℕ) → Call → Process Queue → Option (Outcome Queue)
  perform fuel (call_create t stack func arg) s = some (thread_create_early Q t stack func arg s)
  perform fuel call_yield s = some (thread_yield_early Q s)
  perform fuel (call_join t) s = thread_join_early Q fuel t s
  perform fuel (call_exit value) s = some (thread_exit_early Q value s)
  perform fuel (call_init m) s = some (mutex_init_early Q m s)
  perform fuel (call_destroy m) s = some (mutex_destroy_early Q m s)
  perform fuel (call_lock m) s = some (mutex_lock_early Q m s)
  perform fuel (call_unlock m) s = some (mutex_unlock_early Q m s)

  -- What the code relies on: a new descriptor is in no use; a thread that is joined is there, nobody
  -- joins it yet and the walk of the test ends; a call that blocks leaves a ready thread; nobody
  -- waits for a mutex that is set up.
  abbrev pub Allowed :
      (fuel : ℕ) → Process Queue → (ℕ → Place) → List ℕ → (ℕ → List ℕ) → Call → Type 0
  Allowed fuel s place rs bs (call_create t stack func arg) = place t ≡ absent
  Allowed fuel s place rs bs (call_join t) =
      (known (place t) ≡ true)
      × ((s.heap t).waiting ≡ 0)
      × (rs ≢ [])
      × ((n : ℕ) × (met : Bool) × (n < fuel) × Walk (set_joining Q t s).heap s.current n t met)
  Allowed fuel s place rs bs (call_init m) = bs m ≡ []
  Allowed fuel s place rs bs (call_lock m) = ((s.mutexes m).locked ≡ 0) ⊎ (rs ≢ [])
  Allowed fuel s place rs bs _ = Unit

  mutex_destroy_early_same :
      (m : ℕ) (s : Process Queue)
      → ◌≡◌ {A = Option (Outcome Queue)}
          (some (mutex_destroy_early Q m s))
          (some (returned (pos 0) none s))
  unfolding mutex_destroy_early
  mutex_destroy_early_same m s = refl

  -- The threads that there are after a call, but for the one that it joins.
  abbrev pub expected : (ℕ → Place) → Call → ℕ → Bool
  expected place (call_create t stack func arg) a = known (place a) || is_new t stack a
  expected place _ a = known (place a)

  -- A call that is allowed returns, and leaves each thread in one place: running, ready, waiting for
  -- one mutex or for one thread that has not ended, or at its end. Each thread that there was, and the
  -- one that a successful creation made, is still there, but for the one that the join which goes on
  -- has joined: that one has ended, its value is given, and it is freed. No jump leads to a frame that
  -- is gone, and the process ends only when no thread is ready.
  pub perform-SoundOutcome :
      (fuel : ℕ) (call : Call) (s : Process Queue) (place : ℕ → Place) (rs : List ℕ)
      (bs : ℕ → List ℕ)
      → Sound Q s.heap s.ready_queue s.mutexes s.current place rs bs
      → Allowed fuel s place rs bs call
      → (o : Outcome Queue) × (perform fuel call s ≡ some o)
        × SoundOutcome Q (expected place call) o
  perform-SoundOutcome fuel (call_create t stack func arg) s place rs bs so fresh =
      (_, refl, thread_create_early-SoundOutcome Q t stack func arg s place rs bs so fresh)
  perform-SoundOutcome fuel call_yield s place rs bs so ok =
      (_, refl, thread_yield_early-SoundOutcome Q s place rs bs so)
  perform-SoundOutcome fuel (call_join t) s place rs bs so
        (there, free, others, (n, met, low, walk)) =
      thread_join_early-SoundOutcome Q fuel n t met s place rs bs so there free others walk low
  perform-SoundOutcome fuel (call_exit value) s place rs bs so ok =
      (_, refl, thread_exit_early-SoundOutcome Q value s place rs bs so)
  perform-SoundOutcome fuel (call_init m) s place rs bs so nobody =
      (_, refl, mutex_init_early-SoundOutcome Q m s place rs bs so nobody)
  perform-SoundOutcome fuel (call_destroy m) s place rs bs so ok =
      (returned (pos 0) none s, mutex_destroy_early_same m s, (place, rs, bs, so, λ a k. inl k))
  perform-SoundOutcome fuel (call_lock m) s place rs bs so can =
      (_, refl, mutex_lock_early-SoundOutcome Q m s place rs bs so can)
  perform-SoundOutcome fuel (call_unlock m) s place rs bs so ok =
      (_, refl, mutex_unlock_early-SoundOutcome Q m s place rs bs so)
