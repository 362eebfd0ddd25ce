-- ===== src/Thread/Join/Inline.antt =====
-- `inline_run` of src/thread.c: a thread runs in the place of the one that joins it.
use ein8_proj.Base.{ℕ, ◌+◌, ◌≡◌, ◌≢◌, refl, arith, ==_self, List, ◌∷◌, ◌∉◌}
use ein8_proj.Sched.Ring.{Ring}
use ein8_proj.Sched.Replace.{Ring-sched_replace}
use ein8_proj.Cold.{finished}
use ein8_proj.Mono.{State}
use ein8_proj.Thread.Join.{
  Ended, by_return, by_jump, Body, inline_begin, inline_store, inline_end, inline_run,
}

abbrev pub ended_state : Ended → State
ended_state (by_return ret s) = s
ended_state (by_jump s) = s

-- The value of the thread: the one returned, or the one that `thread_exit` stored.
abbrev pub ended_value : ℕ → Ended → ℕ
ended_value t (by_return ret s) = ret
ended_value t (by_jump s) = (s.cold t).retval

-- The thread is back where it started: it runs, in its place, and inline runs inside it are over.
pub record Balanced (t prev : ℕ) (depth : ℕ) (ys : List ℕ) (s : State) : Type 0 where
  pub running : s.current ≡ t
  pub ring : Ring s.hot t ys
  pub joiner_out : prev ∉ t ∷ ys
  pub depth_kept : s.inline_executing ≡ depth

-- When the inline run starts, the thread stands in the place of the joining one.
pub inline_begin-Ring :
    (jmpbuf t : ℕ) (s : State) (xs : List ℕ)
    → Ring s.hot s.current xs
    → t ∉ s.current ∷ xs
    → t ≢ 0
    → Ring (inline_begin jmpbuf t s).hot t xs
      × ((inline_begin jmpbuf t s).inline_executing ≡ s.inline_executing + 1)
unfolding inline_begin
inline_begin-Ring jmpbuf t s xs r out ne = (Ring-sched_replace s.hot s.current t xs r out ne, refl)

inline_store-same :
    (t : ℕ) (e : Ended)
    → ((inline_store t e).hot ≡ (ended_state e).hot)
      × ((inline_store t e).inline_executing ≡ (ended_state e).inline_executing)
      × (((inline_store t e).cold t).retval ≡ ended_value t e)
unfolding inline_store
inline_store-same t (by_return ret s) = (refl, refl, rw (==_self t) refl)
inline_store-same t (by_jump s) = (refl, refl, refl)

-- An inline run whose function leaves the list with its own thread at the head, whatever it did to
-- the others, gives the place back to the joining thread; the thread is finished with its value, has
-- no jump buffer any more, and the count of inline runs is as before.
pub inline_run-Ring :
    (body : Body) (jmpbuf t fn ar : ℕ) (s : State) (ys : List ℕ)
    → s.current ≢ 0
    → Balanced t s.current
        (s.inline_executing + 1)
        ys
        (ended_state (body fn ar (inline_begin jmpbuf t s)))
    → record {
      current : (inline_run body jmpbuf t fn ar s).current ≡ s.current;
      ring : Ring (inline_run body jmpbuf t fn ar s).hot s.current ys;
      depth : (inline_run body jmpbuf t fn ar s).inline_executing ≡ s.inline_executing;
      value :
          ((inline_run body jmpbuf t fn ar s).cold t).retval
          ≡ ended_value t (body fn ar (inline_begin jmpbuf t s));
      state : ((inline_run body jmpbuf t fn ar s).cold t).state ≡ finished;
      no_jump : ((inline_run body jmpbuf t fn ar s).cold t).inline_jmpbuf ≡ 0;
    }
unfolding inline_run inline_end
inline_run-Ring body jmpbuf t fn ar s ys ne bal =
    let e = body fn ar (inline_begin jmpbuf t s) in
    let (hot, depth, value) = inline_store-same t e in
    record {
      current = refl;
      ring =
          rw hot (Ring-sched_replace (ended_state e).hot t s.current ys bal.ring bal.joiner_out ne);
      depth = omega (arith, depth, bal.depth_kept);
      value = rw (==_self t) value;
      state = rw (==_self t) refl;
      no_jump = rw (==_self t) refl;
    }
