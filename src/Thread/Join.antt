-- ===== src/Thread/Join.antt =====
-- `thread_join` of src/thread.c. The functions of the threads are not part of the library: `body` runs
-- one, given its argument, from the state in which it is called.
pub mod Cleanup
pub mod Inline
pub mod Deadlock
pub mod Stale
use ein8_proj.Base.{
  ℕ, ◌+◌, ◌-◌, ◌%◌, Option, none, some, ◌==◌, if◌then◌else◌, not, ◌&&◌, Bool, true, false,
}
use ein8_proj.Base.Int.{ℤ, pos, negsuc}
use ein8_proj.Base.Word.{u16}
use ein8_proj.Sched.{Slab, set_rsp, sched_remove, sched_replace, sched_pick_next, is_sched_empty}
use ein8_proj.Cold.{Cold, ThreadState, ready, finished}
use ein8_proj.Mono.{stored, State, Outcome, returned, write_cold}
use ein8_proj.Mono.Memory.{thread_release, stack_release}
use ein8_proj.Mono.Switch.{switch_lazy}
use ein8_proj.UnionFind.{Cells, uf_union}
use ein8_proj.Thread.{flush_last_created}

abbrev pub edeadlk : ℤ
edeadlk = pos 35

-- How the function of a thread ends: it returns a value, or it calls `thread_exit`, which stores the
-- value and jumps back.
pub data Ended : Type 0 where
  by_return : (ret : ℕ) → State → Ended
  by_jump : State → Ended

abbrev pub Body : Type 0
Body = (func arg : ℕ) → State → Ended

-- `inline_run` up to the call: `t` takes the place of the running thread.
unfoldable pub inline_begin : (jmpbuf t : ℕ) → State → State
inline_begin jmpbuf t s = record s {
  current = t;
  hot = sched_replace s.current t s.hot;
  cold = write_cold s.cold t (record (s.cold t) { started = 1; inline_jmpbuf = jmpbuf });
  inline_executing = s.inline_executing + 1;
}

unfoldable pub inline_store : (t : ℕ) → Ended → State
inline_store t (by_return ret s) = record s {
  cold = write_cold s.cold t (record (s.cold t) { retval = ret });
}
inline_store t (by_jump s) = s

-- `inline_run` behind the call: the joining thread takes its place back.
unfoldable pub inline_end : (prev t : ℕ) → State → State
inline_end prev t s = record s {
  cold = write_cold s.cold t (record (s.cold t) { inline_jmpbuf = 0; state = finished });
  inline_executing = s.inline_executing - 1;
  hot = sched_replace t prev s.hot;
  current = prev;
}

unfoldable pub inline_run : Body → (jmpbuf t fn ar : ℕ) → State → State
inline_run body jmpbuf t fn ar s =
    inline_end s.current t (inline_store t (body fn ar (inline_begin jmpbuf t s)))

-- The stack of a descriptor, if it has one, goes back to the allocator.
unfoldable pub free_stack : (t : ℕ) → State → State
free_stack t s = if (s.cold t).stack_base == 0 then s else stack_release (s.cold t).stack_base s

-- The end of `thread_join`: the value stored through `retval` unless it is NULL, and how the call ends.
unfoldable pub join_cleanup : (retval t : ℕ) → State → Option ℕ × Outcome
join_cleanup retval t s =
    let tc = record (s.cold t) { refcount = u16 ((s.cold t).refcount + 65535) } in
    let kept = record s { cold = write_cold s.cold t tc } in
    let gone = record s { cold = write_cold s.cold t (record tc { func = 0 }) } in
    (
      stored retval tc.retval,
      returned (pos 0) (if tc.refcount == 0 then thread_release t (free_stack t gone) else kept),
    )

-- A thread that is in the list but has never run is taken out, with its stack if it has one.
unfoldable pub pull_out : (t : ℕ) → State → State
pull_out t s =
    let s = flush_last_created s in
    let s = record s { hot = sched_remove t s.hot } in
    let s = free_stack t s in
    record s {
      cold = write_cold s.cold t (record (s.cold t) { stack_base = 0 });
      hot = set_rsp t 0 s.hot;
    }

-- The caller leaves the list, unless it is alone there.
unfoldable pub join_switch : (sp : ℕ) → State → Option ℕ × Outcome
join_switch sp s =
    let next = sched_pick_next s.current s.hot in
    if is_sched_empty s.current s.hot then (none, returned (negsuc 0) s) else (
      none,
      switch_lazy sp s.current next
          (record s { hot = sched_remove s.current s.hot; current = next }),
    )

-- The caller waits for `t`: it is noted there and leaves the list.
unfoldable pub join_wait : (sp t : ℕ) → State → Option ℕ × Outcome
join_wait sp t s = join_switch sp (
    flush_last_created
      (record s { cold = write_cold s.cold t (record (s.cold t) { waiting = s.current }) }))

-- `thread_join` behind the deadlock test.
unfoldable pub join_unfinished : Body → (sp jmpbuf retval t : ℕ) → State → Option ℕ × Outcome
join_unfinished body sp jmpbuf retval t s =
    let tc = s.cold t in
    let taken = record s { last_created = 0 } in
    if s.last_created == t
    then join_cleanup retval t (
        if (s.hot t).rsp == 0
        then inline_run body jmpbuf t s.last_created_func s.last_created_arg taken
        else taken)
    else if tc.started == 0 && not (tc.func == 0)
    then join_cleanup retval t (inline_run body jmpbuf t tc.func tc.func_arg (pull_out t s))
    else join_wait sp t s

abbrev pub is_finished : ThreadState → Bool
is_finished ready = false
is_finished finished = true

-- `thread_join` behind `uf_union`, whose result it takes.
unfoldable pub join_after : Body → (sp jmpbuf retval t : ℕ) → State → ℤ × Cells → Option ℕ × Outcome
join_after body sp jmpbuf retval t s (pos _, cold) =
    join_unfinished body sp jmpbuf retval t (record s { cold = cold })
join_after body sp jmpbuf retval t s (negsuc _, cold) =
    (none, returned edeadlk (record s { cold = cold }))

-- `fuel` bounds the ways up in the deadlock test.
unfoldable pub thread_join : Body → (fuel sp jmpbuf retval t : ℕ) → State → Option ℕ × Outcome
thread_join body fuel sp jmpbuf retval t s =
    if is_finished (s.cold t).state
    then join_cleanup retval t s
    else join_after body sp jmpbuf retval t s (uf_union fuel s.current t s.cold)

-- What `thread_join` does when its thread runs again after `join_wait`.
unfoldable pub thread_join_resume : (retval t : ℕ) → State → Option ℕ × Outcome
thread_join_resume retval t s = join_cleanup retval t s
