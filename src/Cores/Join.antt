-- ===== src/Cores/Join.antt =====
-- `thread_join` of src/thread_mn.c, in the build without preemption. The functions of the threads are
-- not part of the library: `body` runs one, given its argument.
use ein8_proj.Base.{ℕ, ◌+◌, ◌-◌, ◌==◌, if◌then◌else◌, Option, none, some, true}
use ein8_proj.Base.Int.{ℤ, pos, negsuc}
use ein8_proj.Base.Word.{u16, u32}
use ein8_proj.Cold.{finished}
use ein8_proj.Mono.{write_cold}
use ein8_proj.UnionFind.{uf_union}
use ein8_proj.Thread.Join.{edeadlk, is_finished}
use ein8_proj.Cores.{
  Cores, write_worker, write_lock, unlock_cold, Ending, returns, to_scheduler, spins, aborts,
  flush_last_created_mn, schedule_park,
}
use ein8_proj.Cores.Memory.{release_thread, stack_release_mn}

-- How the function of a thread ends that runs in its joiner's place: it returns a value, or it calls
-- `thread_exit`, which stores the value and jumps back.
pub data RunEnd : Type 0 where
  came_back : (ret : ℕ) → Cores → RunEnd
  jumped_back : Cores → RunEnd

abbrev pub RunBody : Type 0
RunBody = (func arg : ℕ) → Cores → RunEnd

-- The stack and the descriptor of a thread that nobody joins any more.
unfoldable pub give_back : (self t : ℕ) → Cores → Cores
give_back self t s =
    let base = (s.cold t).stack_base in
    let freed = stack_release_mn self base s in
    let cleared = record freed {
      cold = write_cold freed.cold t (record (freed.cold t) { stack_base = 0 });
    } in
    if base == 0 then release_thread self t s else release_thread self t cleared

-- The part of `thread_join` from `cleanup` on, with the lock that it takes for the count.
unfoldable pub join_cleanup_mn : (self t : ℕ) → Cores → Ending
join_cleanup_mn self t s =
    let tc = record (s.cold t) { refcount = u16 ((s.cold t).refcount + 65535) } in
    let kept = record s { cold = write_cold s.cold t tc } in
    if s.cold_lock t
    then spins s
    else returns (some tc.retval) (pos 0) (if tc.refcount == 0 then give_back self t kept else kept)

-- A thread that runs in the place of its joiner.
unfoldable pub run_begin : (self jmpbuf t : ℕ) → Cores → Cores
run_begin self jmpbuf t s =
    let w = s.worker self in
    record s {
      cold = write_cold s.cold t (record (s.cold t) { started = 1; inline_jmpbuf = jmpbuf });
      worker =
          write_worker s.worker self
            (record w { current = t; inline_executing = w.inline_executing + 1 });
    }

unfoldable pub run_store : (t : ℕ) → RunEnd → Cores
run_store t (came_back ret s) = record s {
  cold = write_cold s.cold t (record (s.cold t) { retval = ret });
}
run_store t (jumped_back s) = s

unfoldable pub run_end : (self prev t : ℕ) → Cores → Cores
run_end self prev t s =
    let w = s.worker self in
    record s {
      cold = write_cold s.cold t (record (s.cold t) { inline_jmpbuf = 0; state = finished });
      worker =
          write_worker s.worker self
            (record w { inline_executing = w.inline_executing - 1; current = prev });
      alive_count = u32 (s.alive_count + 4294967295);
    }

-- The join of the thread created last, behind the deadlock test.
unfoldable pub join_fast_after : RunBody → (self jmpbuf t : ℕ) → Cores → ℤ → Ending
join_fast_after body self jmpbuf t s (negsuc n) =
    let w = s.worker self in
    returns none edeadlk (
      release_thread self t (record s {
        worker =
            write_worker s.worker self (record w { last_created_func = 0; last_created_arg = 0 });
        alive_count = u32 (s.alive_count + 4294967295);
      }))
join_fast_after body self jmpbuf t s (pos n) =
    let w = s.worker self in
    join_cleanup_mn self t (
      run_end self w.current t
        (run_store t (body w.last_created_func w.last_created_arg (run_begin self jmpbuf t s))))

unfoldable pub join_fast : RunBody → (fuel self jmpbuf t : ℕ) → Cores → Ending
join_fast body fuel self jmpbuf t s =
    let w = s.worker self in
    let (code, cold) = uf_union fuel w.current t s.cold in
    join_fast_after body self jmpbuf t
      (record s {
        cold = cold;
        worker = write_worker s.worker self (record w { last_created = 0 });
      })
      code

-- The joiner takes the lock, and leaves it to its callback to give it back.
unfoldable pub join_park : (self rsp t : ℕ) → Cores → ℤ → Ending
join_park self rsp t s (negsuc n) = returns none edeadlk s
join_park self rsp t s (pos n) = to_scheduler (
    schedule_park self rsp (unlock_cold t) (record s {
      cold = write_cold s.cold t (record (s.cold t) { waiting = (s.worker self).current });
      cold_lock = write_lock s.cold_lock t true;
    }))

-- `thread_join` behind the flush, at the lock of the thread.
unfoldable pub join_locked : (fuel self rsp t : ℕ) → Cores → Ending
join_locked fuel self rsp t s =
    let (code, cold) = uf_union fuel (s.worker self).current t s.cold in
    if s.cold_lock t
    then spins s
    else if is_finished (s.cold t).state
    then join_cleanup_mn self t s
    else join_park self rsp t (record s { cold = cold }) code

unfoldable pub join_flushed : (fuel self rsp t : ℕ) → Option Cores → Ending
join_flushed fuel self rsp t none = aborts
join_flushed fuel self rsp t (some s) = join_locked fuel self rsp t s

unfoldable pub thread_join_mn : RunBody → (fuel self jmpbuf rsp t : ℕ) → Cores → Ending
thread_join_mn body fuel self jmpbuf rsp t s =
    if (s.worker self).last_created == t
    then join_fast body fuel self jmpbuf t s
    else join_flushed fuel self rsp t (flush_last_created_mn self s)
