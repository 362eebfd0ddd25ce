-- ===== src/Cores/Exit.antt =====
-- `thread_exit` of src/thread_mn.c, in the build without preemption.
use ein8_proj.Base.{ℕ, ◌+◌, ◌==◌, if◌then◌else◌, Option, none, some}
use ein8_proj.Base.Word.{u32}
use ein8_proj.Cold.{finished}
use ein8_proj.Mono.{write_cold}
use ein8_proj.Cores.{
  Cores, write_worker, wake_waiter, Ending, to_scheduler, spins, jumps, exits, aborts,
  flush_last_created_mn, schedule_exit,
}

-- The callback that wakes the joiner, if there is one.
unfoldable pub note_waiter : (self waiter : ℕ) → Cores → Cores
note_waiter self waiter s = if waiter == 0 then s else record s {
  worker = write_worker s.worker self (record (s.worker self) { after = wake_waiter waiter });
}

-- The last thread ends the process.
unfoldable pub exit_counted : (self : ℕ) → Cores → Ending
exit_counted self s =
    let s = record s { alive_count = u32 (s.alive_count + 4294967295) } in
    if s.alive_count == 0
    then exits (record s { runqs = record s.runqs { runq_shutdown_flag = 1 } })
    else to_scheduler (schedule_exit self s)

-- `thread_exit` behind the flush, at the lock of the thread.
unfoldable pub exit_locked : (self : ℕ) → Cores → Ending
exit_locked self s =
    let me = (s.worker self).current in
    let waiter = (s.cold me).waiting in
    if s.cold_lock me
    then spins s
    else exit_counted self (
        note_waiter self waiter (record s {
          cold = write_cold s.cold me (record (s.cold me) { state = finished; waiting = 0 });
        }))

unfoldable pub exit_flushed : (self : ℕ) → Option Cores → Ending
exit_flushed self none = aborts
exit_flushed self (some s) = exit_locked self s

unfoldable pub thread_exit_mn : (self value : ℕ) → Cores → Ending
thread_exit_mn self value s =
    let me = (s.worker self).current in
    let s = record s { cold = write_cold s.cold me (record (s.cold me) { retval = value }) } in
    if (s.cold me).inline_jmpbuf == 0
    then exit_flushed self (flush_last_created_mn self s)
    else jumps (s.cold me).inline_jmpbuf s
