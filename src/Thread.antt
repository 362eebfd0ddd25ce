-- ===== src/Thread.antt =====
-- src/thread.c: creation, yield, join and exit, with the globals of Mono. A call that gives up the
-- processor ends with `switched`; what it does when its thread runs again is a function of its own,
-- named `_resume`.
pub mod Priority
pub mod Flush
pub mod Start
pub mod Join
pub mod Exit
pub mod Boot
pub mod Teardown
use ein8_proj.Base.{ℕ, ◌+◌, ◌-◌, Option, none, some, ◌==◌, if◌then◌else◌, not}
use ein8_proj.Base.Int.{ℤ, pos, negsuc}
use ein8_proj.Sched.{
  Slab, write, set_rsp, sched_enqueue, sched_remove, sched_replace, sched_pick_next, is_sched_empty,
}
use ein8_proj.Cold.{Cold, ready, finished, thread_cold_reset}
use ein8_proj.Mono.{State, Outcome, returned, exited, jumped, write_cold}
use ein8_proj.Mono.Memory.{thread_alloc, thread_release, stack_release}
use ein8_proj.Mono.Switch.{switch_lazy, restore_lazy}

abbrev pub default_priority : ℕ
default_priority = 3

abbrev pub set_priority : ℕ → ℕ → Slab → Slab
set_priority t v h = write h t (record (h t) { priority = v })

unfoldable pub flush_last_created_slow : State → State
flush_last_created_slow s =
    let lc = s.last_created in
    let tc = record (s.cold lc) { func = s.last_created_func; func_arg = s.last_created_arg } in
    record s {
      cold = write_cold s.cold lc tc;
      hot = sched_enqueue s.current lc s.hot;
      last_created = 0;
    }

unfoldable pub flush_last_created : State → State
flush_last_created s = if s.last_created == 0 then s else flush_last_created_slow s

-- The descriptor `t` as `thread_create` leaves it, the former last one flushed.
unfoldable pub set_up : (t func arg : ℕ) → State → State
set_up t func arg s =
    let s = record s {
      cold = write_cold s.cold t (thread_cold_reset t);
      hot = set_priority t default_priority (set_rsp t 0 s.hot);
    } in
    record (flush_last_created s) {
      last_created = t;
      last_created_func = func;
      last_created_arg = arg;
    }

-- `thread_create` behind the call of `thread_alloc`: the value stored through `newthread`, if any,
-- and how the call ends.
unfoldable pub create_from : (func arg : ℕ) → Option ℕ × State → Option ℕ × Outcome
create_from func arg (none, s) = (none, returned (negsuc 0) s)
create_from func arg (some t, s) = (some t, returned (pos 0) (set_up t func arg s))

unfoldable pub thread_create : (func arg : ℕ) → State → Option ℕ × Outcome
thread_create func arg s = create_from func arg (thread_alloc s)

unfoldable pub thread_self : State → ℕ
thread_self s = s.current

-- `.Lyield_fast` of src/context_switch.S, up to the switch, with `.Lyield_lazy`.
unfoldable pub yield_fast : (sp : ℕ) → State → Outcome
yield_fast sp s =
    let next = (s.hot s.current).sched_next in
    if s.current == next
    then returned (pos 0) s
    else switch_lazy sp s.current next (record s { current = next })

-- `thread_yield_asm`
unfoldable pub thread_yield : (sp : ℕ) → State → Outcome
thread_yield sp s =
    if not (s.inline_executing == 0)
    then returned (pos 0) s
    else yield_fast sp (flush_last_created s)

-- A stack that waits to be given back is given back.
unfoldable pub free_pending : State → State
free_pending s = if s.pending_dead_stack == 0 then s else stack_release s.pending_dead_stack s

-- Behind the switch of `thread_yield_asm`: the stack of a thread that has exited is given back.
unfoldable pub thread_yield_resume : State → Outcome
thread_yield_resume s = returned (pos 0) (record (free_pending s) { pending_dead_stack = 0 })

-- `thread_entry` up to the call of the thread's function.
unfoldable pub thread_entry_start : State → State
thread_entry_start s = record s {
  cold = write_cold s.cold s.current (record (s.cold s.current) { started = 1 });
}

-- The stack of the exiting thread waits in its turn.
unfoldable pub retire_stack : (me : ℕ) → State → State
retire_stack me s =
    let s = free_pending s in
    record s {
      pending_dead_stack = (s.cold me).stack_base;
      cold = write_cold s.cold me (record (s.cold me) { stack_base = 0 });
    }

-- The end of `thread_exit`: the process leaves, or the next thread runs.
unfoldable pub exit_switch : (me : ℕ) → State → Outcome
exit_switch me s =
    let next = sched_pick_next s.current s.hot in
    let left = retire_stack me (record s { hot = sched_remove s.current s.hot }) in
    if is_sched_empty s.current s.hot
    then exited s
    else restore_lazy next (record left { current = next })

-- `thread_exit` of a thread that nobody has joined yet.
unfoldable pub exit_unjoined : (me : ℕ) → State → Outcome
exit_unjoined me s = exit_switch me (
    flush_last_created (record s { cold = write_cold s.cold me (record (s.cold me) { func = 0 }) }))

unfoldable pub thread_exit : (retval : ℕ) → State → Outcome
thread_exit retval s =
    let me = s.current in
    let cc = record (s.cold me) { retval = retval } in
    let s' = record s { cold = write_cold s.cold me cc } in
    let s'' = record s { cold = write_cold s.cold me (record cc { state = finished }) } in
    if not (cc.inline_jmpbuf == 0)
    then jumped cc.inline_jmpbuf s'
    else if not (cc.waiting == 0)
    then restore_lazy cc.waiting
        (record s'' { hot = sched_replace me cc.waiting s.hot; current = cc.waiting })
    else exit_unjoined me s''
