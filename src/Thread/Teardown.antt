-- ===== src/Thread/Teardown.antt =====
-- The end of the process in src/thread.c: `thread_system_destroy` and `clean_exit`, with `mem_destroy`.
-- A call of `munmap` is noted with its area and size.
use ein8_proj.Base.{
  ◌-◌, ◌*◌, ◌^◌, ◌++◌, ◌&&◌, not, ℕ, zero, suc, ◌==◌, if◌then◌else◌, List, [], ◌∷◌, Option, none,
  some,
}
use ein8_proj.Sched.{Slab, is_sched_empty, sched_dequeue_fifo}
use ein8_proj.Sched.Ring.{Ring}
use ein8_proj.Mono.{State}
use ein8_proj.Mono.Memory.{stack_size, stack_cap, thread_cap}

-- What `mmap` gave for the two slabs, the sizes of their entries, and the areas given back by `munmap`
-- so far, oldest first.
pub record Maps : Type 0 where
  pub hot_slab : ℕ
  pub cold_slab : ℕ
  pub hot_entry : ℕ
  pub cold_entry : ℕ
  pub unmapped : List (ℕ × ℕ)

-- What is left behind `mem_destroy`: no slab can be read any more.
pub record Remains : Type 0 where
  pub current : ℕ
  pub stack_arena : ℕ
  pub maps : Maps

abbrev pub map_failed : ℕ
map_failed = 2 ^ 64 - 1

-- `if (area && area != MAP_FAILED) munmap(area, size);`
abbrev pub unmap : (area size : ℕ) → List (ℕ × ℕ) → List (ℕ × ℕ)
unmap area size us =
    if not (area == 0) && not (area == map_failed) then us ++ (area, size) ∷ [] else us

unfoldable pub mem_destroy : State → Maps → Remains
mem_destroy s m =
    let us = unmap s.stack_arena (stack_cap * stack_size) m.unmapped in
    let us = unmap m.hot_slab (thread_cap * m.hot_entry) us in
    let us = unmap m.cold_slab (thread_cap * m.cold_entry) us in
    record {
      current = s.current;
      stack_arena = 0;
      maps = record m { hot_slab = 0; cold_slab = 0; unmapped = us };
    }

-- The `while` of `thread_system_destroy`; `none` when the fuel is used up.
unfoldable pub drain : (fuel current : ℕ) → Slab → Option Slab
drain zero current h = none
drain (suc fuel) current h =
    let rest = drain fuel current (sched_dequeue_fifo current h).1 in
    if is_sched_empty current h then some h else rest

unfoldable pub destroy_with : State → Maps → Option Slab → Option Remains
destroy_with s m none = none
destroy_with s m (some h) = some (mem_destroy (record s { hot = h; current = 0 }) m)

unfoldable pub thread_system_destroy : (fuel : ℕ) → State → Maps → Option Remains
thread_system_destroy fuel s m =
    destroy_with s m (if s.current == 0 then some s.hot else drain fuel s.current s.hot)

-- `clean_exit`, up to `exit(0)`.
unfoldable pub clean_exit : State → Maps → Remains
clean_exit s m = mem_destroy (record s { current = 0 }) m
