-- ===== src/Cores/Memory.antt =====
-- src/thread_mn.c: a worker gives stacks and descriptors back, through its caches.
use ein8_proj.Base.{ℕ, zero, suc, ◌+◌, ◌-◌, ◌==◌, ltb, if◌then◌else◌}
use ein8_proj.Mono.{write_word}
use ein8_proj.Mono.Memory.{freelist_ptr}
use ein8_proj.Cache.{Pools, thread_release_mn}
use ein8_proj.Cores.{Cores, write_worker}

abbrev pub s_cache_max : ℕ
s_cache_max = 16

abbrev pub s_cache_refill : ℕ
s_cache_refill = 8

-- The descriptors as `thread_release` of worker `self` sees them.
abbrev pub pools_of : (self : ℕ) → Cores → Pools
pools_of self s = record {
  hot = s.runqs.hot;
  thread_free_head = s.thread_free_head;
  t_cache_head = (s.worker self).t_cache_head;
  t_cache_count = (s.worker self).t_cache_count;
  thread_slab_next = s.thread_slab_next;
  cold_lock = s.cold_lock;
}

abbrev pub with_pools : (self : ℕ) → Pools → Cores → Cores
with_pools self p s = record s {
  runqs = record s.runqs { hot = p.hot };
  thread_free_head = p.thread_free_head;
  thread_slab_next = p.thread_slab_next;
  cold_lock = p.cold_lock;
  worker =
      write_worker s.worker self
        (record (s.worker self) { t_cache_head = p.t_cache_head; t_cache_count = p.t_cache_count });
}

unfoldable pub release_thread : (self t : ℕ) → Cores → Cores
release_thread self t s = with_pools self (thread_release_mn t (pools_of self s)) s

-- One round of the `for` of `stack_release`: the head of the cache goes to the global list.
unfoldable pub flush_stack : (self : ℕ) → Cores → Cores
flush_stack self s =
    let w = s.worker self in
    let x = w.s_cache_head in
    record s {
      mem = write_word s.mem (freelist_ptr x) s.stack_free_head;
      stack_free_head = x;
      worker =
          write_worker s.worker self (record w {
            s_cache_head = s.mem (freelist_ptr x);
            s_cache_count = w.s_cache_count - 1;
          });
    }

unfoldable pub flush_stacks : (rounds self : ℕ) → Cores → Cores
flush_stacks zero self s = s
flush_stacks (suc rounds) self s =
    let rest = flush_stacks rounds self (flush_stack self s) in
    if (s.worker self).s_cache_head == 0 then s else rest

unfoldable pub stack_to_global : (b : ℕ) → Cores → Cores
stack_to_global b s = record s {
  mem = write_word s.mem (freelist_ptr b) s.stack_free_head;
  stack_free_head = b;
}

unfoldable pub stack_release_mn : (self b : ℕ) → Cores → Cores
stack_release_mn self b s =
    let w = s.worker self in
    if ltb w.s_cache_count s_cache_max
    then record s {
      mem = write_word s.mem (freelist_ptr b) w.s_cache_head;
      worker =
          write_worker s.worker self
            (record w { s_cache_head = b; s_cache_count = w.s_cache_count + 1 });
    }
    else stack_to_global b (flush_stacks s_cache_refill self s)
