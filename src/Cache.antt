-- ===== src/Cache.antt =====
-- The descriptor cache of a worker in src/thread_mn.c: `thread_alloc`, `thread_release`. `alloc_lock`
-- makes the part on the global free list and on the slab one step.
pub mod Pooled
pub mod Filling
pub mod Refill
use ein8_proj.Base.{ℕ, zero, suc, ◌+◌, ◌-◌, ◌==◌, ltb, not, if◌then◌else◌, Bool, false}
use ein8_proj.Mono.Memory.{thread_cap}
use ein8_proj.Sched.{Slab, set_rsp}

abbrev pub t_cache_max : ℕ
t_cache_max = 32

abbrev pub t_cache_refill : ℕ
t_cache_refill = 16

-- The global free list and the cache of the worker that runs.
pub record Pools : Type 0 where
  pub hot : Slab
  pub thread_free_head : ℕ
  pub t_cache_head : ℕ
  pub t_cache_count : ℕ
  pub thread_slab_next : ℕ
  pub cold_lock : ℕ → Bool

-- One round of the `for`: the head of the cache goes to the global list.
unfoldable pub flush_one : Pools → Pools
flush_one p =
    let x = p.t_cache_head in
    record {
      hot = set_rsp x p.thread_free_head p.hot;
      thread_free_head = x;
      t_cache_head = (p.hot x).rsp;
      t_cache_count = p.t_cache_count - 1;
      thread_slab_next = p.thread_slab_next;
      cold_lock = p.cold_lock;
    }

unfoldable pub flush_cache : (rounds : ℕ) → Pools → Pools
flush_cache zero p = p
flush_cache (suc rounds) p =
    let rest = flush_cache rounds (flush_one p) in if p.t_cache_head == 0 then p else rest

unfoldable pub release_global : (t : ℕ) → Pools → Pools
release_global t p = record p { hot = set_rsp t p.thread_free_head p.hot; thread_free_head = t }

unfoldable pub thread_release_mn : (t : ℕ) → Pools → Pools
thread_release_mn t p =
    if ltb p.t_cache_count t_cache_max
    then record p {
      hot = set_rsp t p.t_cache_head p.hot;
      t_cache_head = t;
      t_cache_count = p.t_cache_count + 1;
    }
    else release_global t (flush_cache t_cache_refill p)

-- The first `while` of the refill: descriptors of the global list, with `16 - got` rounds left.
unfoldable pub refill_free : (rounds got list : ℕ) → Pools → ℕ × ℕ × Pools
refill_free zero got list p = (got, list, p)
refill_free (suc rounds) got list p =
    let t = p.thread_free_head in
    let taken = record p { thread_free_head = (p.hot t).rsp; hot = set_rsp t list p.hot } in
    let rest = refill_free rounds (got + 1) t taken in if t == 0 then (got, list, p) else rest

-- The second `while`: descriptors of the slab that were never used.
unfoldable pub refill_slab : (rounds list : ℕ) → Pools → ℕ × Pools
refill_slab zero list p = (list, p)
refill_slab (suc rounds) list p =
    let t = p.thread_slab_next + 1 in
    let taken = record p {
      thread_slab_next = p.thread_slab_next + 1;
      cold_lock = λ a. if a == t then false else p.cold_lock a;
      hot = set_rsp t list p.hot;
    } in
    let rest = refill_slab rounds t taken in
    if ltb p.thread_slab_next thread_cap then rest else (list, p)

-- `while (list)`: the rest of the refill goes to the cache; at most 16 rounds.
unfoldable pub cache_list : (fuel list : ℕ) → Pools → Pools
cache_list zero list p = p
cache_list (suc fuel) list p =
    let cached = record p {
      hot = set_rsp list p.t_cache_head p.hot;
      t_cache_head = list;
      t_cache_count = p.t_cache_count + 1;
    } in
    let rest = cache_list fuel (p.hot list).rsp cached in if list == 0 then p else rest

unfoldable pub refill : Pools → ℕ × Pools
refill p =
    let (filled, list, p) = refill_free t_cache_refill 0 0 p in
    let (list, p) = refill_slab (t_cache_refill - filled) list p in
    if list == 0 then (0, p) else (
      list,
      cache_list t_cache_refill (p.hot list).rsp (record p { hot = set_rsp list 0 p.hot }),
    )

-- 0 is NULL.
unfoldable pub thread_alloc_mn : Pools → ℕ × Pools
thread_alloc_mn p =
    let t = p.t_cache_head in
    if not (t == 0)
    then (t, record p { t_cache_head = (p.hot t).rsp; t_cache_count = p.t_cache_count - 1 })
    else refill p
