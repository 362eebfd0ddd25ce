-- ===== src/StackCache.antt =====
-- src/thread_mn.c: `stack_alloc` of a worker, with its cache of stacks.
pub mod Held
pub mod Refill
pub mod Alloc
pub mod Kept
pub mod Lazy
use ein8_proj.Base.{ℕ, zero, suc, ◌+◌, ◌-◌, ◌==◌, if◌then◌else◌, not, Option, none, some}
use ein8_proj.Mono.{State, write_word}
use ein8_proj.Mono.Memory.{freelist_ptr, stack_alloc, install_stack}
use ein8_proj.Cores.Memory.{s_cache_refill}

-- The arena with the global list of stacks, of which the fields `mem`, `stack_arena`,
-- `stack_arena_next` and `stack_free_head` are used, and the cache of one worker.
pub record StackPools : Type 0 where
  pub global : State
  pub s_cache_head : ℕ
  pub s_cache_count : ℕ

-- `*STACK_FREELIST_PTR(b) = v`
abbrev pub set_link : (b v : ℕ) → State → State
set_link b v s = record s { mem = write_word s.mem (freelist_ptr b) v }

-- `stack_alloc_locked` does what `stack_alloc` of src/thread.c does; the guard page that it sets is
-- a call of the system.
unfoldable pub stack_alloc_locked : StackPools → Option ℕ × StackPools
stack_alloc_locked p = let (b, s) = stack_alloc p.global in (b, record p { global = s })

-- The `while` of the refill: the list of stacks taken so far starts with `first`.
unfoldable pub take_stacks : (rounds first : ℕ) → StackPools → ℕ × StackPools
take_stacks zero first p = (first, p)
take_stacks (suc rounds) first p =
    let s = (stack_alloc_locked p).1.global in
    elim (stack_alloc_locked p).0 [
      | none ↦ (first, record p { global = s })
      | some b ↦ take_stacks rounds b (record p { global = set_link b first s })
    ]

-- The `while` that puts the stacks from `rest` on into the cache; `none` when the fuel is used up.
unfoldable pub cache_stacks : (fuel rest : ℕ) → StackPools → Option StackPools
cache_stacks zero rest p = none
cache_stacks (suc fuel) rest p =
    let next = p.global.mem (freelist_ptr rest) in
    let more = cache_stacks fuel next (record {
      global = set_link rest p.s_cache_head p.global;
      s_cache_head = rest;
      s_cache_count = p.s_cache_count + 1;
    }) in
    if rest == 0 then some p else more

unfoldable pub with_answer : (b : ℕ) → Option StackPools → Option (Option ℕ × StackPools)
with_answer b none = none
with_answer b (some p) = some (some b, p)

-- The refill: the stack that was taken last is for the caller.
unfoldable pub refill_stacks : StackPools → Option (Option ℕ × StackPools)
refill_stacks p =
    let (first, p) = take_stacks s_cache_refill 0 p in
    let rest = p.global.mem (freelist_ptr first) in
    if first == 0
    then some (none, p)
    else with_answer first (cache_stacks (suc s_cache_refill) rest p)

-- `none` when the fuel of the refill is used up.
unfoldable pub stack_alloc_mn : StackPools → Option (Option ℕ × StackPools)
stack_alloc_mn p =
    if not (p.s_cache_head == 0)
    then some (
      some p.s_cache_head,
      record p {
        s_cache_head = p.global.mem (freelist_ptr p.s_cache_head);
        s_cache_count = p.s_cache_count - 1;
      },
    )
    else refill_stacks p

-- `lazy_stack_alloc` behind `stack_alloc`, where `stack_init` writes the frame that it writes in
-- src/thread.c; an inner `none` is `abort()`.
unfoldable pub install_mn : (t : ℕ) → Option (Option ℕ × StackPools) → Option (Option StackPools)
install_mn t none = none
install_mn t (some (none, p)) = some none
install_mn t (some (some b, p)) = some (some (record p { global = install_stack t b p.global }))

unfoldable pub lazy_stack_alloc_mn : (t : ℕ) → StackPools → Option (Option StackPools)
lazy_stack_alloc_mn t p = install_mn t (stack_alloc_mn p)
