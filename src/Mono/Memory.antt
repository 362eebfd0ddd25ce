-- ===== src/Mono/Memory.antt =====
-- src/thread.c: the allocators of stacks and descriptors, and the first frame of a stack.
pub mod Stacks
pub mod Threads
pub mod Frame
use ein8_proj.Base.{
  ℕ, suc, ◌+◌, ◌-◌, ◌*◌, ◌%◌, Option, none, some, ◌==◌, leb, if◌then◌else◌, Bool, not,
}
use ein8_proj.Sched.{set_rsp}
use ein8_proj.Mono.{State, write_word, write_cold}

abbrev pub stack_size : ℕ
stack_size = 65536

abbrev pub stack_cap : ℕ
stack_cap = 16384

abbrev pub thread_cap : ℕ
thread_cap = 262144

-- STACK_FREELIST_PTR: the topmost word of a stack
abbrev pub freelist_ptr : ℕ → ℕ
freelist_ptr base = base + stack_size - 8

unfoldable pub stack_alloc : State → Option ℕ × State
stack_alloc s =
    if not (s.stack_free_head == 0)
    then (
      some s.stack_free_head,
      record s { stack_free_head = s.mem (freelist_ptr s.stack_free_head) },
    )
    else if leb stack_cap s.stack_arena_next
    then (none, s)
    else (
      some (s.stack_arena + s.stack_arena_next * stack_size),
      record s { stack_arena_next = s.stack_arena_next + 1 },
    )

unfoldable pub stack_release : ℕ → State → State
stack_release b s = record s {
  mem = write_word s.mem (freelist_ptr b) s.stack_free_head;
  stack_free_head = b;
}

-- `&hot_slab[k]` is `k + 1`.
unfoldable pub thread_alloc : State → Option ℕ × State
thread_alloc s =
    if not (s.thread_free_head == 0)
    then (some s.thread_free_head, record s { thread_free_head = (s.hot s.thread_free_head).rsp })
    else if leb thread_cap s.thread_slab_next
    then (none, s)
    else (some (s.thread_slab_next + 1), record s { thread_slab_next = s.thread_slab_next + 1 })

unfoldable pub thread_release : ℕ → State → State
thread_release t s = record s { hot = set_rsp t s.thread_free_head s.hot; thread_free_head = t }

-- The seven words that `context_switch` pops, pushed from `sp` down.
unfoldable pub push_frame : (sp trampoline func arg : ℕ) → (ℕ → ℕ) → ℕ → ℕ
push_frame sp trampoline func arg m =
    let m = write_word m (sp - 8) trampoline in
    let m = write_word m (sp - 16) 0 in
    let m = write_word m (sp - 24) 0 in
    let m = write_word m (sp - 32) func in
    let m = write_word m (sp - 40) arg in
    let m = write_word m (sp - 48) 0 in write_word m (sp - 56) 0

-- The start of the frame: coloured by the counter, aligned to 16 bytes.
unfoldable pub stack_top : (stack_base color : ℕ) → ℕ
stack_top stack_base color = let sp = stack_base + stack_size - color % 256 * 64 in sp - sp % 16

unfoldable pub stack_init : (stack_base func arg : ℕ) → State → ℕ × State
stack_init stack_base func arg s =
    let sp = stack_top stack_base s.stack_color_counter in
    (
      sp - 56,
      record s {
        mem = push_frame sp s.thread_trampoline func arg s.mem;
        stack_color_counter = s.stack_color_counter + 1;
      },
    )

-- The part of `lazy_stack_alloc` behind the test: the thread gets the stack and its first frame.
unfoldable pub install_stack : (t stack : ℕ) → State → State
install_stack t stack s =
    let s = record s { cold = write_cold s.cold t (record (s.cold t) { stack_base = stack }) } in
    let (sp, s) = stack_init stack (s.cold t).func (s.cold t).func_arg s in
    record s { hot = set_rsp t sp s.hot }

-- `none` is `abort()`: the arena of stacks is exhausted.
unfoldable pub lazy_stack_alloc : ℕ → State → Option State
lazy_stack_alloc t s =
    let (stack, s') = stack_alloc s in
    elim stack [ none ↦ none | some b ↦ some (install_stack t b s') ]
