-- ===== src/Portable.antt =====
-- src/ctx_ucontext.c: contexts and the switch where src/context_switch.S is not built. What a
-- `ucontext_t` is, and what `getcontext` and `makecontext` do, is the interface `Ucontext`.
pub mod Layout
pub mod Made
pub mod Yield
use ein8_proj.Base.{
  ℕ, ◌+◌, ◌-◌, ◌*◌, ◌/◌, ◌%◌, ◌^◌, bit_or, ◌==◌, if◌then◌else◌, not, Option, none, some, Bool, List,
  [], ◌∷◌, ◌≡◌,
}
use ein8_proj.Base.Word.{u32, u64}
use ein8_proj.Sched.{set_rsp}
use ein8_proj.Mono.{State, write_cold}
use ein8_proj.Mono.Memory.{stack_size, stack_alloc}
use ein8_proj.Thread.{flush_last_created}

-- `ucontext_t` as POSIX documents it: `uc_stack` and what `makecontext` sets. A failing `getcontext`
-- is `none`.
pub record Ucontext : Type 1 where
  pub Context : Type 0
  pub sizeof : ℕ
  pub getcontext : Option Context
  pub set_stack : (sp size flags link : ℕ) → Context → Context
  pub makecontext : Context → (entry : ℕ) → (args : List ℕ) → Context
  pub ss_sp : Context → ℕ
  pub ss_size : Context → ℕ
  pub entry_of : Context → ℕ
  pub args_of : Context → List ℕ
  pub ss_sp-set_stack :
      (sp size flags link : ℕ) (c : Context) → ss_sp (set_stack sp size flags link c) ≡ sp
  pub ss_size-set_stack :
      (sp size flags link : ℕ) (c : Context) → ss_size (set_stack sp size flags link c) ≡ size
  pub ss_sp-makecontext :
      (c : Context) (entry : ℕ) (args : List ℕ) → ss_sp (makecontext c entry args) ≡ ss_sp c
  pub ss_size-makecontext :
      (c : Context) (entry : ℕ) (args : List ℕ) → ss_size (makecontext c entry args) ≡ ss_size c
  pub entry_of-makecontext :
      (c : Context) (entry : ℕ) (args : List ℕ) → entry_of (makecontext c entry args) ≡ entry
  pub args_of-makecontext :
      (c : Context) (entry : ℕ) (args : List ℕ) → args_of (makecontext c entry args) ≡ args

abbrev pub stack_guard : ℕ
stack_guard = 4096

abbrev pub sched_stack_size : ℕ
sched_stack_size = 65536

-- Subtraction of words.
abbrev pub sub64 : ℕ → ℕ → ℕ
sub64 a b = u64 (a + 2 ^ 64 - b)

-- `((uintptr_t)p + 15u) & ~(uintptr_t)15u`
abbrev pub align16 : ℕ → ℕ
align16 p = let a = u64 (p + 15) in a - a % 16

-- The halves of a pointer.
abbrev pub high32 : ℕ → ℕ
high32 p = u32 (p / 2 ^ 32)

abbrev pub low32 : ℕ → ℕ
low32 p = u32 p

-- `uctx_trampoline`: the function and the argument that it gives to `thread_entry`.
unfoldable pub uctx_trampoline : (f_hi f_lo a_hi a_lo : ℕ) → ℕ × ℕ
uctx_trampoline f_hi f_lo a_hi a_lo =
    (bit_or (u64 (f_hi * 2 ^ 32)) f_lo, bit_or (u64 (a_hi * 2 ^ 32)) a_lo)

module _ (U : Ucontext) where
  open U use {Context, sizeof, getcontext, set_stack, makecontext}

  -- Contexts by their addresses.
  abbrev pub write_context : (ℕ → Context) → ℕ → Context → ℕ → Context
  write_context f p c a = if a == p then c else f a

  -- What the three functions below end with: the context at `ctx` gets the stack and the entry;
  -- `none` is `abort()`.
  unfoldable pub arm :
      (ctx sp size entry : ℕ) → List ℕ → (ℕ → Context) → Option Context → Option (ℕ × (ℕ → Context))
  arm ctx sp size entry args m none = none
  arm ctx sp size entry args m (some c) =
      some (ctx, write_context m ctx (makecontext (set_stack sp size 0 0 c) entry args))

  -- `trampoline` is the address of `uctx_trampoline`.
  unfoldable pub port_make_ctx :
      (trampoline stack_base func arg : ℕ) → (ℕ → Context) → Option (ℕ × (ℕ → Context))
  port_make_ctx trampoline stack_base func arg m =
      let ctx = u64 (stack_base + stack_guard) in
      let ss_base = align16 (u64 (ctx + sizeof)) in
      let size = sub64 (sub64 stack_size (sub64 ss_base stack_base)) 8 in
      let args = high32 func ∷ low32 func ∷ high32 arg ∷ low32 arg ∷ [] in
      arm ctx ss_base size trampoline args m getcontext

  unfoldable pub port_make_simple_ctx :
      (stack_base size entry : ℕ) → (ℕ → Context) → Option (ℕ × (ℕ → Context))
  port_make_simple_ctx stack_base size entry m =
      let ss_base = align16 (u64 (stack_base + sizeof)) in
      arm stack_base ss_base (sub64 size (sub64 ss_base stack_base)) entry [] m getcontext

  unfoldable pub port_make_sched_ctx :
      (stack_base entry : ℕ) → (ℕ → Context) → Option (ℕ × (ℕ → Context))
  port_make_sched_ctx stack_base entry m =
      let ctx = u64 (stack_base + stack_guard) in
      let ss_base = align16 (u64 (ctx + sizeof)) in
      let size = sub64 (sub64 sched_stack_size (sub64 ss_base stack_base)) 8 in
      arm ctx ss_base size entry [] m getcontext

  -- The globals with the contexts, the address of `main_ctx_storage` and that of `uctx_trampoline`.
  pub record Machine : Type 0 where
    pub state : State
    pub contexts : ℕ → Context
    pub main_ctx : ℕ
    pub trampoline : ℕ

  -- Where a call of the portable build ends.
  pub data PortEnd : Type 0 where
    port_returned : Machine → PortEnd
    port_switched : Machine → PortEnd
    port_aborted port_crashed : PortEnd

  -- `context_switch`; `swapped` is whether `swapcontext` succeeds. A context that is NULL is read.
  unfoldable pub context_switch_port : (swapped : Bool) → (prev next : ℕ) → Machine → PortEnd
  context_switch_port swapped prev next m =
      let s = m.state in
      let old = if (s.hot prev).rsp == 0 then m.main_ctx else (s.hot prev).rsp in
      let saved = record m { state = record s { hot = set_rsp prev old s.hot } } in
      if (s.hot next).rsp == 0
      then port_crashed
      else if swapped
      then port_switched saved
      else port_aborted

  -- The assignment of `t->rsp` at the end of `lazy_stack_alloc` of src/thread.c.
  unfoldable pub set_ctx : (t : ℕ) → Machine → Option (ℕ × (ℕ → Context)) → Option Machine
  set_ctx t m none = none
  set_ctx t m (some (ctx, contexts)) = some (record m {
    state = record (m.state) { hot = set_rsp t ctx m.state.hot };
    contexts = contexts;
  })

  -- `lazy_stack_alloc` behind `stack_alloc`; its `stack_init` calls `port_make_ctx`.
  unfoldable pub install_ctx : (t : ℕ) → Machine → (stack : Option ℕ) → Option Machine
  install_ctx t m none = none
  install_ctx t m (some stack) =
      let tc = m.state.cold t in
      set_ctx t
        (record m {
          state = record (m.state) {
            cold = write_cold m.state.cold t (record tc { stack_base = stack });
          };
        })
        (port_make_ctx m.trampoline stack tc.func tc.func_arg m.contexts)

  unfoldable pub lazy_stack_alloc_port : (t : ℕ) → Machine → Option Machine
  lazy_stack_alloc_port t m =
      let (stack, s) = stack_alloc m.state in install_ctx t (record m { state = s }) stack

  unfoldable pub ensure_ctx : (next : ℕ) → Machine → Option Machine
  ensure_ctx next m = if (m.state.hot next).rsp == 0 then lazy_stack_alloc_port next m else some m

  unfoldable pub switch_elected : (swapped : Bool) → (prev next : ℕ) → Option Machine → PortEnd
  switch_elected swapped prev next none = port_aborted
  switch_elected swapped prev next (some m) =
      context_switch_port swapped prev next
        (record m { state = record (m.state) { current = next } })

  -- `thread_yield_asm` behind the flush
  unfoldable pub elect_port : (swapped : Bool) → Machine → PortEnd
  elect_port swapped m =
      let prev = m.state.current in
      let next = (m.state.hot prev).sched_next in
      if prev == next then port_returned m else switch_elected swapped prev next (ensure_ctx next m)

  unfoldable pub thread_yield_port : (swapped : Bool) → Machine → PortEnd
  thread_yield_port swapped m =
      if not (m.state.inline_executing == 0)
      then port_returned m
      else elect_port swapped (record m { state = flush_last_created m.state })

  -- Behind the switch nothing is left to do.
  unfoldable pub thread_yield_port_resume : Machine → PortEnd
  thread_yield_port_resume m = port_returned m
