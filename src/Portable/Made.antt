-- ===== src/Portable/Made.antt =====
-- What `port_make_ctx`, `port_make_sched_ctx` and `port_make_simple_ctx` of src/ctx_ucontext.c make.
use ein8_proj.Base.{
  ℕ, ◌+◌, ◌-◌, ◌^◌, ◌≤◌, ◌<◌, ◌≡◌, ◌≢◌, refl, ◌∙◌, ap, subst, ==_self, ==_ne, Option, some, List,
  [], ◌∷◌, arith,
}
use ein8_proj.Base.Word.{u64}
use ein8_proj.Mono.Memory.{stack_size, freelist_ptr}
use ein8_proj.Portable.{
  Ucontext, stack_guard, sched_stack_size, sub64, align16, high32, low32, port_make_ctx,
  port_make_sched_ctx, port_make_simple_ctx, write_context, arm,
}
use ein8_proj.Portable.Layout.{uctx_trampoline-halves, run_args, Placed, made-Placed}

module _ (U : Ucontext) where
  open U use {
    Context, sizeof, getcontext, set_stack, makecontext, entry_of, args_of, entry_of-makecontext,
    args_of-makecontext,
  }

  -- A new context at `ctx`: its place, where it starts, with which arguments, and the others as before.
  pub record Made (ctx top start : ℕ) (given : List ℕ) (m m' : ℕ → Context) : Type 0 where
    pub placed : Placed U ctx top (m' ctx)
    pub entry : entry_of (m' ctx) ≡ start
    pub args : args_of (m' ctx) ≡ given
    pub others : (a : ℕ) → a ≢ ctx → m' a ≡ m a

  write-Made :
      (ctx top entry sp size : ℕ) (args : List ℕ) (c : Context) (m : ℕ → Context)
      → Placed U ctx top (makecontext (set_stack sp size 0 0 c) entry args)
      → Made ctx top entry args m
          (write_context U m ctx (makecontext (set_stack sp size 0 0 c) entry args))
  write-Made ctx top entry sp size args c m here = record {
    placed = rw (==_self ctx) here;
    entry = rw (==_self ctx) (entry_of-makecontext _ entry args);
    args = rw (==_self ctx) (args_of-makecontext _ entry args);
    others = λ a ne. rw (==_ne a ctx ne) refl;
  }

  -- The context that the three functions make, its address computed.
  abbrev new_context : (total tail entry : ℕ) → List ℕ → (base : ℕ) → Context → (ctx : ℕ) → Context
  new_context total tail entry args base c ctx =
      let ss = align16 (u64 (ctx + sizeof)) in
      makecontext (set_stack ss (sub64 (sub64 total (sub64 ss base)) tail) 0 0 c) entry args

  arm_got :
      (ctx sp size entry : ℕ) (args : List ℕ) (m : ℕ → Context) (c : Context)
      → getcontext ≡ some c
      → arm U ctx sp size entry args m getcontext
        ≡ some (ctx, write_context U m ctx (makecontext (set_stack sp size 0 0 c) entry args))
  unfolding arm
  arm_got ctx sp size entry args m c got = ap (arm U ctx sp size entry args m) got

  moved :
      (total tail entry : ℕ) (args : List ℕ) (base : ℕ) (m : ℕ → Context) (c : Context)
      → base + stack_guard < 2 ^ 64
      → ◌≡◌ {A = Option (ℕ × (ℕ → Context))}
          (some (
            u64 (base + stack_guard),
            write_context U m
                (u64 (base + stack_guard))
                (new_context total tail entry args base c (u64 (base + stack_guard))),
          ))
          (some (
            base + stack_guard,
            write_context U m
                (base + stack_guard)
                (new_context total tail entry args base c (base + stack_guard)),
          ))
  moved total tail entry args base m c fits =
      ap (λ ctx. some (ctx, write_context U m ctx (new_context total tail entry args base c ctx)))
        (omega (arith, fits))

  -- The context that `port_make_ctx` makes stands behind the guard page.
  pub port_make_ctx_got :
      (trampoline base func arg : ℕ) (c : Context) (m : ℕ → Context)
      → base + stack_guard < 2 ^ 64
      → getcontext ≡ some c
      → (m' : ℕ → Context) × (port_make_ctx U trampoline base func arg m
          ≡ some (base + stack_guard, m'))
  unfolding port_make_ctx
  port_make_ctx_got trampoline base func arg c m fits got =
      let args = high32 func ∷ low32 func ∷ high32 arg ∷ low32 arg ∷ [] in
      (_, arm_got _ _ _ trampoline args m c got ∙ moved stack_size 8 trampoline args base m c fits)

  -- When `getcontext` succeeds and the stack has room for a context, `port_make_ctx` puts the context
  -- behind the guard page and its stack behind it, 16-aligned, up to the word of the free list; the
  -- context starts the trampoline, which gives the function and its argument back; no other context
  -- changes.
  pub port_make_ctx-Made :
      (trampoline base func arg : ℕ) (c : Context) (m : ℕ → Context)
      → base + stack_size < 2 ^ 64
      → stack_guard + sizeof + 23 ≤ stack_size
      → func < 2 ^ 64
      → arg < 2 ^ 64
      → getcontext ≡ some c
      → (m' : ℕ → Context) × (args : List ℕ) × (port_make_ctx U trampoline base func arg m
          ≡ some (base + stack_guard, m'))
        × Made (base + stack_guard) (freelist_ptr base) trampoline args m m'
        × (run_args args ≡ (func, arg))
  unfolding port_make_ctx
  port_make_ctx-Made trampoline base func arg c m fits room f a got =
      let args = high32 func ∷ low32 func ∷ high32 arg ∷ low32 arg ∷ [] in
      (
        write_context U m (base + stack_guard)
            (new_context stack_size 8 trampoline args base c (base + stack_guard)),
        args,
        arm_got _ _ _ trampoline args m c got
            ∙ moved stack_size 8 trampoline args base m c (omega (arith, fits)),
        write-Made (base + stack_guard) (freelist_ptr base) trampoline _ _ args c m (
            made-Placed U base (base + stack_guard) stack_size 8 trampoline args c (omega arith)
              (omega (arith, room)) fits),
        uctx_trampoline-halves func arg f a,
      )

  -- The same for the stack of the scheduler of a worker, whose entry has no argument.
  pub port_make_sched_ctx-Made :
      (base entry : ℕ) (c : Context) (m : ℕ → Context)
      → base + sched_stack_size < 2 ^ 64
      → stack_guard + sizeof + 23 ≤ sched_stack_size
      → getcontext ≡ some c
      → (m' : ℕ → Context) × (port_make_sched_ctx U base entry m ≡ some (base + stack_guard, m'))
        × Made (base + stack_guard) (base + sched_stack_size - 8) entry [] m m'
  unfolding port_make_sched_ctx
  port_make_sched_ctx-Made base entry c m fits room got = (
    write_context U m (base + stack_guard)
        (new_context sched_stack_size 8 entry [] base c (base + stack_guard)),
    arm_got _ _ _ entry [] m c got
        ∙ moved sched_stack_size 8 entry [] base m c (omega (arith, fits)),
    write-Made (base + stack_guard) (base + sched_stack_size - 8) entry _ _ [] c m (
        made-Placed U base (base + stack_guard) sched_stack_size 8 entry [] c (omega arith)
          (omega (arith, room)) fits),
  )

  -- On a stack without a guard page the context stands at the start, and its stack reaches the end.
  pub port_make_simple_ctx-Made :
      (base size entry : ℕ) (c : Context) (m : ℕ → Context)
      → base + size < 2 ^ 64
      → sizeof + 15 ≤ size
      → getcontext ≡ some c
      → (m' : ℕ → Context) × (port_make_simple_ctx U base size entry m ≡ some (base, m'))
        × Made base (base + size) entry [] m m'
  unfolding port_make_simple_ctx
  port_make_simple_ctx-Made base size entry c m fits room got =
      let ss = align16 (u64 (base + sizeof)) in
      let left : sub64 (sub64 size (sub64 ss base)) 0 ≡ sub64 size (sub64 ss base) = omega arith in
      let top : base + size - 0 ≡ base + size = omega arith in
      (
        write_context U m base
            (makecontext (set_stack ss (sub64 size (sub64 ss base)) 0 0 c) entry []),
        arm_got base ss (sub64 size (sub64 ss base)) entry [] m c got,
        write-Made base (base + size) entry _ _ [] c m (
            subst (λ n. Placed U base (base + size) (makecontext (set_stack ss n 0 0 c) entry []))
              left
              (subst
                (λ e. Placed U base e (
                  makecontext (set_stack ss (sub64 (sub64 size (sub64 ss base)) 0) 0 0 c) entry []))
                top
                (made-Placed U base base size 0 entry [] c (omega arith) (omega (arith, room))
                  fits))),
      )
