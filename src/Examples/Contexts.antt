-- ===== src/Examples/Contexts.antt =====
-- The contexts of the portable build, on concrete states.
use ein8_proj.Base.{ℕ, ◌+◌, ◌<◌, ◌^◌, ◌≡◌, refl, arith, List, [], ◌∷◌, some, ◌⊎◌, true}
use ein8_proj.Sched.Ring.{Ring}
use ein8_proj.Mono.Memory.{stack_alloc}
use ein8_proj.Mono.Switch.Stacked.{IsExhausted}
use ein8_proj.Thread.{flush_last_created}
use ein8_proj.Portable.{
  Ucontext, Machine, port_aborted, port_switched, port_make_ctx, thread_yield_port,
}
use ein8_proj.Portable.Layout.{run_args}
use ein8_proj.Portable.Made.{Made, port_make_ctx-Made}
use ein8_proj.Portable.Yield.{thread_yield_port-rotate}
use ein8_proj.Examples.{s0, ready0}

record PlainContext : Type 0 where
  sp : ℕ
  size : ℕ
  entry : ℕ
  args : List ℕ

abbrev no_context : PlainContext
no_context = record { sp = 0; size = 0; entry = 0; args = [] }

-- A context that holds what POSIX documents, in 968 bytes.
abbrev plain : Ucontext
plain = record {
  Context = PlainContext;
  sizeof = 968;
  getcontext = some no_context;
  set_stack = λ sp size flags link c. record c { sp = sp; size = size };
  makecontext = λ c entry args. record c { entry = entry; args = args };
  ss_sp = λ c. c.sp;
  ss_size = λ c. c.size;
  entry_of = λ c. c.entry;
  args_of = λ c. c.args;
  ss_sp-set_stack = λ sp size flags link c. refl;
  ss_size-set_stack = λ sp size flags link c. refl;
  ss_sp-makecontext = λ c entry args. refl;
  ss_size-makecontext = λ c entry args. refl;
  entry_of-makecontext = λ c entry args. refl;
  args_of-makecontext = λ c entry args. refl;
}

abbrev machine0 : Machine plain
machine0 = record { state = s0; contexts = λ a. no_context; main_ctx = 900; trampoline = 950 }

port_make_ctx-Made_example :
    (m' : ℕ → PlainContext) × (args : List ℕ) × (port_make_ctx plain 950 65536 5000000000 22
        (λ a. no_context)
      ≡ some (69632, m'))
    × Made plain 69632 131064 950 args (λ a. no_context) m'
    × (run_args args ≡ (5000000000, 22))
port_make_ctx-Made_example =
    port_make_ctx-Made plain 950 65536 5000000000 22 no_context (λ a. no_context) (omega arith)
      (omega arith) (omega arith) (omega arith) refl

stack0_low : (b : ℕ) → (stack_alloc (flush_last_created s0)).0 ≡ some b → b + 65536 < 2 ^ 64
unfolding stack_alloc flush_last_created
stack0_low b e = ground (arith, e)

thread_yield_port-rotate_example :
    (IsExhausted s0 × (thread_yield_port plain true machine0 ≡ port_aborted))
    ⊎ ((m' : Machine plain) × (thread_yield_port plain true machine0 ≡ port_switched m')
        × (m'.state.current ≡ 2)
        × Ring m'.state.hot 2 (3 ∷ 1 ∷ [])
        × ((m'.state.hot 1).rsp ≡ 900)
        × (m'.state.last_created ≡ 0))
thread_yield_port-rotate_example =
    thread_yield_port-rotate plain machine0 no_context (2 ∷ 3 ∷ []) (3 ∷ []) 2 refl stack0_low
      ready0 refl refl
