-- ===== src/Mono/Switch.antt =====
-- The end of every call that gives up the processor: the elected thread gets a stack if it has none.
pub mod Stacked
use ein8_proj.Base.{ℕ, Option, none, some, ◌==◌, if◌then◌else◌}
use ein8_proj.Mono.{State, Outcome, aborted, context_switch, context_restore}
use ein8_proj.Mono.Memory.{lazy_stack_alloc}

-- `if (next->rsp == NULL) lazy_stack_alloc(next);`
unfoldable pub ensure_stack : (next : ℕ) → State → Option State
ensure_stack next s = if (s.hot next).rsp == 0 then lazy_stack_alloc next s else some s

unfoldable pub switch_lazy : (sp prev next : ℕ) → State → Outcome
switch_lazy sp prev next s = elim (ensure_stack next s) [
  | none ↦ aborted
  | some s' ↦ context_switch sp prev next s'
]

unfoldable pub restore_lazy : (next : ℕ) → State → Outcome
restore_lazy next s = elim (ensure_stack next s) [
  | none ↦ aborted
  | some s' ↦ context_restore next s'
]
