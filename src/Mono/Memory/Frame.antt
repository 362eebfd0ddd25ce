-- ===== src/Mono/Memory/Frame.antt =====
-- The first frame of a stack, written by `stack_init` of src/thread.c and read by `context_switch`.
use ein8_proj.Base.{ℕ, ◌+◌, ◌-◌, ◌≤◌, ◌<◌, ◌≡◌, ◌⊎◌, arith}
use ein8_proj.Mono.{State}
use ein8_proj.Mono.Memory.{stack_size, stack_top, push_frame, stack_init}

stack_guard : ℕ
stack_guard = 4096

stack_top_bounds :
    (base color : ℕ)
    → (base + 49201 ≤ stack_top base color) × (stack_top base color ≤ base + stack_size)
unfolding stack_top
stack_top_bounds base color = omega arith

push_frame-word : (sp trampoline func arg : ℕ) (m : ℕ → ℕ) → 64 ≤ sp → record {
  ret : push_frame sp trampoline func arg m (sp - 56 + 48) ≡ trampoline;
  r12 : push_frame sp trampoline func arg m (sp - 56 + 24) ≡ func;
  r13 : push_frame sp trampoline func arg m (sp - 56 + 16) ≡ arg;
}
unfolding push_frame
push_frame-word sp trampoline func arg m h = record {
  ret = ground arith;
  r12 = ground arith;
  r13 = ground arith;
}

push_frame-frame :
    (sp trampoline func arg : ℕ) (m : ℕ → ℕ) (a : ℕ)
    → 64 ≤ sp
    → (a < sp - 56) ⊎ (sp ≤ a)
    → push_frame sp trampoline func arg m a ≡ m a
unfolding push_frame
push_frame-frame sp trampoline func arg m a h out = ground arith

-- Where a thread starts: the stack pointer lies above the guard page and inside the stack, popping
-- the frame returns to the trampoline with the function in r12 and its argument in r13, and no word
-- outside the stack is written.
pub record Started (b func arg : ℕ) (s : State) (sp : ℕ) (s' : State) : Type 0 where
  pub above_guard : b + 4096 ≤ sp
  pub inside : sp + 56 ≤ b + stack_size
  pub ret : s'.mem (sp + 48) ≡ s.thread_trampoline
  pub r12 : s'.mem (sp + 24) ≡ func
  pub r13 : s'.mem (sp + 16) ≡ arg
  pub others : (a : ℕ) → (a < b) ⊎ (b + stack_size ≤ a) → s'.mem a ≡ s.mem a

pub stack_init-Started :
    (b func arg : ℕ) (s : State)
    → Started b func arg s (stack_init b func arg s).0 (stack_init b func arg s).1
unfolding stack_init
stack_init-Started b func arg s =
    let top = stack_top b s.stack_color_counter in
    let (low, high) = stack_top_bounds b s.stack_color_counter in
    let words = push_frame-word top s.thread_trampoline func arg s.mem (omega arith) in
    record {
      above_guard = omega arith;
      inside = omega arith;
      ret = words.ret;
      r12 = words.r12;
      r13 = words.r13;
      others = λ a out.
          push_frame-frame top s.thread_trampoline func arg s.mem a (omega arith) (omega arith);
    }
