-- ===== src/Cold.antt =====
-- src/thread_internal.h: the rarely touched half of a thread descriptor, with its reset.
use ein8_proj.Base.{ℕ}

-- `state_t`
pub data ThreadState : Type 0 where
  ready finished : ThreadState

-- `thread_cold_t` of the single-core build, less the Valgrind identifier. Functions, arguments and
-- return values are machine words; `rank`, `started` and `sig_waiting` have 8 bits, `refcount` 16.
pub record Cold : Type 0 where
  pub retval : ℕ
  pub stack_base : ℕ
  pub waiting : ℕ
  pub parent : ℕ
  pub rank : ℕ
  pub state : ThreadState
  pub func : ℕ
  pub func_arg : ℕ
  pub inline_jmpbuf : ℕ
  pub refcount : ℕ
  pub started : ℕ
  pub pending_sigs : ℕ
  pub wait_mask : ℕ
  pub sig_waiting : ℕ
  pub received_sig : ℕ

-- `thread_cold_reset`, given the descriptor's own address.
unfoldable pub thread_cold_reset : ℕ → Cold
thread_cold_reset tc = record {
  retval = 0;
  stack_base = 0;
  waiting = 0;
  parent = tc;
  rank = 0;
  state = ready;
  func = 0;
  func_arg = 0;
  inline_jmpbuf = 0;
  refcount = 1;
  started = 0;
  pending_sigs = 0;
  wait_mask = 0;
  sig_waiting = 0;
  received_sig = 0;
}
