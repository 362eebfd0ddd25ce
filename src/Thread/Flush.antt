-- ===== src/Thread/Flush.antt =====
-- `flush_last_created` of src/thread.c: the thread created last enters the ready list.
use ein8_proj.Base.{
  ℕ, ◌≡◌, ◌≢◌, refl, arith, ◌==◌, ==_self, ==_ne, if◌then◌else◌, List, [], ◌∷◌, ◌++◌, append-nil,
  ◌∉◌, ℕ_discrete,
}
use ein8_proj.Sched.Frame.{sched_enqueue-rsp}
use ein8_proj.Sched.Ring.{Ring}
use ein8_proj.Sched.Ops.{Ring-sched_enqueue}
use ein8_proj.Mono.{State}
use ein8_proj.Mono.Switch.Stacked.{IsExhausted}
use ein8_proj.Thread.{flush_last_created_slow, flush_last_created}

-- The thread created last, which is not in the list yet.
abbrev pub fresh_list : State → List ℕ
fresh_list s = if s.last_created == 0 then [] else s.last_created ∷ []

-- The running thread and `xs` are in the list; the thread created last is in no list.
pub record Ready (s : State) (xs : List ℕ) : Type 0 where
  pub ring : Ring s.hot s.current xs
  pub outside : s.last_created ≢ 0 → s.last_created ∉ s.current ∷ xs

pub flush_none : (s : State) → s.last_created ≡ 0 → flush_last_created s ≡ s
unfolding flush_last_created
flush_none s e = ground arith

pub flush_some : (s : State) → s.last_created ≢ 0 → flush_last_created s ≡ flush_last_created_slow s
unfolding flush_last_created
flush_some s ne = rw (==_ne s.last_created 0 ne) refl

pub fresh_list_none : (s : State) → s.last_created ≡ 0 → fresh_list s ≡ []
fresh_list_none s e = ground arith

pub fresh_list_some : (s : State) → s.last_created ≢ 0 → fresh_list s ≡ s.last_created ∷ []
fresh_list_some s ne = rw (==_ne s.last_created 0 ne) refl

-- A flush puts the thread created last at the end of the list.
pub flush-Ring :
    (s : State) (xs : List ℕ)
    → Ready s xs
    → Ring (flush_last_created s).hot s.current (xs ++ fresh_list s)
unfolding flush_last_created_slow
flush-Ring s xs rd = elim (ℕ_discrete s.last_created 0) [
  | yes e ↦ rw (flush_none s e, fresh_list_none s e, append-nil) rd.ring
  | no ne ↦
      rw (flush_some s ne, fresh_list_some s ne)
        (Ring-sched_enqueue s.hot s.current s.last_created xs rd.ring (rd.outside ne) ne)
]

-- What a flush leaves alone.
pub record Flushed (s s' : State) : Type 0 where
  pub current : s'.current ≡ s.current
  pub empty : s'.last_created ≡ 0
  pub inline_executing : s'.inline_executing ≡ s.inline_executing
  pub exhausted : IsExhausted s' → IsExhausted s
  pub rsp : (a : ℕ) → (s'.hot a).rsp ≡ (s.hot a).rsp
  pub others : (a : ℕ) → a ≢ s.last_created → s'.cold a ≡ s.cold a
  pub noted :
      s.last_created ≢ 0
      → s'.cold s.last_created ≡ record (s.cold s.last_created) {
        func = s.last_created_func;
        func_arg = s.last_created_arg;
      }

slow-Flushed : (s : State) → s.last_created ≢ 0 → Flushed s (flush_last_created_slow s)
unfolding flush_last_created_slow
slow-Flushed s ne = record {
  current = refl;
  empty = refl;
  inline_executing = refl;
  exhausted = λ full. full;
  rsp = λ a. sched_enqueue-rsp s.current s.last_created s.hot a;
  others = λ a away. ground arith;
  noted = λ _. rw (==_self s.last_created) refl;
}

pub flush-Flushed : (s : State) → Flushed s (flush_last_created s)
flush-Flushed s = elim (ℕ_discrete s.last_created 0) [
  | yes e ↦ rw (flush_none s e) (record {
    current = refl;
    empty = e;
    inline_executing = refl;
    exhausted = λ full. full;
    rsp = λ a. refl;
    others = λ a away. refl;
    noted = λ ne. absurd (ne e);
  })
  | no ne ↦ rw (flush_some s ne) (slow-Flushed s ne)
]
