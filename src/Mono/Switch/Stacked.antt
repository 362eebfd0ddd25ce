-- ===== src/Mono/Switch/Stacked.antt =====
-- After `lazy_stack_alloc` of src/thread.c the elected thread has a stack, and the lists are as before.
use ein8_proj.Base.{
  ℕ, ◌≤◌, ◌≡◌, ◌≢◌, refl, ◌⊎◌, inl, inr, none, some, ◌==◌, ==_ne, ==_self, arith, Bool-cases,
  Option-cases, ◌∙◌,
}
use ein8_proj.Sched.{set_rsp}
use ein8_proj.Mono.{State, switched, aborted, context_switch}
use ein8_proj.Mono.Memory.{stack_alloc, stack_init, stack_cap, install_stack, lazy_stack_alloc}
use ein8_proj.Mono.Memory.Frame.{stack_init-Started}
use ein8_proj.Mono.Switch.{ensure_stack, switch_lazy}

-- What the allocation of a stack for `next` may change of the state.
pub record Stacked (next : ℕ) (s s' : State) : Type 0 where
  pub current : s'.current ≡ s.current
  pub last_created : s'.last_created ≡ s.last_created
  pub inline_executing : s'.inline_executing ≡ s.inline_executing
  pub links :
      (a : ℕ)
      → ((s'.hot a).sched_next ≡ (s.hot a).sched_next)
        × ((s'.hot a).sched_prev ≡ (s.hot a).sched_prev)
  pub runnable : (s'.hot next).rsp ≢ 0
  pub others : (a : ℕ) → a ≢ next → (s'.hot a ≡ s.hot a) × (s'.cold a ≡ s.cold a)
  pub colds : (a : ℕ) → s'.cold a ≡ record (s.cold a) { stack_base = (s'.cold a).stack_base }

install_stack-Stacked : (next b : ℕ) (s : State) → Stacked next s (install_stack next b s)
unfolding install_stack stack_init
install_stack-Stacked next b s = record {
  current = refl;
  last_created = refl;
  inline_executing = refl;
  links = λ a. ground arith;
  runnable =
      let started = stack_init-Started b 0 0 s in
      rw (==_self next) (omega (arith, started.above_guard));
  others = λ a ne. ground arith;
  colds = λ a. ground arith;
}

-- Taking a stack from the allocator leaves the threads alone.
pub record SameThreads (s s' : State) : Type 0 where
  pub hot : s'.hot ≡ s.hot
  pub cold : s'.cold ≡ s.cold
  pub current : s'.current ≡ s.current
  pub last_created : s'.last_created ≡ s.last_created
  pub inline_executing : s'.inline_executing ≡ s.inline_executing

pub stack_alloc-SameThreads : (s : State) → SameThreads s (stack_alloc s).1
unfolding stack_alloc
stack_alloc-SameThreads s = record {
  hot = ground arith;
  cold = ground arith;
  current = ground arith;
  last_created = ground arith;
  inline_executing = ground arith;
}

Stacked-after :
    (next : ℕ) (s s1 s' : State) → SameThreads s s1 → Stacked next s1 s' → Stacked next s s'
Stacked-after next s s1 s' same st = record {
  current = st.current ∙ same.current;
  last_created = st.last_created ∙ same.last_created;
  inline_executing = st.inline_executing ∙ same.inline_executing;
  links = λ a. rw (← same.hot) (st.links a);
  runnable = st.runnable;
  others = λ a ne. rw (← same.hot, ← same.cold) (st.others a ne);
  colds = λ a. rw (← same.cold) (st.colds a);
}

-- No stack is left to hand out.
abbrev pub IsExhausted : State → Type 0
IsExhausted s = (s.stack_free_head ≡ 0) × (stack_cap ≤ s.stack_arena_next)

pub IsExhausted-of_none : (s : State) → (stack_alloc s).0 ≡ none → IsExhausted s
unfolding stack_alloc
IsExhausted-of_none s e = (ground arith, ground arith)

pub lazy_stack_alloc-none :
    (t : ℕ) (s : State) → (stack_alloc s).0 ≡ none → lazy_stack_alloc t s ≡ none
unfolding lazy_stack_alloc
lazy_stack_alloc-none t s e = rw (e, lazy_stack_alloc) refl

pub lazy_stack_alloc-some :
    (t b : ℕ) (s : State)
    → (stack_alloc s).0 ≡ some b
    → lazy_stack_alloc t s ≡ some (install_stack t b (stack_alloc s).1)
unfolding lazy_stack_alloc
lazy_stack_alloc-some t b s e = rw (e, lazy_stack_alloc) refl

-- Either the arena is exhausted, or the elected thread has a stack afterwards.
pub ensure_stack-Stacked :
    (next : ℕ) (s : State)
    → (IsExhausted s × (ensure_stack next s ≡ none))
      ⊎ ((s' : State) × (ensure_stack next s ≡ some s') × Stacked next s s')
unfolding ensure_stack
ensure_stack-Stacked next s = elim (Bool-cases ((s.hot next).rsp == 0)) [
  | inr old ↦ inr (
    s,
    rw old refl,
    record {
      current = refl;
      last_created = refl;
      inline_executing = refl;
      links = λ a. (refl, refl);
      runnable = ground arith;
      others = λ a ne. (refl, refl);
      colds = λ a. refl;
    },
  )
  | inl new ↦ elim (Option-cases (stack_alloc s).0) [
    | inl full ↦ inl (IsExhausted-of_none s full, rw new (lazy_stack_alloc-none next s full))
    | inr (b, e) ↦ inr (
      install_stack next b (stack_alloc s).1,
      rw new (lazy_stack_alloc-some next b s e),
      Stacked-after next s (stack_alloc s).1 (install_stack next b (stack_alloc s).1)
          (stack_alloc-SameThreads s) (install_stack-Stacked next b (stack_alloc s).1),
    )
  ]
]

-- A completed switch: the caller's stack pointer is saved, and the lists are as before.
pub record Switched (sp prev next : ℕ) (s s' : State) : Type 0 where
  pub current : s'.current ≡ s.current
  pub last_created : s'.last_created ≡ s.last_created
  pub links :
      (a : ℕ)
      → ((s'.hot a).sched_next ≡ (s.hot a).sched_next)
        × ((s'.hot a).sched_prev ≡ (s.hot a).sched_prev)
  pub saved : (s'.hot prev).rsp ≡ sp
  pub others : (a : ℕ) → a ≢ next → s'.cold a ≡ s.cold a
  pub colds : (a : ℕ) → s'.cold a ≡ record (s.cold a) { stack_base = (s'.cold a).stack_base }

pub switch_lazy-Switched :
    (sp prev next : ℕ) (s : State)
    → (IsExhausted s × (switch_lazy sp prev next s ≡ aborted))
      ⊎ ((s' : State) × (switch_lazy sp prev next s ≡ switched s') × Switched sp prev next s s')
unfolding switch_lazy context_switch
switch_lazy-Switched sp prev next s = elim (ensure_stack-Stacked next s) [
  | inl (full, e) ↦ inl (full, rw (e, switch_lazy) refl)
  | inr (s', e, st) ↦ inr (
    record s' { hot = set_rsp prev sp s'.hot },
    rw (e, switch_lazy, ==_ne (s'.hot next).rsp 0 st.runnable) refl,
    record {
      current = st.current;
      last_created = st.last_created;
      links = λ a. ground (arith, st.links a);
      saved = ground arith;
      others = λ a ne. (st.others a ne).1;
      colds = st.colds;
    },
  )
]
