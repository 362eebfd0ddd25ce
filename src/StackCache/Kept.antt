-- ===== src/StackCache/Kept.antt =====
-- `stack_alloc` of a worker in src/thread_mn.c leaves the threads as they are.
use ein8_proj.Base.{
  ℕ, zero, suc, ◌≡◌, refl, sym, subst, ap, ◌∙◌, arith, ◌==◌, if_true, if_false, not, Bool-cases,
  inl, inr, Option, none, some,
}
use ein8_proj.Mono.{State}
use ein8_proj.Mono.Memory.{freelist_ptr, stack_alloc}
use ein8_proj.StackCache.{
  StackPools, set_link, take_stacks, cache_stacks, with_answer, refill_stacks, stack_alloc_mn,
}
use ein8_proj.StackCache.Refill.{taken_from, take_stacks-taken_from}

abbrev pub Kept : State → State → Type 0
Kept s s' = (s'.cold ≡ s.cold) × (s'.thread_trampoline ≡ s.thread_trampoline)

Kept-then : (s s' s'' : State) → Kept s s' → Kept s' s'' → Kept s s''
Kept-then s s' s'' (a, b) (c, d) = (c ∙ a, d ∙ b)

stack_alloc-Kept : (s : State) → Kept s (stack_alloc s).1
unfolding stack_alloc
stack_alloc-Kept s = (ground arith, ground arith)

take_stacks-Kept :
    (rounds first : ℕ) (p : StackPools) → Kept p.global (take_stacks rounds first p).1.global
unfolding take_stacks
take_stacks-Kept zero first p = (refl, refl)
take_stacks-Kept (suc rounds) first p =
    subst (λ r. Kept p.global r.1.global) (sym (take_stacks-taken_from rounds first p))
      (step (λ b p'. take_stacks-Kept rounds b p') (stack_alloc p.global)
        (stack_alloc-Kept p.global))
  where
    step :
        ((b : ℕ) (p' : StackPools) → Kept p'.global (take_stacks rounds b p').1.global)
        → (r : Option ℕ × State) → Kept p.global r.1
        → Kept p.global (taken_from rounds first p r).1.global
    step go (none, s) kept = kept
    step go (some b, s) kept =
        Kept-then p.global s
          (take_stacks rounds b (record p { global = set_link b first s })).1.global kept
          (go b (record p { global = set_link b first s }))

cache_stacks-Kept :
    (fuel rest : ℕ) (p p' : StackPools)
    → cache_stacks fuel rest p ≡ some p'
    → Kept p.global p'.global
unfolding cache_stacks
cache_stacks-Kept zero rest p p' e = cc
cache_stacks-Kept (suc fuel) rest p p' e = elim (Bool-cases (rest == 0)) [
  | inl z ↦
      let same : p ≡ p' = some_same p p' (sym (if_true (rest == 0) _ _ z) ∙ e) in
      (ap (λ q. q.global.cold) (sym same), ap (λ q. q.global.thread_trampoline) (sym same))
  | inr more ↦
      cache_stacks-Kept fuel (p.global.mem (freelist_ptr rest)) _ p'
        (sym (if_false (rest == 0) _ _ more) ∙ e)
]
  where
    some_same : (p p' : StackPools) → ◌≡◌ {A = Option StackPools} (some p) (some p') → p ≡ p'
    some_same p p' e = cc

with_answer-some :
    (b : ℕ) (m : Option StackPools) (o : Option ℕ × StackPools)
    → with_answer b m ≡ some o
    → m ≡ some o.1
unfolding with_answer
with_answer-some b none o e = cc
with_answer-some b (some p) o e = ap (with_default b p) e
  where
    with_default : (b : ℕ) → StackPools → Option (Option ℕ × StackPools) → Option StackPools
    with_default b p none = none
    with_default b p (some o) = some o.1

some_answer :
    (o o' : Option ℕ × StackPools)
    → ◌≡◌ {A = Option (Option ℕ × StackPools)} (some o) (some o')
    → o ≡ o'
some_answer o o' e = cc

-- Whatever `stack_alloc` answers, the threads keep their functions and arguments.
pub stack_alloc_mn-Kept :
    (p : StackPools) (o : Option ℕ × StackPools)
    → stack_alloc_mn p ≡ some o
    → Kept p.global o.1.global
unfolding stack_alloc_mn refill_stacks
stack_alloc_mn-Kept p o e = elim (Bool-cases (not (p.s_cache_head == 0))) [
  | inl cached ↦
      let same = some_answer _ o (sym (if_true (not (p.s_cache_head == 0)) _ _ cached) ∙ e) in
      (ap (λ q. q.1.global.cold) (sym same), ap (λ q. q.1.global.thread_trampoline) (sym same))
  | inr refilled ↦
      let e1 = sym (if_false (not (p.s_cache_head == 0)) _ _ refilled) ∙ e in
      let kept = take_stacks-Kept 8 0 p in
      elim (Bool-cases ((take_stacks 8 0 p).0 == 0)) [
        | inl none_left ↦
            let same =
              some_answer _ o (sym (if_true ((take_stacks 8 0 p).0 == 0) _ _ none_left) ∙ e1) in
            Kept-then p.global (take_stacks 8 0 p).1.global o.1.global kept (
              ap (λ q. q.1.global.cold) (sym same),
              ap (λ q. q.1.global.thread_trampoline) (sym same),
            )
        | inr some_left ↦
            let answer = sym (if_false ((take_stacks 8 0 p).0 == 0) _ _ some_left) ∙ e1 in
            Kept-then p.global (take_stacks 8 0 p).1.global o.1.global kept (
              cache_stacks-Kept 9 _ (take_stacks 8 0 p).1 o.1
                (with_answer-some (take_stacks 8 0 p).0 _ o answer))
      ]
]
