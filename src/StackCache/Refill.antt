-- ===== src/StackCache/Refill.antt =====
-- `stack_alloc` of a worker in src/thread_mn.c gives each stack to one thread at a time.
use ein8_proj.Base.{
  ℕ, zero, suc, ◌+◌, ◌≤◌, ◌<◌, ◌≡◌, ◌≢◌, refl, sym, subst, ap, ◌∙◌, arith, ◌==◌, if_true, if_false,
  List, [], ◌∷◌, length, inr, ◌⊎◌, Option, none, some,
}
use ein8_proj.Mono.{State}
use ein8_proj.Mono.Memory.{freelist_ptr, stack_alloc, stack_cap}
use ein8_proj.Mono.Memory.Stacks.{StackGiven, stack_alloc-StackGiven}
use ein8_proj.StackCache.{StackPools, set_link, stack_alloc_locked, take_stacks, cache_stacks}
use ein8_proj.StackCache.Held.{Held, cache_one-Held, take_one-Held}

stack_alloc-mem : (s : State) → (stack_alloc s).1.mem ≡ s.mem
unfolding stack_alloc
stack_alloc-mem s = ground arith

-- The loop that fills the cache ends, and all the stacks that waited are in the cache.
pub cache_stacks-Held :
    (fuel rest : ℕ) (p : StackPools) (all xs cache free used : List ℕ)
    → Held p rest all xs cache free used
    → length xs < fuel
    → (p' : StackPools) × (cache' : List ℕ) × (cache_stacks fuel rest p ≡ some p')
      × Held p' 0 all [] cache' free used
unfolding cache_stacks
cache_stacks-Held zero rest p all xs cache free used he low = absurd (omega (arith, low))
cache_stacks-Held (suc fuel) rest p all [] cache free used he low = (
  p,
  cache,
  if_true (rest == 0) _ _ (rw he.waiting refl),
  subst (λ r. Held p r all [] cache free used) he.waiting he,
)
cache_stacks-Held (suc fuel) rest p all (x ∷ xs) cache free used he low =
    let (p', cache', e, done) =
      cache_stacks-Held fuel (p.global.mem (freelist_ptr rest)) _ all xs (x ∷ cache) free used
        (cache_one-Held p rest x all xs cache free used he) (omega (arith, low)) in
    (p', cache', if_false (rest == 0) _ _ (ground (arith, he.waiting)) ∙ e, done)

-- What the loop of the refill leaves: stacks that wait, none only when all stacks are handed out.
abbrev pub Taken : (bound : ℕ) → (used : List ℕ) → ℕ × StackPools → Type 0
Taken bound used (first, p) =
    (all : List ℕ) × (xs : List ℕ) × (free : List ℕ) × Held p first all xs [] free used
    × (length xs ≤ bound)
    × (xs ≡ [] → length used ≡ stack_cap)

abbrev pub taken_from : (rounds first : ℕ) → StackPools → Option ℕ × State → ℕ × StackPools
taken_from rounds first p (none, s) = (first, record p { global = s })
taken_from rounds first p (some b, s) =
    take_stacks rounds b (record p { global = set_link b first s })

take_step :
    (rounds first : ℕ) (p : StackPools) (all xs free used : List ℕ) (r : Option ℕ × State)
    → Held p first all xs [] free used
    → StackGiven p.global all r
    → r.1.mem ≡ p.global.mem
    → ((b : ℕ) (p' : StackPools) (all' free' : List ℕ)
        → Held p' b all' (b ∷ xs) [] free' used
        → Taken (rounds + suc (length xs)) used (take_stacks rounds b p'))
    → Taken (rounds + suc (length xs)) used (taken_from rounds first p r)
take_step rounds first p all xs free used (none, s') he (e, full) same go = (
  all,
  xs,
  free,
  subst (λ s. Held (record p { global = s }) first all xs [] free used) (sym e) he,
  omega arith,
  λ empty. omega (arith, full, he.sized, ap length empty),
)
take_step rounds first p all xs free used (some b, s') he (ne, new, (free', st)) same go =
    go b (record p { global = set_link b first s' }) (b ∷ all) free'
      (take_one-Held p s' first b all xs free free' used he same ne new st)

pub take_stacks-taken_from :
    (rounds first : ℕ) (p : StackPools)
    → take_stacks (suc rounds) first p ≡ taken_from rounds first p (stack_alloc p.global)
unfolding take_stacks stack_alloc_locked
take_stacks-taken_from rounds first p = from (stack_alloc p.global)
  where
    from :
        (r : Option ℕ × State)
        → ◌≡◌ {A = ℕ × StackPools}
            (elim r.0 [
              | none ↦ (first, record p { global = r.1 })
              | some b ↦ take_stacks rounds b (record p { global = set_link b first r.1 })
            ])
            (taken_from rounds first p r)
    from (none, s) = refl
    from (some b, s) = refl

pub take_stacks-Taken :
    (rounds first : ℕ) (p : StackPools) (all xs free used : List ℕ)
    → Held p first all xs [] free used
    → (rounds ≢ 0) ⊎ (xs ≢ [])
    → Taken (rounds + length xs) used (take_stacks rounds first p)
unfolding take_stacks
take_stacks-Taken zero first p all xs free used he some_left =
    (all, xs, free, he, omega arith, λ e. absurd (ground (arith, some_left, e)))
take_stacks-Taken (suc rounds) first p all xs free used he some_left =
    subst (Taken (suc rounds + length xs) used) (sym (take_stacks-taken_from rounds first p)) (
      subst (λ n. Taken n used (taken_from rounds first p (stack_alloc p.global))) (omega arith)
        (take_step rounds first p all xs free used (stack_alloc p.global) he
          (stack_alloc-StackGiven p.global free all he.stacks) (stack_alloc-mem p.global)
          (λ b p' all' free' he'.
            take_stacks-Taken rounds b p' all' (b ∷ xs) free' used he'
              (inr (λ e. omega (arith, ap length e))))))
