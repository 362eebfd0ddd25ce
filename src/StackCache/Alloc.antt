-- ===== src/StackCache/Alloc.antt =====
-- What `stack_alloc` of a worker in src/thread_mn.c answers.
use ein8_proj.Base.{
  ℕ, ◌-◌, ◌≡◌, ◌≢◌, refl, sym, subst, ap, ◌∙◌, arith, ◌==◌, if◌then◌else◌, if_true, if_false, not,
  List, [], ◌∷◌, length, ◌∉◌, inl, Option, none, some,
}
use ein8_proj.Mono.Memory.{freelist_ptr, stack_cap}
use ein8_proj.Mono.Memory.Stacks.{stack_link}
use ein8_proj.StackCache.{
  StackPools, take_stacks, cache_stacks, with_answer, refill_stacks, stack_alloc_mn,
}
use ein8_proj.StackCache.Held.{Held, hand_first-Held, hand_cached-Held}
use ein8_proj.StackCache.Refill.{Taken, take_stacks-Taken, cache_stacks-Held}

-- The stacks `used` are handed out, `cache` are in the cache of the worker, and `free` are on the
-- global list.
abbrev pub Shared : StackPools → (cache free used : List ℕ) → Type 0
Shared p cache free used = (all : List ℕ) × Held p 0 all [] cache free used

-- The answer is a stack that nobody has, or NULL when all stacks are handed out.
abbrev pub Answered : (used : List ℕ) → Option ℕ × StackPools → Type 0
Answered used (none, p) = (length used ≡ stack_cap) × ((free : List ℕ) × Shared p [] free used)
Answered used (some b, p) =
    (b ≢ 0) × (b ∉ used) × ((cache : List ℕ) × (free : List ℕ) × Shared p cache free (b ∷ used))

Taken-Answered :
    (r : ℕ × StackPools) (used : List ℕ)
    → Taken 8 used r
    → (o : Option ℕ × StackPools) × ((if r.0 == 0
          then some (none, r.1)
          else with_answer r.0 (cache_stacks 9 (r.1.global.mem (freelist_ptr r.0)) r.1))
        ≡ some o)
      × Answered used o
unfolding with_answer
Taken-Answered (first, p) used (all, [], free, he, low, full) = (
  (none, p),
  if_true (first == 0) _ _ (rw he.waiting refl),
  (full refl, (free, (all, subst (λ r. Held p r all [] [] free used) he.waiting he))),
)
Taken-Answered (first, p) used (all, b ∷ xs, free, he, low, full) =
    let (same, ne, more) = he.waiting in
    let (p', cache, e, done) =
      cache_stacks-Held 9 (stack_link p.global first) p all xs [] free (b ∷ used)
        (hand_first-Held p first b all xs free used he) (omega (arith, low)) in
    (
      (some first, p'),
      if_false (first == 0) _ _ (ground (arith, same, ne)) ∙ ap (with_answer first) e,
      (
        ground (arith, same, ne),
        ground (arith, same, he.apart_used b),
        (cache, free, (all, subst (λ y. Held p' 0 all [] cache free (y ∷ used)) (sym same) done)),
      ),
    )

-- A call of `stack_alloc` on a worker returns: a stack that nobody has, taken from the cache or by a
-- refill, which leaves the others it took in the cache; or NULL, and then each of the stacks of the
-- arena is handed out.
pub stack_alloc_mn-Answered :
    (p : StackPools) (cache free used : List ℕ)
    → Shared p cache free used
    → (o : Option ℕ × StackPools) × (stack_alloc_mn p ≡ some o) × Answered used o
unfolding stack_alloc_mn refill_stacks
stack_alloc_mn-Answered p [] free used (all, he) =
    let taken = take_stacks-Taken 8 0 p all [] free used he (inl (λ e. omega (arith, e))) in
    let (o, e, good) = Taken-Answered (take_stacks 8 0 p) used taken in
    (o, if_false (not (p.s_cache_head == 0)) _ _ (rw he.cached refl) ∙ e, good)
stack_alloc_mn-Answered p (b ∷ cache) free used (all, he) =
    let (same, ne, more) = he.cached in
    let p' = record p {
      s_cache_head = stack_link p.global p.s_cache_head;
      s_cache_count = p.s_cache_count - 1;
    } in
    let rest =
      subst (λ y. Held p' 0 all [] cache free (y ∷ used)) (sym same)
        (hand_cached-Held p b all cache free used he) in
    (
      (some p.s_cache_head, p'),
      if_true (not (p.s_cache_head == 0)) _ _ (ground (arith, same, ne)),
      (
        ground (arith, same, ne),
        ground (arith, same, he.apart_cache b),
        (cache, free, (all, rest)),
      ),
    )
