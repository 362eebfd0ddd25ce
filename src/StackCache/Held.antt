-- ===== src/StackCache/Held.antt =====
-- Where the stacks of src/thread_mn.c are while a worker fills its cache.
use ein8_proj.Base.{
  ℕ, ◌+◌, ◌-◌, ◌≡◌, ◌≢◌, refl, sym, subst, ap, arith, ◌||◌, Bool-cases, List, [], ◌∷◌, has, length,
  ◌∈◌, ◌∉◌, IsDistinct, inl, inr,
}
use ein8_proj.FreeList.{Linked, Linked-frame}
use ein8_proj.Mono.{State}
use ein8_proj.Mono.Memory.{freelist_ptr}
use ein8_proj.Mono.Memory.Stacks.{Stacks, stack_link}
use ein8_proj.StackCache.{StackPools, set_link}

-- Of the stacks `all` that left the global list, `xs` are linked from `rest`, `cache` are in the
-- cache and `used` are handed out.
pub record Held (p : StackPools) (rest : ℕ) (all xs cache free used : List ℕ) : Type 0 where
  pub stacks : Stacks p.global free all
  pub waiting : Linked (stack_link p.global) rest xs
  pub cached : Linked (stack_link p.global) p.s_cache_head cache
  pub members : (a : ℕ) → has a all ≡ has a xs || has a cache || has a used
  pub distinct : IsDistinct xs
  pub distinct_cache : IsDistinct cache
  pub apart : (a : ℕ) → a ∈ xs → a ∉ cache
  pub apart_used : (a : ℕ) → a ∈ xs → a ∉ used
  pub apart_cache : (a : ℕ) → a ∈ cache → a ∉ used
  pub counted : length cache ≡ p.s_cache_count
  pub sized : length all ≡ length xs + length cache + length used

-- The link of a stack that is not on the global list may be written.
pub Stacks-set_link :
    (b v : ℕ) (s : State) (free used : List ℕ)
    → Stacks s free used
    → b ∉ free
    → Stacks (set_link b v s) free used
Stacks-set_link b v s free used st out = record {
  linked =
      Linked-frame (stack_link s) (stack_link (set_link b v s)) s.stack_free_head free st.linked
        (λ a i. ground (arith, i, out));
  distinct_free = st.distinct_free;
  distinct_used = st.distinct_used;
  apart = st.apart;
  free_placed = st.free_placed;
  used_placed = st.used_placed;
  counted = st.counted;
  bounded = st.bounded;
  mapped = st.mapped;
}

set_link_self : (b v x : ℕ) (s : State) → b ≡ x → stack_link (set_link b v s) x ≡ v
set_link_self b v x s e = ground (arith, e)

-- The first of the stacks that wait goes into the cache.
pub cache_one-Held :
    (p : StackPools) (rest x : ℕ) (all xs cache free used : List ℕ)
    → Held p rest all (x ∷ xs) cache free used
    → Held
        (record {
          global = set_link rest p.s_cache_head p.global;
          s_cache_head = rest;
          s_cache_count = p.s_cache_count + 1;
        })
        (p.global.mem (freelist_ptr rest))
        all
        xs
        (x ∷ cache)
        free
        used
cache_one-Held p rest x all xs cache free used he =
    let (e, ne, more) = he.waiting in
    let s = p.global in
    let s' = set_link rest p.s_cache_head s in
    let mine : x ∈ all = ground (arith, he.members x) in
    let out : rest ∉ free = elim (Bool-cases (has rest free)) [
      | inl i ↦ absurd (ground (arith, he.stacks.apart rest i, mine, e))
      | inr o ↦ o
    ] in
    record {
      stacks = Stacks-set_link rest p.s_cache_head s free all he.stacks out;
      waiting =
          Linked-frame (stack_link s) (stack_link s') (stack_link s rest) xs
            (subst (λ y. Linked (stack_link s) (stack_link s y) xs) (sym e) more)
            (λ a i. ground (arith, i, e, he.distinct));
      cached = (
        e,
        ne,
        subst (λ h. Linked (stack_link s') h cache) (sym (set_link_self rest p.s_cache_head x s e))
            (Linked-frame (stack_link s) (stack_link s') p.s_cache_head cache he.cached
              (λ a i. ground (arith, i, e, he.apart x))),
      );
      members = λ a. ground (arith, he.members a);
      distinct = he.distinct.1;
      distinct_cache = (ground (arith, he.apart x), he.distinct_cache);
      apart = λ a i. ground (arith, i, he.apart a, he.distinct);
      apart_used = λ a i. ground (arith, i, he.apart_used a);
      apart_cache = λ a i. ground (arith, i, he.apart_cache a, he.apart_used a);
      counted = omega (arith, he.counted);
      sized = omega (arith, he.sized);
    }

-- A stack that the allocator gives joins those that wait.
pub take_one-Held :
    (p : StackPools) (s' : State) (first b : ℕ) (all xs free free' used : List ℕ)
    → Held p first all xs [] free used
    → s'.mem ≡ p.global.mem
    → b ≢ 0
    → b ∉ all
    → Stacks s' free' (b ∷ all)
    → Held (record p { global = set_link b first s' }) b (b ∷ all) (b ∷ xs) [] free' used
take_one-Held p s' first b all xs free free' used he same ne new st =
    let out : b ∉ free' = elim (Bool-cases (has b free')) [
      | inl i ↦ absurd (ground (arith, st.apart b i))
      | inr o ↦ o
    ] in
    let fresh : b ∉ xs = ground (arith, he.members b, new) in
    record {
      stacks = Stacks-set_link b first s' free' (b ∷ all) st out;
      waiting = (
        refl,
        ne,
        subst (λ h. Linked (stack_link (set_link b first s')) h xs)
            (sym (set_link_self b first b s' refl))
            (Linked-frame (stack_link p.global) (stack_link (set_link b first s')) first xs
              he.waiting (λ a i. ground (arith, i, fresh, ap (λ m. m (freelist_ptr a)) same))),
      );
      cached = he.cached;
      members = λ a. ground (arith, he.members a);
      distinct = (fresh, he.distinct);
      distinct_cache = he.distinct_cache;
      apart = λ a i. refl;
      apart_used = λ a i. ground (arith, i, he.apart_used a, he.members b, new);
      apart_cache = λ a i. cc;
      counted = he.counted;
      sized = omega (arith, he.sized);
    }

-- The first of the stacks that wait is handed out.
pub hand_first-Held :
    (p : StackPools) (first b : ℕ) (all xs free used : List ℕ)
    → Held p first all (b ∷ xs) [] free used
    → Held p (stack_link p.global first) all xs [] free (b ∷ used)
hand_first-Held p first b all xs free used he = record {
  stacks = he.stacks;
  waiting =
      subst (λ y. Linked (stack_link p.global) (stack_link p.global y) xs) (sym he.waiting.0)
        he.waiting.2;
  cached = he.cached;
  members = λ a. ground (arith, he.members a);
  distinct = he.distinct.1;
  distinct_cache = tt;
  apart = λ a i. refl;
  apart_used = λ a i. ground (arith, i, he.apart_used a, he.distinct);
  apart_cache = λ a i. cc;
  counted = he.counted;
  sized = omega (arith, he.sized);
}

-- The first of the cache is handed out.
pub hand_cached-Held :
    (p : StackPools) (b : ℕ) (all cache free used : List ℕ)
    → Held p 0 all [] (b ∷ cache) free used
    → Held
        (record p {
          s_cache_head = stack_link p.global p.s_cache_head;
          s_cache_count = p.s_cache_count - 1;
        })
        0
        all
        []
        cache
        free
        (b ∷ used)
hand_cached-Held p b all cache free used he =
    let (e, ne, more) = he.cached in
    record {
      stacks = he.stacks;
      waiting = refl;
      cached = subst (λ y. Linked (stack_link p.global) (stack_link p.global y) cache) (sym e) more;
      members = λ a. ground (arith, he.members a);
      distinct = tt;
      distinct_cache = he.distinct_cache.1;
      apart = λ a i. cc;
      apart_used = λ a i. cc;
      apart_cache = λ a i. ground (arith, i, he.apart_cache a, he.distinct_cache);
      counted = omega (arith, he.counted);
      sized = omega (arith, he.sized);
    }
