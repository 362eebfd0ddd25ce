-- ===== src/StackCache/Lazy.antt =====
-- `lazy_stack_alloc` of src/thread_mn.c: a thread gets its stack on a worker.
use ein8_proj.Base.{
  ℕ, ◌+◌, ◌*◌, ◌≤◌, ◌<◌, ◌≡◌, ◌≢◌, refl, sym, subst, ap, ◌∙◌, arith, ==_self, List, ◌∷◌, length,
  ◌∈◌, ◌∉◌, ◌⊎◌, Option, none, some,
}
use ein8_proj.FreeList.{Linked, Linked-frame}
use ein8_proj.Mono.{State, write_cold}
use ein8_proj.Mono.Memory.{stack_size, stack_cap, freelist_ptr, stack_init, install_stack}
use ein8_proj.Mono.Memory.Frame.{stack_init-Started}
use ein8_proj.Mono.Memory.Stacks.{Stacks, stack_link, IsStack}
use ein8_proj.StackCache.{StackPools, install_mn, lazy_stack_alloc_mn}
use ein8_proj.StackCache.Kept.{Kept, stack_alloc_mn-Kept}
use ein8_proj.StackCache.Alloc.{Shared, Answered, stack_alloc_mn-Answered}

-- What a new first frame on stack `b` for thread `t` is: the thread has the stack, its stack pointer
-- lies in it above the guard page, and no word outside the stack is written.
pub record Installed (t b : ℕ) (s s' : State) : Type 0 where
  pub base : (s'.cold t).stack_base ≡ b
  pub above_guard : b + 4096 ≤ (s'.hot t).rsp
  pub inside : (s'.hot t).rsp + 56 ≤ b + stack_size
  pub start : s'.mem ((s'.hot t).rsp + 48) ≡ s.thread_trampoline
  pub func : s'.mem ((s'.hot t).rsp + 24) ≡ (s.cold t).func
  pub arg : s'.mem ((s'.hot t).rsp + 16) ≡ (s.cold t).func_arg
  pub others : (a : ℕ) → (a < b) ⊎ (b + stack_size ≤ a) → s'.mem a ≡ s.mem a
  pub arena : s'.stack_arena ≡ s.stack_arena
  pub arena_next : s'.stack_arena_next ≡ s.stack_arena_next
  pub free_head : s'.stack_free_head ≡ s.stack_free_head

install_stack-Installed : (t b : ℕ) (s : State) → Installed t b s (install_stack t b s)
unfolding install_stack stack_init
install_stack-Installed t b s =
    let s1 = record s { cold = write_cold s.cold t (record (s.cold t) { stack_base = b }) } in
    let st = stack_init-Started b (s1.cold t).func (s1.cold t).func_arg s1 in
    record {
      base = rw (==_self t) refl;
      above_guard = rw (==_self t) st.above_guard;
      inside = rw (==_self t) st.inside;
      start = rw (==_self t) (rw (==_self t) at st.ret);
      func = rw (==_self t) (rw (==_self t) at st.r12);
      arg = rw (==_self t) (rw (==_self t) at st.r13);
      others = st.others;
      arena = refl;
      arena_next = refl;
      free_head = refl;
    }

-- The links of the other stacks lie outside the stack.
link_kept :
    (t b c : ℕ) (s s' : State)
    → Installed t b s s'
    → IsStack s b
    → IsStack s c
    → c ≢ b
    → stack_link s' c ≡ stack_link s c
link_kept t b c s s' ins (k, _, eb) (j, _, ec) ne =
    ins.others (freelist_ptr c) (omega (arith, eb, ec, ne))

Installed-Stacks :
    (t b : ℕ) (s s' : State) (free used : List ℕ)
    → Installed t b s s'
    → Stacks s free used
    → b ∈ used
    → Stacks s' free used
Installed-Stacks t b s s' free used ins st mine =
    let moved : (a : ℕ) → IsStack s a → IsStack s' a = λ a (k, low, e).
      (k, omega (arith, low, ins.arena_next), e ∙ ap (λ z. z + k * stack_size) (sym ins.arena)) in
    record {
      linked =
          subst (λ h. Linked (stack_link s') h free) (sym ins.free_head)
            (Linked-frame (stack_link s) (stack_link s') s.stack_free_head free st.linked (λ a i.
              link_kept t b a s s' ins (st.used_placed b mine) (st.free_placed a i)
                (λ e. ground (arith, st.apart a i, mine, e))));
      distinct_free = st.distinct_free;
      distinct_used = st.distinct_used;
      apart = st.apart;
      free_placed = λ a i. moved a (st.free_placed a i);
      used_placed = λ a i. moved a (st.used_placed a i);
      counted = st.counted ∙ sym ins.arena_next;
      bounded = omega (arith, st.bounded, ins.arena_next);
      mapped = λ e. st.mapped (sym ins.arena ∙ e);
    }

Installed-Shared :
    (t b : ℕ) (p : StackPools) (s' : State) (cache free used : List ℕ)
    → Installed t b p.global s'
    → Shared p cache free (b ∷ used)
    → Shared (record p { global = s' }) cache free (b ∷ used)
Installed-Shared t b p s' cache free used ins (all, he) =
    let mine : b ∈ all = ground (arith, he.members b) in
    (
      all,
      record {
        stacks = Installed-Stacks t b p.global s' free all ins he.stacks mine;
        waiting = refl;
        cached =
            Linked-frame (stack_link p.global) (stack_link s') p.s_cache_head cache he.cached
              (λ a i.
                link_kept t b a p.global s' ins (he.stacks.used_placed b mine)
                  (he.stacks.used_placed a (ground (arith, i, he.members a)))
                  (λ e. ground (arith, he.apart_cache a i, e)));
        members = he.members;
        distinct = he.distinct;
        distinct_cache = he.distinct_cache;
        apart = he.apart;
        apart_used = he.apart_used;
        apart_cache = he.apart_cache;
        counted = he.counted;
        sized = he.sized;
      },
    )

-- What `lazy_stack_alloc` may answer for thread `t`: behind `stack_alloc`, which leaves the state
-- `before`, the frame is written.
abbrev pub Lazily : (t : ℕ) → (used : List ℕ) → StackPools → Option StackPools → Type 0
Lazily t used p none = length used ≡ stack_cap
Lazily t used p (some p') =
    (b : ℕ) × (before : State) × (b ∉ used)
    × Kept p.global before
    × Installed t b before p'.global
    × ((cache : List ℕ) × (free : List ℕ) × Shared p' cache free (b ∷ used))

install_mn-Lazily :
    (t : ℕ) (used : List ℕ) (p : StackPools) (o : Option ℕ × StackPools)
    → Answered used o
    → Kept p.global o.1.global
    → (r : Option StackPools) × (install_mn t (some o) ≡ some r) × Lazily t used p r
unfolding install_mn
install_mn-Lazily t used p (none, p1) (full, _) kept = (none, refl, full)
install_mn-Lazily t used p (some b, p1) (ne, new, (cache, free, sh)) kept =
    let ins = install_stack-Installed t b p1.global in
    (
      some (record p1 { global = install_stack t b p1.global }),
      refl,
      (
        b,
        p1.global,
        new,
        kept,
        ins,
        (cache, free, Installed-Shared t b p1 (install_stack t b p1.global) cache free used ins sh),
      ),
    )

-- A thread that gets its stack on a worker gets one that nobody has, with its first frame in it above
-- the guard page, which starts its function with its argument; every other stack stays where it was.
-- The process is aborted only when each stack of the arena is handed out.
pub lazy_stack_alloc_mn-Lazily :
    (t : ℕ) (p : StackPools) (cache free used : List ℕ)
    → Shared p cache free used
    → (r : Option StackPools) × (lazy_stack_alloc_mn t p ≡ some r) × Lazily t used p r
unfolding lazy_stack_alloc_mn
lazy_stack_alloc_mn-Lazily t p cache free used sh =
    let (o, e, good) = stack_alloc_mn-Answered p cache free used sh in
    let (r, e', done) = install_mn-Lazily t used p o good (stack_alloc_mn-Kept p o e) in
    (r, ap (install_mn t) e ∙ e', done)
