-- ===== src/Thread/Join/Cleanup.antt =====
-- The end of `thread_join` of src/thread.c: the value, and the return of the descriptor and its stack.
use ein8_proj.Base.{
  ℕ, ◌+◌, ◌≡◌, refl, sym, ◌∙◌, arith, ◌==◌, ==_self, if◌then◌else◌, List, [], ◌∷◌, ◌++◌, inl, inr,
  true, Bool-cases,
}
use ein8_proj.Base.Int.{pos}
use ein8_proj.Base.Word.{u16}
use ein8_proj.Cold.{Cold}
use ein8_proj.Mono.{stored, State, returned, write_cold}
use ein8_proj.Mono.Memory.{thread_release, stack_release}
use ein8_proj.Mono.Memory.Stacks.{Stacks, stack_release-Stacks}
use ein8_proj.Mono.Memory.Threads.{Threads, thread_release-Threads}
use ein8_proj.Thread.Join.{free_stack, join_cleanup}

-- The stack of a descriptor, if it has one.
abbrev pub stack_list : Cold → List ℕ
stack_list c = if c.stack_base == 0 then [] else c.stack_base ∷ []

record SameHot (s s' : State) : Type 0 where
  hot : s'.hot ≡ s.hot
  thread_free_head : s'.thread_free_head ≡ s.thread_free_head
  thread_slab_next : s'.thread_slab_next ≡ s.thread_slab_next

free_stack-SameHot : (t : ℕ) (s : State) → SameHot s (free_stack t s)
unfolding free_stack stack_release
free_stack-SameHot t s = record {
  hot = ground arith;
  thread_free_head = ground arith;
  thread_slab_next = ground arith;
}

SameHot-Threads :
    (s s' : State) (free used : List ℕ) → SameHot s s' → Threads s free used → Threads s' free used
SameHot-Threads s s' free used same th = record {
  linked = rw (same.hot, same.thread_free_head) th.linked;
  distinct_free = th.distinct_free;
  distinct_used = th.distinct_used;
  apart = th.apart;
  free_placed = λ a i. rw same.thread_slab_next (th.free_placed a i);
  used_placed = λ a i. rw same.thread_slab_next (th.used_placed a i);
  counted = th.counted ∙ sym same.thread_slab_next;
  bounded = rw same.thread_slab_next th.bounded;
}

free_stack-Stacks :
    (t : ℕ) (s : State) (free used : List ℕ)
    → Stacks s free (stack_list (s.cold t) ++ used)
    → (free' : List ℕ) × Stacks (free_stack t s) free' used
unfolding free_stack
free_stack-Stacks t s free used st = elim (Bool-cases ((s.cold t).stack_base == 0)) [
  | inl e ↦ (free, rw (e, free_stack) (rw e at st))
  | inr e ↦ (
    (s.cold t).stack_base ∷ free,
    rw (e, free_stack) (stack_release-Stacks s free [] used (s.cold t).stack_base (rw e at st)),
  )
]

stack_list_same :
    (f : ℕ → Cold) (t : ℕ) (tc : Cold)
    → stack_list (write_cold f t (record tc { func = 0 }) t) ≡ stack_list tc
stack_list_same f t tc = rw (==_self t) refl

th_same :
    (s : State) (f : ℕ → Cold) (free used : List ℕ)
    → Threads s free used
    → Threads (record s { cold = f }) free used
th_same s f free used th = record {
  linked = th.linked;
  distinct_free = th.distinct_free;
  distinct_used = th.distinct_used;
  apart = th.apart;
  free_placed = th.free_placed;
  used_placed = th.used_placed;
  counted = th.counted;
  bounded = th.bounded;
}

Stacks-same :
    (s s' : State) (free used : List ℕ)
    → s'.mem ≡ s.mem
    → s'.stack_free_head ≡ s.stack_free_head
    → s'.stack_arena ≡ s.stack_arena
    → s'.stack_arena_next ≡ s.stack_arena_next
    → Stacks s free used
    → Stacks s' free used
Stacks-same s s' free used e1 e2 e3 e4 st = record {
  linked = rw (e1, e2) st.linked;
  distinct_free = st.distinct_free;
  distinct_used = st.distinct_used;
  apart = st.apart;
  free_placed = λ a i. rw (e3, e4) (st.free_placed a i);
  used_placed = λ a i. rw (e3, e4) (st.used_placed a i);
  counted = st.counted ∙ sym e4;
  bounded = rw e4 st.bounded;
  mapped = rw e3 st.mapped;
}

st_same :
    (s : State) (f : ℕ → Cold) (free used : List ℕ)
    → Stacks s free used
    → Stacks (record s { cold = f }) free used
st_same s f free used st = Stacks-same s (record s { cold = f }) free used refl refl refl refl st

thread_release-Stacks :
    (t : ℕ) (s : State) (free used : List ℕ)
    → Stacks s free used
    → Stacks (thread_release t s) free used
unfolding thread_release
thread_release-Stacks t s free used st =
    Stacks-same s (thread_release t s) free used refl refl refl refl st

-- The last join of a thread stores the thread's value, unless `retval` is NULL, and gives its
-- descriptor and its stack, if it has one, back to the allocators; the other descriptors and stacks
-- stay handed out.
pub join_cleanup-last :
    (retval t : ℕ) (s : State) (tfree front back sfree sused : List ℕ)
    → (s.cold t).refcount ≡ 1
    → Threads s tfree (front ++ t ∷ back)
    → Stacks s sfree (stack_list (s.cold t) ++ sused)
    → (s' : State) × (join_cleanup retval t s
        ≡ (stored retval (s.cold t).retval, returned (pos 0) s'))
      × Threads s' (t ∷ tfree) (front ++ back)
      × ((sfree' : List ℕ) × Stacks s' sfree' sused)
unfolding join_cleanup
join_cleanup-last retval t s tfree front back sfree sused one th st =
    let tc = record (s.cold t) { refcount = u16 ((s.cold t).refcount + 65535) } in
    let gone = record s { cold = write_cold s.cold t (record tc { func = 0 }) } in
    let zero_left : (u16 ((s.cold t).refcount + 65535) == 0) ≡ true = ground (arith, one) in
    let rest = stack_list_same s.cold t tc in
    let th' : Threads gone tfree (front ++ t ∷ back) =
      th_same s gone.cold tfree (front ++ t ∷ back) th in
    let (free', st') =
      free_stack-Stacks t gone sfree sused
        (rw rest (st_same s gone.cold sfree (stack_list (s.cold t) ++ sused) st)) in
    (
      thread_release t (free_stack t gone),
      rw zero_left refl,
      thread_release-Threads (free_stack t gone) tfree front back t (
          SameHot-Threads gone (free_stack t gone) tfree (front ++ t ∷ back)
            (free_stack-SameHot t gone) th'),
      (free', thread_release-Stacks t (free_stack t gone) free' sused st'),
    )
