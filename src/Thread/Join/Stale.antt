-- ===== src/Thread/Join/Stale.antt =====
-- The deadlock test of `thread_join` of src/thread.c on a descriptor that is used again.
use ein8_proj.Base.{
  ℕ, ◌<◌, ◌≡◌, ◌≢◌, refl, ◌∙◌, arith, ◌==◌, ==_self, ==_ne, ap, some, none, inl, inr, true, false,
  ◌+◌,
}
use ein8_proj.Base.Int.{pos}
use ein8_proj.Base.Word.{u16}
use ein8_proj.Cold.{ready, thread_cold_reset}
use ein8_proj.Mono.{stored, State, returned, write_cold}
use ein8_proj.Mono.Memory.{thread_alloc, thread_release, stack_release}
use ein8_proj.UnionFind.{Cells, uf_union}
use ein8_proj.UnionFind.Rep.{Rep}
use ein8_proj.UnionFind.Union.{uf_union_below}
use ein8_proj.Thread.{
  flush_last_created, flush_last_created_slow, set_up, create_from, thread_create,
}
use ein8_proj.Thread.Join.{Body, edeadlk, free_stack, join_cleanup, thread_join, thread_join_resume}
use ein8_proj.Thread.Join.Deadlock.{thread_join-deadlock}

-- The descriptor `t` as it is behind its creation, and the links of the others as they were.
record Renewed (t : ℕ) (s s' : State) : Type 0 where
  current : s'.current ≡ s.current
  state : (s'.cold t).state ≡ ready
  own : (s'.cold t).parent ≡ t
  others : (a : ℕ) → a ≢ t → (s'.cold a).parent ≡ (s.cold a).parent

set_up-Renewed : (t func arg : ℕ) (s : State) → Renewed t s (set_up t func arg s)
unfolding set_up flush_last_created flush_last_created_slow thread_cold_reset
set_up-Renewed t func arg s = record {
  current = ground arith;
  state = ground arith;
  own = ground arith;
  others = λ a ne. ground arith;
}

-- What the last join of `t` leaves: `t` heads the free list, and every link stays as it is.
record Released (t : ℕ) (s s' : State) : Type 0 where
  current : s'.current ≡ s.current
  head : s'.thread_free_head ≡ t
  links : (a : ℕ) → (s'.cold a).parent ≡ (s.cold a).parent

thread_release-Released : (t : ℕ) (s : State) → Released t s (thread_release t (free_stack t s))
unfolding thread_release free_stack stack_release
thread_release-Released t s = record {
  current = ground arith;
  head = ground arith;
  links = λ a. ground arith;
}

join_cleanup-Released :
    (retval t : ℕ) (s : State)
    → (s.cold t).refcount ≡ 1
    → (s' : State) × (join_cleanup retval t s
        ≡ (stored retval (s.cold t).retval, returned (pos 0) s'))
      × Released t s s'
unfolding join_cleanup
join_cleanup-Released retval t s one =
    let tc = record (s.cold t) { refcount = u16 ((s.cold t).refcount + 65535) } in
    let gone = record s { cold = write_cold s.cold t (record tc { func = 0 }) } in
    let zero_left : (u16 ((s.cold t).refcount + 65535) == 0) ≡ true = ground (arith, one) in
    let by = thread_release-Released t gone in
    (
      thread_release t (free_stack t gone),
      rw zero_left refl,
      record { current = by.current; head = by.head; links = λ a. by.links a ∙ ground arith },
    )

-- The descriptor released last is the next that `thread_create` hands out.
thread_create-Renewed :
    (func arg t : ℕ) (s : State)
    → t ≢ 0
    → s.thread_free_head ≡ t
    → (s' : State) × (thread_create func arg s ≡ (some t, returned (pos 0) s')) × Renewed t s s'
unfolding thread_create create_from thread_alloc
thread_create-Renewed func arg t s ne head =
    let some_free : (t == 0) ≡ false = ==_ne t 0 ne in
    let s1 = record s { thread_free_head = (s.hot t).rsp } in
    let by = set_up-Renewed t func arg s1 in
    (
      set_up t func arg s1,
      rw (head, some_free) refl,
      record { current = by.current; state = by.state; own = by.own; others = by.others },
    )

-- A join outlives its end in the graph of joins. The caller and `t` are roots, and `t` has the higher
-- rank: the join puts the caller below `t`. When it resumes, with no other join having moved the caller
-- since, it is the last join of `t` and ends with 0. The next thread created gets the descriptor `t`,
-- and when the same caller joins that new thread, which has done nothing yet, it gets EDEADLK.
pub thread_join_stale :
    (body : Body) (fuel sp jmpbuf retval func arg t : ℕ) (s1 s2 : State)
    → t ≢ 0
    → 1 < fuel
    → (s1.cold s1.current).parent ≡ s1.current
    → (s1.cold t).parent ≡ t
    → (s1.cold s1.current).rank < (s1.cold t).rank
    → s2.current ≡ s1.current
    → (s2.cold s1.current).parent ≡ ((uf_union fuel s1.current t s1.cold).1 s1.current).parent
    → (s2.cold t).refcount ≡ 1
    → (s3 : State) × (s4 : State) × (thread_join_resume retval t s2
        ≡ (stored retval (s2.cold t).retval, returned (pos 0) s3))
      × (thread_create func arg s3 ≡ (some t, returned (pos 0) s4))
      × ((c : Cells) × (thread_join body fuel sp jmpbuf retval t s4
            ≡ (none, returned edeadlk (record s4 { cold = c }))))
unfolding thread_join_resume
thread_join_stale body fuel sp jmpbuf retval func arg t s1 s2 ne enough er et less same kept one =
    let main = s1.current in
    let away : main ≢ t = λ e. absurd (omega (arith, ap (λ x. (s1.cold x).rank) e, less)) in
    let (s3, ended, gone) = join_cleanup-Released retval t s2 one in
    let (s4, made, new) = thread_create-Renewed func arg t s3 ne gone.head in
    let joined : ((uf_union fuel main t s1.cold).1 main).parent ≡ t =
      rw (uf_union_below fuel main t s1.cold er et less, ==_self main) refl in
    let who : s4.current ≡ main = new.current ∙ gone.current ∙ same in
    let below : (s4.cold main).parent ≡ t =
      new.others main away ∙ gone.links main ∙ kept ∙ joined in
    let below' : (s4.cold s4.current).parent ≡ t = ap (λ x. (s4.cold x).parent) who ∙ below in
    let up : Rep s4.cold 0 (s4.cold s4.current).parent t = (below', new.own) in
    let (c, answer) =
      thread_join-deadlock body fuel sp jmpbuf retval t 1 0 t t s4 new.state (inr up)
        (refl, new.own) enough (omega arith) in
    (
      s3,
      s4,
      ended,
      made,
      elim answer [
        | inl (e, refused, keeps) ↦ (c, refused)
        | inr (two, go, links) ↦ absurd (two refl)
      ],
    )
