-- ===== src/Thread/Join/Deadlock.antt =====
-- `thread_join` of src/thread.c: when it refuses, when it returns at once and when it waits.
use ein8_proj.Base.{
  ℕ, ◌<◌, ◌≡◌, ◌≢◌, refl, subst, ◌∙◌, ==_self, List, [], ◌∷◌, ◌++◌, ap, Option, none, ◌⊎◌, inl, inr,
  true, false,
}
use ein8_proj.Base.Int.{ℤ, pos, negsuc}
use ein8_proj.Sched.{sched_remove, sched_pick_next}
use ein8_proj.Sched.Ring.{Ring, Ring-relink}
use ein8_proj.Sched.Ops.{is_sched_empty_busy}
use ein8_proj.Sched.Replace.{Ring-block, sched_pick_next-last}
use ein8_proj.Cold.{Cold, ThreadState, ready, finished}
use ein8_proj.Mono.{State, Outcome, returned, switched, aborted, write_cold}
use ein8_proj.Mono.Switch.Stacked.{IsExhausted, switch_lazy-Switched}
use ein8_proj.UnionFind.{Cells, uf_union}
use ein8_proj.UnionFind.Rep.{Rep, Keeps}
use ein8_proj.UnionFind.Union.{Joined, UnionResult, uf_union-UnionResult}
use ein8_proj.Thread.{flush_last_created}
use ein8_proj.Thread.Flush.{Ready, fresh_list, flush-Ring, flush-Flushed}
use ein8_proj.Thread.Join.{
  Body, edeadlk, is_finished, join_cleanup, join_unfinished, join_after, join_switch, join_wait,
  thread_join,
}

-- `thread_join` on a thread that has finished returns at once, without the deadlock test.
pub thread_join-finished :
    (body : Body) (fuel sp jmpbuf retval t : ℕ) (s : State)
    → (s.cold t).state ≡ finished
    → thread_join body fuel sp jmpbuf retval t s ≡ join_cleanup retval t s
unfolding thread_join
thread_join-finished body fuel sp jmpbuf retval t s e =
    let over : is_finished (s.cold t).state ≡ true = ap (λ (x : ThreadState). is_finished x) e in
    rw over refl

-- What the deadlock test may answer, where `go` is how the call goes on.
abbrev pub JoinResult :
    State → (ra rb : ℕ) → (go : State → Option ℕ × Outcome) → Option ℕ × Outcome → Type 0
JoinResult s ra rb go r =
    (cold' : ℕ → Cold) × (((ra ≡ rb)
        × (r ≡ (none, returned edeadlk (record s { cold = cold' })))
        × Keeps s.cold cold')
      ⊎ ((ra ≢ rb) × (r ≡ go (record s { cold = cold' })) × Joined s.cold ra rb cold'))

join_after-JoinResult :
    (body : Body) (sp jmpbuf retval t ra rb : ℕ) (s : State) (r : ℤ × Cells)
    → UnionResult s.cold ra rb r
    → JoinResult s ra rb
        (join_unfinished body sp jmpbuf retval t)
        (join_after body sp jmpbuf retval t s r)
unfolding join_after
join_after-JoinResult body sp jmpbuf retval t ra rb s (pos k, c) (inl (e, bad, keeps)) = absurd (cc)
join_after-JoinResult body sp jmpbuf retval t ra rb s (negsuc k, c) (inl (e, code, keeps)) =
    (c, inl (e, refl, keeps))
join_after-JoinResult body sp jmpbuf retval t ra rb s (pos k, c) (inr (ne, code, joined)) =
    (c, inr (ne, refl, joined))
join_after-JoinResult body sp jmpbuf retval t ra rb s (negsuc k, c) (inr (ne, bad, joined)) =
    absurd (cc)

-- `thread_join` on a thread that has not finished, where `ra` and `rb` are the roots of the caller
-- and of the thread in the graph of joins and the fuel is enough: if they are one, EDEADLK is
-- returned, only parents in the graph change and every descriptor keeps its root; else the two
-- classes are joined and the call goes on.
pub thread_join-deadlock :
    (body : Body) (fuel sp jmpbuf retval t n m ra rb : ℕ) (s : State)
    → (s.cold t).state ≡ ready
    → Rep s.cold n s.current ra
    → Rep s.cold m t rb
    → n < fuel
    → m < fuel
    → JoinResult s ra rb
        (join_unfinished body sp jmpbuf retval t)
        (thread_join body fuel sp jmpbuf retval t s)
unfolding thread_join
thread_join-deadlock body fuel sp jmpbuf retval t n m ra rb s running da db ha hb =
    let runs : is_finished (s.cold t).state ≡ false =
      ap (λ (x : ThreadState). is_finished x) running in
    rw runs (
      join_after-JoinResult body sp jmpbuf retval t ra rb s (uf_union fuel s.current t s.cold)
        (uf_union-UnionResult fuel n m s.current t ra rb s.cold da db ha hb))

join_switch-Ring :
    (sp : ℕ) (s : State) (zs : List ℕ) (l : ℕ)
    → Ring s.hot s.current (zs ++ l ∷ [])
    → (IsExhausted s × ((join_switch sp s).1 ≡ aborted))
      ⊎ ((s' : State) × (join_switch sp s ≡ (none, switched s'))
          × (s'.current ≡ l)
          × Ring s'.hot l zs
          × ((s'.hot s.current).rsp ≡ sp)
          × ((a : ℕ) → s'.cold a ≡ record (s.cold a) { stack_base = (s'.cold a).stack_base }))
unfolding join_switch
join_switch-Ring sp s zs l r =
    let busy = is_sched_empty_busy s.hot s.current l zs r in
    let next = sched_pick_next s.current s.hot in
    let left = sched_remove s.current s.hot in
    let elected = sched_pick_next-last s.hot s.current l zs r in
    let block = rw elected at (Ring-block s.hot s.current l zs r) in
    elim (switch_lazy-Switched sp s.current next (record s { hot = left; current = next })) [
      | inl (full, e) ↦ inl (full, rw (busy, e) refl)
      | inr (s', e, sw) ↦ inr (
        s',
        rw (busy, e) refl,
        sw.current ∙ elected,
        Ring-relink left s'.hot l zs block sw.links,
        sw.saved,
        sw.colds,
      )
    ]

-- `thread_join` on a thread that runs elsewhere, with others ready: the caller is noted as the one
-- that waits for it and leaves the list, the last of the list runs, and the others stay, unless no stack
-- is left for the elected thread.
pub join_wait-Ring :
    (sp t : ℕ) (s : State) (xs zs : List ℕ) (l : ℕ)
    → Ready s xs
    → xs ++ fresh_list s ≡ zs ++ l ∷ []
    → t ≢ s.last_created
    → (IsExhausted s × ((join_wait sp t s).1 ≡ aborted))
      ⊎ ((s' : State) × (join_wait sp t s ≡ (none, switched s'))
          × (s'.current ≡ l)
          × Ring s'.hot l zs
          × ((s'.hot s.current).rsp ≡ sp)
          × ((s'.cold t).waiting ≡ s.current))
unfolding join_wait
join_wait-Ring sp t s xs zs l rd e away =
    let s1 = record s { cold = write_cold s.cold t (record (s.cold t) { waiting = s.current }) } in
    let fl = flush-Flushed s1 in
    let ring =
      subst (λ k. Ring (flush_last_created s1).hot s.current k) e
        (flush-Ring s1 xs (record { ring = rd.ring; outside = rd.outside })) in
    elim (join_switch-Ring sp (flush_last_created s1) zs l (rw fl.current ring)) [
      | inl (full, stop) ↦ inl (fl.exhausted full, stop)
      | inr (s', go, cur, r, saved, colds) ↦ inr (
        s',
        go,
        cur,
        r,
        rw fl.current at saved,
        ap (λ (c : Cold). c.waiting) {x = s'.cold t}
              {y = record ((flush_last_created s1).cold t) { stack_base = (s'.cold t).stack_base }}
              (colds t)
            ∙ ap (λ (c : Cold). c.waiting) {x = (flush_last_created s1).cold t} {y = s1.cold t}
                (fl.others t away)
            ∙ rw (==_self t) refl,
      )
    ]
