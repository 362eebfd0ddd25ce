-- ===== src/Examples/Joins.antt =====
-- Joins and the deadlock test, on concrete states.
use ein8_proj.Base.{
  ℕ, ◌≡◌, refl, ◌⊎◌, inr, none, some, List, [], ◌∷◌, ◌++◌, arith, ◌==◌, if◌then◌else◌, sym, ap,
}
use ein8_proj.Base.Int.{pos}
use ein8_proj.Cold.{Cold, finished}
use ein8_proj.Examples.{Ring-with, cold0, fresh_cold, ready0, s0, stacks0, threads0}
use ein8_proj.Mono.{State, aborted, returned, stored, switched}
use ein8_proj.Mono.Memory.Stacks.{Stacks}
use ein8_proj.Mono.Memory.Threads.{Threads}
use ein8_proj.Mono.Switch.Stacked.{IsExhausted}
use ein8_proj.Sched.Ring.{Ring}
use ein8_proj.Thread.{thread_create}
use ein8_proj.Thread.Join.{
  Body, by_return, edeadlk, inline_begin, inline_run, join_cleanup, join_unfinished, join_wait,
  thread_join, thread_join_resume,
}
use ein8_proj.Thread.Join.Cleanup.{join_cleanup-last}
use ein8_proj.Thread.Join.Deadlock.{JoinResult, join_wait-Ring, thread_join-deadlock}
use ein8_proj.Thread.Join.Inline.{Balanced, ended_value, inline_begin-Ring, inline_run-Ring}
use ein8_proj.Thread.Join.Stale.{thread_join_stale}
use ein8_proj.UnionFind.{Cells, set_parent, uf_find, uf_union}
use ein8_proj.UnionFind.Rep.{Keeps, uf_find-Rep}
use ein8_proj.UnionFind.Union.{UnionResult, uf_union-UnionResult, uf_union_below}

abbrev returns_its_argument : Body
returns_its_argument fn ar s = by_return ar s

abbrev cold_ranked : ℕ → Cold
cold_ranked a = if a == 2 then record (fresh_cold a) { rank = 1 } else fresh_cold a

abbrev s_ranked : State
s_ranked = record s0 { cold = cold_ranked }

abbrev s_back : State
s_back = record s0 { cold = set_parent 1 2 cold_ranked }

inline-Balanced : Balanced 6 1 1 (2 ∷ 3 ∷ []) (inline_begin 9 6 s0)
unfolding inline_begin
inline-Balanced = record {
  running = refl;
  ring = (inline_begin-Ring 9 6 s0 (2 ∷ 3 ∷ []) (Ring-with 140000) refl (omega arith)).0;
  joiner_out = refl;
  depth_kept = refl;
}

uf_find-Rep_example : ((uf_find 2 5 cold0).0 ≡ 2) × Keeps cold0 (uf_find 2 5 cold0).1
uf_find-Rep_example = uf_find-Rep 2 1 5 2 cold0 (inr (refl, refl)) (omega arith)

uf_union-UnionResult_example : UnionResult cold0 1 2 (uf_union 2 1 5 cold0)
uf_union-UnionResult_example =
    uf_union-UnionResult 2 0 1 1 5 1 2 cold0 (refl, refl) (inr (refl, refl)) (omega arith)
      (omega arith)

thread_join_stale_example :
    (s3 : State) × (s4 : State) × (thread_join_resume 700 2 s_back
      ≡ (stored 700 (s_back.cold 2).retval, returned (pos 0) s3))
    × (thread_create 21 22 s3 ≡ (some 2, returned (pos 0) s4))
    × ((c : Cells) × (thread_join returns_its_argument 2 500 9 700 2 s4
          ≡ (none, returned edeadlk (record s4 { cold = c }))))
thread_join_stale_example =
    thread_join_stale returns_its_argument 2 500 9 700 21 22 2 s_ranked s_back (omega arith)
      (omega arith) refl refl (omega arith) refl
      (sym (ap (λ r. (r.1 1).parent) (uf_union_below 2 1 2 cold_ranked refl refl (omega arith))))
      refl

thread_join-deadlock_example :
    JoinResult s0 1 2
      (join_unfinished returns_its_argument 500 9 700 5)
      (thread_join returns_its_argument 2 500 9 700 5 s0)
thread_join-deadlock_example =
    thread_join-deadlock returns_its_argument 2 500 9 700 5 0 1 1 2 s0 refl (refl, refl)
      (inr (refl, refl)) (omega arith) (omega arith)

join_wait-Ring_example :
    (IsExhausted s0 × ((join_wait 500 2 s0).1 ≡ aborted))
    ⊎ ((s' : State) × (join_wait 500 2 s0 ≡ (none, switched s'))
        × (s'.current ≡ 3)
        × Ring s'.hot 3 (2 ∷ [])
        × ((s'.hot s0.current).rsp ≡ 500)
        × ((s'.cold 2).waiting ≡ s0.current))
join_wait-Ring_example = join_wait-Ring 500 2 s0 (2 ∷ 3 ∷ []) (2 ∷ []) 3 ready0 refl (omega arith)

inline_run-Ring_example : record {
  current : (inline_run returns_its_argument 9 6 11 12 s0).current ≡ s0.current;
  ring : Ring (inline_run returns_its_argument 9 6 11 12 s0).hot s0.current (2 ∷ 3 ∷ []);
  depth : (inline_run returns_its_argument 9 6 11 12 s0).inline_executing ≡ s0.inline_executing;
  value :
      ((inline_run returns_its_argument 9 6 11 12 s0).cold 6).retval
      ≡ ended_value 6 (returns_its_argument 11 12 (inline_begin 9 6 s0));
  state : ((inline_run returns_its_argument 9 6 11 12 s0).cold 6).state ≡ finished;
  no_jump : ((inline_run returns_its_argument 9 6 11 12 s0).cold 6).inline_jmpbuf ≡ 0;
}
inline_run-Ring_example =
    inline_run-Ring returns_its_argument 9 6 11 12 s0 (2 ∷ 3 ∷ []) (omega arith) (inline-Balanced)

join_cleanup-last_example :
    (s' : State) × (join_cleanup 700 2 s0 ≡ (stored 700 (s0.cold 2).retval, returned (pos 0) s'))
    × Threads s' (2 ∷ (6 ∷ [])) ((1 ∷ []) ++ (3 ∷ 4 ∷ 5 ∷ []))
    × ((sfree' : List ℕ) × Stacks s' sfree' (131072 ∷ []))
join_cleanup-last_example =
    join_cleanup-last 700 2 s0 (6 ∷ []) (1 ∷ []) (3 ∷ 4 ∷ 5 ∷ []) (196608 ∷ []) (131072 ∷ []) refl
      threads0 stacks0
