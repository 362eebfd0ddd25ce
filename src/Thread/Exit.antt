-- ===== src/Thread/Exit.antt =====
-- `thread_exit` of src/thread.c: who runs next, and what becomes of the stack.
use ein8_proj.Base.{
  ℕ, ◌≡◌, ◌≢◌, refl, subst, ◌∙◌, arith, ◌==◌, ==_self, ==_ne, if◌then◌else◌, List, [], ◌∷◌, ◌++◌,
  ◌⊎◌, inl, inr, true, ◌∉◌, Bool-cases, ap,
}
use ein8_proj.Base.Int.{pos}
use ein8_proj.Sched.{sched_replace, sched_remove, sched_pick_next}
use ein8_proj.Sched.Ring.{Ring, Ring-relink}
use ein8_proj.Sched.Ops.{is_sched_empty_iff, is_sched_empty_busy}
use ein8_proj.Sched.Replace.{Ring-sched_replace, Ring-block, sched_pick_next-last}
use ein8_proj.Cold.{Cold, finished}
use ein8_proj.Mono.{State, returned, switched, exited, aborted, write_cold, context_restore}
use ein8_proj.Mono.Memory.{stack_release}
use ein8_proj.Mono.Memory.Stacks.{Stacks, stack_release-Stacks}
use ein8_proj.Mono.Switch.{restore_lazy}
use ein8_proj.Mono.Switch.Stacked.{IsExhausted, Stacked, ensure_stack-Stacked}
use ein8_proj.Thread.{
  flush_last_created, free_pending, thread_yield_resume, retire_stack, exit_switch, exit_unjoined,
  thread_exit,
}
use ein8_proj.Thread.Flush.{Ready, fresh_list, flush-Ring, flush-Flushed}

restore_lazy-Stacked :
    (next : ℕ) (s : State)
    → (IsExhausted s × (restore_lazy next s ≡ aborted))
      ⊎ ((s' : State) × (restore_lazy next s ≡ switched s') × Stacked next s s')
unfolding restore_lazy context_restore
restore_lazy-Stacked next s = elim (ensure_stack-Stacked next s) [
  | inl (full, e) ↦ inl (full, rw (e, restore_lazy) refl)
  | inr (s', e, st) ↦ inr (s', rw (e, restore_lazy, ==_ne (s'.hot next).rsp 0 st.runnable) refl, st)
]

-- `thread_exit` of a thread that another one, `w`, has joined: `w` runs at once, in the place of the
-- exiting thread in the list, whose value and state are recorded, unless `w` has no stack and none is
-- left.
pub thread_exit-handover :
    (retval : ℕ) (s : State) (xs : List ℕ)
    → Ring s.hot s.current xs
    → (s.cold s.current).inline_jmpbuf ≡ 0
    → (s.cold s.current).waiting ≢ 0
    → (s.cold s.current).waiting ∉ s.current ∷ xs
    → (IsExhausted s × (thread_exit retval s ≡ aborted))
      ⊎ ((s' : State) × (thread_exit retval s ≡ switched s')
          × (s'.current ≡ (s.cold s.current).waiting)
          × Ring s'.hot s'.current xs
          × ((s'.cold s.current).retval ≡ retval)
          × ((s'.cold s.current).state ≡ finished))
unfolding thread_exit
thread_exit-handover retval s xs r no_jump joined out =
    let w = (s.cold s.current).waiting in
    let me = s.current in
    let direct : ((s.cold me).inline_jmpbuf == 0) ≡ true = ground arith in
    let away : me ≢ w = ground arith in
    let after = record s {
      cold = write_cold s.cold me (record (s.cold me) { retval = retval; state = finished });
      hot = sched_replace me w s.hot;
      current = w;
    } in
    elim (restore_lazy-Stacked w after) [
      | inl (full, e) ↦ inl (full, rw (direct, ==_ne w 0 joined, e) refl)
      | inr (s', e, st) ↦ inr (
        s',
        rw (direct, ==_ne w 0 joined, e) refl,
        st.current,
        rw st.current (
            Ring-relink after.hot s'.hot w xs (Ring-sched_replace s.hot me w xs r out joined)
              st.links),
        rw ((st.others me away).1, ==_self me) refl,
        rw ((st.others me away).1, ==_self me) refl,
      )
    ]

-- The stack of a thread that has exited, until the next yield.
abbrev pub pending_list : State → List ℕ
pending_list s = if s.pending_dead_stack == 0 then [] else s.pending_dead_stack ∷ []

record SamePending (s s' : State) : Type 0 where
  cold : s'.cold ≡ s.cold
  hot : s'.hot ≡ s.hot
  current : s'.current ≡ s.current

free_pending-SamePending : (s : State) → SamePending s (free_pending s)
unfolding free_pending stack_release
free_pending-SamePending s = record {
  cold = ground arith;
  hot = ground arith;
  current = ground arith;
}

free_pending-Stacks :
    (s : State) (free used : List ℕ)
    → Stacks s free (pending_list s ++ used)
    → (free' : List ℕ) × Stacks (free_pending s) free' used
unfolding free_pending
free_pending-Stacks s free used st = elim (Bool-cases (s.pending_dead_stack == 0)) [
  | inl e ↦ (free, rw (e, free_pending) (rw e at st))
  | inr e ↦ (
    s.pending_dead_stack ∷ free,
    rw (e, free_pending) (stack_release-Stacks s free [] used s.pending_dead_stack (rw e at st)),
  )
]

-- When a thread exits, its stack is not given back while it still runs on it: it stays handed out, as
-- the one that waits; the stack that waited before, if any, goes to the free list.
pub retire_stack-Stacks :
    (me : ℕ) (s : State) (free used : List ℕ)
    → Stacks s free (pending_list s ++ used)
    → ((retire_stack me s).pending_dead_stack ≡ (s.cold me).stack_base)
      × (((retire_stack me s).cold me).stack_base ≡ 0)
      × ((free' : List ℕ) × Stacks (retire_stack me s) free' used)
unfolding retire_stack
retire_stack-Stacks me s free used st =
    let same = free_pending-SamePending s in
    let (free', st') = free_pending-Stacks s free used st in
    (
      ap (λ (c : ℕ → Cold). (c me).stack_base) same.cold,
      rw (==_self me) refl,
      (
        free',
        record {
          linked = st'.linked;
          distinct_free = st'.distinct_free;
          distinct_used = st'.distinct_used;
          apart = st'.apart;
          free_placed = st'.free_placed;
          used_placed = st'.used_placed;
          counted = st'.counted;
          bounded = st'.bounded;
          mapped = st'.mapped;
        },
      ),
    )

-- Behind the switch of a yield the stack that waited is on the free list and nothing waits.
pub thread_yield_resume-Stacks :
    (s : State) (free used : List ℕ)
    → Stacks s free (pending_list s ++ used)
    → (s' : State) × (thread_yield_resume s ≡ returned (pos 0) s')
      × (s'.pending_dead_stack ≡ 0)
      × ((free' : List ℕ) × Stacks s' free' used)
unfolding thread_yield_resume
thread_yield_resume-Stacks s free used st =
    let (free', st') = free_pending-Stacks s free used st in
    (
      record (free_pending s) { pending_dead_stack = 0 },
      refl,
      refl,
      (
        free',
        record {
          linked = st'.linked;
          distinct_free = st'.distinct_free;
          distinct_used = st'.distinct_used;
          apart = st'.apart;
          free_placed = st'.free_placed;
          used_placed = st'.used_placed;
          counted = st'.counted;
          bounded = st'.bounded;
          mapped = st'.mapped;
        },
      ),
    )

-- The state in which `exit_unjoined` looks for the next thread.
abbrev unlisted : ℕ → State → State
unlisted me s =
    flush_last_created (record s { cold = write_cold s.cold me (record (s.cold me) { func = 0 }) })

unlisted-Ring :
    (s : State) (xs : List ℕ)
    → Ready s xs
    → Ring (unlisted s.current s).hot (unlisted s.current s).current (xs ++ fresh_list s)
unlisted-Ring s xs rd =
    let s1 = record s {
      cold = write_cold s.cold s.current (record (s.cold s.current) { func = 0 });
    } in
    rw (flush-Flushed s1).current
      (flush-Ring s1 xs (record { ring = rd.ring; outside = rd.outside }))

-- `thread_exit` of a thread that nobody has joined, alone in the list with none created last: the
-- process leaves for the exit stack.
pub exit_unjoined_last :
    (s : State) (xs : List ℕ)
    → Ready s xs
    → xs ++ fresh_list s ≡ []
    → exit_unjoined s.current s ≡ exited (unlisted s.current s)
unfolding exit_unjoined exit_switch
exit_unjoined_last s xs rd e =
    let ring =
      subst (λ l. Ring (unlisted s.current s).hot (unlisted s.current s).current l) e
        (unlisted-Ring s xs rd) in
    let alone =
      (is_sched_empty_iff (unlisted s.current s).hot (unlisted s.current s).current [] ring).1
        refl in
    rw alone refl

retire_stack-hot : (me : ℕ) (s : State) → (retire_stack me s).hot ≡ s.hot
unfolding retire_stack
retire_stack-hot me s = (free_pending-SamePending s).hot

retire_stack-IsExhausted :
    (me : ℕ) (s : State)
    → IsExhausted (retire_stack me s)
    → IsExhausted s × (s.pending_dead_stack ≡ 0)
unfolding retire_stack free_pending stack_release
retire_stack-IsExhausted me s (none_free, none_left) = ((ground arith, ground arith), ground arith)

exit_switch-Ring :
    (me : ℕ) (s : State) (zs : List ℕ) (l : ℕ)
    → Ring s.hot s.current (zs ++ l ∷ [])
    → ((IsExhausted s × (s.pending_dead_stack ≡ 0)) × (exit_switch me s ≡ aborted))
      ⊎ ((s' : State) × (exit_switch me s ≡ switched s') × (s'.current ≡ l) × Ring s'.hot l zs)
unfolding exit_switch
exit_switch-Ring me s zs l r =
    let busy = is_sched_empty_busy s.hot s.current l zs r in
    let next = sched_pick_next s.current s.hot in
    let left = retire_stack me (record s { hot = sched_remove s.current s.hot }) in
    let elected = sched_pick_next-last s.hot s.current l zs r in
    let block = rw elected at (Ring-block s.hot s.current l zs r) in
    elim (restore_lazy-Stacked next (record left { current = next })) [
      | inl (full, e) ↦ inl (
        retire_stack-IsExhausted me (record s { hot = sched_remove s.current s.hot }) full,
        rw (busy, e) refl,
      )
      | inr (s', e, st) ↦ inr (
        s',
        rw (busy, e) refl,
        st.current ∙ elected,
        Ring-relink left.hot s'.hot l zs
            (rw (retire_stack-hot me (record s { hot = sched_remove s.current s.hot })) block)
            st.links,
      )
    ]

-- `thread_exit` of a thread that nobody has joined, with others ready: the last of the list runs and
-- the others stay; the exiting thread is in the list no more, unless no stack is left for the elected
-- thread.
pub exit_unjoined-Ring :
    (s : State) (xs zs : List ℕ) (l : ℕ)
    → Ready s xs
    → xs ++ fresh_list s ≡ zs ++ l ∷ []
    → (IsExhausted s × (exit_unjoined s.current s ≡ aborted))
      ⊎ ((s' : State) × (exit_unjoined s.current s ≡ switched s')
          × (s'.current ≡ l)
          × Ring s'.hot l zs)
unfolding exit_unjoined
exit_unjoined-Ring s xs zs l rd e =
    let s1 = record s {
      cold = write_cold s.cold s.current (record (s.cold s.current) { func = 0 });
    } in
    let fl = flush-Flushed s1 in
    elim (exit_switch-Ring s.current (unlisted s.current s) zs l (
      subst (λ k. Ring (unlisted s.current s).hot (unlisted s.current s).current k) e
        (unlisted-Ring s xs rd))) [
          | inl (full, stop) ↦ inl (fl.exhausted full.0, stop)
          | inr run ↦ inr run
        ]
