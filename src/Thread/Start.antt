-- ===== src/Thread/Start.antt =====
-- `thread_create` and `thread_yield` of src/thread.c: which threads are ready, and in which order.
use ein8_proj.Base.{
  ℕ, ◌≡◌, ◌≢◌, refl, sym, subst, ◌∙◌, arith, ◌==◌, if◌then◌else◌, List, [], ◌∷◌, ◌++◌, ap,
  not-mem_sub, Option, some, none, ◌⊎◌, inl, inr, true, false, ◌∈◌, ◌∉◌, length, Bool-cases,
}
use ein8_proj.Base.Int.{pos, negsuc}
use ein8_proj.Sched.{Slab, set_rsp}
use ein8_proj.Sched.Ring.{Ring, Ring-relink, Ring-rotate}
use ein8_proj.Cold.{thread_cold_reset}
use ein8_proj.Mono.{State, Outcome, returned, switched, aborted, write_cold}
use ein8_proj.Mono.Memory.{thread_alloc, thread_cap}
use ein8_proj.Mono.Memory.Threads.{Threads, ThreadGiven, thread_alloc-ThreadGiven}
use ein8_proj.Mono.Switch.Stacked.{IsExhausted, switch_lazy-Switched}
use ein8_proj.Thread.{
  default_priority, set_priority, flush_last_created, set_up, create_from, thread_create,
  yield_fast, thread_yield,
}
use ein8_proj.Thread.Flush.{Ready, fresh_list, flush_none, flush-Ring, flush-Flushed}

set_up-hot :
    (t : ℕ) (h : Slab) (a : ℕ)
    → ((set_priority t default_priority (set_rsp t 0 h) a).sched_next ≡ (h a).sched_next)
      × ((set_priority t default_priority (set_rsp t 0 h) a).sched_prev ≡ (h a).sched_prev)
set_up-hot t h a = ground arith

-- The new thread is the one created last; the former one is at the end of the list.
pub set_up-Ready :
    (t func arg : ℕ) (s : State) (xs : List ℕ)
    → Ready s xs
    → t ∉ s.current ∷ (xs ++ fresh_list s)
    → Ready (set_up t func arg s) (xs ++ fresh_list s) × ((set_up t func arg s).last_created ≡ t)
unfolding set_up
set_up-Ready t func arg s xs rd out =
    let s1 = record s {
      cold = write_cold s.cold t (thread_cold_reset t);
      hot = set_priority t default_priority (set_rsp t 0 s.hot);
    } in
    let rd1 : Ready s1 xs = record {
      ring = Ring-relink s.hot s1.hot s.current xs rd.ring (set_up-hot t s.hot);
      outside = rd.outside;
    } in
    let fl = flush-Flushed s1 in
    (
      record { ring = rw fl.current (flush-Ring s1 xs rd1); outside = λ ne. rw fl.current out },
      refl,
    )

-- Taking a descriptor from the slab leaves the lists alone.
record SameLists (s s' : State) : Type 0 where
  hot : s'.hot ≡ s.hot
  current : s'.current ≡ s.current
  last_created : s'.last_created ≡ s.last_created

thread_alloc-SameLists : (s : State) → SameLists s (thread_alloc s).1
unfolding thread_alloc
thread_alloc-SameLists s = record {
  hot = ground arith;
  current = ground arith;
  last_created = ground arith;
}

SameLists-Ready : (s s' : State) (xs : List ℕ) → SameLists s s' → Ready s xs → Ready s' xs
SameLists-Ready s s' xs same rd = record {
  ring = rw (same.hot, same.current) rd.ring;
  outside = λ ne.
      subst (λ c. s'.last_created ∉ c ∷ xs) (sym same.current)
        (subst (λ l. l ∉ s.current ∷ xs) (sym same.last_created)
          (rd.outside (subst (λ l. l ≢ 0) same.last_created ne)));
}

-- What `thread_create` may do, where `used` are the descriptors handed out before.
abbrev pub Created : State → List ℕ → List ℕ → Option ℕ × Outcome → Type 0
Created s used xs r =
    ((r ≡ (none, returned (negsuc 0) s)) × (length used ≡ thread_cap))
    ⊎ ((t : ℕ) × (s' : State) × (r ≡ (some t, returned (pos 0) s'))
        × (t ≢ 0)
        × (t ∉ used)
        × (s'.last_created ≡ t)
        × Ready s' (xs ++ fresh_list s))

create_from-Created :
    (func arg : ℕ) (s : State) (used xs : List ℕ) (r : Option ℕ × State)
    → ThreadGiven s used r
    → SameLists s r.1
    → Ready s xs
    → ((a : ℕ) → a ∈ s.current ∷ (xs ++ fresh_list s) → a ∈ used)
    → Created s used xs (create_from func arg r)
unfolding create_from
create_from-Created func arg s used xs (none, s') (e, full) same rd covered = inl (rw e refl, full)
create_from-Created func arg s used xs (some t, s') (ne, new, more) same rd covered =
    let fresh : fresh_list s' ≡ fresh_list s =
      ap (λ (l : ℕ). if l == 0 then [] else l ∷ []) same.last_created in
    let out : t ∉ s.current ∷ (xs ++ fresh_list s) =
      not-mem_sub t (s.current ∷ (xs ++ fresh_list s)) used covered new in
    let (rd', e) =
      set_up-Ready t func arg s' xs (SameLists-Ready s s' xs same rd)
        (rw (fresh, same.current) out) in
    inr (t, set_up t func arg s', refl, ne, new, e, rw fresh at rd')

-- `thread_create` gives -1 only when all descriptors are handed out, and then changes nothing; else
-- the new thread has a descriptor that no other thread has and is the one created last, and the
-- thread that was created before it is now at the end of the ready list.
pub thread_create-Created :
    (func arg : ℕ) (s : State) (free used xs : List ℕ)
    → Threads s free used
    → Ready s xs
    → ((a : ℕ) → a ∈ s.current ∷ (xs ++ fresh_list s) → a ∈ used)
    → Created s used xs (thread_create func arg s)
unfolding thread_create
thread_create-Created func arg s free used xs th rd covered =
    create_from-Created func arg s used xs (thread_alloc s)
      (thread_alloc-ThreadGiven s free used th) (thread_alloc-SameLists s) rd covered

-- `thread_yield` alone in the list, with no thread created last, returns 0 at once and changes nothing.
pub thread_yield_alone :
    (sp : ℕ) (s : State) → Ready s [] → s.last_created ≡ 0 → thread_yield sp s ≡ returned (pos 0) s
unfolding thread_yield yield_fast
thread_yield_alone sp s rd e =
    let here : (s.current == (s.hot s.current).sched_next) ≡ true = ground (arith, rd.ring.links) in
    elim (Bool-cases (s.inline_executing == 0)) [
      | inl quiet ↦ rw (quiet, flush_none s e, here) refl
      | inr busy ↦ rw busy refl
    ]

yield_fast-rotate :
    (sp : ℕ) (s : State) (zs : List ℕ) (x : ℕ)
    → Ring s.hot s.current (x ∷ zs)
    → (IsExhausted s × (yield_fast sp s ≡ aborted))
      ⊎ ((s' : State) × (yield_fast sp s ≡ switched s')
          × (s'.current ≡ x)
          × Ring s'.hot x (zs ++ s.current ∷ [])
          × ((s'.hot s.current).rsp ≡ sp)
          × (s'.last_created ≡ s.last_created))
unfolding yield_fast
yield_fast-rotate sp s zs x r =
    let e : (s.hot s.current).sched_next ≡ x = r.links.0 in
    let away : (s.current == x) ≡ false = ground (arith, r.distinct) in
    elim (switch_lazy-Switched sp s.current x (record s { current = x })) [
      | inl (full, stop) ↦ inl (full, rw (e, away, stop) refl)
      | inr (s', go, sw) ↦ inr (
        s',
        rw (e, away, go) refl,
        sw.current,
        Ring-relink s.hot s'.hot x (zs ++ s.current ∷ []) (Ring-rotate s.hot s.current [] x zs r)
            sw.links,
        sw.saved,
        sw.last_created,
      )
    ]

-- `thread_yield` with others ready and no inline run going on: the first of the list runs, the caller
-- goes to its end behind the thread created last, and its stack pointer is saved, unless no stack is
-- left for the elected thread.
pub thread_yield-rotate :
    (sp : ℕ) (s : State) (xs zs : List ℕ) (x : ℕ)
    → Ready s xs
    → s.inline_executing ≡ 0
    → xs ++ fresh_list s ≡ x ∷ zs
    → (IsExhausted s × (thread_yield sp s ≡ aborted))
      ⊎ ((s' : State) × (thread_yield sp s ≡ switched s')
          × (s'.current ≡ x)
          × Ring s'.hot x (zs ++ s.current ∷ [])
          × ((s'.hot s.current).rsp ≡ sp)
          × (s'.last_created ≡ 0))
unfolding thread_yield
thread_yield-rotate sp s xs zs x rd quiet e =
    let calm : (s.inline_executing == 0) ≡ true = ground arith in
    let fl = flush-Flushed s in
    let ring = subst (λ l. Ring (flush_last_created s).hot s.current l) e (flush-Ring s xs rd) in
    elim (yield_fast-rotate sp (flush_last_created s) zs x (rw fl.current ring)) [
      | inl (full, stop) ↦ inl (fl.exhausted full, rw calm stop)
      | inr (s', go, cur, r, saved, none_new) ↦
          inr (s', rw calm go, cur, rw fl.current at r, rw fl.current at saved, none_new ∙ fl.empty)
    ]
