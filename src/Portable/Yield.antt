-- ===== src/Portable/Yield.antt =====
-- `thread_yield_asm` of src/ctx_ucontext.c: which thread runs, and in which order the others follow.
use ein8_proj.Base.{
  ℕ, ◌+◌, ◌<◌, ◌^◌, ◌≡◌, ◌≢◌, refl, subst, ap, ◌∙◌, arith, ◌==◌, ==_self, ==_ne, if◌then◌else◌,
  if_true, if_false, not, List, [], ◌∷◌, ◌++◌, some, none, ◌⊎◌, inl, inr, true, false, Bool-cases,
  Option-cases,
}
use ein8_proj.Sched.{Slab, set_rsp}
use ein8_proj.Sched.Ring.{Ring, Ring-relink, Ring-rotate}
use ein8_proj.Mono.{State, write_cold}
use ein8_proj.Mono.Memory.{stack_alloc, stack_size}
use ein8_proj.Mono.Switch.Stacked.{
  IsExhausted, IsExhausted-of_none, SameThreads, stack_alloc-SameThreads,
}
use ein8_proj.Thread.{flush_last_created}
use ein8_proj.Thread.Flush.{Ready, fresh_list, flush-Ring, flush-Flushed}
use ein8_proj.Portable.Made.{port_make_ctx_got}
use ein8_proj.Portable.{
  Ucontext, Machine, port_returned, port_switched, port_aborted, stack_guard, set_ctx, install_ctx,
  lazy_stack_alloc_port, ensure_ctx, switch_elected, elect_port, context_switch_port,
  thread_yield_port,
}

set_rsp-saved : (t v : ℕ) (h : Slab) → (set_rsp t v h t).rsp ≡ v
set_rsp-saved t v h = ground arith

module _ (U : Ucontext) where
  open U use {Context, sizeof, getcontext}

  -- What a stack for `next` may change.
  record Elected (next : ℕ) (m m' : Machine U) : Type 0 where
    current : m'.state.current ≡ m.state.current
    last_created : m'.state.last_created ≡ m.state.last_created
    main_ctx : m'.main_ctx ≡ m.main_ctx
    links :
        (a : ℕ)
        → ((m'.state.hot a).sched_next ≡ (m.state.hot a).sched_next)
          × ((m'.state.hot a).sched_prev ≡ (m.state.hot a).sched_prev)
    rsp : (a : ℕ) → a ≢ next → (m'.state.hot a).rsp ≡ (m.state.hot a).rsp
    runnable : (m'.state.hot next).rsp ≢ 0

  install_none : (next : ℕ) (m : Machine U) → install_ctx U next m none ≡ none
  unfolding install_ctx
  install_none next m = refl

  install_ctx-Elected :
      (next b : ℕ) (s1 : State) (m : Machine U) (c : Context)
      → getcontext ≡ some c
      → SameThreads m.state s1
      → b + stack_size < 2 ^ 64
      → (m' : Machine U) × (install_ctx U next (record m { state = s1 }) (some b) ≡ some m')
        × Elected next m m'
  unfolding install_ctx set_ctx
  install_ctx-Elected next b s1 m c got same room =
      let tc = s1.cold next in
      let (contexts, e) =
        port_make_ctx_got U m.trampoline b tc.func tc.func_arg c m.contexts (omega (arith, room))
          got in
      let s2 = record s1 { cold = write_cold s1.cold next (record tc { stack_base = b }) } in
      (
        record m {
          state = record s2 { hot = set_rsp next (b + stack_guard) s1.hot };
          contexts = contexts;
        },
        ap (set_ctx U next (record m { state = s2 })) e,
        record {
          current = same.current;
          last_created = same.last_created;
          main_ctx = refl;
          links = λ a. ground (arith, ap (λ h. h a) same.hot);
          rsp = λ a away. ground (arith, ap (λ h. h a) same.hot);
          runnable = rw (==_self next) (omega arith);
        },
      )

  -- Either the arena of stacks is exhausted, or the elected thread has a context afterwards.
  ensure_ctx-Elected :
      (next : ℕ) (m : Machine U) (c : Context)
      → getcontext ≡ some c
      → ((b : ℕ) → (stack_alloc m.state).0 ≡ some b → b + stack_size < 2 ^ 64)
      → (IsExhausted m.state × (ensure_ctx U next m ≡ none))
        ⊎ ((m' : Machine U) × (ensure_ctx U next m ≡ some m') × Elected next m m')
  unfolding ensure_ctx lazy_stack_alloc_port
  ensure_ctx-Elected next m c got room = elim (Bool-cases ((m.state.hot next).rsp == 0)) [
    | inr old ↦ inr (
      m,
      if_false ((m.state.hot next).rsp == 0) _ _ old,
      record {
        current = refl;
        last_created = refl;
        main_ctx = refl;
        links = λ a. (refl, refl);
        rsp = λ a away. refl;
        runnable = ground (arith, old);
      },
    )
    | inl new ↦
        let (stack, s1) = stack_alloc m.state in
        let start =
          if_true ((m.state.hot next).rsp == 0) (lazy_stack_alloc_port U next m) (some m) new in
        elim (Option-cases (stack_alloc m.state).0) [
          | inl full ↦ inl (
            IsExhausted-of_none m.state full,
            start
                ∙ ap (install_ctx U next (record m { state = (stack_alloc m.state).1 })) full
                ∙ install_none next _,
          )
          | inr (b, e) ↦
              let (m', made, el) =
                install_ctx-Elected next b (stack_alloc m.state).1 m c got
                  (stack_alloc-SameThreads m.state) (room b e) in
              inr (
                m',
                start
                    ∙ ap (install_ctx U next (record m { state = (stack_alloc m.state).1 })) e
                    ∙ made,
                el,
              )
        ]
  ]

  switch_port :
      (prev x : ℕ) (m : Machine U)
      → (m.state.hot x).rsp ≢ 0
      → context_switch_port U true prev x m
        ≡ port_switched (record m {
          state = record (m.state) {
            hot =
                set_rsp prev
                  (if (m.state.hot prev).rsp == 0 then m.main_ctx else (m.state.hot prev).rsp)
                  m.state.hot;
          };
        })
  unfolding context_switch_port
  switch_port prev x m runnable =
      if_false ((m.state.hot x).rsp == 0) _ _ (==_ne (m.state.hot x).rsp 0 runnable)

  elect_port-rotate :
      (m : Machine U) (c : Context) (zs : List ℕ) (x : ℕ)
      → getcontext ≡ some c
      → ((b : ℕ) → (stack_alloc m.state).0 ≡ some b → b + stack_size < 2 ^ 64)
      → Ring m.state.hot m.state.current (x ∷ zs)
      → (IsExhausted m.state × (elect_port U true m ≡ port_aborted))
        ⊎ ((m' : Machine U) × (elect_port U true m ≡ port_switched m')
            × (m'.state.current ≡ x)
            × Ring m'.state.hot x (zs ++ m.state.current ∷ [])
            × ((m'.state.hot m.state.current).rsp ≡ (
                if (m.state.hot m.state.current).rsp == 0
                then m.main_ctx
                else (m.state.hot m.state.current).rsp))
            × (m'.state.last_created ≡ m.state.last_created))
  unfolding elect_port switch_elected
  elect_port-rotate m c zs x got room r =
      let prev = m.state.current in
      let e : (m.state.hot prev).sched_next ≡ x = r.links.0 in
      let apart : prev ≢ x = ground (arith, r.distinct) in
      let away : (prev == (m.state.hot prev).sched_next) ≡ false = ground (arith, e, apart) in
      let start =
        if_false (prev == (m.state.hot prev).sched_next) (port_returned m) _ away
        ∙ ap (λ n. switch_elected U true prev n (ensure_ctx U n m)) e in
      elim (ensure_ctx-Elected x m c got room) [
        | inl (full, stop) ↦ inl (full, start ∙ ap (switch_elected U true prev x) stop)
        | inr (m1, made, el) ↦
            let m2 = record m1 { state = record (m1.state) { current = x } } in
            let kept =
              if (m1.state.hot prev).rsp == 0 then m1.main_ctx else (m1.state.hot prev).rsp in
            inr (
              record m2 { state = record (m2.state) { hot = set_rsp prev kept m1.state.hot } },
              start ∙ ap (switch_elected U true prev x) made ∙ switch_port prev x m2 el.runnable,
              refl,
              Ring-relink m.state.hot (set_rsp prev kept m1.state.hot) x (zs ++ prev ∷ [])
                  (Ring-rotate m.state.hot prev [] x zs r) (λ a. ground (arith, el.links a)),
              set_rsp-saved prev kept m1.state.hot
                  ∙ ap (λ k. if k == 0 then m1.main_ctx else k) (el.rsp prev apart)
                  ∙ ap (λ k. if (m.state.hot prev).rsp == 0 then k else (m.state.hot prev).rsp)
                      el.main_ctx,
              el.last_created,
            )
      ]

  -- A yield with others ready and no inline run going on: the first of the list runs, the caller goes to
  -- its end behind the thread created last and keeps its context, or gets that of the main thread,
  -- unless no stack is left for the elected thread. `swapcontext` and `getcontext` succeed, and the
  -- stacks lie below 2^64.
  pub thread_yield_port-rotate :
      (m : Machine U) (c : Context) (xs zs : List ℕ) (x : ℕ)
      → getcontext ≡ some c
      → ((b : ℕ) → (stack_alloc (flush_last_created m.state)).0 ≡ some b → b + stack_size < 2 ^ 64)
      → Ready m.state xs
      → m.state.inline_executing ≡ 0
      → xs ++ fresh_list m.state ≡ x ∷ zs
      → (IsExhausted m.state × (thread_yield_port U true m ≡ port_aborted))
        ⊎ ((m' : Machine U) × (thread_yield_port U true m ≡ port_switched m')
            × (m'.state.current ≡ x)
            × Ring m'.state.hot x (zs ++ m.state.current ∷ [])
            × ((m'.state.hot m.state.current).rsp ≡ (
                if (m.state.hot m.state.current).rsp == 0
                then m.main_ctx
                else (m.state.hot m.state.current).rsp))
            × (m'.state.last_created ≡ 0))
  unfolding thread_yield_port
  thread_yield_port-rotate m c xs zs x got room rd quiet e =
      let s = flush_last_created m.state in
      let fl = flush-Flushed m.state in
      let ring : Ring s.hot m.state.current (x ∷ zs) =
        subst (λ l. Ring s.hot m.state.current l) e (flush-Ring m.state xs rd) in
      let start =
        if_false (not (m.state.inline_executing == 0)) (port_returned m)
          (elect_port U true (record m { state = s })) (ground (arith, quiet)) in
      elim (elect_port-rotate (record m { state = s }) c zs x got room (rw fl.current ring)) [
        | inl (full, stop) ↦ inl (fl.exhausted full, start ∙ stop)
        | inr (m', go, cur, r, saved, none_new) ↦ inr (
          m',
          start ∙ go,
          cur,
          subst (λ a. Ring m'.state.hot x (zs ++ a ∷ [])) fl.current r,
          subst (λ k. (m'.state.hot m.state.current).rsp ≡ (if k == 0 then m.main_ctx else k))
              (fl.rsp m.state.current)
              (subst
                (λ a.
                  (m'.state.hot a).rsp ≡ (if (s.hot a).rsp == 0 then m.main_ctx else (s.hot a).rsp))
                fl.current saved),
          none_new ∙ fl.empty,
        )
      ]
