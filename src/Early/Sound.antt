-- ===== src/Early/Sound.antt =====
-- Every call of the first version of the library, under options/src, keeps each thread in one place.
use ein8_proj.Base.{
  ℕ, ◌≡◌, ◌≢◌, refl, arith, ==_self, ==_ne, Bool, true, false, ℕ_discrete, List, [], ◌∷◌, inl, inr,
  ◌⊎◌, Option, some, ap, sym, ◌∙◌, ◌∉◌,
}
use ein8_proj.Early.{
  is_running, Env, env_init, env_start, env_yield, env_join, env_lock, Thread, MutexOf, Process,
  Outcome, returned, began, exited, undefined, set_state, set_env,
}
use ein8_proj.Early.Queue.{TailQueue}
use ein8_proj.Early.End.{has-free_block}
use ein8_proj.Early.Calls.{
  free_block, is_end, restore_sigmask, join_end, jump, longjmp, switch_to, exit_to,
}
use ein8_proj.Early.Places.{
  Place, absent, at_cpu, in_ready, ended, in_mutex, in_join, known, cpu_here, ready_here,
  ended_here, joins_env, gone_env, put, Parts,
}
use ein8_proj.Early.Places.Moves.{Parts-same, dispatch-Parts, free-Parts}

pub List-cases : (ts : List ℕ) → (ts ≡ []) ⊎ ((x : ℕ) × (rest : List ℕ) × (ts ≡ x ∷ rest))
List-cases [] = inl refl
List-cases (x ∷ rest) = inr (x, rest, refl)

pub ended_only : (p : Place) → ended_here p ≡ true → p ≡ ended
ended_only absent e = cc
ended_only at_cpu e = cc
ended_only in_ready e = cc
ended_only ended e = refl
ended_only (in_mutex m) e = cc
ended_only (in_join t) e = cc

module _ (Q : TailQueue) where
  open Q use {Queue, contents, is_empty, first, insert_tail, remove_head}

  -- Each descriptor stands in one place, and only the running thread is at the processor.
  pub record Sound (h : ℕ → Thread) (q : Queue) (ms : ℕ → MutexOf Queue) (c : ℕ) (place : ℕ → Place)
      (rs : List ℕ) (bs : ℕ → List ℕ) : Type 0 where
    pub parts : Parts h place rs bs
    pub ready_is : contents q ≡ rs
    pub blocked_is : (m : ℕ) → contents ((ms m).waiting) ≡ bs m
    pub running : place c ≡ at_cpu
    pub only : (a : ℕ) → cpu_here (place a) ≡ true → a ≡ c

  abbrev pub IsSound : Process Queue → Type 0
  IsSound s =
      (place : ℕ → Place) × (rs : List ℕ) × (bs : ℕ → List ℕ) × Sound s.heap s.ready_queue s.mutexes
        s.current place rs bs

  -- Thread `a` was joined: its value is the one that the join gives, it has ended and is freed.
  abbrev pub Joined : (a : ℕ) → (value : Option ℕ) → Process Queue → Type 0
  Joined a value s =
      (value ≡ some (s.heap a).retval) × (is_end (s.heap a).state ≡ true) × (a ∉ s.blocks)

  -- The thread that goes on finds a sound state, and no jump leads to a frame that is gone. Each of
  -- the threads `old` still stands in one place, but for the one that the call joins. The process
  -- ends only when none of them is ready.
  abbrev pub SoundOutcome : (old : ℕ → Bool) → Outcome Queue → Type 0
  SoundOutcome old (returned code value s) =
      (place : ℕ → Place) × (rs : List ℕ) × (bs : ℕ → List ℕ) × Sound s.heap s.ready_queue s.mutexes
        s.current place rs bs
      × ((a : ℕ) → old a ≡ true → (known (place a) ≡ true) ⊎ Joined a value s)
  SoundOutcome old (began func arg s) =
      (place : ℕ → Place) × (rs : List ℕ) × (bs : ℕ → List ℕ) × Sound s.heap s.ready_queue s.mutexes
        s.current place rs bs
      × ((a : ℕ) → old a ≡ true → known (place a) ≡ true)
  SoundOutcome old (exited code s) =
      (place : ℕ → Place) × (bs : ℕ → List ℕ) × Parts s.heap place [] bs
      × (contents s.ready_queue ≡ [])
      × ((m : ℕ) → contents ((s.mutexes m).waiting) ≡ bs m)
      × ((a : ℕ) → old a ≡ true → known (place a) ≡ true)
  SoundOutcome old undefined = ◌≡◌ {A = ℕ} 0 1

  free_joined :
      (t : ℕ) (old : ℕ → Bool) (h : ℕ → Thread) (blocks : List ℕ) (place : ℕ → Place)
      → ((a : ℕ) → old a ≡ true → known (place a) ≡ true)
      → is_end (h t).state ≡ true
      → (a : ℕ) → old a ≡ true
      → (known (put place t absent a) ≡ true)
        ⊎ ((some (h t).retval ≡ some (h a).retval)
            × (is_end (h a).state ≡ true)
            × (a ∉ free_block t (free_block (h t).stack blocks)))
  free_joined t old h blocks place keep at_end a k = elim (ℕ_discrete a t) [
    | yes e ↦ inr (
      ap (λ b. some (h b).retval) (sym e),
      rw e at_end,
      ground (arith, e, has-free_block a t (free_block (h t).stack blocks)),
    )
    | no ne ↦ inl (rw (==_ne a t ne) (keep a k))
  ]

  jump-SoundOutcome :
      (old : ℕ → Bool) (e : Env) (s : Process Queue) (place : ℕ → Place) (rs : List ℕ)
      (bs : ℕ → List ℕ)
      → Sound s.heap s.ready_queue s.mutexes s.current place rs bs
      → gone_env e ≡ false
      → ((t : ℕ)
          → joins_env t e ≡ true
          → (ended_here (place t) ≡ true) × ((s.heap t).waiting ≡ s.current))
      → ((a : ℕ) → old a ≡ true → known (place a) ≡ true)
      → SoundOutcome old (jump Q e s)
  unfolding jump join_end restore_sigmask
  jump-SoundOutcome old env_init s place rs bs so there woken keep = cc
  jump-SoundOutcome old env_start s place rs bs so there woken keep = (place, rs, bs, so, keep)
  jump-SoundOutcome old (env_yield mask) s place rs bs so there woken keep =
      (place, rs, bs, so, λ a k. inl (keep a k))
  jump-SoundOutcome old (env_lock mask) s place rs bs so there woken keep =
      (place, rs, bs, so, λ a k. inl (keep a k))
  jump-SoundOutcome old (env_join t mask) s place rs bs so there woken keep =
      let (at_end, mine) = woken t (==_self t) in
      let finished : place t ≡ ended = ended_only (place t) at_end in
      (
        put place t absent,
        rs,
        bs,
        record {
          parts =
              free-Parts t s.heap place rs bs so.parts finished (ground (arith, mine, so.running));
          ready_is = so.ready_is;
          blocked_is = so.blocked_is;
          running = elim (ℕ_discrete s.current t) [
            | yes e ↦ absurd (ground (arith, so.running, finished, e))
            | no ne ↦ rw (==_ne s.current t ne) so.running
          ];
          only = λ a k. ground (arith, k, so.only a);
        },
        free_joined t old s.heap s.blocks place keep
            (sym (so.parts.ends t (rw finished refl)) ∙ at_end),
      )

  -- The running thread has been put elsewhere, and the first of the ready queue goes on.
  pub switch_to-SoundOutcome :
      (old : ℕ → Bool) (x : ℕ) (e : Env) (s : Process Queue) (place : ℕ → Place) (rs : List ℕ)
      (bs : ℕ → List ℕ)
      → Parts (set_env s.current e s.heap) place (x ∷ rs) bs
      → contents s.ready_queue ≡ rs
      → ((m : ℕ) → contents ((s.mutexes m).waiting) ≡ bs m)
      → ((a : ℕ) → cpu_here (place a) ≡ false)
      → x ≢ s.current
      → ((a : ℕ) → old a ≡ true → known (place a) ≡ true)
      → SoundOutcome old (switch_to Q x e s)
  unfolding switch_to longjmp
  switch_to-SoundOutcome old x e s place rs bs ps ready_is blocked_is nobody apart keep =
      let h1 = set_env s.current e s.heap in
      let h2 = set_env s.current e (set_state x is_running s.heap) in
      let here : ready_here (place x) ≡ true = ground (arith, ps.ready x) in
      let next : Parts h2 (put place x at_cpu) rs bs =
        Parts-same (set_state x is_running h1) h2 (put place x at_cpu) rs bs
          (λ a. (ground (arith, apart), ground (arith, apart), ground (arith, apart)))
          (dispatch-Parts x h1 place rs bs ps) in
      jump-SoundOutcome old (h2 x).env (record s { heap = h2; current = x }) (put place x at_cpu) rs
        bs
        (record {
          parts = next;
          ready_is = ready_is;
          blocked_is = blocked_is;
          running = ground arith;
          only = λ a k. ground (arith, k, nobody a);
        })
        (ground (arith, ps.resumes x, here, apart))
        (λ t j. ground (arith, j, ps.woken x t, here, apart, ps.ends t))
        (λ a k. ground (arith, k, keep a))

  -- A thread that has ended leaves, and the first of the ready queue goes on.
  pub exit_to-SoundOutcome :
      (old : ℕ → Bool) (x : ℕ) (s : Process Queue) (place : ℕ → Place) (rs : List ℕ)
      (bs : ℕ → List ℕ)
      → Parts s.heap place (x ∷ rs) bs
      → contents s.ready_queue ≡ rs
      → ((m : ℕ) → contents ((s.mutexes m).waiting) ≡ bs m)
      → ((a : ℕ) → cpu_here (place a) ≡ false)
      → ((a : ℕ) → old a ≡ true → known (place a) ≡ true)
      → SoundOutcome old (exit_to Q x s)
  unfolding exit_to longjmp
  exit_to-SoundOutcome old x s place rs bs ps ready_is blocked_is nobody keep =
      let h2 = set_state x is_running s.heap in
      let here : ready_here (place x) ≡ true = ground (arith, ps.ready x) in
      jump-SoundOutcome old (h2 x).env (record s { heap = h2; current = x }) (put place x at_cpu) rs
        bs
        (record {
          parts = dispatch-Parts x s.heap place rs bs ps;
          ready_is = ready_is;
          blocked_is = blocked_is;
          running = ground arith;
          only = λ a k. ground (arith, k, nobody a);
        })
        (ground (arith, ps.resumes x, here))
        (λ t j. ground (arith, j, ps.woken x t, here, ps.ends t)) (λ a k. ground (arith, k, keep a))

  -- The end of a join, by a thread that runs.
  pub join_end-SoundOutcome :
      (old : ℕ → Bool) (t : ℕ) (mask : Bool) (s : Process Queue) (place : ℕ → Place) (rs : List ℕ)
      (bs : ℕ → List ℕ)
      → Sound s.heap s.ready_queue s.mutexes s.current place rs bs
      → place t ≡ ended
      → (s.heap t).waiting ≡ 0
      → ((a : ℕ) → old a ≡ true → known (place a) ≡ true)
      → SoundOutcome old (join_end Q t mask s)
  unfolding join_end restore_sigmask
  join_end-SoundOutcome old t mask s place rs bs so finished alone keep = (
    put place t absent,
    rs,
    bs,
    record {
      parts =
          free-Parts t s.heap place rs bs so.parts finished (ground (arith, alone, so.parts.null));
      ready_is = so.ready_is;
      blocked_is = so.blocked_is;
      running = elim (ℕ_discrete s.current t) [
        | yes e ↦ absurd (ground (arith, so.running, finished, e))
        | no ne ↦ rw (==_ne s.current t ne) so.running
      ];
      only = λ a k. ground (arith, k, so.only a);
    },
    free_joined t old s.heap s.blocks place keep
        (sym (so.parts.ends t (rw finished refl)) ∙ rw finished refl),
  )
