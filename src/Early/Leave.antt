-- ===== src/Early/Leave.antt =====
-- `thread_exit` and the mutexes of the first version of the library, under options/src: what they do
-- to the places of the threads.
use ein8_proj.Base.{
  Bool, ℕ, ◌≡◌, refl, sym, ◌∙◌, ap, subst, arith, ==_ne, if◌then◌else◌, true, false, ℕ_discrete,
  List, [], ◌∷◌, ◌++◌, inl, inr,
}
use ein8_proj.Early.{is_ready, is_finished, Process, write_thread, set_state}
use ein8_proj.Early.Queue.{
  TailQueue, sched_enqueue_early, is_sched_empty_early, sched_dequeue_early,
}
use ein8_proj.Early.Calls.{
  is_end, block_sigvtalrm, wake_joiner, clean_exit_early, exit_to, thread_exit_early,
}
use ein8_proj.Early.Places.{known, Place, in_ready, ended, join_here, cpu_here, put, Parts}
use ein8_proj.Early.Places.Waits.{exit-Parts, exit_joined-Parts}
use ein8_proj.Early.Sound.{Sound, SoundOutcome, List-cases, exit_to-SoundOutcome}

module _ (Q : TailQueue) where
  open Q use {
    Queue, contents, is_empty, first, insert_tail, remove_head, is_empty-nil, is_empty-cons,
    first-cons, contents-insert_tail, contents-remove_head,
  }

  abbrev Leaves : (ℕ → Bool) → Process Queue → Type 0
  Leaves old s = SoundOutcome Q old (
      if is_sched_empty_early Q s
      then clean_exit_early Q s
      else exit_to Q (sched_dequeue_early Q s).0 (sched_dequeue_early Q s).1)

  -- The thread that ends has been put elsewhere.
  leave-SoundOutcome :
      (old : ℕ → Bool) (s : Process Queue) (place : ℕ → Place) (rs : List ℕ) (bs : ℕ → List ℕ)
      → Parts s.heap place rs bs
      → contents s.ready_queue ≡ rs
      → ((m : ℕ) → contents ((s.mutexes m).waiting) ≡ bs m)
      → ((a : ℕ) → cpu_here (place a) ≡ false)
      → ((a : ℕ) → old a ≡ true → known (place a) ≡ true)
      → Leaves old s
  unfolding is_sched_empty_early sched_dequeue_early clean_exit_early
  leave-SoundOutcome old s place rs bs ps ready_is blocked_is nobody keep = elim (List-cases rs) [
    | inl e ↦
        rw (is_empty-nil s.ready_queue (ready_is ∙ e))
          (place, bs, rw e at ps, ready_is ∙ e, blocked_is, keep)
    | inr (x, rest, e) ↦
        let full : contents s.ready_queue ≡ x ∷ rest = ready_is ∙ e in
        rw (is_empty-cons s.ready_queue x rest full, first-cons s.ready_queue x rest full)
          (exit_to-SoundOutcome Q old x (record s { ready_queue = remove_head s.ready_queue }) place
            rest bs (rw e at ps) (contents-remove_head s.ready_queue x rest full) blocked_is nobody
            keep)
  ]

  wake_joiner_nobody : (j : ℕ) (s : Process Queue) → j ≡ 0 → wake_joiner Q j s ≡ s
  unfolding wake_joiner
  wake_joiner_nobody j s e = rw e refl

  -- The end of a thread keeps each other thread in one place, and the joiner becomes ready.
  pub thread_exit_early-SoundOutcome :
      (value : ℕ) (s : Process Queue) (place : ℕ → Place) (rs : List ℕ) (bs : ℕ → List ℕ)
      → Sound Q s.heap s.ready_queue s.mutexes s.current place rs bs
      → SoundOutcome Q (λ a. known (place a)) (thread_exit_early Q value s)
  unfolding thread_exit_early wake_joiner block_sigvtalrm sched_enqueue_early
  thread_exit_early-SoundOutcome value s place rs bs so =
      let c = s.current in
      let j = (s.heap c).waiting in
      let h = write_thread s.heap c (record (s.heap c) { retval = value; state = is_finished }) in
      elim (ℕ_discrete j 0) [
        | yes e ↦
            subst (Leaves (λ a. known (place a)))
              (sym (wake_joiner_nobody j (record s { heap = h; masked = true }) e))
              (leave-SoundOutcome (λ a. known (place a)) (record s { heap = h; masked = true })
                (put place c ended) rs bs
                (exit-Parts c value s.heap place rs bs so.parts so.running e) so.ready_is
                so.blocked_is (λ a. ground (arith, so.only a)) (λ a k. ground (arith, k)))
        | no ne ↦
            let unfinished : is_end (s.heap c).state ≡ false =
              ground (arith, so.parts.ends c, so.running) in
            let there : join_here c (place j) ≡ true =
              so.parts.waited c ne unfinished (ground (arith, so.running)) in
            rw (==_ne j 0 ne) (
              leave-SoundOutcome (λ a. known (place a))
                (record s {
                  heap = set_state j is_ready h;
                  ready_queue = insert_tail s.ready_queue j;
                  masked = true;
                })
                (put (put place c ended) j in_ready) (rs ++ j ∷ []) bs
                (exit_joined-Parts c j value s.heap place rs bs so.parts so.running refl ne)
                (contents-insert_tail s.ready_queue j ne
                    (rw so.ready_is (ground (arith, so.parts.ready j, there)))
                  ∙ ap (λ ts. ts ++ j ∷ []) so.ready_is)
                so.blocked_is (λ a. ground (arith, so.only a)) (λ a k. ground (arith, k)))
      ]
