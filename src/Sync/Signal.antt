-- ===== src/Sync/Signal.antt =====
-- Signals between threads of src/thread_sync.c.
use ein8_proj.Base.{
  ℕ, ◌-◌, ◌^◌, ◌<◌, ◌≤◌, ◌≡◌, ◌≢◌, refl, List, [], ◌∷◌, ◌++◌, arith, ◌==◌, ==_ne, ==_self,
  if◌then◌else◌, true, false, not, ◌&&◌, ◌||◌, Option, none, ltb, bit_and, bit_or, ◌⊎◌, inl, inr,
  ◌∉◌, has-append, ◌∙◌,
}
use ein8_proj.Base.Int.{ℤ, pos, negsuc}
use ein8_proj.Base.Word.{u8}
use ein8_proj.Base.Bits.{ctz, has_bit, is_lowest_common, ctz-is_lowest_common, set_clear, pow_byte}
use ein8_proj.Sched.{sched_enqueue, sched_remove, sched_pick_next, is_sched_empty}
use ein8_proj.Sched.Ring.{Ring, Ring-relink}
use ein8_proj.Sched.Ops.{is_sched_empty_busy, Ring-sched_enqueue}
use ein8_proj.Sched.Replace.{sched_pick_next-last, Ring-block}
use ein8_proj.Cold.{Cold}
use ein8_proj.Mono.{stored, State, Outcome, returned, switched, aborted, write_cold}
use ein8_proj.Mono.Switch.{switch_lazy}
use ein8_proj.Mono.Switch.Stacked.{IsExhausted, switch_lazy-Switched}

-- A waiting thread is given its signal and waits no more.
abbrev pub hand_over : ℕ → Cold → Cold
hand_over sig tc = record tc {
  pending_sigs = bit_and tc.pending_sigs (255 - u8 (2 ^ sig));
  received_sig = sig;
  sig_waiting = 0;
  wait_mask = 0;
}

-- `thread_kill` behind its range test: `tc` is the descriptor with the signal added.
deliver : (target sig : ℕ) → Cold → State → Outcome
deliver target sig tc s =
    if not (tc.sig_waiting == 0) && not (bit_and tc.wait_mask (u8 (2 ^ sig)) == 0)
    then returned (pos 0) (record s {
      hot = sched_enqueue s.current target s.hot;
      cold = write_cold s.cold target (hand_over sig tc);
    })
    else returned (pos 0) (record s { cold = write_cold s.cold target tc })

pub thread_kill : (target : ℕ) → (sig : ℤ) → State → Outcome
unfolding deliver
thread_kill target (negsuc n) s = returned (negsuc 0) s
thread_kill target (pos sig) s =
    if ltb sig 1 || ltb 7 sig
    then returned (negsuc 0) s
    else let tc = s.cold target in
      deliver target sig (record tc { pending_sigs = bit_or tc.pending_sigs (u8 (2 ^ sig)) }) s

abbrev pub take_signal : ℕ → Cold → Cold
take_signal sig cc = record cc { pending_sigs = bit_and cc.pending_sigs (255 - u8 (2 ^ sig)) }

abbrev pub hit_of : ℕ → State → ℕ
hit_of mask s = bit_and (s.cold s.current).pending_sigs mask

-- The state in which the thread waits for the mask, off the ready list.
abbrev pub await : ℕ → State → State
await mask s = record s {
  cold =
      write_cold s.cold s.current (record (s.cold s.current) { wait_mask = mask; sig_waiting = 1 });
  hot = sched_remove s.current s.hot;
  current = sched_pick_next s.current s.hot;
}

-- The value stored through `sig` (`sig_out` here), if any, and how the call ends. A call that
-- switches stores nothing before the thread runs again.
pub thread_sigwait : (sp mask sig_out : ℕ) → State → Option ℕ × Outcome
thread_sigwait sp mask sig_out s =
    let sig = ctz 8 (hit_of mask s) in
    if not (hit_of mask s == 0)
    then (
      stored sig_out sig,
      returned (pos 0)
          (record s { cold = write_cold s.cold s.current (take_signal sig (s.cold s.current)) }),
    )
    else if is_sched_empty s.current s.hot
    then (none, returned (negsuc 0) s)
    else (none, switch_lazy sp s.current (sched_pick_next s.current s.hot) (await mask s))

-- The rest of `thread_sigwait` when `me` runs again.
pub thread_sigwait_resume : (me sig_out : ℕ) → State → Option ℕ × Outcome
thread_sigwait_resume me sig_out s = (stored sig_out (s.cold me).received_sig, returned (pos 0) s)

-- `thread_kill` accepts the signals 1 to 7; any other number gives -1 and changes nothing.
pub thread_kill_range :
    (target : ℕ) (sig : ℤ) (s : State)
    → ((n : ℕ) → sig ≡ pos n → (n < 1) ⊎ (7 < n))
    → thread_kill target sig s ≡ returned (negsuc 0) s
unfolding thread_kill
thread_kill_range target (negsuc n) s out = refl
thread_kill_range target (pos n) s out = ground (arith, out n)

-- `thread_sigwait` with a signal of the mask pending returns the lowest such signal at once, removes
-- it alone from the pending ones, and leaves the lists and the other threads.
pub thread_sigwait-pending :
    (sp mask sig_out : ℕ) (s : State)
    → (s.cold s.current).pending_sigs < 256
    → mask < 256
    → hit_of mask s ≢ 0
    → (sig : ℕ) × (s' : State) × (thread_sigwait sp mask sig_out s
        ≡ (stored sig_out sig, returned (pos 0) s'))
      × (is_lowest_common (s.cold s.current).pending_sigs mask sig ≡ true)
      × (s'.cold s.current ≡ take_signal sig (s.cold s.current))
      × (s'.hot ≡ s.hot)
      × ((a : ℕ) → a ≢ s.current → s'.cold a ≡ s.cold a)
unfolding thread_sigwait
thread_sigwait-pending sp mask sig_out s hp hm hit =
    let e = ==_ne (hit_of mask s) 0 hit in
    let sig = ctz 8 (hit_of mask s) in
    (
      sig,
      record s { cold = write_cold s.cold s.current (take_signal sig (s.cold s.current)) },
      rw e refl,
      ctz-is_lowest_common (s.cold s.current).pending_sigs mask hp hm e,
      rw (==_self s.current) refl,
      refl,
      λ a ne. rw (==_ne a s.current ne) refl,
    )

-- `thread_sigwait` with no signal of the mask pending, while another thread is ready: the caller
-- notes the mask, leaves the ready list, and the last of the list runs, unless no stack is left for it.
pub thread_sigwait-waits :
    (sp mask sig_out : ℕ) (s : State) (l : ℕ) (xs : List ℕ)
    → hit_of mask s ≡ 0
    → Ring s.hot s.current (xs ++ l ∷ [])
    → (IsExhausted s × (thread_sigwait sp mask sig_out s ≡ (none, aborted)))
      ⊎ ((s' : State) × (thread_sigwait sp mask sig_out s ≡ (none, switched s'))
          × (s'.current ≡ l)
          × Ring s'.hot l xs
          × ((s'.hot s.current).rsp ≡ sp)
          × ((s'.cold s.current).sig_waiting ≡ 1)
          × ((s'.cold s.current).wait_mask ≡ mask))
unfolding thread_sigwait
thread_sigwait-waits sp mask sig_out s l xs none_pending r =
    elim (switch_lazy-Switched sp s.current (sched_pick_next s.current s.hot) (await mask s)) [
      | inl (full, e) ↦ inl (full, rw (none_pending, busy, e) refl)
      | inr (s', e, sw) ↦ inr (
        s',
        rw (none_pending, busy, e) refl,
        sw.current ∙ elected,
        Ring-relink (sched_remove s.current s.hot) s'.hot l xs
            (rw elected at (Ring-block s.hot s.current l xs r)) sw.links,
        sw.saved,
        rw (sw.others s.current away, ==_self s.current) refl,
        rw (sw.others s.current away, ==_self s.current) refl,
      )
    ]
  where
    busy : is_sched_empty s.current s.hot ≡ false
    busy = is_sched_empty_busy s.hot s.current l xs r

    elected : sched_pick_next s.current s.hot ≡ l
    elected = sched_pick_next-last s.hot s.current l xs r

    away : s.current ≢ sched_pick_next s.current s.hot
    away = ground (arith, elected, r.distinct, has-append s.current xs (l ∷ []))

in_range : (sig : ℕ) → 1 ≤ sig → sig ≤ 7 → (ltb sig 1 || ltb 7 sig) ≡ false
in_range sig low high = ground arith

-- `thread_kill` with a signal that the target waits for: the target gets it, waits no more, keeps its
-- other pending signals, and is ready again, last in the list; no other thread is touched.
pub thread_kill-wake :
    (target sig sig_out : ℕ) (s : State) (xs : List ℕ)
    → 1 ≤ sig
    → sig ≤ 7
    → (s.cold target).pending_sigs < 256
    → (s.cold target).sig_waiting ≢ 0
    → has_bit (s.cold target).wait_mask sig ≡ true
    → Ring s.hot s.current xs
    → target ∉ s.current ∷ xs
    → target ≢ 0
    → (s' : State) × (thread_kill target (pos sig) s ≡ returned (pos 0) s')
      × Ring s'.hot s.current (xs ++ target ∷ [])
      × ((s'.cold target).sig_waiting ≡ 0)
      × ((s'.cold target).pending_sigs ≡ bit_and (s.cold target).pending_sigs (255 - 2 ^ sig))
      × (thread_sigwait_resume target sig_out s' ≡ (stored sig_out sig, returned (pos 0) s'))
      × ((a : ℕ) → a ≢ target → s'.cold a ≡ s.cold a)
unfolding thread_kill thread_sigwait_resume
thread_kill-wake target sig sig_out s xs low high byte waiting wanted r out ne =
    let tc = record (s.cold target) {
      pending_sigs = bit_or (s.cold target).pending_sigs (2 ^ sig);
    } in
    (
      record s {
        hot = sched_enqueue s.current target s.hot;
        cold = write_cold s.cold target (hand_over sig tc);
      },
      rw
          (
            in_range sig low high,
            pow_byte sig (omega arith),
            ==_ne (s.cold target).sig_waiting 0 waiting,
            wanted,
          )
          refl,
      Ring-sched_enqueue s.hot s.current target xs r out ne,
      rw (==_self target) refl,
      rw (==_self target, pow_byte sig (omega arith))
          (set_clear (s.cold target).pending_sigs sig byte (omega arith)).others,
      rw (==_self target) refl,
      λ a away. rw (==_ne a target away) refl,
    )

-- `thread_kill` with a signal that the target does not wait for: it is pending afterwards, the rest of
-- the descriptor, the lists and the other threads are as before.
pub thread_kill-pending :
    (target sig : ℕ) (s : State)
    → 1 ≤ sig
    → sig ≤ 7
    → (s.cold target).pending_sigs < 256
    → ((s.cold target).sig_waiting ≡ 0) ⊎ (has_bit (s.cold target).wait_mask sig ≡ false)
    → (s' : State) × (thread_kill target (pos sig) s ≡ returned (pos 0) s')
      × (has_bit (s'.cold target).pending_sigs sig ≡ true)
      × (s'.cold target
          ≡ record (s.cold target) { pending_sigs = bit_or (s.cold target).pending_sigs (2 ^ sig) })
      × (s'.hot ≡ s.hot)
      × ((a : ℕ) → a ≢ target → s'.cold a ≡ s.cold a)
unfolding thread_kill
thread_kill-pending target sig s low high byte idle =
    let tc = record (s.cold target) {
      pending_sigs = bit_or (s.cold target).pending_sigs (2 ^ sig);
    } in
    let still : (not (tc.sig_waiting == 0) && has_bit tc.wait_mask sig) ≡ false = ground arith in
    (
      record s { cold = write_cold s.cold target tc },
      rw (in_range sig low high, pow_byte sig (omega arith), still) refl,
      rw (==_self target) (set_clear (s.cold target).pending_sigs sig byte (omega arith)).present,
      rw (==_self target) refl,
      refl,
      λ a away. rw (==_ne a target away) refl,
    )
