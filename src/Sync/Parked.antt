-- ===== src/Sync/Parked.antt =====
-- The ready list and one wait queue, side by side in the slab.
use ein8_proj.Base.{ℕ, ◌≡◌, ◌≢◌, List, [], ◌∷◌, ◌++◌, arith, has-append, ◌∈◌, ◌∉◌, ap, apart_sym}
use ein8_proj.Sched.{Hot, Slab, sched_enqueue, sched_remove}
use ein8_proj.Sched.Ring.{Ring, Ring-frame, Ring-relink}
use ein8_proj.Sched.Ops.{Ring-sched_enqueue}
use ein8_proj.Sched.Replace.{Ring-block, sched_pick_next-last}
use ein8_proj.Sched.Frame.{sched_enqueue-frame, sched_remove-frame}
use ein8_proj.Mono.{State}
use ein8_proj.WaitQueue.{Ends, wq_append, wq_pop}
use ein8_proj.WaitQueue.Fifo.{
  IsQueue, IsQueue-frame, wq_append-IsQueue, wq_append-frame, wq_pop-cons,
}

-- `c` runs, `ready` are in the list behind it, `waiting` are in the queue.
pub record Parked (h : Slab) (c : ℕ) (ready : List ℕ) (q : Ends) (waiting : List ℕ) : Type 0 where
  pub ring : Ring h c ready
  pub queue : IsQueue h q waiting
  pub apart : (a : ℕ) → a ∈ waiting → a ∉ c ∷ ready

-- The running thread leaves the list for the queue: the last of the list is elected.
pub Parked-block :
    (h : Slab) (c l : ℕ) (xs : List ℕ) (q : Ends) (ws : List ℕ)
    → Parked h c (xs ++ l ∷ []) q ws
    → Parked
        (wq_append q c (sched_remove c h)).1
        l
        xs
        (wq_append q c (sched_remove c h)).0
        (ws ++ c ∷ [])
Parked-block h c l xs q ws p = record {
  ring = Ring-frame g (wq_append q c g).1 l xs ring (λ a i.
      wq_append-frame g q ws c a queue (stays a i) (ground (arith, p.ring.distinct, inside a i)));
  queue = wq_append-IsQueue g q ws c queue out (ground (arith, p.ring.nonnull));
  apart = λ a i.
      apart_sym (l ∷ xs) (ws ++ c ∷ [])
        (λ b j.
          rw (has-append b ws (c ∷ [])) (ground (arith, stays b j, p.ring.distinct, inside b j)))
        a i;
}
  where
    g : Slab
    g = sched_remove c h

    ring : Ring g l xs
    ring = rw (sched_pick_next-last h c l xs p.ring) at (Ring-block h c l xs p.ring)

    inside : (a : ℕ) → a ∈ l ∷ xs → a ∈ xs ++ l ∷ []
    inside a i = rw (has-append a xs (l ∷ [])) (ground arith)

    parted : (a : ℕ) → a ∈ c ∷ (xs ++ l ∷ []) → a ∉ ws
    parted = apart_sym ws (c ∷ (xs ++ l ∷ [])) p.apart

    stays : (a : ℕ) → a ∈ l ∷ xs → a ∉ ws
    stays a i = parted a (ground (arith, inside a i))

    out : c ∉ ws
    out = parted c (ground arith)

    queue : IsQueue g q ws
    queue = IsQueue-frame h g q ws p.queue (λ a i.
        ap (λ (t : Hot). t.sched_next)
          (sched_remove-frame h c (xs ++ l ∷ []) p.ring a (p.apart a i)))

-- The oldest thread of the queue goes to the end of the list.
pub Parked-wake :
    (h : Slab) (c w : ℕ) (xs : List ℕ) (q : Ends) (ws : List ℕ)
    → Parked h c xs q (w ∷ ws)
    → ((wq_pop q h).0 ≡ w) × Parked (sched_enqueue c w h) c (xs ++ w ∷ []) (wq_pop q h).1 ws
Parked-wake h c w xs q ws p = (
  popped.0,
  record {
    ring = Ring-sched_enqueue h c w xs p.ring away ne;
    queue = IsQueue-frame h (sched_enqueue c w h) (wq_pop q h).1 ws popped.1 (λ a i.
        ap (λ (t : Hot). t.sched_next)
          (sched_enqueue-frame h c xs p.ring a (p.apart a (ground arith)) w
            (ground (arith, p.queue.distinct))));
    apart = λ a i. rw (has-append a xs (w ∷ [])) (ground (arith, p.apart a, p.queue.distinct));
  },
)
  where
    popped : ((wq_pop q h).0 ≡ w) × IsQueue h (wq_pop q h).1 ws
    popped = wq_pop-cons h q w ws p.queue

    away : w ∉ c ∷ xs
    away = p.apart w (ground arith)

    ne : w ≢ 0
    ne = p.queue.linked.1

-- A stack pointer, or any other field but the links, may change.
pub Parked-frame :
    (h g : Slab) (c : ℕ) (xs : List ℕ) (q : Ends) (ws : List ℕ)
    → Parked h c xs q ws
    → ((a : ℕ) → ((g a).sched_next ≡ (h a).sched_next) × ((g a).sched_prev ≡ (h a).sched_prev))
    → Parked g c xs q ws
Parked-frame h g c xs q ws p same = record {
  ring = Ring-relink h g c xs p.ring same;
  queue = IsQueue-frame h g q ws p.queue (λ a i. (same a).0);
  apart = p.apart;
}

-- What a call does that takes the caller off the ready list: it is last in the queue, `l` runs, the
-- others stay ready, and the stack pointer of the caller is saved.
pub record Blocked (sp : ℕ) (s : State) (l : ℕ) (xs ws : List ℕ) (q : Ends) (s' : State)
    : Type 0 where
  pub elected : s'.current ≡ l
  pub lists : Parked s'.hot l xs q (ws ++ s.current ∷ [])
  pub saved : (s'.hot s.current).rsp ≡ sp
