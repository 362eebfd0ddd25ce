-- ===== src/Sched/Frame.antt =====
-- What the operations of src/scheduler.h leave alone: descriptors outside the list, and every field
-- but the two links.
use ein8_proj.Base.{ℕ, ◌≡◌, ◌≢◌, List, [], ◌∷◌, arith, ◌∈◌, ◌∉◌}
use ein8_proj.Sched.{Slab, sched_enqueue, sched_remove, sched_replace}
use ein8_proj.Sched.Ring.{Chain, Ring}

Chain-prev_mem :
    (h : Slab) (p : ℕ) (xs : List ℕ) (q : ℕ) → Chain h p xs q → (h q).sched_prev ∈ p ∷ xs
Chain-prev_mem h p [] q (n, b) = ground arith
Chain-prev_mem h p (x ∷ xs) q (n, b, rest) = ground (arith, Chain-prev_mem h x xs q rest)

pub Ring-prev_mem : (h : Slab) (c : ℕ) (xs : List ℕ) → Ring h c xs → (h c).sched_prev ∈ c ∷ xs
Ring-prev_mem h c xs r = Chain-prev_mem h c xs c r.links

pub Ring-next_mem : (h : Slab) (c : ℕ) (xs : List ℕ) → Ring h c xs → (h c).sched_next ∈ c ∷ xs
Ring-next_mem h c [] r = ground (arith, r.links)
Ring-next_mem h c (x ∷ xs) r = ground (arith, r.links.0)

module _ (h : Slab) (c : ℕ) (xs : List ℕ) (r : Ring h c xs) (a : ℕ) (out : a ∉ c ∷ xs) where
  pub sched_enqueue-frame : (t : ℕ) → a ≢ t → sched_enqueue c t h a ≡ h a
  unfolding sched_enqueue
  sched_enqueue-frame t ne = ground (arith, Ring-prev_mem h c xs r)

  pub sched_remove-frame : sched_remove c h a ≡ h a
  unfolding sched_remove
  sched_remove-frame = ground (arith, Ring-prev_mem h c xs r, Ring-next_mem h c xs r)

  pub sched_replace-frame : (new : ℕ) → a ≢ new → sched_replace c new h a ≡ h a
  unfolding sched_replace
  sched_replace-frame new ne = ground (arith, Ring-prev_mem h c xs r, Ring-next_mem h c xs r)

pub sched_enqueue-rsp : (c t : ℕ) (h : Slab) (a : ℕ) → (sched_enqueue c t h a).rsp ≡ (h a).rsp
unfolding sched_enqueue
sched_enqueue-rsp c t h a = ground arith

pub sched_remove-rsp : (t : ℕ) (h : Slab) (a : ℕ) → (sched_remove t h a).rsp ≡ (h a).rsp
unfolding sched_remove
sched_remove-rsp t h a = ground arith

pub sched_replace-rsp :
    (old new : ℕ) (h : Slab) (a : ℕ) → (sched_replace old new h a).rsp ≡ (h a).rsp
unfolding sched_replace
sched_replace-rsp old new h a = ground arith
