-- ===== src/Sched/Replace.antt =====
-- `sched_replace` of src/scheduler.h, and the operations at a thread anywhere in the list.
use ein8_proj.Base.{
  ℕ, ◌≡◌, ◌≢◌, ap, fun_ext, refl, inl, inr, List, [], ◌∷◌, ◌++◌, arith, has-append, ◌∉◌, IsDistinct,
  IsDistinct-append, append-nil, snoc-cases,
}
use ein8_proj.Sched.{Slab, sched_remove, sched_replace, sched_pick_next, sched_dequeue_fifo}
use ein8_proj.Sched.Ring.{Chain, Ring, Chain-append, append-Chain, Chain-frame, Ring-rotate}
use ein8_proj.Sched.Ops.{Ring-sched_remove}

Chain-replace :
    (h : Slab) (old new : ℕ) (xs : List ℕ)
    → Chain h old xs old
    → IsDistinct (old ∷ xs)
    → new ∉ old ∷ xs
    → Chain (sched_replace old new h) new xs new
unfolding sched_replace
Chain-replace h old new [] links d out = ground arith
Chain-replace h old new (x ∷ xs) links d out = elim (snoc-cases xs) [
  | inl e ↦ rw e (ground (arith, d, out, rw e at links))
  | inr (ys, y, e) ↦ rw e (snoc ys y (rw e at links) (rw e at d) (rw e at out))
]
  where
    snoc :
        (ys : List ℕ) (y : ℕ)
        → Chain h old (x ∷ (ys ++ y ∷ [])) old
        → IsDistinct (old ∷ x ∷ (ys ++ y ∷ []))
        → new ∉ old ∷ x ∷ (ys ++ y ∷ [])
        → Chain (sched_replace old new h) new (x ∷ (ys ++ y ∷ [])) new
    snoc ys y l d o =
        let (front, back) = Chain-append h x ys y [] old l.2 in
        let (dys, dy, apart) = IsDistinct-append ys (y ∷ []) d.1.1 in
        let at_old = has-append old ys (y ∷ []) in
        let at_new = has-append new ys (y ∷ []) in
        let at_x = has-append x ys (y ∷ []) in
        append-Chain (sched_replace old new h) new (x ∷ ys) y [] new
          (
            ground (arith, l, back, d, o, at_old, at_new, at_x),
            ground (arith, l, back, d, o, at_old, at_new, at_x),
            Chain-frame h (sched_replace old new h) x ys y front
                (λ a m. ground (arith, l, back, apart a, d, o, at_old, at_new, at_x))
                (λ a m. ground (arith, l, back, apart a, d, o, at_old, at_new, at_x)),
          )
          (ground (arith, l, back, d, o, at_old, at_new, at_x))

-- `sched_replace` puts a thread that is not in the list in the place of one that is.
pub Ring-sched_replace :
    (h : Slab) (old new : ℕ) (xs : List ℕ)
    → Ring h old xs
    → new ∉ old ∷ xs
    → new ≢ 0
    → Ring (sched_replace old new h) new xs
Ring-sched_replace h old new xs r out ne = record {
  links = Chain-replace h old new xs r.links r.distinct out;
  distinct = (ground arith, r.distinct.1);
  nonnull = ground (arith, r.nonnull);
}

-- A thread other than the running one is taken out, wherever it stands.
pub Ring-sched_remove_other :
    (h : Slab) (c t : ℕ) (xs ys : List ℕ)
    → Ring h c (xs ++ t ∷ ys)
    → Ring (sched_remove t h) c (xs ++ ys)
Ring-sched_remove_other h c t xs [] r =
    rw append-nil (Ring-sched_remove h t c xs (Ring-rotate h c xs t [] r))
Ring-sched_remove_other h c t xs (z ∷ zs) r =
    Ring-rotate (sched_remove t h) z zs c xs
      (Ring-sched_remove h t z (zs ++ c ∷ xs) (Ring-rotate h c xs t (z ∷ zs) r))

-- `sched_pick_next` elects the last of the list, the thread that was put in most recently.
pub sched_pick_next-last :
    (h : Slab) (c l : ℕ) (xs : List ℕ) → Ring h c (xs ++ l ∷ []) → sched_pick_next c h ≡ l
unfolding sched_pick_next
sched_pick_next-last h c l xs r = (Chain-append h c xs l [] c r.links).1.1

-- A running thread that gives up its place: the elected thread runs, the others keep their order.
pub Ring-block :
    (h : Slab) (c l : ℕ) (xs : List ℕ)
    → Ring h c (xs ++ l ∷ [])
    → Ring (sched_remove c h) (sched_pick_next c h) xs
Ring-block h c l [] r = rw (sched_pick_next-last h c l [] r) (Ring-sched_remove h c l [] r)
Ring-block h c l (x ∷ xs) r =
    rw (sched_pick_next-last h c l (x ∷ xs) r)
      (Ring-rotate (sched_remove c h) x xs l [] (Ring-sched_remove h c x (xs ++ l ∷ []) r))

-- On a list it is `sched_remove` of the thread behind the running one.
sched_dequeue_fifo-remove :
    (h : Slab) (c t : ℕ)
    → (h c).sched_next ≡ t
    → (h t).sched_prev ≡ c
    → sched_dequeue_fifo c h ≡ (t, sched_remove t h)
unfolding sched_dequeue_fifo sched_remove
sched_dequeue_fifo-remove h c t n b = rw (n, b) (ap (λ g. (t, g)) (fun_ext λ a. ground arith))

-- `sched_dequeue_fifo` returns the thread behind the running one and leaves the others.
pub Ring-sched_dequeue_fifo :
    (h : Slab) (c t : ℕ) (xs : List ℕ)
    → Ring h c (t ∷ xs)
    → ((sched_dequeue_fifo c h).0 ≡ t) × Ring (sched_dequeue_fifo c h).1 c xs
Ring-sched_dequeue_fifo h c t xs r =
    rw (sched_dequeue_fifo-remove h c t r.links.0 r.links.1)
      (refl, Ring-sched_remove_other h c t [] xs r)
