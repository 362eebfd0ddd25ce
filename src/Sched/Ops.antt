-- ===== src/Sched/Ops.antt =====
-- The operations of src/scheduler.h keep the circular list, and do to the list of threads what they
-- are meant to do.
use ein8_proj.Base.{
  ℕ, ◌≡◌, ◌≢◌, ◌↔◌, refl, inl, inr, List, [], ◌∷◌, ◌++◌, true, false, arith, has-append, ◌∉◌,
  IsDistinct, IsDistinct-append, IsDistinct-append_one, append_assoc, snoc-cases,
}
use ein8_proj.Sched.{Slab, sched_enqueue, is_sched_empty, sched_remove}
use ein8_proj.Sched.Ring.{Chain, Ring, Chain-append, append-Chain, Chain-frame}

-- Two ends of one list, where it has a last element.
Chain-enqueue :
    (h : Slab) (c t : ℕ) (xs : List ℕ)
    → Chain h c xs c
    → IsDistinct (c ∷ xs)
    → t ∉ c ∷ xs
    → Chain (sched_enqueue c t h) c (xs ++ t ∷ []) c
unfolding sched_enqueue
Chain-enqueue h c t xs links distinct out = elim (snoc-cases xs) [
  | inl e ↦ rw e (ground (arith, rw e at links))
  | inr (ys, y, e) ↦ rw e (snoc ys y (rw e at links) (rw e at distinct) (rw e at out))
]
  where
    snoc :
        (ys : List ℕ) (y : ℕ)
        → Chain h c (ys ++ y ∷ []) c
        → IsDistinct (c ∷ (ys ++ y ∷ []))
        → t ∉ c ∷ (ys ++ y ∷ [])
        → Chain (sched_enqueue c t h) c ((ys ++ y ∷ []) ++ t ∷ []) c
    snoc ys y l d o =
        let (front, back) = Chain-append h c ys y [] c l in
        let (dys, dy, apart) = IsDistinct-append ys (y ∷ []) d.1 in
        rw (append_assoc ys (y ∷ []) (t ∷ [])) (
          append-Chain (sched_enqueue c t h) c ys y (t ∷ []) c
            (Chain-frame h (sched_enqueue c t h) c ys y front
              (λ a m.
                ground (
                  arith,
                  back,
                  apart a,
                  has-append t ys (y ∷ []),
                  has-append c ys (y ∷ []),
                  d.0,
                  o,
                ))
              (λ a m.
                ground (
                  arith,
                  back,
                  apart a,
                  has-append t ys (y ∷ []),
                  has-append c ys (y ∷ []),
                  d.0,
                  o,
                )))
            (ground (arith, back, has-append t ys (y ∷ []), has-append c ys (y ∷ []), d.0, o)))

-- `sched_enqueue` puts a thread that is not in the list at its end, just before the running one.
pub Ring-sched_enqueue :
    (h : Slab) (c t : ℕ) (xs : List ℕ)
    → Ring h c xs
    → t ∉ c ∷ xs
    → t ≢ 0
    → Ring (sched_enqueue c t h) c (xs ++ t ∷ [])
Ring-sched_enqueue h c t xs r out ne = record {
  links = Chain-enqueue h c t xs r.links r.distinct out;
  distinct = (
    rw (has-append c xs (t ∷ [])) (ground (arith, r.distinct.0)),
    IsDistinct-append_one xs t r.distinct.1 (ground arith),
  );
  nonnull = rw (has-append 0 xs (t ∷ [])) (ground (arith, r.nonnull));
}

-- The list is empty, for `is_sched_empty`, exactly when the running thread stands alone in it.
pub is_sched_empty_iff :
    (h : Slab) (c : ℕ) (xs : List ℕ) → Ring h c xs → (is_sched_empty c h ≡ true) ↔ (xs ≡ [])
unfolding is_sched_empty
is_sched_empty_iff h c [] r = (λ e. refl, λ e. ground (arith, r.links))
is_sched_empty_iff h c (x ∷ xs) r = (λ e. ground (arith, r.links, r.distinct), λ e. cc)

Chain-remove :
    (h : Slab) (t z : ℕ) (zs : List ℕ)
    → Chain h t (z ∷ zs) t
    → IsDistinct (t ∷ z ∷ zs)
    → Chain (sched_remove t h) z zs z
unfolding sched_remove
Chain-remove h t z zs links distinct = elim (snoc-cases zs) [
  | inl e ↦ rw e (ground (arith, distinct, rw e at links))
  | inr (ys, y, e) ↦ rw e (snoc ys y (rw e at links) (rw e at distinct))
]
  where
    snoc :
        (ys : List ℕ) (y : ℕ)
        → Chain h t (z ∷ (ys ++ y ∷ [])) t
        → IsDistinct (t ∷ z ∷ (ys ++ y ∷ []))
        → Chain (sched_remove t h) z (ys ++ y ∷ []) z
    snoc ys y l d =
        let (front, back) = Chain-append h z ys y [] t l.2 in
        let (dys, dy, apart) = IsDistinct-append ys (y ∷ []) d.1.1 in
        append-Chain (sched_remove t h) z ys y [] z
          (Chain-frame h (sched_remove t h) z ys y front
            (λ a m.
              ground
                (arith, l, back, apart a, d, has-append t ys (y ∷ []), has-append z ys (y ∷ [])))
            (λ a m.
              ground
                (arith, l, back, apart a, d, has-append t ys (y ∷ []), has-append z ys (y ∷ []))))
          (ground (arith, l, back, d, has-append t ys (y ∷ []), has-append z ys (y ∷ [])))

-- `sched_remove` takes out the thread itself and keeps the others in their order.
pub Ring-sched_remove :
    (h : Slab) (t z : ℕ) (zs : List ℕ) → Ring h t (z ∷ zs) → Ring (sched_remove t h) z zs
Ring-sched_remove h t z zs r = record {
  links = Chain-remove h t z zs r.links r.distinct;
  distinct = r.distinct.1;
  nonnull = ground (arith, r.nonnull);
}

-- With a thread `l` in the list besides the running one, it is not empty.
pub is_sched_empty_busy :
    (h : Slab) (c l : ℕ) (xs : List ℕ) → Ring h c (xs ++ l ∷ []) → is_sched_empty c h ≡ false
unfolding is_sched_empty
is_sched_empty_busy h c l [] r = ground (arith, r.links, r.distinct)
is_sched_empty_busy h c l (x ∷ xs) r = ground (arith, r.links, r.distinct)
