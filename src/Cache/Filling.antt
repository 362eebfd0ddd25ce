-- ===== src/Cache/Filling.antt =====
-- The refill of a worker's cache in src/thread_mn.c: descriptors go from the global list and from the
-- slab to a list.
use ein8_proj.Base.{
  ℕ, zero, suc, ◌+◌, ◌≤◌, ◌<◌, ◌≡◌, ◌≢◌, refl, sym, subst, arith, ◌==◌, ltb, if◌then◌else◌, List,
  [], ◌∷◌, ◌++◌, length, has, ◌∈◌, ◌∉◌, has-append, true, false, Bool-cases, Bool, inl, inr, ◌⊎◌,
}
use ein8_proj.Sched.{Slab, set_rsp}
use ein8_proj.FreeList.{Linked, Linked-frame}
use ein8_proj.Mono.Memory.{thread_cap}
use ein8_proj.Cache.{Pools, refill_free, refill_slab}
use ein8_proj.Cache.Pooled.{Pooled, rsp_link}

-- Descriptors beyond `thread_slab_next` were never used.
abbrev pub Fresh : Pools → (free used : List ℕ) → Type 0
Fresh p free used =
    ((a : ℕ) → a ∈ free → a ≤ p.thread_slab_next) × ((a : ℕ) → a ∈ used → a ≤ p.thread_slab_next)

-- A descriptor leaves the global list; its link is written.
take_free-Pooled :
    (t list : ℕ) (p : Pools) (free used : List ℕ)
    → Pooled p [] (t ∷ free) used
    → Pooled
        (record p {
          thread_free_head = (p.hot p.thread_free_head).rsp;
          hot = set_rsp p.thread_free_head list p.hot;
        })
        []
        free
        (t ∷ used)
take_free-Pooled t list p free used po =
    let (e, ne, more) = po.linked in
    let new = set_rsp p.thread_free_head list p.hot in
    record {
      cached = po.cached;
      linked =
          Linked-frame (rsp_link p.hot) (rsp_link new) (rsp_link p.hot p.thread_free_head) free
            (subst (λ y. Linked (rsp_link p.hot) (rsp_link p.hot y) free) (sym e) more)
            (λ a i. ground (arith, e, po.distinct_free));
      counted = po.counted;
      bounded = po.bounded;
      distinct_cache = tt;
      distinct_free = po.distinct_free.1;
      distinct_used = (po.apart_free t (ground arith), po.distinct_used);
      apart_cache = λ a i. cc;
      apart_free = λ a i. ground (arith, po.apart_free a, po.distinct_free);
      real = ground (arith, po.real, ne);
    }

-- A descriptor that was never used is taken from the slab.
take_slab-Pooled :
    (list : ℕ) (lock : ℕ → Bool) (p : Pools) (free used : List ℕ)
    → Pooled p [] free used
    → Fresh p free used
    → Pooled
        (record p {
          thread_slab_next = p.thread_slab_next + 1;
          cold_lock = lock;
          hot = set_rsp (p.thread_slab_next + 1) list p.hot;
        })
        []
        free
        ((p.thread_slab_next + 1) ∷ used)
take_slab-Pooled list lock p free used po (below, below_used) =
    let t = p.thread_slab_next + 1 in
    let new = set_rsp t list p.hot in
    let not_used : t ∉ used = elim (Bool-cases (has t used)) [
      | inl i ↦ absurd (omega (arith, below_used t i))
      | inr o ↦ o
    ] in
    record {
      cached = po.cached;
      linked =
          Linked-frame (rsp_link p.hot) (rsp_link new) p.thread_free_head free po.linked
            (λ a i. ground (arith, below a i));
      counted = po.counted;
      bounded = po.bounded;
      distinct_cache = tt;
      distinct_free = po.distinct_free;
      distinct_used = (not_used, po.distinct_used);
      apart_cache = λ a i. cc;
      apart_free = λ a i. ground (arith, po.apart_free a i, below a i);
      real = ground (arith, po.real);
    }

-- During the refill: the descriptors `ys` are on the list, out of the pools.
pub record Filling (list : ℕ) (p : Pools) (ys free used : List ℕ) : Type 0 where
  pub pools : Pooled p [] free (ys ++ used)
  pub fresh : Fresh p free (ys ++ used)
  pub listed : Linked (rsp_link p.hot) list ys

-- The list grows by a descriptor outside it.
grow-Linked :
    (t list : ℕ) (h : Slab) (ys used : List ℕ)
    → Linked (rsp_link h) list ys
    → t ≢ 0
    → t ∉ ys ++ used
    → Linked (rsp_link (set_rsp t list h)) t (t ∷ ys)
grow-Linked t list h ys used listed ne out =
    let new = set_rsp t list h in
    let here : rsp_link new t ≡ list = ground arith in
    (
      refl,
      ne,
      subst (λ y. Linked (rsp_link new) y ys) (sym here)
          (Linked-frame (rsp_link h) (rsp_link new) list ys listed
            (λ a i. ground (arith, out, has-append t ys used))),
    )

pub refill_free-Filling :
    (rounds filled list : ℕ) (p : Pools) (ys free used : List ℕ)
    → Filling list p ys free used
    → filled ≡ length ys
    → let (filled', list', p') = refill_free rounds filled list p in
      (ys' : List ℕ) × (free' : List ℕ) × Filling list' p' ys' free' used
      × (filled' ≡ length ys')
      × (length ys' ≤ length ys + rounds)
      × ((length free' ≡ 0) ⊎ (length ys' ≡ length ys + rounds))
      × (length ys' + length free' ≡ length ys + length free)
unfolding refill_free
refill_free-Filling zero filled list p ys free used fi e =
    (ys, free, fi, e, omega arith, inr (omega arith), refl)
refill_free-Filling (suc rounds) filled list p ys [] used fi e =
    let none_left : (p.thread_free_head == 0) ≡ true = ground (arith, fi.pools.linked) in
    rw none_left (ys, [], fi, e, omega arith, inl refl, refl)
refill_free-Filling (suc rounds) filled list p ys (t ∷ free) used fi e =
    let (at_t, ne, _) = fi.pools.linked in
    let some_left : (p.thread_free_head == 0) ≡ false = ground (arith, at_t, ne) in
    let head_real : p.thread_free_head ≢ 0 = ground (arith, at_t, ne) in
    let out : p.thread_free_head ∉ ys ++ used =
      subst (λ x. x ∉ ys ++ used) (sym at_t) (fi.pools.apart_free t (ground arith)) in
    let (ys', free', fi', e', low, full, same) =
      refill_free-Filling rounds (filled + 1) p.thread_free_head
        (record p {
          thread_free_head = (p.hot p.thread_free_head).rsp;
          hot = set_rsp p.thread_free_head list p.hot;
        })
        (p.thread_free_head ∷ ys) free used
        (record {
          pools =
              subst
                (λ x.
                  Pooled
                    (record p {
                      thread_free_head = (p.hot p.thread_free_head).rsp;
                      hot = set_rsp p.thread_free_head list p.hot;
                    })
                    [] free (x ∷ ys ++ used))
                (sym at_t) (take_free-Pooled t list p free (ys ++ used) fi.pools);
          fresh = (
            λ a i. fi.fresh.0 a (ground (arith, i)),
            λ a i. ground (arith, i, fi.fresh.0 t, fi.fresh.1 a, at_t),
          );
          listed = grow-Linked p.thread_free_head list p.hot ys used fi.listed head_real out;
        })
        (omega (arith, e)) in
    rw some_left
      (ys', free', fi', e', omega (arith, low), ground (arith, full), omega (arith, same))

pub refill_slab-Filling :
    (rounds list : ℕ) (p : Pools) (ys free used : List ℕ)
    → Filling list p ys free used
    → let (list', p') = refill_slab rounds list p in
      (ys' : List ℕ) × Filling list' p' ys' free used
      × (length ys ≤ length ys')
      × (length ys' ≤ length ys + rounds)
      × ((length ys < length ys')
          ⊎ (rounds ≡ 0)
          ⊎ ((thread_cap ≤ p.thread_slab_next) × (length ys' ≡ length ys)))
unfolding refill_slab
refill_slab-Filling zero list p ys free used fi = (ys, fi, omega arith, omega arith, inr (inl refl))
refill_slab-Filling (suc rounds) list p ys free used fi =
    elim (Bool-cases (ltb p.thread_slab_next thread_cap)) [
      | inr out ↦ rw out (ys, fi, omega arith, omega arith, inr (inr (ground (arith, out), refl)))
      | inl room ↦
          let t = p.thread_slab_next + 1 in
          let lock : ℕ → Bool = λ a. if a == t then false else p.cold_lock a in
          let taken = record p {
            thread_slab_next = p.thread_slab_next + 1;
            cold_lock = lock;
            hot = set_rsp t list p.hot;
          } in
          let out : t ∉ ys ++ used = elim (Bool-cases (has t (ys ++ used))) [
            | inl i ↦ absurd (omega (arith, fi.fresh.1 t i))
            | inr o ↦ o
          ] in
          let (ys', fi', grown, low, _) =
            refill_slab-Filling rounds t taken (t ∷ ys) free used (record {
              pools = take_slab-Pooled list lock p free (ys ++ used) fi.pools fi.fresh;
              fresh =
                  (λ a i. omega (arith, fi.fresh.0 a i), λ a i. ground (arith, i, fi.fresh.1 a));
              listed = grow-Linked t list p.hot ys used fi.listed (omega arith) out;
            }) in
          rw room (ys', fi', omega (arith, grown), omega (arith, low), inl (omega (arith, grown)))
    ]
