-- ===== src/Cache/Refill.antt =====
-- No descriptor is given out twice by `thread_alloc` of src/thread_mn.c, whether it comes from the
-- cache, from the global list or from the slab.
use ein8_proj.Base.{
  ℕ, zero, suc, ◌+◌, ◌-◌, ◌≤◌, ◌≡◌, refl, sym, subst, arith, ◌==◌, if◌then◌else◌, List, [], ◌∷◌,
  ◌++◌, length, ◌∉◌, IsDistinct, has-append, has-remove, true, false, Bool-cases, inl, inr, ◌⊎◌,
}
use ein8_proj.Sched.{set_rsp}
use ein8_proj.FreeList.{Linked, Linked-frame}
use ein8_proj.Mono.Memory.{thread_cap}
use ein8_proj.Cache.{
  Pools, t_cache_max, t_cache_refill, refill_free, refill_slab, cache_list, refill, thread_alloc_mn,
}
use ein8_proj.Cache.Pooled.{Pooled, rsp_link, cache_one-Pooled}
use ein8_proj.Cache.Filling.{Fresh, Filling, refill_free-Filling, refill_slab-Filling}

-- The rest of a refill goes to the cache.
cache_list-Pooled :
    (fuel list : ℕ) (p : Pools) (zs cache free used : List ℕ)
    → length zs ≤ fuel
    → length cache + length zs ≤ t_cache_max
    → Linked (rsp_link p.hot) list zs
    → Pooled p cache free (zs ++ used)
    → (cache' : List ℕ) × Pooled (cache_list fuel list p) cache' free used
unfolding cache_list
cache_list-Pooled zero list p [] cache free used low room listed po = (cache, po)
cache_list-Pooled zero list p (z ∷ zs) cache free used low room listed po =
    absurd (omega (arith, low))
cache_list-Pooled (suc fuel) list p [] cache free used low room listed po = rw listed (cache, po)
cache_list-Pooled (suc fuel) list p (z ∷ zs) cache free used low room (e, ne, more) po =
    let new = set_rsp z p.t_cache_head p.hot in
    let more_left : (z == 0) ≡ false = ground (arith, ne) in
    let (cache', po') =
      cache_list-Pooled fuel (p.hot z).rsp
        (record p { hot = new; t_cache_head = z; t_cache_count = p.t_cache_count + 1 }) zs
        (z ∷ cache) free used (omega (arith, low)) (omega (arith, room))
        (Linked-frame (rsp_link p.hot) (rsp_link new) (rsp_link p.hot z) zs more
          (λ a i. ground (arith, po.distinct_used, has-append z zs used)))
        (cache_one-Pooled z p cache free [] (zs ++ used) po (omega (arith, room))) in
    rw (e, more_left) (cache', po')

-- What an allocation gives: a descriptor that is handed out from now on, or NULL when none is left.
abbrev pub AllocResult : (p : Pools) → (cache free used : List ℕ) → ℕ × Pools → Type 0
AllocResult p cache free used (t, p') =
    ((t ≡ 0)
      × (cache ≡ [])
      × (free ≡ [])
      × (thread_cap ≤ p.thread_slab_next)
      × Pooled p' [] [] used)
    ⊎ ((cache' : List ℕ) × (free' : List ℕ) × Pooled p' cache' free' (t ∷ used))

refill_free-next :
    (rounds filled list : ℕ) (p : Pools)
    → (refill_free rounds filled list p).2.thread_slab_next ≡ p.thread_slab_next
unfolding refill_free
refill_free-next zero filled list p = refl
refill_free-next (suc rounds) filled list p = elim (Bool-cases (p.thread_free_head == 0)) [
  | inl e ↦ rw e refl
  | inr e ↦ rw e (
      refill_free-next rounds (filled + 1) p.thread_free_head (record p {
        thread_free_head = (p.hot p.thread_free_head).rsp;
        hot = set_rsp p.thread_free_head list p.hot;
      }))
]

IsDistinct-insert :
    (b : ℕ) (xs ys : List ℕ) → IsDistinct (xs ++ ys) → b ∉ xs ++ ys → IsDistinct (xs ++ b ∷ ys)
IsDistinct-insert b [] ys d out = (out, d)
IsDistinct-insert b (x ∷ xs) ys (away, d) out = (
  ground (arith, has-remove x b xs ys, away, out),
  IsDistinct-insert b xs ys d (ground (arith, out)),
)

-- The descriptor that a refill gives out, and the others that go to the cache.
give_first-Pooled :
    (list : ℕ) (p : Pools) (x : ℕ) (ys free used : List ℕ)
    → Filling list p (x ∷ ys) free used
    → length ys ≤ 16
    → (cache' : List ℕ) × Pooled
        (cache_list t_cache_refill (p.hot list).rsp (record p { hot = set_rsp list 0 p.hot }))
        cache'
        free
        (list ∷ used)
give_first-Pooled list p x ys free used fi low =
    let (e, ne, more) = fi.listed in
    let po = fi.pools in
    let new = set_rsp list 0 p.hot in
    let po' : Pooled (record p { hot = new }) [] free (ys ++ list ∷ used) = record {
      cached = po.cached;
      linked =
          Linked-frame (rsp_link p.hot) (rsp_link new) p.thread_free_head free po.linked
            (λ a i. ground (arith, e, po.apart_free a));
      counted = po.counted;
      bounded = po.bounded;
      distinct_cache = tt;
      distinct_free = po.distinct_free;
      distinct_used =
          subst (λ y. IsDistinct (ys ++ y ∷ used)) (sym e)
            (IsDistinct-insert x ys used po.distinct_used.1 po.distinct_used.0);
      apart_cache = λ a i. cc;
      apart_free = λ a i.
          ground (arith, e, po.apart_free a i, has-remove a list ys used, has-append a ys used);
      real = ground (arith, e, po.real, has-remove 0 list ys used);
    } in
    cache_list-Pooled t_cache_refill (p.hot list).rsp (record p { hot = new }) ys [] free
      (list ∷ used) low (omega (arith, low))
      (Linked-frame (rsp_link p.hot) (rsp_link new) (p.hot list).rsp ys
        (subst (λ y. Linked (rsp_link p.hot) (rsp_link p.hot y) ys) (sym e) more)
        (λ a i. ground (arith, e, po.distinct_used, has-append x ys used)))
      po'

-- The end of a refill, with its list `zs`.
refilled :
    (p : Pools) (free free' used : List ℕ) (q : ℕ × Pools) (zs : List ℕ)
    → Filling q.0 q.1 zs free' used
    → length zs ≤ 16
    → (length zs ≡ 0 → length free + length free' ≡ 0)
    → (length zs ≡ 0 → thread_cap ≤ p.thread_slab_next)
    → AllocResult p [] free used (
        if q.0 == 0 then (0, q.1) else (
          q.0,
          cache_list t_cache_refill (q.1.hot q.0).rsp (record q.1 { hot = set_rsp q.0 0 q.1.hot }),
        ))
refilled p [] [] used q [] fi low no_free no_slab =
    rw fi.listed (inl (refl, refl, refl, no_slab refl, fi.pools))
refilled p (x ∷ free) free' used q [] fi low no_free no_slab = absurd (omega (arith, no_free refl))
refilled p [] (x ∷ free') used q [] fi low no_free no_slab = absurd (omega (arith, no_free refl))
refilled p free free' used q (z ∷ zs) fi low no_free no_slab =
    let some_left : (q.0 == 0) ≡ false = ground (arith, fi.listed) in
    let (cache', po) = give_first-Pooled q.0 q.1 z zs free' used fi (omega (arith, low)) in
    rw some_left (inr (cache', free', po))

refill-AllocResult :
    (p : Pools) (free used : List ℕ)
    → Pooled p [] free used
    → Fresh p free used
    → AllocResult p [] free used (refill p)
unfolding refill
refill-AllocResult p free used po fresh =
    let r = refill_free t_cache_refill 0 0 p in
    let (ys, free', fi, count, low, full, same) =
      refill_free-Filling t_cache_refill 0 0 p [] free used
        (record { pools = po; fresh = fresh; listed = refl }) refl in
    let q = refill_slab (t_cache_refill - r.0) r.1 r.2 in
    let (zs, fi', grown, low', more) =
      refill_slab-Filling (t_cache_refill - r.0) r.1 r.2 ys free' used fi in
    refilled p free free' used q zs fi' (omega (arith, count, low, low'))
      (λ e. omega (arith, count, e, grown, full, same, more))
      (λ e. ground (arith, count, e, grown, full, more, refill_free-next t_cache_refill 0 0 p))

cached-AllocResult :
    (p : Pools) (x : ℕ) (cache free used : List ℕ)
    → Pooled p (x ∷ cache) free used
    → Pooled
        (record p {
          t_cache_head = (p.hot p.t_cache_head).rsp;
          t_cache_count = p.t_cache_count - 1;
        })
        cache
        free
        (p.t_cache_head ∷ used)
cached-AllocResult p x cache free used po =
    let (e, ne, more) = po.cached in
    record {
      cached = subst (λ y. Linked (rsp_link p.hot) (rsp_link p.hot y) cache) (sym e) more;
      linked = po.linked;
      counted = omega (arith, po.counted);
      bounded = omega (arith, po.bounded);
      distinct_cache = po.distinct_cache.1;
      distinct_free = po.distinct_free;
      distinct_used = (ground (arith, e, po.apart_cache x), po.distinct_used);
      apart_cache = λ a i. (
        ground (arith, po.apart_cache a),
        ground (arith, e, i, po.apart_cache a, po.distinct_cache),
      );
      apart_free = λ a i. ground (arith, e, i, po.apart_free a, po.apart_cache x);
      real = ground (arith, e, ne, po.real);
    }

-- `thread_alloc` of a worker gives out a descriptor that is handed out to nobody, from its cache or by
-- a refill of up to 16 from the global list and the slab, and returns NULL only when the cache and the
-- global list are empty and the slab is used up.
pub thread_alloc_mn-AllocResult :
    (p : Pools) (cache free used : List ℕ)
    → Pooled p cache free used
    → Fresh p free used
    → AllocResult p cache free used (thread_alloc_mn p)
unfolding thread_alloc_mn
thread_alloc_mn-AllocResult p [] free used po fresh =
    let empty : (p.t_cache_head == 0) ≡ true = ground (arith, po.cached) in
    rw empty (refill-AllocResult p free used po fresh)
thread_alloc_mn-AllocResult p (x ∷ cache) free used po fresh =
    let some_cached : (p.t_cache_head == 0) ≡ false = ground (arith, po.cached) in
    rw some_cached (inr (cache, free, cached-AllocResult p x cache free used po))
