-- ===== src/Cache/Pooled.antt =====
-- No descriptor is lost or handed out twice when a worker of src/thread_mn.c gives one back.
use ein8_proj.Base.{
  ℕ, zero, suc, ◌+◌, ◌≤◌, ◌<◌, ◌≡◌, ◌≢◌, refl, sym, arith, ◌==◌, ltb, List, [], ◌∷◌, ◌++◌, length,
  has, ◌∈◌, ◌∉◌, IsDistinct, has-remove, IsDistinct-remove, true, false, Bool-cases, inl, inr,
  subst,
}
use ein8_proj.Sched.{Slab, set_rsp}
use ein8_proj.FreeList.{Linked, Linked-frame}
use ein8_proj.Cache.{
  Pools, t_cache_max, t_cache_refill, flush_one, flush_cache, release_global, thread_release_mn,
}

abbrev pub rsp_link : Slab → ℕ → ℕ
rsp_link h t = (h t).rsp

-- The descriptors `cache` are in the cache, `free` on the global list, and `used` are handed out.
pub record Pooled (p : Pools) (cache free used : List ℕ) : Type 0 where
  pub cached : Linked (rsp_link p.hot) p.t_cache_head cache
  pub linked : Linked (rsp_link p.hot) p.thread_free_head free
  pub counted : p.t_cache_count ≡ length cache
  pub bounded : length cache ≤ t_cache_max
  pub distinct_cache : IsDistinct cache
  pub distinct_free : IsDistinct free
  pub distinct_used : IsDistinct used
  pub apart_cache : (a : ℕ) → a ∈ cache → (has a free ≡ false) × (has a used ≡ false)
  pub apart_free : (a : ℕ) → a ∈ free → a ∉ used
  pub real : 0 ∉ used

flush_one-Pooled :
    (x : ℕ) (p : Pools) (cache free used : List ℕ)
    → Pooled p (x ∷ cache) free used
    → Pooled (flush_one p) cache (x ∷ free) used
unfolding flush_one
flush_one-Pooled x p cache free used po =
    let (e, ne, more) = po.cached in
    let new = set_rsp p.t_cache_head p.thread_free_head p.hot in
    let here : rsp_link new x ≡ p.thread_free_head = ground (arith, e) in
    record {
      cached =
          Linked-frame (rsp_link p.hot) (rsp_link new) (rsp_link p.hot p.t_cache_head) cache
            (subst (λ y. Linked (rsp_link p.hot) (rsp_link p.hot y) cache) (sym e) more)
            (λ a i. ground (arith, e, po.distinct_cache));
      linked = (
        e,
        ne,
        subst (λ y. Linked (rsp_link new) y free) (sym here)
            (Linked-frame (rsp_link p.hot) (rsp_link new) p.thread_free_head free po.linked
              (λ a i. ground (arith, e, po.apart_cache x))),
      );
      counted = omega (arith, po.counted);
      bounded = omega (arith, po.bounded);
      distinct_cache = po.distinct_cache.1;
      distinct_free = ((po.apart_cache x (ground arith)).0, po.distinct_free);
      distinct_used = po.distinct_used;
      apart_cache = λ a i.
          (ground (arith, po.apart_cache a, po.distinct_cache), ground (arith, po.apart_cache a));
      apart_free = λ a i. ground (arith, po.apart_free a, po.apart_cache x);
      real = po.real;
    }

flush_cache-Pooled :
    (rounds : ℕ) (p : Pools) (cache free used : List ℕ)
    → Pooled p cache free used
    → (cache' : List ℕ) × (free' : List ℕ) × Pooled (flush_cache rounds p) cache' free' used
      × (length cache' + length free' ≡ length cache + length free)
unfolding flush_cache
flush_cache-Pooled zero p cache free used po = (cache, free, po, refl)
flush_cache-Pooled (suc rounds) p [] free used po =
    let none_left : (p.t_cache_head == 0) ≡ true = ground (arith, po.cached) in
    ([], free, rw none_left po, refl)
flush_cache-Pooled (suc rounds) p (x ∷ cache) free used po =
    let some_left : (p.t_cache_head == 0) ≡ false = ground (arith, po.cached) in
    let (cache', free', po', e) =
      flush_cache-Pooled rounds (flush_one p) cache (x ∷ free) used
        (flush_one-Pooled x p cache free used po) in
    (cache', free', rw some_left po', omega arith)

release_global-Pooled :
    (t : ℕ) (p : Pools) (cache free front back : List ℕ)
    → Pooled p cache free (front ++ t ∷ back)
    → Pooled (release_global t p) cache (t ∷ free) (front ++ back)
unfolding release_global
release_global-Pooled t p cache free front back po =
    let (distinct, once) = IsDistinct-remove t front back po.distinct_used in
    let at_t = has-remove t t front back in
    let nonnull : t ≢ 0 = ground (arith, po.real, has-remove 0 t front back) in
    let new = set_rsp t p.thread_free_head p.hot in
    let here : rsp_link new t ≡ p.thread_free_head = ground arith in
    let not_free : t ∉ free = elim (Bool-cases (has t free)) [
      | inl i ↦ absurd (ground (arith, po.apart_free t i, at_t))
      | inr o ↦ o
    ] in
    let not_cached : t ∉ cache = elim (Bool-cases (has t cache)) [
      | inl i ↦ absurd (ground (arith, (po.apart_cache t i).1, at_t))
      | inr o ↦ o
    ] in
    record {
      cached =
          Linked-frame (rsp_link p.hot) (rsp_link new) p.t_cache_head cache po.cached
            (λ a i. ground arith);
      linked = (
        refl,
        nonnull,
        subst (λ y. Linked (rsp_link new) y free) (sym here)
            (Linked-frame (rsp_link p.hot) (rsp_link new) p.thread_free_head free po.linked
              (λ a i. ground arith)),
      );
      counted = po.counted;
      bounded = po.bounded;
      distinct_cache = po.distinct_cache;
      distinct_free = (not_free, po.distinct_free);
      distinct_used = distinct;
      apart_cache = λ a i. (
        ground (arith, (po.apart_cache a i).0),
        ground (arith, (po.apart_cache a i).1, has-remove a t front back),
      );
      apart_free = λ a i. ground (arith, once, po.apart_free a, has-remove a t front back);
      real = ground (arith, po.real, has-remove 0 t front back);
    }

pub cache_one-Pooled :
    (t : ℕ) (p : Pools) (cache free front back : List ℕ)
    → Pooled p cache free (front ++ t ∷ back)
    → length cache < t_cache_max
    → Pooled
        (record p {
          hot = set_rsp t p.t_cache_head p.hot;
          t_cache_head = t;
          t_cache_count = p.t_cache_count + 1;
        })
        (t ∷ cache)
        free
        (front ++ back)
cache_one-Pooled t p cache free front back po room =
    let (distinct, once) = IsDistinct-remove t front back po.distinct_used in
    let at_t = has-remove t t front back in
    let nonnull : t ≢ 0 = ground (arith, po.real, has-remove 0 t front back) in
    let new = set_rsp t p.t_cache_head p.hot in
    let here : rsp_link new t ≡ p.t_cache_head = ground arith in
    let not_free : t ∉ free = elim (Bool-cases (has t free)) [
      | inl i ↦ absurd (ground (arith, po.apart_free t i, at_t))
      | inr o ↦ o
    ] in
    let not_cached : t ∉ cache = elim (Bool-cases (has t cache)) [
      | inl i ↦ absurd (ground (arith, (po.apart_cache t i).1, at_t))
      | inr o ↦ o
    ] in
    record {
      cached = (
        refl,
        nonnull,
        subst (λ y. Linked (rsp_link new) y cache) (sym here)
            (Linked-frame (rsp_link p.hot) (rsp_link new) p.t_cache_head cache po.cached
              (λ a i. ground arith)),
      );
      linked =
          Linked-frame (rsp_link p.hot) (rsp_link new) p.thread_free_head free po.linked
            (λ a i. ground arith);
      counted = omega (arith, po.counted);
      bounded = omega arith;
      distinct_cache = (not_cached, po.distinct_cache);
      distinct_free = po.distinct_free;
      distinct_used = distinct;
      apart_cache = λ a i. (
        ground (arith, po.apart_cache a),
        ground (arith, once, po.apart_cache a, has-remove a t front back),
      );
      apart_free = λ a i. ground (arith, po.apart_free a, has-remove a t front back);
      real = ground (arith, po.real, has-remove 0 t front back);
    }

-- `thread_release` of a worker takes a descriptor back that was handed out, into its cache or, with
-- half of a full cache, to the global list: the descriptors that can be handed out are one more, the
-- others stay handed out, and the cache never holds more than 32.
pub thread_release_mn-Pooled :
    (t : ℕ) (p : Pools) (cache free front back : List ℕ)
    → Pooled p cache free (front ++ t ∷ back)
    → (cache' : List ℕ) × (free' : List ℕ) × Pooled
        (thread_release_mn t p)
        cache'
        free'
        (front ++ back)
      × (length cache' + length free' ≡ suc (length cache + length free))
unfolding thread_release_mn
thread_release_mn-Pooled t p cache free front back po =
    elim (Bool-cases (ltb p.t_cache_count t_cache_max)) [
      | inl room ↦ (
        t ∷ cache,
        free,
        rw room (cache_one-Pooled t p cache free front back po (ground (arith, po.counted))),
        omega arith,
      )
      | inr full ↦
          let (cache', free', po', e) =
            flush_cache-Pooled t_cache_refill p cache free (front ++ t ∷ back) po in
          (
            cache',
            t ∷ free',
            rw full (
                release_global-Pooled t (flush_cache t_cache_refill p) cache' free' front back po'),
            omega arith,
          )
    ]
