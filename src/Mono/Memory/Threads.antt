-- ===== src/Mono/Memory/Threads.antt =====
-- The descriptor allocator of src/thread.c hands out each slab entry once.
use ein8_proj.Base.{
  ℕ, ◌+◌, ◌≤◌, ◌<◌, ◌≡◌, ◌≢◌, refl, inl, inr, Option, none, some, List, [], ◌∷◌, ◌++◌, arith, ◌∈◌,
  ◌∉◌, IsDistinct, has, has-remove, IsDistinct-remove, length-remove, length, Bool-cases, dec_lt,
}
use ein8_proj.FreeList.{Linked, Linked-frame}
use ein8_proj.Mono.{State}
use ein8_proj.Mono.Memory.{thread_cap, thread_alloc, thread_release}

abbrev pub thread_link : State → ℕ → ℕ
thread_link s t = (s.hot t).rsp

-- The address of a slab entry that has been cut.
abbrev pub IsSlot : State → ℕ → Type 0
IsSlot s t = (1 ≤ t) × (t ≤ s.thread_slab_next)

-- Of the descriptors cut from the slab so far, `free` are on the free list and `used` are handed out.
pub record Threads (s : State) (free used : List ℕ) : Type 0 where
  pub linked : Linked (thread_link s) s.thread_free_head free
  pub distinct_free : IsDistinct free
  pub distinct_used : IsDistinct used
  pub apart : (a : ℕ) → a ∈ free → a ∉ used
  pub free_placed : (a : ℕ) → a ∈ free → IsSlot s a
  pub used_placed : (a : ℕ) → a ∈ used → IsSlot s a
  pub counted : length free + length used ≡ s.thread_slab_next
  pub bounded : s.thread_slab_next ≤ thread_cap

abbrev pub ThreadGiven : State → List ℕ → Option ℕ × State → Type 0
ThreadGiven s used (none, s') = (s' ≡ s) × (length used ≡ thread_cap)
ThreadGiven s used (some t, s') =
    (t ≢ 0) × (t ∉ used) × ((free : List ℕ) × Threads s' free (t ∷ used))

not-mem_fresh :
    (s : State) (xs : List ℕ) → ((a : ℕ) → a ∈ xs → IsSlot s a) → (s.thread_slab_next + 1) ∉ xs
not-mem_fresh s xs placed = elim (Bool-cases (has (s.thread_slab_next + 1) xs)) [
  | inl i ↦ absurd (omega (arith, placed _ i))
  | inr o ↦ o
]

thread_alloc_pop :
    (s : State)
    → s.thread_free_head ≢ 0
    → thread_alloc s
      ≡ (some s.thread_free_head, record s { thread_free_head = thread_link s s.thread_free_head })
unfolding thread_alloc
thread_alloc_pop s h = ground arith

thread_alloc_full :
    (s : State)
    → s.thread_free_head ≡ 0
    → thread_cap ≤ s.thread_slab_next
    → thread_alloc s ≡ (none, s)
unfolding thread_alloc
thread_alloc_full s h full = ground arith

thread_alloc_cut :
    (s : State)
    → s.thread_free_head ≡ 0
    → s.thread_slab_next < thread_cap
    → thread_alloc s
      ≡ (some (s.thread_slab_next + 1), record s { thread_slab_next = s.thread_slab_next + 1 })
unfolding thread_alloc
thread_alloc_cut s h room = ground arith

-- `thread_alloc` returns a descriptor that no thread has, or NULL when the slab is handed out.
pub thread_alloc-ThreadGiven :
    (s : State) (free used : List ℕ) → Threads s free used → ThreadGiven s used (thread_alloc s)
thread_alloc-ThreadGiven s [] used st = elim (dec_lt s.thread_slab_next thread_cap) [
  | no full ↦
      rw (thread_alloc_full s st.linked (omega arith)) (refl, omega (arith, st.counted, st.bounded))
  | yes room ↦ rw (thread_alloc_cut s st.linked room) (
    omega arith,
    not-mem_fresh s used st.used_placed,
    (
      [],
      record {
        linked = st.linked;
        distinct_free = tt;
        distinct_used = (not-mem_fresh s used st.used_placed, st.distinct_used);
        apart = λ a i. cc;
        free_placed = λ a i. cc;
        used_placed = λ a i. ground (arith, st.used_placed a);
        counted = omega (arith, st.counted);
        bounded = omega arith;
      },
    ),
  )
]
thread_alloc-ThreadGiven s (x ∷ free) used st =
    let (e, ne, rest) = st.linked in
    rw (thread_alloc_pop s (ground arith)) (
      ground arith,
      ground (arith, st.apart x),
      (
        free,
        record {
          linked = rw (← e) at rest;
          distinct_free = st.distinct_free.1;
          distinct_used = (ground (arith, st.apart x), st.distinct_used);
          apart = λ a i. ground (arith, st.apart a, st.distinct_free);
          free_placed = λ a i. st.free_placed a (ground arith);
          used_placed = λ a i. ground (arith, st.used_placed a, st.free_placed a);
          counted = omega (arith, st.counted);
          bounded = st.bounded;
        },
      ),
    )

-- `thread_release` takes a descriptor back that was handed out, and gives no other away.
pub thread_release-Threads :
    (s : State) (free front back : List ℕ) (t : ℕ)
    → Threads s free (front ++ t ∷ back)
    → Threads (thread_release t s) (t ∷ free) (front ++ back)
unfolding thread_release
thread_release-Threads s free front back t st =
    let (distinct, once) = IsDistinct-remove t front back st.distinct_used in
    let at_t = has-remove t t front back in
    let out : t ∉ free = elim (Bool-cases (has t free)) [
      | inl i ↦ absurd (ground (arith, st.apart t i))
      | inr o ↦ o
    ] in
    let here : thread_link (thread_release t s) t ≡ s.thread_free_head = ground arith in
    let placed : IsSlot s t = st.used_placed t (ground arith) in
    record {
      linked = (
        refl,
        omega (arith, placed),
        rw here (
            Linked-frame (thread_link s) (thread_link (thread_release t s)) s.thread_free_head free
              st.linked (λ a i. ground arith)),
      );
      distinct_free = (out, st.distinct_free);
      distinct_used = distinct;
      apart = λ a i. ground (arith, once, st.apart a, has-remove a t front back);
      free_placed = λ a i. ground (arith, placed, st.free_placed a);
      used_placed = λ a i. st.used_placed a (ground (arith, has-remove a t front back));
      counted = omega (arith, st.counted, length-remove t front back);
      bounded = st.bounded;
    }
