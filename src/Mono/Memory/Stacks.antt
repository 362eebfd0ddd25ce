-- ===== src/Mono/Memory/Stacks.antt =====
-- The stack allocator of src/thread.c hands out each stack of the arena to one thread at a time.
use ein8_proj.Base.{
  ℕ, ◌+◌, ◌*◌, ◌≤◌, ◌<◌, ◌≡◌, ◌≢◌, refl, ◌⊎◌, inl, inr, Option, none, some, List, [], ◌∷◌, ◌++◌,
  arith, ◌∈◌, ◌∉◌, IsDistinct, has, has-remove, IsDistinct-remove, length-remove, length,
  Bool-cases, dec_lt, ==_self,
}
use ein8_proj.FreeList.{Linked, Linked-frame}
use ein8_proj.Mono.{State}
use ein8_proj.Mono.Memory.{stack_size, stack_cap, freelist_ptr, stack_alloc, stack_release}

abbrev pub stack_link : State → ℕ → ℕ
stack_link s b = s.mem (freelist_ptr b)

-- Stack `k` of the arena.
abbrev pub IsStack : State → ℕ → Type 0
IsStack s b = (k : ℕ) × (k < s.stack_arena_next) × (b ≡ s.stack_arena + k * stack_size)

-- Of the stacks cut from the arena so far, `free` are on the free list and `used` are handed out.
pub record Stacks (s : State) (free used : List ℕ) : Type 0 where
  pub linked : Linked (stack_link s) s.stack_free_head free
  pub distinct_free : IsDistinct free
  pub distinct_used : IsDistinct used
  pub apart : (a : ℕ) → a ∈ free → a ∉ used
  pub free_placed : (a : ℕ) → a ∈ free → IsStack s a
  pub used_placed : (a : ℕ) → a ∈ used → IsStack s a
  pub counted : length free + length used ≡ s.stack_arena_next
  pub bounded : s.stack_arena_next ≤ stack_cap
  pub mapped : s.stack_arena ≢ 0

-- What `stack_alloc` may answer.
abbrev pub StackGiven : State → List ℕ → Option ℕ × State → Type 0
StackGiven s used (none, s') = (s' ≡ s) × (length used ≡ stack_cap)
StackGiven s used (some b, s') =
    (b ≢ 0) × (b ∉ used) × ((free : List ℕ) × Stacks s' free (b ∷ used))

not-mem_fresh :
    (s : State) (xs : List ℕ)
    → ((a : ℕ) → a ∈ xs → IsStack s a)
    → (s.stack_arena + s.stack_arena_next * stack_size) ∉ xs
not-mem_fresh s xs placed =
    elim (Bool-cases (has (s.stack_arena + s.stack_arena_next * stack_size) xs)) [
      | inl i ↦ let (k, lt, e) = placed _ i in absurd (omega arith)
      | inr o ↦ o
    ]

stack_alloc_pop :
    (s : State)
    → s.stack_free_head ≢ 0
    → stack_alloc s
      ≡ (some s.stack_free_head, record s { stack_free_head = stack_link s s.stack_free_head })
unfolding stack_alloc
stack_alloc_pop s h = ground arith

stack_alloc_full :
    (s : State) → s.stack_free_head ≡ 0 → stack_cap ≤ s.stack_arena_next → stack_alloc s ≡ (none, s)
unfolding stack_alloc
stack_alloc_full s h full = ground arith

stack_alloc_cut :
    (s : State)
    → s.stack_free_head ≡ 0
    → s.stack_arena_next < stack_cap
    → stack_alloc s ≡ (
      some (s.stack_arena + s.stack_arena_next * stack_size),
      record s { stack_arena_next = s.stack_arena_next + 1 },
    )
unfolding stack_alloc
stack_alloc_cut s h room = ground arith

IsStack-later :
    (s : State) (a : ℕ)
    → IsStack s a
    → IsStack (record s { stack_arena_next = s.stack_arena_next + 1 }) a
IsStack-later s a (k, lt, e) = (k, omega arith, e)

-- `stack_alloc` returns a stack that no thread has, or NULL when all of the arena is handed out.
pub stack_alloc-StackGiven :
    (s : State) (free used : List ℕ) → Stacks s free used → StackGiven s used (stack_alloc s)
stack_alloc-StackGiven s [] used st = elim (dec_lt s.stack_arena_next stack_cap) [
  | no full ↦
      rw (stack_alloc_full s st.linked (omega arith)) (refl, omega (arith, st.counted, st.bounded))
  | yes room ↦ rw (stack_alloc_cut s st.linked room) (
    omega (arith, st.mapped),
    not-mem_fresh s used st.used_placed,
    (
      [],
      record {
        linked = st.linked;
        distinct_free = tt;
        distinct_used = (not-mem_fresh s used st.used_placed, st.distinct_used);
        apart = λ a i. cc;
        free_placed = λ a i. cc;
        used_placed = λ a i. elim (Bool-cases (has a used)) [
          | inl old ↦ IsStack-later s a (st.used_placed a old)
          | inr new ↦ (s.stack_arena_next, omega arith, ground arith)
        ];
        counted = omega (arith, st.counted);
        bounded = omega arith;
        mapped = st.mapped;
      },
    ),
  )
]
stack_alloc-StackGiven s (x ∷ free) used st =
    let (e, ne, rest) = st.linked in
    rw (stack_alloc_pop s (ground arith)) (
      ground arith,
      ground (arith, st.apart x),
      (
        free,
        record {
          linked = rw (← e) at rest;
          distinct_free = st.distinct_free.1;
          distinct_used = (ground (arith, st.apart x), st.distinct_used);
          apart = λ a i. ground (arith, st.apart a, st.distinct_free);
          free_placed = λ a i. st.free_placed a (ground arith);
          used_placed = λ a i. elim (Bool-cases (has a used)) [
            | inl old ↦ st.used_placed a old
            | inr new ↦ st.free_placed a (ground arith)
          ];
          counted = omega (arith, st.counted);
          bounded = st.bounded;
          mapped = st.mapped;
        },
      ),
    )

-- `stack_release` takes a stack back that was handed out, and gives no other stack away.
pub stack_release-Stacks :
    (s : State) (free front back : List ℕ) (b : ℕ)
    → Stacks s free (front ++ b ∷ back)
    → Stacks (stack_release b s) (b ∷ free) (front ++ back)
unfolding stack_release
stack_release-Stacks s free front back b st =
    let (distinct, once) = IsDistinct-remove b front back st.distinct_used in
    let at_b = has-remove b b front back in
    let out : b ∉ free = elim (Bool-cases (has b free)) [
      | inl i ↦ absurd (ground (arith, st.apart b i))
      | inr o ↦ o
    ] in
    let placed : IsStack s b = st.used_placed b (ground arith) in
    record {
      linked = (
        refl,
        ground (arith, st.mapped, placed),
        rw (==_self (freelist_ptr b)) (
            Linked-frame (stack_link s) (stack_link (stack_release b s)) s.stack_free_head free
              st.linked (λ a i. ground arith)),
      );
      distinct_free = (out, st.distinct_free);
      distinct_used = distinct;
      apart = λ a i. ground (arith, once, st.apart a, has-remove a b front back);
      free_placed = λ a i. elim (Bool-cases (has a free)) [
        | inl old ↦ st.free_placed a old
        | inr new ↦ st.used_placed a (ground (arith, has-remove a b front back))
      ];
      used_placed = λ a i. st.used_placed a (ground (arith, has-remove a b front back));
      counted = omega (arith, st.counted, length-remove b front back);
      bounded = st.bounded;
      mapped = st.mapped;
    }

-- Two stacks that are handed out share no byte.
pub Stacks-disjoint :
    (s : State) (free used : List ℕ) (a b : ℕ)
    → Stacks s free used
    → a ∈ used
    → b ∈ used
    → a ≢ b
    → (a + stack_size ≤ b) ⊎ (b + stack_size ≤ a)
Stacks-disjoint s free used a b st ia ib ne =
    let (j, _, ea) = st.used_placed a ia in let (k, _, eb) = st.used_placed b ib in omega arith
