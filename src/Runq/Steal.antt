-- ===== src/Runq/Steal.antt =====
-- `try_steal` of src/scheduler_mn.c finds an item whenever one of the other deques has one.
use ein8_proj.Base.{
  ℕ, zero, suc, ◌+◌, ◌-◌, ◌%◌, ◌≤◌, ◌≡◌, ◌≢◌, refl, arith, ◌==◌, ==_self, ==_ne, leb, List, [], ◌∷◌,
  ◌∉◌, true, false, ◌⊎◌, inl, inr, ◌∙◌, ℕ_discrete, Bool-cases,
}
use ein8_proj.Deque.{Deque, cl_steal}
use ein8_proj.Deque.Lifo.{IsDeque, cl_steal-cons, cl_steal-nil}
use ein8_proj.Runq.{Deques, write_deque, steal_loop, try_steal}

-- Each deque holds its list, and no item is NULL.
pub record AreDeques (qs : Deques) (xs : ℕ → List ℕ) : Type 0 where
  pub each : (v : ℕ) → IsDeque (qs v) (xs v)
  pub real : (v : ℕ) → 0 ∉ xs v

-- What a search through the workers `self + i`, ..., `self + last` (modulo `n`) may answer: NULL when
-- all of their deques are empty, or the oldest item of one of them, with the other deques unchanged.
abbrev pub StealResult : (i last self n : ℕ) → Deques → (ℕ → List ℕ) → ℕ × Deques → Type 0
StealResult i last self n qs xs (t, qs') =
    ((t ≡ 0) × ((j : ℕ) → i ≤ j → j ≤ last → xs ((self + j) % n) ≡ []) × ((a : ℕ) → qs' a ≡ qs a))
    ⊎ ((j : ℕ) × (i ≤ j)
        × (j ≤ last)
        × (rest : List ℕ) × (xs ((self + j) % n) ≡ t ∷ rest)
        × IsDeque (qs' ((self + j) % n)) rest
        × ((a : ℕ) → a ≢ (self + j) % n → qs' a ≡ qs a))

pub List-cases : (ts : List ℕ) → (ts ≡ []) ⊎ ((x : ℕ) × (rest : List ℕ) × (ts ≡ x ∷ rest))
List-cases [] = inl refl
List-cases (x ∷ rest) = inr (x, rest, refl)

write_same : (qs : Deques) (v : ℕ) (q : Deque) → q ≡ qs v → (a : ℕ) → write_deque qs v q a ≡ qs a
write_same qs v q e a = elim (ℕ_discrete a v) [
  | yes here ↦ rw (here, ==_self v) e
  | no away ↦ rw (==_ne a v away) refl
]

-- The first deque was empty: the search goes on as if it had started one further.
later :
    (i last self n : ℕ) (qs qs1 : Deques) (xs : ℕ → List ℕ) (r : ℕ × Deques)
    → xs ((self + i) % n) ≡ []
    → ((a : ℕ) → qs1 a ≡ qs a)
    → StealResult (i + 1) last self n qs1 xs r
    → StealResult i last self n qs xs r
later i last self n qs qs1 xs (t, qs') empty same (inl (e, none_there, kept)) = inl (
  e,
  λ j low high. elim (ℕ_discrete j i) [
    | yes here ↦ rw here empty
    | no away ↦ none_there j (omega arith) high
  ],
  λ a. kept a ∙ same a,
)
later i last self n qs qs1 xs (t, qs') empty same (inr (j, low, high, rest, e, d, kept)) =
    inr (j, omega arith, high, rest, e, d, λ a away. kept a away ∙ same a)

steal_loop-StealResult :
    (fuel i last self n : ℕ) (qs : Deques) (xs : ℕ → List ℕ)
    → i + fuel ≡ last + 1
    → AreDeques qs xs
    → StealResult i last self n qs xs (steal_loop fuel i self n qs)
unfolding steal_loop
steal_loop-StealResult zero i last self n qs xs e all =
    inl (refl, λ j low high. absurd (omega arith), λ a. refl)
steal_loop-StealResult (suc fuel) i last self n qs xs e all =
    let v = (self + i) % n in
    elim (List-cases (xs v)) [
      | inl empty ↦
          let stuck = cl_steal-nil (qs v) (rw empty at (all.each v)) in
          let t : ((cl_steal (qs v)).0 == 0) ≡ true = rw stuck refl in
          let same = write_same qs v (cl_steal (qs v)).1 (rw stuck refl) in
          rw t (
            later i last self n qs (write_deque qs v (cl_steal (qs v)).1) xs _ empty same (
              steal_loop-StealResult fuel (i + 1) last self n (write_deque qs v (cl_steal (qs v)).1)
                xs (omega arith)
                (record { each = λ a. rw (same a) (all.each a); real = all.real })))
      | inr (x, rest, full) ↦
          let (got, left) = cl_steal-cons x (qs v) rest (rw full at (all.each v)) in
          let t : ((cl_steal (qs v)).0 == 0) ≡ false = ground (arith, got, all.real v, full) in
          rw t (
            inr (
              i,
              omega arith,
              omega arith,
              rest,
              full ∙ rw got refl,
              rw (==_self v) left,
              λ a away. rw (==_ne a v away) refl,
            ))
    ]

-- `try_steal` of worker `self` returns NULL only when the deques of all the other workers are empty;
-- else it takes the oldest item of one of them and leaves the other deques as they are.
pub try_steal-StealResult :
    (self n : ℕ) (qs : Deques) (xs : ℕ → List ℕ)
    → 1 ≤ n
    → AreDeques qs xs
    → StealResult 1 (n - 1) self n qs xs (try_steal self n qs)
unfolding try_steal
try_steal-StealResult self n qs xs some_worker all = elim (Bool-cases (leb n 1)) [
  | inl alone ↦ rw alone (inl (refl, λ j low high. absurd (ground (arith, alone)), λ a. refl))
  | inr more ↦ rw more (steal_loop-StealResult (n - 1) 1 (n - 1) self n qs xs (omega arith) all)
]
