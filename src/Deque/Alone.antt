-- ===== src/Deque/Alone.antt =====
-- An operation of the deque that no other worker interrupts: its accesses, one after the other, come
-- to the operation as a whole.
use ein8_proj.Base.{
  ℕ, ◌≡◌, refl, ◌==◌, ==_self, leb, Bool-cases, List, [], ◌∷◌, inl, inr, none, some, Option,
}
use ein8_proj.Deque.{Deque, cl_cap, minus, is_negative, cl_push_bottom, cl_pop_bottom}
use ein8_proj.Deque.Steps.{
  owner_idle, push_aborted, ThiefPc, owner_step, owner_push, owner_pop, System, Choice, begin_push,
  begin_pop, go_owner, step, final,
}

-- The accesses of `cl_push_bottom`, and of `cl_pop_bottom` on its longest way.
abbrev pub push_accesses : (x : ℕ) → List Choice
push_accesses x = begin_push x ∷ go_owner ∷ go_owner ∷ go_owner ∷ []

abbrev pub pop_accesses : List Choice
pop_accesses = begin_pop ∷ go_owner ∷ go_owner ∷ go_owner ∷ go_owner ∷ go_owner ∷ []

abbrev pub idle_with : Deque → (ℕ → ThiefPc) → System
idle_with q f = record { deque = q; owner = owner_idle; thief = f }

-- What the push is worth: the deque after it, or the abort.
abbrev pub PushEnds : Option (ℕ × Deque) → System → Type 0
PushEnds none s = s.owner ≡ push_aborted
PushEnds (some (size, q)) s = (s.owner ≡ owner_idle) × (s.deque ≡ q)

-- A push that nobody interrupts ends in its accesses: with the deque of `cl_push_bottom`, or aborted
-- where that one aborts.
pub final-cl_push_bottom :
    (x : ℕ) (q : Deque) (f : ℕ → ThiefPc)
    → PushEnds (cl_push_bottom x q) (final (push_accesses x) (idle_with q f))
unfolding final step owner_step owner_push cl_push_bottom
final-cl_push_bottom x q f = elim (Bool-cases (leb cl_cap (minus q.bottom q.top))) [
  | inl e ↦ rw e refl
  | inr e ↦ rw e (refl, refl)
]

-- A pop that nobody interrupts ends in its accesses with the deque of `cl_pop_bottom`.
pub final-cl_pop_bottom :
    (q : Deque) (f : ℕ → ThiefPc)
    → ((final pop_accesses (idle_with q f)).owner ≡ owner_idle)
      × ((final pop_accesses (idle_with q f)).deque ≡ (cl_pop_bottom q).1)
unfolding final step owner_step owner_pop cl_pop_bottom
final-cl_pop_bottom q f = elim (Bool-cases (is_negative (minus (minus q.bottom 1) q.top))) [
  | inl e ↦ rw e (refl, refl)
  | inr e ↦ elim (Bool-cases (minus q.bottom 1 == q.top)) [
    | inl last ↦ rw (e, last, ==_self q.top) (refl, refl)
    | inr more ↦ rw (e, more) (refl, refl)
  ]
]
