-- ===== src/Deque/Refine.antt =====
-- The deque of src/scheduler_mn.c under any interleaving of its owner and its thieves: it does what a
-- list does, so that no item is lost and none is taken twice.
use ein8_proj.Base.{
  ℕ, suc, ◌+◌, ◌<◌, ◌≤◌, ◌≡◌, refl, arith, ◌==◌, List, [], ◌∷◌, length, length-append, Bool-cases,
  inl, inr, leb, ==_eq,
}
use ein8_proj.Deque.{Deque, cl_cap, minus, is_negative}
use ein8_proj.Deque.Steps.{
  OwnerPc, owner_idle, push_bottom, push_top, push_item, push_aborted, pop_bottom, pop_stored,
  pop_empty, pop_top, pop_item, pop_raced, ThiefPc, thief_idle, steal_top, steal_bottom, steal_item,
  thief_step, after_owner, after_thief, Event, popped, stolen, owner_step, System, Choice,
  begin_push, begin_pop, go_owner, go_thief, step, events, final, start,
}
use ein8_proj.Deque.Inv.{Spec, quiet, push, overflow, pop, pop_nothing, steal, Inv}
use ein8_proj.Deque.Owner.{
  OwnerRefines, owner_push-Inv, owner_pop-Inv, push_bottom-Refines, push_top-Refines,
  push_item-Refines, pop_bottom-Refines,
}
use ein8_proj.Deque.Pop.{
  pop_stored-Refines, pop_empty-Refines, pop_top-Refines, pop_item-Refines, pop_raced-Refines,
}
use ein8_proj.Deque.Thief.{thief_step-Refines}

owner_step-Refines :
    (o : OwnerPc) (q : Deque) (f : ℕ → ThiefPc) (xs : List ℕ)
    → Inv q o f xs
    → suc (q.top + length xs) < 9223372036854775808
    → OwnerRefines xs f (owner_step q o)
unfolding owner_step
owner_step-Refines owner_idle q f xs inv small = (xs, quiet, inv)
owner_step-Refines push_aborted q f xs inv small = (xs, quiet, inv)
owner_step-Refines (push_bottom x b) q f xs inv small = push_bottom-Refines x b q f xs inv
owner_step-Refines (push_top x b t) q f xs inv small = push_top-Refines x b t q f xs inv
owner_step-Refines (push_item x b t) q f xs inv small = push_item-Refines x b t q f xs inv small
owner_step-Refines (pop_bottom b) q f xs inv small = pop_bottom-Refines b q f xs inv
owner_step-Refines (pop_stored b) q f xs inv small = pop_stored-Refines b q f xs inv
owner_step-Refines (pop_empty t) q f xs inv small = pop_empty-Refines t q f xs inv
owner_step-Refines (pop_top b t) q f xs inv small = pop_top-Refines b t q f xs inv
owner_step-Refines (pop_item b t item) q f xs inv small = pop_item-Refines b t item q f xs inv
owner_step-Refines (pop_raced b) q f xs inv small = pop_raced-Refines b q f xs inv

-- The deque of a system contains `xs`.
abbrev pub Contains : System → List ℕ → Type 0
Contains s xs = Inv s.deque s.owner s.thief xs

abbrev pub StepRefines : List ℕ → Event × System → Type 0
StepRefines xs (e, s) = (ys : List ℕ) × Spec xs e ys × Contains s ys

step-StepRefines :
    (c : Choice) (s : System) (xs : List ℕ)
    → Contains s xs
    → suc (s.deque.top + length xs) < 9223372036854775808
    → StepRefines xs (step c s)
unfolding step
step-StepRefines (begin_push x) s xs inv small =
    (xs, quiet, owner_push-Inv x s.deque s.owner s.thief xs inv)
step-StepRefines begin_pop s xs inv small =
    (xs, quiet, owner_pop-Inv s.deque s.owner s.thief xs inv)
step-StepRefines go_owner s xs inv small = owner_step-Refines s.owner s.deque s.thief xs inv small
step-StepRefines (go_thief i) s xs inv small =
    thief_step-Refines i (s.thief i) s.deque s.owner s.thief xs inv (inv.thieves_ok i)

-- How many items an event takes.
abbrev taken : Event → ℕ
taken (popped x) = 1
taken (stolen x) = 1
taken _ = 0

abbrev TopMoves : (top : ℕ) → Event × System → Type 0
TopMoves top (e, s) = s.deque.top ≤ top + taken e

owner_step-TopMoves :
    (o : OwnerPc) (q : Deque) (f : ℕ → ThiefPc) → TopMoves q.top (after_owner f (owner_step q o))
unfolding owner_step
owner_step-TopMoves owner_idle q f = omega arith
owner_step-TopMoves push_aborted q f = omega arith
owner_step-TopMoves (push_bottom x b) q f = elim (Bool-cases (leb cl_cap (minus b q.top))) [
  | inl e ↦ rw e (omega arith)
  | inr e ↦ rw e (omega arith)
]
owner_step-TopMoves (push_top x b t) q f = omega arith
owner_step-TopMoves (push_item x b t) q f = omega arith
owner_step-TopMoves (pop_bottom b) q f = omega arith
owner_step-TopMoves (pop_stored b) q f = elim (Bool-cases (is_negative (minus b q.top))) [
  | inl e ↦ rw e (omega arith)
  | inr e ↦ rw e (omega arith)
]
owner_step-TopMoves (pop_empty t) q f = omega arith
owner_step-TopMoves (pop_top b t) q f = elim (Bool-cases (b == t)) [
  | inl e ↦ rw e (omega arith)
  | inr e ↦ rw e (omega arith)
]
owner_step-TopMoves (pop_item b t item) q f = elim (Bool-cases (q.top == t)) [
  | inl e ↦ rw e (omega (arith, ==_eq q.top t e))
  | inr e ↦ rw e (omega arith)
]
owner_step-TopMoves (pop_raced b) q f = omega arith

thief_step-TopMoves :
    (i : ℕ) (p : ThiefPc) (q : Deque) (o : OwnerPc) (f : ℕ → ThiefPc)
    → TopMoves q.top (after_thief o f i (thief_step q p))
unfolding thief_step
thief_step-TopMoves i thief_idle q o f = omega arith
thief_step-TopMoves i (steal_top t) q o f = elim (Bool-cases (is_negative (minus q.bottom t))) [
  | inl e ↦ rw e (omega arith)
  | inr e ↦ elim (Bool-cases (minus q.bottom t == 0)) [
    | inl z ↦ rw (e, z) (omega arith)
    | inr z ↦ rw (e, z) (omega arith)
  ]
]
thief_step-TopMoves i (steal_bottom t) q o f = omega arith
thief_step-TopMoves i (steal_item t item) q o f = elim (Bool-cases (q.top == t)) [
  | inl e ↦ rw e (omega (arith, ==_eq q.top t e))
  | inr e ↦ rw e (omega arith)
]

step-TopMoves : (c : Choice) (s : System) → TopMoves s.deque.top (step c s)
unfolding step
step-TopMoves (begin_push x) s = omega arith
step-TopMoves begin_pop s = omega arith
step-TopMoves go_owner s = owner_step-TopMoves s.owner s.deque s.thief
step-TopMoves (go_thief i) s = thief_step-TopMoves i (s.thief i) s.deque s.owner s.thief

length-Spec : {xs ys : List ℕ} {e : Event} → Spec xs e ys → length ys + taken e ≤ suc (length xs)
length-Spec quiet = omega arith
length-Spec (push {xs} {x} low) = omega (arith, length-append xs (x ∷ []))
length-Spec (overflow full) = omega arith
length-Spec (pop {xs} {x}) = omega (arith, length-append xs (x ∷ []))
length-Spec pop_nothing = omega arith
length-Spec steal = omega arith

-- The events lead a list from `xs` to `ys`.
abbrev pub Behaves : List ℕ → List Event → List ℕ → Type 0
Behaves xs [] ys = xs ≡ ys
Behaves xs (e ∷ es) ys = (zs : List ℕ) × Spec xs e zs × Behaves zs es ys

pub events-Behaves :
    (cs : List Choice) (s : System) (xs : List ℕ)
    → Contains s xs
    → s.deque.top + length xs + length cs < 9223372036854775808
    → (ys : List ℕ) × Behaves xs (events cs s) ys × Contains (final cs s) ys
unfolding events final
events-Behaves [] s xs inv small = (xs, refl, inv)
events-Behaves (c ∷ cs) s xs inv small =
    let (zs, here, inv') = step-StepRefines c s xs inv (omega (arith, small)) in
    let (ys, rest, last) =
      events-Behaves cs (step c s).1 zs inv'
        (omega (arith, small, step-TopMoves c s, length-Spec here)) in
    (ys, (zs, here, rest), last)

pub start-Contains : (garbage : ℕ → ℕ) → Contains (start garbage) []
unfolding start
start-Contains garbage = record {
  holds = tt;
  room = omega arith;
  small = omega arith;
  owner_ok = refl;
  thieves_ok = λ i. tt;
}
