-- ===== src/Deque/Thief.antt =====
-- The steps of the thieves do to the list of items what their event says.
use ein8_proj.Base.{
  ℕ, suc, ◌+◌, ◌<◌, ◌≤◌, ◌≡◌, ◌≢◌, refl, subst, ap, arith, ◌==◌, ==_eq, false, Bool-cases, List, [],
  ◌∷◌, length, inl, inr, ◌∙◌, sym,
}
use ein8_proj.Base.Word.{u64}
use ein8_proj.Deque.{Deque, slot_of, minus, is_negative}
use ein8_proj.Deque.Lifo.{Holds}
use ein8_proj.Deque.Steps.{
  OwnerPc, owner_idle, push_bottom, push_top, push_item, push_aborted, pop_bottom, pop_stored,
  pop_empty, pop_top, pop_item, pop_raced, ThiefPc, thief_idle, steal_top, steal_bottom, steal_item,
  Event, stolen, set_thief, thief_step,
}
use ein8_proj.Deque.Inv.{Spec, quiet, steal, reach_of, OwnerOk, ThiefOk, Inv, Refines, ThiefOk-kept}

-- A thief moves, and the deque stays.
set_thief-Inv :
    (i : ℕ) (p : ThiefPc) (q : Deque) (o : OwnerPc) (f : ℕ → ThiefPc) (xs : List ℕ)
    → Inv q o f xs
    → ThiefOk q (reach_of (q.top + length xs) o) p
    → Inv q o (set_thief f i p) xs
set_thief-Inv i p q o f xs inv ok = record {
  holds = inv.holds;
  room = inv.room;
  small = inv.small;
  owner_ok = inv.owner_ok;
  thieves_ok =
      λ j. elim (Bool-cases (j == i)) [ inl e ↦ rw e ok | inr e ↦ rw e (inv.thieves_ok j) ];
}

reach_of-le : (q : Deque) (lb : ℕ) (o : OwnerPc) → OwnerOk q lb o → reach_of lb o ≤ lb
reach_of-le q lb owner_idle ok = omega arith
reach_of-le q lb push_aborted ok = omega arith
reach_of-le q lb (push_bottom _ _) ok = omega arith
reach_of-le q lb (push_top _ _ _) ok = omega arith
reach_of-le q lb (push_item _ _ _) ok = omega arith
reach_of-le q lb (pop_bottom _) ok = omega arith
reach_of-le q lb (pop_stored _) ok = omega arith
reach_of-le q lb (pop_empty _) ok = omega arith
reach_of-le q lb (pop_top b t) (here, _, _, _, _) = ground (arith, here)
reach_of-le q lb (pop_item _ _ _) ok = omega arith
reach_of-le q lb (pop_raced _) ok = omega arith

-- The owner keeps its place when a thief takes an item in reach.
advance-OwnerOk :
    (q : Deque) (top' lb : ℕ) (o : OwnerPc)
    → top' ≡ suc q.top
    → q.top < reach_of lb o
    → OwnerOk q lb o
    → OwnerOk (record q { top = top' }) lb o
advance-OwnerOk q top' lb owner_idle e near ok = ok
advance-OwnerOk q top' lb push_aborted e near ok = ok
advance-OwnerOk q top' lb (push_bottom x b) e near ok = ok
advance-OwnerOk q top' lb (push_top x b t) e near (here, ends, free, low) =
    (here, ends, omega (arith, e, free), omega (arith, e, low))
advance-OwnerOk q top' lb (push_item x b t) e near (here, ends, free, low, there) =
    (here, ends, omega (arith, e, free), omega (arith, e, low), there)
advance-OwnerOk q top' lb (pop_bottom b) e near ok = ok
advance-OwnerOk q top' lb (pop_stored b) e near ok = ok
advance-OwnerOk q top' lb (pop_empty t) e near (here, at_top, ends) =
    absurd (omega (arith, near, at_top))
advance-OwnerOk q top' lb (pop_top b t) e near (here, ends, low, seen, close) =
    (here, ends, low, omega (arith, e, seen), omega (arith, e, near))
advance-OwnerOk q top' lb (pop_item b t item) e near (here, ends, same, seen, there) =
    (here, ends, same, omega (arith, e, seen), there)
advance-OwnerOk q top' lb (pop_raced b) e near (here, ends, at_top) =
    absurd (omega (arith, near, at_top))

-- A thief moves `top` over the oldest item.
steal-Inv :
    (top' x : ℕ) (q : Deque) (o : OwnerPc) (f : ℕ → ThiefPc) (xs : List ℕ)
    → top' ≡ suc q.top
    → q.top < reach_of (q.top + suc (length xs)) o
    → Inv q o f (x ∷ xs)
    → Inv (record q { top = top' }) o f xs
steal-Inv top' x q o f xs e near inv =
    let lb : top' + length xs ≡ q.top + suc (length xs) = omega (arith, e) in
    record {
      holds = subst (λ k. Holds q.items k xs) (sym e) inv.holds.1;
      room = omega (arith, inv.room);
      small = omega (arith, lb, inv.small);
      owner_ok = rw lb (advance-OwnerOk q top' (q.top + suc (length xs)) o e near inv.owner_ok);
      thieves_ok = λ i. rw lb (
          ThiefOk-kept q (record q { top = top' }) (reach_of (q.top + suc (length xs)) o)
            (reach_of (q.top + suc (length xs)) o) (f i) (omega (arith, e)) (λ t low close. close)
            (λ t close same. refl) (inv.thieves_ok i));
    }

-- What an access of thief `i` does.
abbrev pub ThiefRefines :
    List ℕ → OwnerPc → (ℕ → ThiefPc) → (i : ℕ) → Event × Deque × ThiefPc → Type 0
ThiefRefines xs o f i (e, q, p) = Refines xs e q o (set_thief f i p)

steal_top-Refines :
    (i t : ℕ) (q : Deque) (o : OwnerPc) (f : ℕ → ThiefPc) (xs : List ℕ)
    → Inv q o f xs
    → t ≤ q.top
    → (minus q.bottom t ≢ 0
        → is_negative (minus q.bottom t) ≡ false
        → t < reach_of (q.top + length xs) o)
    → ThiefRefines xs o f i (thief_step q (steal_top t))
unfolding thief_step
steal_top-Refines i t q o f xs inv low near = elim (Bool-cases (is_negative (minus q.bottom t))) [
  | inl e ↦ rw e (xs, quiet, set_thief-Inv i thief_idle q o f xs inv tt)
  | inr e ↦ elim (Bool-cases (minus q.bottom t == 0)) [
    | inl z ↦ rw (e, z) (xs, quiet, set_thief-Inv i thief_idle q o f xs inv tt)
    | inr z ↦
        rw (e, z)
          (
            xs,
            quiet,
            set_thief-Inv i (steal_bottom t) q o f xs inv (low, near (ground (arith, z)) e),
          )
  ]
]

-- A thief that sees an item between `top` and `bottom` is in reach of it, wherever the owner stands.
seen-reach :
    (q : Deque) (o : OwnerPc) (lb t : ℕ)
    → OwnerOk q lb o
    → lb < 9223372036854775808
    → q.top ≤ lb
    → t ≤ q.top
    → minus q.bottom t ≢ 0
    → is_negative (minus q.bottom t) ≡ false
    → t < reach_of lb o
seen-reach q owner_idle lb t ends small below low some_left above = ground arith
seen-reach q push_aborted lb t ends small below low some_left above = ground arith
seen-reach q (push_bottom x b) lb t (_, ends) small below low some_left above = ground arith
seen-reach q (push_top x b _) lb t (_, ends, _, _) small below low some_left above = ground arith
seen-reach q (push_item x b _) lb t (_, ends, _, _, _) small below low some_left above =
    ground arith
seen-reach q (pop_bottom b) lb t (_, ends) small below low some_left above = ground arith
seen-reach q (pop_stored b) lb t (here, ends) small below low some_left above = ground arith
seen-reach q (pop_empty _) lb t (_, _, ends) small below low some_left above = ground arith
seen-reach q (pop_top b u) lb t (here, ends, _, _, _) small below low some_left above = ground arith
seen-reach q (pop_item b _ _) lb t (here, ends, _, _, _) small below low some_left above =
    ground arith
seen-reach q (pop_raced b) lb t (here, ends, _) small below low some_left above = ground arith

-- The compare-and-exchange of a thief takes the oldest item, or nothing.
steal_item-Refines :
    (i t item : ℕ) (q : Deque) (o : OwnerPc) (f : ℕ → ThiefPc) (xs : List ℕ)
    → Inv q o f xs
    → t < reach_of (q.top + length xs) o
    → (t ≡ q.top → q.items (slot_of t) ≡ item)
    → ThiefRefines xs o f i (thief_step q (steal_item t item))
unfolding thief_step
steal_item-Refines i t item q o f [] inv near here =
    let below = reach_of-le q (q.top + 0) o inv.owner_ok in
    elim (Bool-cases (q.top == t)) [
      | inl e ↦ absurd (omega (arith, near, below, ==_eq q.top t e))
      | inr e ↦ rw e ([], quiet, set_thief-Inv i thief_idle q o f [] inv tt)
    ]
steal_item-Refines i t item q o f (x ∷ xs) inv near here = elim (Bool-cases (q.top == t)) [
  | inl e ↦
      let at_top : q.top ≡ t = ==_eq q.top t e in
      let same : x ≡ item =
        sym inv.holds.0 ∙ ap (λ v. q.items (slot_of v)) at_top ∙ here (sym at_top) in
      let next : u64 (t + 1) ≡ suc q.top = omega (arith, at_top, inv.small) in
      rw e (
        xs,
        subst (λ v. Spec (x ∷ xs) (stolen v) xs) same steal,
        set_thief-Inv i thief_idle (record q { top = u64 (t + 1) }) o f xs
            (steal-Inv (u64 (t + 1)) x q o f xs next (omega (arith, near, at_top)) inv) tt,
      )
  | inr e ↦ rw e (x ∷ xs, quiet, set_thief-Inv i thief_idle q o f (x ∷ xs) inv tt)
]

pub thief_step-Refines :
    (i : ℕ) (p : ThiefPc) (q : Deque) (o : OwnerPc) (f : ℕ → ThiefPc) (xs : List ℕ)
    → Inv q o f xs
    → ThiefOk q (reach_of (q.top + length xs) o) p
    → ThiefRefines xs o f i (thief_step q p)
unfolding thief_step
thief_step-Refines i thief_idle q o f xs inv ok =
    (xs, quiet, set_thief-Inv i (steal_top q.top) q o f xs inv (omega arith))
thief_step-Refines i (steal_top t) q o f xs inv ok =
    steal_top-Refines i t q o f xs inv ok
      (seen-reach q o (q.top + length xs) t inv.owner_ok inv.small (omega arith) ok)
thief_step-Refines i (steal_bottom t) q o f xs inv (low, near) = (
  xs,
  quiet,
  set_thief-Inv i (steal_item t (q.items (slot_of t))) q o f xs inv (low, near, λ e. refl),
)
thief_step-Refines i (steal_item t item) q o f xs inv (low, near, here) =
    steal_item-Refines i t item q o f xs inv near here
