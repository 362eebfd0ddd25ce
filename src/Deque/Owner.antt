-- ===== src/Deque/Owner.antt =====
-- The steps of the owner of the deque keep its invariant.
use ein8_proj.Base.{
  ℕ, suc, ◌+◌, ◌<◌, ◌≤◌, ◌≡◌, refl, ap, arith, ◌==◌, ==_self, leb, false, Bool-cases, List, [], ◌∷◌,
  ◌++◌, length, length-append, inl, inr,
}
use ein8_proj.Base.Word.{u64}
use ein8_proj.Deque.{Deque, cl_cap, slot_of, write_item, minus}
use ein8_proj.Deque.Lifo.{Holds-append, Holds-write}
use ein8_proj.Deque.Steps.{
  OwnerPc, owner_idle, push_bottom, push_top, push_item, push_aborted, pop_bottom, pop_stored,
  pop_empty, pop_top, pop_item, pop_raced, ThiefPc, Event, owner_step, owner_push, owner_pop,
}
use ein8_proj.Deque.Inv.{quiet, push, overflow, reach_of, OwnerOk, Inv, Refines, ThiefOk-kept}

-- The owner moves `bottom` at most, and its thieves keep their reach.
pub rebottom :
    (q : Deque) (o o' : OwnerPc) (f : ℕ → ThiefPc) (xs : List ℕ) (b : ℕ)
    → Inv q o f xs
    → ((t : ℕ)
        → t ≤ q.top
        → t < reach_of (q.top + length xs) o
        → t < reach_of (q.top + length xs) o')
    → OwnerOk (record q { bottom = b }) (q.top + length xs) o'
    → Inv (record q { bottom = b }) o' f xs
rebottom q o o' f xs b inv nearer ok = record {
  holds = inv.holds;
  room = inv.room;
  small = inv.small;
  owner_ok = ok;
  thieves_ok = λ i.
      ThiefOk-kept q (record q { bottom = b }) (reach_of (q.top + length xs) o)
        (reach_of (q.top + length xs) o') (f i) (omega arith) nearer (λ t near e. refl)
        (inv.thieves_ok i);
}

pub stay :
    (q : Deque) (o o' : OwnerPc) (f : ℕ → ThiefPc) (xs : List ℕ)
    → Inv q o f xs
    → ((t : ℕ)
        → t ≤ q.top
        → t < reach_of (q.top + length xs) o
        → t < reach_of (q.top + length xs) o')
    → OwnerOk q (q.top + length xs) o'
    → Inv q o' f xs
stay q o o' f xs inv nearer ok = rebottom q o o' f xs q.bottom inv nearer ok

pub owner_push-Inv :
    (x : ℕ) (q : Deque) (o : OwnerPc) (f : ℕ → ThiefPc) (xs : List ℕ)
    → Inv q o f xs
    → Inv q (owner_push x q o) f xs
unfolding owner_push
owner_push-Inv x q owner_idle f xs inv =
    stay q owner_idle (push_bottom x q.bottom) f xs inv (λ t low near. near)
      (inv.owner_ok, inv.owner_ok)
owner_push-Inv x q (push_bottom _ _) f xs inv = inv
owner_push-Inv x q (push_top _ _ _) f xs inv = inv
owner_push-Inv x q (push_item _ _ _) f xs inv = inv
owner_push-Inv x q push_aborted f xs inv = inv
owner_push-Inv x q (pop_bottom _) f xs inv = inv
owner_push-Inv x q (pop_stored _) f xs inv = inv
owner_push-Inv x q (pop_empty _) f xs inv = inv
owner_push-Inv x q (pop_top _ _) f xs inv = inv
owner_push-Inv x q (pop_item _ _ _) f xs inv = inv
owner_push-Inv x q (pop_raced _) f xs inv = inv

pub owner_pop-Inv :
    (q : Deque) (o : OwnerPc) (f : ℕ → ThiefPc) (xs : List ℕ)
    → Inv q o f xs
    → Inv q (owner_pop q o) f xs
unfolding owner_pop
owner_pop-Inv q owner_idle f xs inv =
    stay q owner_idle (pop_bottom (minus q.bottom 1)) f xs inv (λ t low near. near)
      (ap (λ b. minus b 1) inv.owner_ok, inv.owner_ok)
owner_pop-Inv q (push_bottom _ _) f xs inv = inv
owner_pop-Inv q (push_top _ _ _) f xs inv = inv
owner_pop-Inv q (push_item _ _ _) f xs inv = inv
owner_pop-Inv q push_aborted f xs inv = inv
owner_pop-Inv q (pop_bottom _) f xs inv = inv
owner_pop-Inv q (pop_stored _) f xs inv = inv
owner_pop-Inv q (pop_empty _) f xs inv = inv
owner_pop-Inv q (pop_top _ _) f xs inv = inv
owner_pop-Inv q (pop_item _ _ _) f xs inv = inv
owner_pop-Inv q (pop_raced _) f xs inv = inv

-- What an access of the owner does.
abbrev pub OwnerRefines : List ℕ → (ℕ → ThiefPc) → Event × Deque × OwnerPc → Type 0
OwnerRefines xs f (e, q, o) = Refines xs e q o f

pub push_bottom-Refines :
    (x b : ℕ) (q : Deque) (f : ℕ → ThiefPc) (xs : List ℕ)
    → Inv q (push_bottom x b) f xs
    → OwnerRefines xs f (owner_step q (push_bottom x b))
unfolding owner_step
push_bottom-Refines x b q f xs inv =
    let (here, ends) = inv.owner_ok in
    let size : minus b q.top ≡ length xs = omega (arith, here, inv.small) in
    elim (Bool-cases (leb cl_cap (length xs))) [
      | inl full ↦
          rw (size, full)
            (
              xs,
              overflow (ground (arith, full, inv.room)),
              stay q (push_bottom x b) push_aborted f xs inv (λ t low near. near) ends,
            )
      | inr free ↦
          rw (size, free)
            (
              xs,
              quiet,
              stay q (push_bottom x b) (push_top x b q.top) f xs inv (λ t low near. near)
                  (here, ends, ground (arith, free), omega arith),
            )
    ]

pub push_top-Refines :
    (x b t : ℕ) (q : Deque) (f : ℕ → ThiefPc) (xs : List ℕ)
    → Inv q (push_top x b t) f xs
    → OwnerRefines xs f (owner_step q (push_top x b t))
unfolding owner_step
push_top-Refines x b t q f xs inv =
    let (here, ends, free, low) = inv.owner_ok in
    (
      xs,
      quiet,
      record {
        holds =
            Holds-write q.items q.top b x xs (omega (arith, here)) (omega (arith, here, free))
              inv.holds;
        room = inv.room;
        small = inv.small;
        owner_ok = (here, ends, free, low, rw (==_self (slot_of b)) refl);
        thieves_ok = λ i.
            ThiefOk-kept q (record q { items = write_item q.items (slot_of b) x })
              (q.top + length xs) (q.top + length xs) (f i) (omega arith) (λ u lower near. near)
              (λ u near e.
                let apart : (slot_of u == slot_of b) ≡ false =
                  ground (arith, here, free, near, e) in
                rw apart refl)
              (inv.thieves_ok i);
      },
    )

pub push_item-Refines :
    (x b t : ℕ) (q : Deque) (f : ℕ → ThiefPc) (xs : List ℕ)
    → Inv q (push_item x b t) f xs
    → suc (q.top + length xs) < 9223372036854775808
    → OwnerRefines xs f (owner_step q (push_item x b t))
unfolding owner_step
push_item-Refines x b t q f xs inv small =
    let (here, ends, free, low, there) = inv.owner_ok in
    let len = length-append xs (x ∷ []) in
    (
      xs ++ x ∷ [],
      push (omega (arith, here, low, small)),
      record {
        holds = Holds-append q.items q.top b xs (x ∷ []) here inv.holds (there, tt);
        room = omega (arith, len, free);
        small = omega (arith, len, small);
        owner_ok = omega (arith, len, here, small);
        thieves_ok = λ i.
            ThiefOk-kept q (record q { bottom = u64 (b + 1) }) (q.top + length xs)
              (q.top + length (xs ++ x ∷ [])) (f i) (omega arith)
              (λ u lower near. omega (arith, len, near)) (λ u near e. refl) (inv.thieves_ok i);
      },
    )

pub pop_bottom-Refines :
    (b : ℕ) (q : Deque) (f : ℕ → ThiefPc) (xs : List ℕ)
    → Inv q (pop_bottom b) f xs
    → OwnerRefines xs f (owner_step q (pop_bottom b))
unfolding owner_step
pop_bottom-Refines b q f xs inv =
    let (here, ends) = inv.owner_ok in
    (
      xs,
      quiet,
      rebottom q (pop_bottom b) (pop_stored b) f xs b inv (λ t low near. near) (here, refl),
    )
