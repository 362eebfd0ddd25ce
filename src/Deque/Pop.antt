-- ===== src/Deque/Pop.antt =====
-- The steps of `cl_pop_bottom` do to the list of items what their event says.
use ein8_proj.Base.{
  ℕ, suc, ◌+◌, ◌<◌, ◌≤◌, ◌≡◌, refl, subst, ap, arith, ◌==◌, true, false, Bool-cases, List, [], ◌∷◌,
  ◌++◌, length, inl, inr, ◌∙◌, sym,
}
use ein8_proj.Base.Word.{u64}
use ein8_proj.Deque.{Deque, slot_of, minus, is_negative}
use ein8_proj.Deque.Lifo.{Holds}
use ein8_proj.Deque.Steps.{
  owner_idle, pop_stored, pop_empty, pop_top, pop_item, pop_raced, ThiefPc, popped, owner_step,
}
use ein8_proj.Deque.Inv.{Spec, quiet, pop, pop_nothing, reach_of, Inv, ThiefOk-kept}
use ein8_proj.Deque.Owner.{OwnerRefines, rebottom, stay}

-- The last item of the buffer.
last_item :
    (f : ℕ → ℕ) (k b : ℕ) (xs : List ℕ)
    → Holds f k xs
    → suc b ≡ k + length xs
    → k ≤ b
    → (ys : List ℕ) × (xs ≡ ys ++ f (slot_of b) ∷ []) × Holds f k ys × (b ≡ k + length ys)
last_item f k b [] h e low = absurd (omega (arith, e, low))
last_item f k b (x ∷ []) (h, _) e low =
    let here : b ≡ k = omega (arith, e) in
    (
      [],
      ap (λ (v : ℕ). v ∷ []) (sym h ∙ ap (λ v. f (slot_of v)) (sym here)),
      tt,
      omega (arith, here),
    )
last_item f k b (x ∷ y ∷ zs) (h, rest) e low =
    let (ys, split, kept, at_end) =
      last_item f (suc k) b (y ∷ zs) rest (omega (arith, e)) (omega (arith, e)) in
    (x ∷ ys, ap (λ vs. x ∷ vs) split, (h, kept), omega (arith, at_end))

pub pop_stored-Refines :
    (b : ℕ) (q : Deque) (f : ℕ → ThiefPc) (xs : List ℕ)
    → Inv q (pop_stored b) f xs
    → OwnerRefines xs f (owner_step q (pop_stored b))
unfolding owner_step
pop_stored-Refines b q f [] inv =
    let (here, ends) = inv.owner_ok in
    let below : minus b q.top ≡ 18446744073709551615 = omega (arith, here, inv.small) in
    rw below (
      [],
      quiet,
      stay q (pop_stored b) (pop_empty q.top) f [] inv (λ t low near. near)
          (omega arith, omega arith, ends ∙ here),
    )
pop_stored-Refines b q f (x ∷ xs) inv =
    let (here, ends) = inv.owner_ok in
    let len : minus b q.top ≡ length xs = omega (arith, here, inv.small) in
    let above : is_negative (length xs) ≡ false = ground (arith, inv.room) in
    let last : b ≡ q.top + length xs = omega (arith, here, inv.small) in
    rw (len, above)
      (
        x ∷ xs,
        quiet,
        stay q (pop_stored b) (pop_top b q.top) f (x ∷ xs) inv
            (λ t low near. ground (arith, last, low, near))
            (omega (arith, last), ends, omega (arith, last), omega arith, ground (arith, last)),
      )

pub pop_empty-Refines :
    (t : ℕ) (q : Deque) (f : ℕ → ThiefPc) (xs : List ℕ)
    → Inv q (pop_empty t) f xs
    → OwnerRefines xs f (owner_step q (pop_empty t))
unfolding owner_step
pop_empty-Refines t q f [] inv = (
  [],
  pop_nothing,
  rebottom q (pop_empty t) owner_idle f [] t inv (λ u low near. near) inv.owner_ok.0,
)
pop_empty-Refines t q f (x ∷ xs) inv =
    let (_, at_top, _) = inv.owner_ok in absurd (omega (arith, at_top))

pub pop_top-Refines :
    (b t : ℕ) (q : Deque) (f : ℕ → ThiefPc) (xs : List ℕ)
    → Inv q (pop_top b t) f xs
    → OwnerRefines xs f (owner_step q (pop_top b t))
unfolding owner_step
pop_top-Refines b t q f xs inv =
    let (here, ends, low, seen, near) = inv.owner_ok in
    elim (Bool-cases (b == t)) [
      | inl e ↦ rw e (
        xs,
        quiet,
        stay q (pop_top b t) (pop_item b t (q.items (slot_of b))) f xs inv
            (λ u lower close. rw e at close) (here, ends, ground (arith, e), seen, refl),
      )
      | inr e ↦
          let below : q.top ≤ b = rw e at near in
          let (ys, split, kept, at_end) = last_item q.items q.top b xs inv.holds here below in
          rw e (
            ys,
            subst (λ vs. Spec vs (popped (q.items (slot_of b))) ys) (sym split) pop,
            record {
              holds = kept;
              room = omega (arith, at_end, here, inv.room);
              small = omega (arith, at_end, here, inv.small);
              owner_ok = ends ∙ at_end;
              thieves_ok = λ i.
                  ThiefOk-kept q q (reach_of (q.top + length xs) (pop_top b t)) (q.top + length ys)
                    (f i) (omega arith)
                    (λ u lower close.
                      let close' : u < b = rw e at close in omega (arith, close', at_end))
                    (λ u close same. refl) (inv.thieves_ok i);
            },
          )
    ]

-- No item is left, so that `top` has passed the last one.
won-Inv :
    (b t item : ℕ) (q : Deque) (f : ℕ → ThiefPc) (x : ℕ)
    → Inv q (pop_item b t item) f (x ∷ [])
    → q.top ≡ t
    → Inv (record q { top = u64 (t + 1) }) (pop_raced b) f []
won-Inv b t item q f x inv e =
    let (here, ends, _, _, _) = inv.owner_ok in
    let next : u64 (t + 1) ≡ q.top + 1 = omega (arith, e, inv.small) in
    record {
      holds = tt;
      room = omega arith;
      small = omega (arith, next, inv.small);
      owner_ok = (omega (arith, here, next), ends, omega arith);
      thieves_ok = λ i.
          ThiefOk-kept q (record q { top = u64 (t + 1) }) (q.top + 1) (u64 (t + 1) + 0) (f i)
            (omega (arith, next)) (λ u low near. omega (arith, next, near))
            (λ u near same. absurd (omega (arith, next, near, same))) (inv.thieves_ok i);
    }

pub pop_item-Refines :
    (b t item : ℕ) (q : Deque) (f : ℕ → ThiefPc) (xs : List ℕ)
    → Inv q (pop_item b t item) f xs
    → OwnerRefines xs f (owner_step q (pop_item b t item))
unfolding owner_step
pop_item-Refines b t item q f [] inv =
    let (here, ends, same, seen, there) = inv.owner_ok in
    let lost : (q.top == t) ≡ false = ground (arith, here, same) in
    rw lost (
      [],
      pop_nothing,
      stay q (pop_item b t item) (pop_raced b) f [] inv (λ u low near. near)
          (here, ends, omega arith),
    )
pop_item-Refines b t item q f (x ∷ []) inv =
    let (here, ends, same, seen, there) = inv.owner_ok in
    let at_top : q.top ≡ t = omega (arith, here, same) in
    let won : (q.top == t) ≡ true = ground (arith, at_top) in
    let slot : b ≡ q.top = omega (arith, at_top, same) in
    let e : x ≡ item = sym inv.holds.0 ∙ ap (λ v. q.items (slot_of v)) (sym slot) ∙ there in
    rw won ([], subst (λ v. Spec (x ∷ []) (popped v) []) e pop, won-Inv b t item q f x inv at_top)
pop_item-Refines b t item q f (x ∷ y ∷ xs) inv =
    let (here, ends, same, seen, there) = inv.owner_ok in absurd (omega (arith, here, same, seen))

pub pop_raced-Refines :
    (b : ℕ) (q : Deque) (f : ℕ → ThiefPc) (xs : List ℕ)
    → Inv q (pop_raced b) f xs
    → OwnerRefines xs f (owner_step q (pop_raced b))
unfolding owner_step
pop_raced-Refines b q f xs inv =
    let (here, ends, _) = inv.owner_ok in
    (
      xs,
      quiet,
      rebottom q (pop_raced b) owner_idle f xs (u64 (b + 1)) inv (λ t low near. near)
          (omega (arith, here, inv.small)),
    )
