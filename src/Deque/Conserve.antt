-- ===== src/Deque/Conserve.antt =====
-- No item of a deque of src/scheduler_mn.c is lost or taken twice, whatever the order of the accesses
-- of its owner and of its thieves.
use ein8_proj.Base.{
  ℕ, suc, ◌+◌, ◌<◌, ◌≤◌, ◌≡◌, refl, subst, ap, arith, ◌==◌, if◌then◌else◌, List, [], ◌∷◌, ◌++◌,
  length,
}
use ein8_proj.Deque.Steps.{
  owner_idle, Event, pushed, popped, stolen, System, Choice, events, final, start,
}
use ein8_proj.Deque.Inv.{Spec, quiet, push, overflow, pop, pop_nothing, steal, OwnerOk}
use ein8_proj.Deque.Refine.{Behaves, Contains, events-Behaves, start-Contains}

-- For every schedule of fewer than 2^63 accesses from the start, the deque does what a list does: a
-- push puts its item at the end, returns at least the number of items and aborts only on 4096 of
-- them, a pop takes the last item and returns NULL only on the empty list, and a steal takes the
-- first item.
pub events-start-Behaves :
    (garbage : ℕ → ℕ) (cs : List Choice)
    → length cs < 9223372036854775808
    → (ys : List ℕ) × Behaves [] (events cs (start garbage)) ys
unfolding start
events-start-Behaves garbage cs small =
    let (ys, does, _) =
      events-Behaves cs (start garbage) [] (start-Contains garbage) (omega (arith, small)) in
    (ys, does)

-- How often `x` is in a list, was pushed, was taken.
abbrev pub occurrences : (x : ℕ) → List ℕ → ℕ
occurrences x [] = 0
occurrences x (y ∷ ys) = (if y == x then 1 else 0) + occurrences x ys

abbrev pub count_pushed : (x : ℕ) → List Event → ℕ
count_pushed x [] = 0
count_pushed x (pushed y size ∷ es) = (if y == x then 1 else 0) + count_pushed x es
count_pushed x (_ ∷ es) = count_pushed x es

abbrev pub count_taken : (x : ℕ) → List Event → ℕ
count_taken x [] = 0
count_taken x (popped y ∷ es) = (if y == x then 1 else 0) + count_taken x es
count_taken x (stolen y ∷ es) = (if y == x then 1 else 0) + count_taken x es
count_taken x (_ ∷ es) = count_taken x es

occurrences-snoc :
    (x y : ℕ) (xs : List ℕ)
    → occurrences x (xs ++ y ∷ []) ≡ occurrences x xs + (if y == x then 1 else 0)
occurrences-snoc x y [] = omega arith
occurrences-snoc x y (z ∷ xs) = omega (arith, occurrences-snoc x y xs)

Spec-count :
    (x : ℕ) {xs ys : List ℕ} {e : Event} (es : List Event)
    → Spec xs e ys
    → count_taken x (e ∷ es) + occurrences x ys + count_pushed x es
      ≡ count_taken x es + count_pushed x (e ∷ es) + occurrences x xs
Spec-count x es quiet = omega arith
Spec-count x es (push {xs} {x = y} low) = omega (arith, occurrences-snoc x y xs)
Spec-count x es (overflow full) = omega arith
Spec-count x es (pop {xs} {x = y}) = omega (arith, occurrences-snoc x y xs)
Spec-count x es pop_nothing = omega arith
Spec-count x es steal = omega arith

count-Behaves :
    (x : ℕ) (es : List Event) (xs ys : List ℕ)
    → Behaves xs es ys
    → count_taken x es + occurrences x ys ≡ count_pushed x es + occurrences x xs
count-Behaves x [] xs ys e = omega (arith, ap (λ zs. occurrences x zs) e)
count-Behaves x (e ∷ es) xs ys (zs, here, rest) =
    omega (arith, Spec-count x es here, count-Behaves x es zs ys rest)

-- For every schedule of fewer than 2^63 accesses from the start, an item is taken at most as often
-- as it was pushed.
pub taken_once :
    (garbage : ℕ → ℕ) (x : ℕ) (cs : List Choice)
    → length cs < 9223372036854775808
    → count_taken x (events cs (start garbage)) ≤ count_pushed x (events cs (start garbage))
taken_once garbage x cs small =
    let (ys, does) = events-start-Behaves garbage cs small in
    omega (arith, count-Behaves x (events cs (start garbage)) [] ys does)

idle-nil :
    (s : System) (ys : List ℕ)
    → Contains s ys
    → s.owner ≡ owner_idle
    → s.deque.top ≡ s.deque.bottom
    → ys ≡ []
idle-nil s [] inv idle empty = refl
idle-nil s (y ∷ ys) inv idle empty =
    let ends : s.deque.bottom ≡ s.deque.top + suc (length ys) =
      subst (λ o. OwnerOk s.deque (s.deque.top + suc (length ys)) o) idle inv.owner_ok in
    absurd (omega (arith, ends, empty))

-- For every schedule of fewer than 2^63 accesses from the start after which the owner is between two
-- operations and the deque is empty, each item was taken exactly as often as it was pushed.
pub none_lost :
    (garbage : ℕ → ℕ) (x : ℕ) (cs : List Choice)
    → length cs < 9223372036854775808
    → (final cs (start garbage)).owner ≡ owner_idle
    → (final cs (start garbage)).deque.top ≡ (final cs (start garbage)).deque.bottom
    → count_taken x (events cs (start garbage)) ≡ count_pushed x (events cs (start garbage))
unfolding start
none_lost garbage x cs small idle empty =
    let (ys, does, last) =
      events-Behaves cs (start garbage) [] (start-Contains garbage) (omega (arith, small)) in
    let nothing = idle-nil (final cs (start garbage)) ys last idle empty in
    let counts = count-Behaves x (events cs (start garbage)) [] ys does in
    omega (arith, rw nothing at counts)
