-- ===== src/Deque/Lifo.antt =====
-- The deque of src/scheduler_mn.c holds a list, oldest first: the owner takes the newest item, a thief
-- the oldest.
use ein8_proj.Base.{
  ℕ, suc, subst, ◌+◌, ◌-◌, ◌≤◌, ◌<◌, ◌≡◌, refl, arith, ◌==◌, ==_self, if◌then◌else◌, not, true,
  false, List, [], ◌∷◌, ◌++◌, length, length-append, none, some, Bool-cases, leb, inl, inr, ◌⊎◌,
}
use ein8_proj.Base.Word.{u64}
use ein8_proj.Deque.{
  Deque, cl_cap, slot_of, write_item, minus, is_negative, cl_push_bottom, cl_pop_bottom, cl_steal,
}

-- From index `k` on the buffer holds `xs`.
abbrev pub Holds : (ℕ → ℕ) → ℕ → List ℕ → Type 0
Holds items k [] = Unit
Holds items k (x ∷ xs) = (items (slot_of k) ≡ x) × Holds items (suc k) xs

pub record IsDeque (q : Deque) (xs : List ℕ) : Type 0 where
  pub holds : Holds q.items q.top xs
  pub ends : q.bottom ≡ q.top + length xs
  pub room : length xs ≤ cl_cap
  pub small : q.bottom < 9223372036854775808

pub Holds-append :
    (f : ℕ → ℕ) (k m : ℕ) (xs ys : List ℕ)
    → m ≡ k + length xs
    → Holds f k xs
    → Holds f m ys
    → Holds f k (xs ++ ys)
Holds-append f k m [] ys e hx hy =
    let here : m ≡ k = omega arith in subst (λ i. Holds f i ys) here hy
Holds-append f k m (x ∷ xs) ys e (h, hx) hy =
    (h, Holds-append f (suc k) m xs ys (omega arith) hx hy)

pub append-Holds :
    (f : ℕ → ℕ) (k m : ℕ) (xs ys : List ℕ)
    → m ≡ k + length xs
    → Holds f k (xs ++ ys)
    → Holds f k xs × Holds f m ys
append-Holds f k m [] ys e h =
    let here : k ≡ m = omega arith in (tt, subst (λ i. Holds f i ys) here h)
append-Holds f k m (x ∷ xs) ys e (h, rest) =
    let (hx, hy) = append-Holds f (suc k) m xs ys (omega arith) rest in ((h, hx), hy)

-- A slot that lies at most one round ahead is none of those in use.
pub Holds-write :
    (f : ℕ → ℕ) (k b t : ℕ) (xs : List ℕ)
    → k + length xs ≤ b
    → b < k + cl_cap
    → Holds f k xs
    → Holds (write_item f (slot_of b) t) k xs
Holds-write f k b t [] low high h = tt
Holds-write f k b t (x ∷ xs) low high (e, h) =
    (ground (arith, e), Holds-write f (suc k) b t xs (omega arith) (omega arith) h)

minus_small : (a b : ℕ) → b ≤ a → a < 9223372036854775808 → minus a b ≡ a - b
minus_small a b h small = omega arith

-- The owner's push puts an item behind the others and returns how many there are, and aborts exactly
-- when 4096 items are there already.
pub cl_push_bottom-IsDeque :
    (t : ℕ) (q : Deque) (xs : List ℕ)
    → IsDeque q xs
    → q.bottom + 1 < 9223372036854775808
    → ((length xs ≡ cl_cap) × (cl_push_bottom t q ≡ none))
      ⊎ ((q' : Deque) × (cl_push_bottom t q ≡ some (suc (length xs), q'))
          × IsDeque q' (xs ++ t ∷ []))
unfolding cl_push_bottom
cl_push_bottom-IsDeque t q xs d small =
    let size : minus q.bottom q.top ≡ length xs = omega (arith, d.ends, d.small) in
    let next : u64 (q.bottom + 1) ≡ q.bottom + 1 = omega arith in
    let size' : minus (q.bottom + 1) q.top ≡ suc (length xs) = omega (arith, d.ends) in
    elim (Bool-cases (leb cl_cap (length xs))) [
      | inl full ↦ inl (ground (arith, d.room, full), rw (size, full) refl)
      | inr free ↦ inr (
        record q { items = write_item q.items (slot_of q.bottom) t; bottom = q.bottom + 1 },
        rw (next, size, free, size') refl,
        record {
          holds =
              Holds-append (write_item q.items (slot_of q.bottom) t) q.top q.bottom xs (t ∷ [])
                d.ends
                (Holds-write q.items q.top q.bottom t xs (omega (arith, d.ends))
                  (ground (arith, d.ends, free)) d.holds)
                (rw (==_self (slot_of q.bottom)) refl, tt);
          ends = omega (arith, d.ends, length-append xs (t ∷ []));
          room = ground (arith, free, length-append xs (t ∷ []));
          small = small;
        },
      )
    ]

-- The pop behind its test: the last item is taken from the top, by moving both ends.
pop_end :
    (x : ℕ) (q : Deque) (xs : List ℕ)
    → q.items (slot_of (q.top + length xs)) ≡ x
    → Holds q.items q.top xs
    → length xs ≤ cl_cap
    → q.top + length xs + 1 < 9223372036854775808
    → let r : ℕ × Deque =
        if not (q.top + length xs == q.top)
        then (q.items (slot_of (q.top + length xs)), record q { bottom = q.top + length xs })
        else (
          q.items (slot_of (q.top + length xs)),
          record q { top = u64 (q.top + 1); bottom = u64 (q.top + length xs + 1) },
        ) in
      (r.0 ≡ x) × IsDeque r.1 xs
pop_end x q [] e h room small =
    let one : (q.top + 0 == q.top) ≡ true = ground arith in
    rw one (
      e,
      record { holds = tt; ends = omega arith; room = omega arith; small = omega (arith, small) },
    )
pop_end x q (y ∷ xs) e h room small =
    let more : (q.top + suc (length xs) == q.top) ≡ false = ground arith in
    rw more (e, record { holds = h; ends = refl; room = room; small = omega (arith, small) })

-- The owner's pop takes the newest item and leaves the others.
pub cl_pop_bottom-snoc :
    (x : ℕ) (q : Deque) (xs : List ℕ)
    → IsDeque q (xs ++ x ∷ [])
    → ((cl_pop_bottom q).0 ≡ x) × IsDeque (cl_pop_bottom q).1 xs
unfolding cl_pop_bottom
cl_pop_bottom-snoc x q xs d =
    let len = length-append xs (x ∷ []) in
    let b : minus q.bottom 1 ≡ q.top + length xs = omega (arith, d.ends, d.small, len) in
    let left : minus (q.top + length xs) q.top ≡ length xs = omega (arith, d.ends, d.small, len) in
    let some_left : is_negative (length xs) ≡ false = ground (arith, d.room, len) in
    let (hx, hy) = append-Holds q.items q.top (q.top + length xs) xs (x ∷ []) refl d.holds in
    rw (b, left, some_left)
      (pop_end x q xs hy.0 hx (omega (arith, d.room, len)) (omega (arith, d.ends, d.small, len)))

-- On an empty deque the owner's pop returns NULL and the deque stays empty, although its bottom goes
-- below its top in between.
pub cl_pop_bottom-nil :
    (q : Deque) → IsDeque q [] → ((cl_pop_bottom q).0 ≡ 0) × IsDeque (cl_pop_bottom q).1 []
unfolding cl_pop_bottom
cl_pop_bottom-nil q d =
    let b : minus (minus q.bottom 1) q.top ≡ 18446744073709551615 =
      omega (arith, d.ends, d.small) in
    rw b (
      refl,
      record {
        holds = tt;
        ends = omega arith;
        room = omega arith;
        small = omega (arith, d.ends, d.small);
      },
    )

-- A steal takes the oldest item and leaves the others.
pub cl_steal-cons :
    (x : ℕ) (q : Deque) (xs : List ℕ)
    → IsDeque q (x ∷ xs)
    → ((cl_steal q).0 ≡ x) × IsDeque (cl_steal q).1 xs
unfolding cl_steal
cl_steal-cons x q xs d =
    let size : minus q.bottom q.top ≡ suc (length xs) = omega (arith, d.ends, d.small) in
    let some_left : is_negative (suc (length xs)) ≡ false = ground (arith, d.room) in
    let busy : (suc (length xs) == 0) ≡ false = ground arith in
    let next : u64 (q.top + 1) ≡ suc q.top = omega (arith, d.ends, d.small) in
    rw (size, some_left, busy, next)
      (
        d.holds.0,
        record {
          holds = d.holds.1;
          ends = omega (arith, d.ends);
          room = omega (arith, d.room);
          small = d.small;
        },
      )

-- A steal from an empty deque returns NULL and changes nothing.
pub cl_steal-nil : (q : Deque) → IsDeque q [] → cl_steal q ≡ (0, q)
unfolding cl_steal
cl_steal-nil q d =
    let size : minus q.bottom q.top ≡ 0 = omega (arith, d.ends, d.small) in rw size refl
