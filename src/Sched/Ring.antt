-- ===== src/Sched/Ring.antt =====
-- What the links of src/scheduler.h stand for: from `p` the threads `xs` in order, then `q`, each
-- link stored at both of its ends.
use ein8_proj.Base.{
  ℕ, ◌≡◌, List, [], ◌∷◌, ◌++◌, arith, has-append, ◌∈◌, ◌∉◌, IsDistinct, IsDistinct-append,
  append-IsDistinct,
}
use ein8_proj.Sched.{Slab, set_rsp}

abbrev pub Chain : Slab → ℕ → List ℕ → ℕ → Type 0
Chain h p [] q = ((h p).sched_next ≡ q) × ((h q).sched_prev ≡ p)
Chain h p (x ∷ xs) q = ((h p).sched_next ≡ x) × ((h x).sched_prev ≡ p) × Chain h x xs q

-- `c` and then `xs` are the threads of the circular list, each once and none of them NULL.
pub record Ring (h : Slab) (c : ℕ) (xs : List ℕ) : Type 0 where
  pub links : Chain h c xs c
  pub distinct : IsDistinct (c ∷ xs)
  pub nonnull : 0 ∉ c ∷ xs

pub Chain-append :
    (h : Slab) (p : ℕ) (xs : List ℕ) (m : ℕ) (ys : List ℕ) (q : ℕ)
    → Chain h p (xs ++ m ∷ ys) q
    → Chain h p xs m × Chain h m ys q
Chain-append h p [] m ys q (n, b, rest) = ((n, b), rest)
Chain-append h p (x ∷ xs) m ys q (n, b, rest) =
    let (front, back) = Chain-append h x xs m ys q rest in ((n, b, front), back)

pub append-Chain :
    (h : Slab) (p : ℕ) (xs : List ℕ) (m : ℕ) (ys : List ℕ) (q : ℕ)
    → Chain h p xs m
    → Chain h m ys q
    → Chain h p (xs ++ m ∷ ys) q
append-Chain h p [] m ys q (n, b) back = (n, b, back)
append-Chain h p (x ∷ xs) m ys q (n, b, front) back = (n, b, append-Chain h x xs m ys q front back)

-- A chain reads `sched_next` at its start and inside, `sched_prev` inside and at its end.
pub Chain-frame :
    (h g : Slab) (p : ℕ) (xs : List ℕ) (q : ℕ)
    → Chain h p xs q
    → ((a : ℕ) → a ∈ p ∷ xs → (g a).sched_next ≡ (h a).sched_next)
    → ((a : ℕ) → a ∈ q ∷ xs → (g a).sched_prev ≡ (h a).sched_prev)
    → Chain g p xs q
Chain-frame h g p [] q (n, b) next prev = (ground (arith, next p), ground (arith, prev q))
Chain-frame h g p (x ∷ xs) q (n, b, rest) next prev = (
  ground (arith, next p),
  ground (arith, prev x),
  Chain-frame h g x xs q rest (λ a m. next a (ground arith)) (λ a m. prev a (ground arith)),
)

-- The list may be read from any of its threads.
pub Ring-rotate :
    (h : Slab) (c : ℕ) (xs : List ℕ) (t : ℕ) (ys : List ℕ)
    → Ring h c (xs ++ t ∷ ys)
    → Ring h t (ys ++ c ∷ xs)
Ring-rotate h c xs t ys r = record {
  links = append-Chain h t ys c xs t parts.1 parts.0;
  distinct = (
    rw (has-append t ys (c ∷ xs)) (ground (arith, lists.1.0, has-append c xs (t ∷ ys), lists.2 t)),
    append-IsDistinct ys (c ∷ xs) lists.1.1 (ground (arith, has-append c xs (t ∷ ys)), lists.0)
        (λ a m. ground (arith, lists.2 a, has-append c xs (t ∷ ys))),
  );
  nonnull = rw (has-append 0 ys (c ∷ xs)) (ground (arith, r.nonnull, has-append 0 xs (t ∷ ys)));
}
  where
    parts : Chain h c xs t × Chain h t ys c
    parts = Chain-append h c xs t ys c r.links

    lists : IsDistinct xs × IsDistinct (t ∷ ys) × ((a : ℕ) → a ∈ xs → a ∉ t ∷ ys)
    lists = IsDistinct-append xs (t ∷ ys) r.distinct.1

-- The list depends on the descriptors of its own threads alone.
pub Ring-frame :
    (h g : Slab) (c : ℕ) (xs : List ℕ)
    → Ring h c xs
    → ((a : ℕ) → a ∈ c ∷ xs → g a ≡ h a)
    → Ring g c xs
Ring-frame h g c xs r same = record {
  links =
      Chain-frame h g c xs c r.links (λ a m. ground (arith, same a))
        (λ a m. ground (arith, same a));
  distinct = r.distinct;
  nonnull = r.nonnull;
}

-- The links alone matter.
pub Ring-relink :
    (h g : Slab) (c : ℕ) (xs : List ℕ)
    → Ring h c xs
    → ((a : ℕ) → ((g a).sched_next ≡ (h a).sched_next) × ((g a).sched_prev ≡ (h a).sched_prev))
    → Ring g c xs
Ring-relink h g c xs r same = record {
  links = Chain-frame h g c xs c r.links (λ a m. (same a).0) (λ a m. (same a).1);
  distinct = r.distinct;
  nonnull = r.nonnull;
}

-- Saving a stack pointer leaves the list alone.
pub Ring-set_rsp :
    (h : Slab) (c : ℕ) (xs : List ℕ) (p v : ℕ) → Ring h c xs → Ring (set_rsp p v h) c xs
Ring-set_rsp h c xs p v r = record {
  links = Chain-frame h (set_rsp p v h) c xs c r.links (λ a m. ground arith) (λ a m. ground arith);
  distinct = r.distinct;
  nonnull = r.nonnull;
}
