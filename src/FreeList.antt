-- ===== src/FreeList.antt =====
-- Chains through a link that each entry stores: the free lists of stacks and of descriptors, and the
-- wait queues.
use ein8_proj.Base.{ℕ, ◌≡◌, ◌≢◌, refl, List, [], ◌∷◌, ◌∈◌, ◌∉◌, arith}

-- From `head` the links lead through `xs` to NULL.
abbrev pub Linked : (ℕ → ℕ) → ℕ → List ℕ → Type 0
Linked link head [] = head ≡ 0
Linked link head (x ∷ xs) = (head ≡ x) × (x ≢ 0) × Linked link (link x) xs

-- Only the links of the entries matter.
pub Linked-frame :
    (f g : ℕ → ℕ) (head : ℕ) (xs : List ℕ)
    → Linked f head xs
    → ((a : ℕ) → a ∈ xs → g a ≡ f a)
    → Linked g head xs
Linked-frame f g head [] l same = l
Linked-frame f g head (x ∷ xs) (e, ne, l) same =
    (e, ne, rw (same x (ground arith)) (Linked-frame f g (f x) xs l (λ a m. same a (ground arith))))

pub Linked-nonnull : (f : ℕ → ℕ) (head : ℕ) (xs : List ℕ) → Linked f head xs → 0 ∉ xs
Linked-nonnull f head [] l = refl
Linked-nonnull f head (x ∷ xs) (e, ne, l) = ground (arith, Linked-nonnull f (f x) xs l)
