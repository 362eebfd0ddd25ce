-- ===== src/Base/Lists.antt =====
-- Lists of slots: length, membership as a Boolean test, lists without repetition.
use Prim.Native.Nat.{ℕ, suc, ◌+◌}
use mathlib.Core.Path.{◌≡◌, refl}
use mathlib.Core.Logic.{◌⊎◌, inl, inr}
use mathlib.Core.Bool.{Bool, true, false, ◌||◌, or_assoc}
use mathlib.Core.List.{List, [], ◌∷◌, ◌++◌}
use native.Mathlib.Omega.{arith}
use ein8_proj.Base.Tests.{◌==◌, Bool-cases}

module _ {ℓ} {A : Type ℓ} where
  abbrev pub length : List A → ℕ
  length [] = 0
  length (x ∷ xs) = suc (length xs)

  pub length-append : (xs ys : List A) → length (xs ++ ys) ≡ length xs + length ys
  length-append [] ys = omega arith
  length-append (x ∷ xs) ys = omega (arith, length-append xs ys)

abbrev pub has : ℕ → List ℕ → Bool
has slot [] = false
has slot (first ∷ rest) = (slot == first) || has slot rest

infix 40 ◌∈◌ ◌∉◌
abbrev pub ◌∈◌ : ℕ → List ℕ → Type 0
slot ∈ slots = has slot slots ≡ true

abbrev pub ◌∉◌ : ℕ → List ℕ → Type 0
slot ∉ slots = has slot slots ≡ false

-- No slot stands in the list twice.
abbrev pub IsDistinct : List ℕ → Type 0
IsDistinct [] = Unit
IsDistinct (x ∷ xs) = (x ∉ xs) × IsDistinct xs

pub has-append :
    (slot : ℕ) (front back : List ℕ) → has slot (front ++ back) ≡ (has slot front || has slot back)
has-append slot [] back = refl
has-append slot (first ∷ rest) back = rw (has-append slot rest back, or_assoc)

pub IsDistinct-append_one :
    (xs : List ℕ) (t : ℕ) → IsDistinct xs → t ∉ xs → IsDistinct (xs ++ t ∷ [])
IsDistinct-append_one [] t d out = (refl, tt)
IsDistinct-append_one (x ∷ xs) t d out = (
  rw (has-append x xs (t ∷ [])) (ground (arith, d.0)),
  IsDistinct-append_one xs t d.1 (ground arith),
)

-- A list is empty or has a last element.
pub snoc-cases : (xs : List ℕ) → (xs ≡ []) ⊎ ((ys : List ℕ) × (y : ℕ) × (xs ≡ ys ++ y ∷ []))
snoc-cases [] = inl refl
snoc-cases (x ∷ xs) = elim (snoc-cases xs) [
  | inl e ↦ inr ([], x, rw e)
  | inr (ys, y, e) ↦ inr (x ∷ ys, y, rw e)
]

pub IsDistinct-append :
    (xs ys : List ℕ)
    → IsDistinct (xs ++ ys)
    → IsDistinct xs × IsDistinct ys × ((a : ℕ) → a ∈ xs → a ∉ ys)
IsDistinct-append [] ys d = (tt, d, λ a m. ground arith)
IsDistinct-append (x ∷ xs) ys (out, d) =
    let (dx, dy, apart) = IsDistinct-append xs ys d in
    (
      (ground (arith, has-append x xs ys), dx),
      dy,
      λ a m. ground (arith, apart a, has-append x xs ys, has-append a xs ys),
    )

pub append-IsDistinct :
    (xs ys : List ℕ)
    → IsDistinct xs
    → IsDistinct ys
    → ((a : ℕ) → a ∈ xs → a ∉ ys)
    → IsDistinct (xs ++ ys)
append-IsDistinct [] ys dx dy apart = dy
append-IsDistinct (x ∷ xs) ys (out, dx) dy apart = (
  rw (has-append x xs ys) (ground (arith, apart x)),
  append-IsDistinct xs ys dx dy (λ a m. apart a (ground arith)),
)

pub has-remove : (a b : ℕ) (xs ys : List ℕ) → has a (xs ++ b ∷ ys) ≡ ((a == b) || has a (xs ++ ys))
has-remove a b [] ys = refl
has-remove a b (x ∷ xs) ys = rw (has-remove a b xs ys) (ground arith)

pub IsDistinct-remove :
    (b : ℕ) (xs ys : List ℕ) → IsDistinct (xs ++ b ∷ ys) → IsDistinct (xs ++ ys) × (b ∉ xs ++ ys)
IsDistinct-remove b [] ys (out, d) = (d, out)
IsDistinct-remove b (x ∷ xs) ys (out, d) =
    let (d', out') = IsDistinct-remove b xs ys d in
    ((ground (arith, has-remove x b xs ys), d'), ground (arith, has-remove x b xs ys))

pub length-remove : (b : ℕ) (xs ys : List ℕ) → length (xs ++ b ∷ ys) ≡ suc (length (xs ++ ys))
length-remove b [] ys = refl
length-remove b (x ∷ xs) ys = omega (arith, length-remove b xs ys)

pub apart_sym : (xs ys : List ℕ) → ((a : ℕ) → a ∈ xs → a ∉ ys) → (a : ℕ) → a ∈ ys → a ∉ xs
apart_sym xs ys apart a i = elim (Bool-cases (has a xs)) [
  | inl j ↦ absurd (ground (arith, apart a j))
  | inr o ↦ o
]

pub not-mem_sub : (a : ℕ) (xs ys : List ℕ) → ((b : ℕ) → b ∈ xs → b ∈ ys) → a ∉ ys → a ∉ xs
not-mem_sub a xs ys sub out = elim (Bool-cases (has a xs)) [
  | inl i ↦ absurd (ground (arith, sub a i))
  | inr o ↦ o
]
