-- ===== src/Dedup/Mask.antt =====
-- The search through a mask of src/dedup.h, as a search through the indices of its test.

use ein8_proj.Base.{
  ℕ, zero, suc, ◌+◌, ◌<◌, ◌≤◌, ◌≡◌, ◌≢◌, refl, sym, ◌∙◌, ap, arith, if◌then◌else◌, ◌&&◌, Bool, true,
  false, Bool-cases, ℕ_discrete, Option, none, some, List, [], ◌∷◌, length, inl, inr, ◌⊎◌, subst,
}
use ein8_proj.Base.Bits.{ctz}
use ein8_proj.Dedup.{mask_from, scan}
use ein8_proj.Dedup.Digits.{
  value, tests, mask_from-value, first, count, ctz-value, find_digit, zero_add, scan-value,
}

-- The search through the indices `i`, ..., `i + n - 1`.
abbrev pub search : (ℕ → Bool) → (i n : ℕ) → Option ℕ
search p i zero = none
search p i (suc n) = if p i then some i else search p (suc i) n

find_digit-tests :
    (t f : ℕ → Bool) (i n : ℕ) → find_digit f i (tests t i n) ≡ search (λ j. t j && f j) i n
find_digit-tests t f i zero = refl
find_digit-tests t f i (suc n) = rw (find_digit-tests t f (suc i) n) refl

length-tests : (t : ℕ → Bool) (i n : ℕ) → length (tests t i n) ≡ n
length-tests t i zero = refl
length-tests t i (suc n) = ap suc (length-tests t (suc i) n)

count-le : (bs : List Bool) → count bs ≤ length bs
count-le [] = omega arith
count-le (true ∷ bs) = omega (arith, count-le bs)
count-le (false ∷ bs) = omega (arith, count-le bs)

-- The `while (match)` over the mask of a test finds the first index that passes both tests.
pub scan-mask_from :
    (t f : ℕ → Bool) → scan 16 f (mask_from t 16 0 0) ≡ search (λ j. t j && f j) 0 16
scan-mask_from t f = rw (mask_from-value t 16 0 [] refl (omega arith)) (
    scan-value 16 f (tests t 0 16) (omega (arith, count-le (tests t 0 16), length-tests t 0 16))
      (omega (arith, length-tests t 0 16))
    ∙ find_digit-tests t f 0 16)

value-search :
    (t : ℕ → Bool) (i n : ℕ)
    → ((value (tests t i n) ≡ 0) × (search t i n ≡ none))
      ⊎ ((value (tests t i n) ≢ 0) × (search t i n ≡ some (i + first (tests t i n))))
value-search t i zero = inl (refl, refl)
value-search t i (suc n) = elim (Bool-cases (t i)) [
  | inl hit ↦ rw hit (inr (omega arith, ap (λ (k : ℕ). some k) (omega arith)))
  | inr miss ↦ rw miss (elim (value-search t (suc i) n) [
    | inl (e, s) ↦ inl (omega (arith, e), s)
    | inr (ne, s) ↦ inr (omega (arith, ne), s ∙ ap (λ (k : ℕ). some k) (omega arith))
  ])
]

mask_from-search :
    (t : ℕ → Bool)
    → ((mask_from t 16 0 0 ≡ 0) × (search t 0 16 ≡ none))
      ⊎ ((mask_from t 16 0 0 ≢ 0) × (search t 0 16 ≡ some (ctz 32 (mask_from t 16 0 0))))
mask_from-search t = rw (mask_from-value t 16 0 [] refl (omega arith)) (elim (value-search t 0 16) [
  | inl none_there ↦ inl none_there
  | inr (ne, s) ↦ inr (
    ne,
    s
        ∙ ap (λ (k : ℕ). some k)
            (sym (zero_add (first (tests t 0 16)))
              ∙ sym (ctz-value 32 (tests t 0 16) ne (omega (arith, length-tests t 0 16)))),
  )
])

pub search_cases :
    (p : ℕ → Bool) (i n : ℕ)
    → ((search p i n ≡ none) × ((j : ℕ) → i ≤ j → j < i + n → p j ≡ false))
      ⊎ ((k : ℕ) × (search p i n ≡ some k)
          × (i ≤ k)
          × (k < i + n)
          × (p k ≡ true)
          × ((j : ℕ) → i ≤ j → j < k → p j ≡ false))
search_cases p i zero = inl (refl, λ j low high. absurd (omega arith))
search_cases p i (suc n) = elim (Bool-cases (p i)) [
  | inl hit ↦
      rw hit (inr (i, refl, omega arith, omega arith, hit, λ j low high. absurd (omega arith)))
  | inr miss ↦ rw miss (elim (search_cases p (suc i) n) [
    | inl (e, no_hit) ↦ inl (
      e,
      λ j low high. elim (ℕ_discrete j i) [
        | yes here ↦ rw here miss
        | no away ↦ no_hit j (omega arith) (omega arith)
      ],
    )
    | inr (k, e, low, high, hit, before) ↦ inr (
      k,
      e,
      omega arith,
      omega arith,
      hit,
      λ j l h. elim (ℕ_discrete j i) [
        | yes here ↦ rw here miss
        | no away ↦ before j (omega arith) h
      ],
    )
  ])
]

-- A single index passes: the search finds it.
pub search_only :
    (p : ℕ → Bool) (i n k : ℕ)
    → i ≤ k
    → k < i + n
    → p k ≡ true
    → ((j : ℕ) → j < i + n → j ≢ k → p j ≡ false)
    → search p i n ≡ some k
search_only p i zero k low high hit others = absurd (omega arith)
search_only p i (suc n) k low high hit others = elim (ℕ_discrete i k) [
  | yes e ↦
      let here : p i ≡ true = subst (λ j. p j ≡ true) (sym e) hit in
      rw here (ap (λ (j : ℕ). some j) e)
  | no ne ↦ rw (others i (omega arith) ne) (
      search_only p (suc i) n k (omega arith) (omega arith) hit
        (λ j below away. others j (omega arith) away))
]

-- A mask is 0 when no index passes the test; else its lowest bit is one that does.
pub mask_from-cases :
    (t : ℕ → Bool)
    → ((mask_from t 16 0 0 ≡ 0) × ((i : ℕ) → i < 16 → t i ≡ false))
      ⊎ ((mask_from t 16 0 0 ≢ 0)
          × (ctz 32 (mask_from t 16 0 0) < 16)
          × (t (ctz 32 (mask_from t 16 0 0)) ≡ true))
mask_from-cases t = elim (mask_from-search t) [
  | inl (e, s) ↦ elim (search_cases t 0 16) [
    | inl (_, nowhere) ↦ inl (e, λ i small. nowhere i (omega arith) (omega arith))
    | inr (k, found, _, _, _, _) ↦ cc
  ]
  | inr (ne, s) ↦ elim (search_cases t 0 16) [
    | inl (nowhere, _) ↦ cc
    | inr (k, found, low, high, here, _) ↦
        let e : k ≡ ctz 32 (mask_from t 16 0 0) = cc in
        inr (ne, omega (arith, e), subst (λ j. t j ≡ true) e here)
  ]
]

pub search_same :
    (p q : ℕ → Bool) (i n : ℕ) → ((j : ℕ) → j < i + n → p j ≡ q j) → search p i n ≡ search q i n
search_same p q i zero same = refl
search_same p q i (suc n) same =
    rw (same i (omega arith), search_same p q (suc i) n (λ j below. same j (omega arith))) refl
