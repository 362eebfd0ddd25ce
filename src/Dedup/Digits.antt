-- ===== src/Dedup/Digits.antt =====
-- The binary digits of the masks of src/dedup.h: what the loop over the control bytes builds, and
-- what `ctz` and `match &= match - 1` do to the digits.
use Prim.Native.Nat.{digits, min, bit_and-bitwise}
use Prim.Native.Nat.pow
use ein8_proj.Base.{
  ℕ, zero, suc, ◌+◌, ◌-◌, ◌*◌, ◌/◌, ◌%◌, ◌^◌, ◌<◌, ◌≤◌, ◌≡◌, ◌≢◌, refl, sym, ◌∙◌, ap, arith,
  bit_and, bit_or, ◌==◌, ==_eq, if◌then◌else◌, ◌&&◌, Bool, true, false, Bool-cases, ℕ_discrete,
  Option, none, some, List, [], ◌∷◌, ◌++◌, length, length-append, append_assoc, append-nil, inl,
  inr, subst,
}
use ein8_proj.Base.Bits.{ctz, every, every-at}
use ein8_proj.Dedup.{mask_from, scan}

-- The number with the given digits, the lowest first.
abbrev pub value : List Bool → ℕ
value [] = 0
value (b ∷ bs) = (if b then 1 else 0) + 2 * value bs

-- The tests at `i`, ..., `i + n - 1`.
abbrev pub tests : (ℕ → Bool) → (i n : ℕ) → List Bool
tests t i zero = []
tests t i (suc n) = t i ∷ tests t (suc i) n

pow-suc : (n : ℕ) → 2 ^ suc n ≡ 2 * 2 ^ n
pow-suc n = omega (arith, pow.suc 2 n)

value-lt : (bs : List Bool) → value bs < 2 ^ length bs
value-lt [] = omega arith
value-lt (true ∷ bs) = omega (arith, value-lt bs, pow-suc (length bs))
value-lt (false ∷ bs) = omega (arith, value-lt bs, pow-suc (length bs))

value-snoc_true : (bs : List Bool) → value (bs ++ true ∷ []) ≡ value bs + 2 ^ length bs
value-snoc_true [] = refl
value-snoc_true (b ∷ bs) = omega (arith, value-snoc_true bs, pow-suc (length bs))

value-snoc_false : (bs : List Bool) → value (bs ++ false ∷ []) ≡ value bs
value-snoc_false [] = refl
value-snoc_false (b ∷ bs) = omega (arith, value-snoc_false bs)

or_test : ℕ → ℕ → Bool
or_test i m = bit_or m (2 ^ i) == m + 2 ^ i

or_table : every (λ i. every (or_test i) (2 ^ i)) 16 ≡ true
unfolding every or_test
or_table = refl

or_fresh : (i m : ℕ) → i < 16 → m < 2 ^ i → bit_or m (2 ^ i) ≡ m + 2 ^ i
unfolding or_test
or_fresh i m hi hm =
    let row = every-at (λ k. every (or_test k) (2 ^ k)) 16 i hi or_table in
    ==_eq (bit_or m (2 ^ i)) (m + 2 ^ i) (every-at (or_test i) (2 ^ i) m hm row)

pub mask_from-value :
    (t : ℕ → Bool) (n i : ℕ) (bs : List Bool)
    → length bs ≡ i
    → i + n ≤ 16
    → mask_from t n i (value bs) ≡ value (bs ++ tests t i n)
unfolding mask_from
mask_from-value t zero i bs e le = rw append-nil refl
mask_from-value t (suc n) i bs e le =
    let more : (b : Bool)
        → mask_from t n (i + 1) (value (bs ++ b ∷ [])) ≡ value (bs ++ b ∷ tests t (suc i) n) =
      λ b.
        let next : i + 1 ≡ suc i = omega arith in
        rw next (
          mask_from-value t n (suc i) (bs ++ b ∷ []) (omega (arith, e, length-append bs (b ∷ [])))
            (omega arith)
          ∙ ap (λ (l : List Bool). value l) (append_assoc bs (b ∷ []) (tests t (suc i) n))) in
    elim (Bool-cases (t i)) [
      | inl yes_i ↦
          let small : value bs < 2 ^ i = subst (λ k. value bs < 2 ^ k) e (value-lt bs) in
          let sum : bit_or (value bs) (2 ^ i) ≡ value (bs ++ true ∷ []) =
            or_fresh i (value bs) (omega arith) small
            ∙ sym
                (subst (λ k. value (bs ++ true ∷ []) ≡ value bs + 2 ^ k) e (value-snoc_true bs)) in
          rw (yes_i, sum) (more true)
      | inr no_i ↦ rw no_i (
          subst (λ v. mask_from t n (i + 1) v ≡ value (bs ++ false ∷ tests t (suc i) n))
            (value-snoc_false bs) (more false))
    ]

-- The first true digit, and the digits without it.
abbrev pub first : List Bool → ℕ
first [] = 0
first (true ∷ bs) = 0
first (false ∷ bs) = suc (first bs)

abbrev clear : List Bool → List Bool
clear [] = []
clear (true ∷ bs) = false ∷ bs
clear (false ∷ bs) = false ∷ clear bs

abbrev pub count : List Bool → ℕ
count [] = 0
count (b ∷ bs) = (if b then 1 else 0) + count bs

pub ctz-value :
    (w : ℕ) (bs : List Bool) → value bs ≢ 0 → length bs ≤ w → ctz w (value bs) ≡ first bs
unfolding ctz
ctz-value w [] ne le = absurd (ne refl)
ctz-value zero (b ∷ bs) ne le = absurd (omega arith)
ctz-value (suc w) (true ∷ bs) ne le =
    let odd : ((1 + 2 * value bs) % 2 == 1) ≡ true = ground arith in rw odd refl
ctz-value (suc w) (false ∷ bs) ne le =
    let even : ((0 + 2 * value bs) % 2 == 1) ≡ false = ground arith in
    let half : (0 + 2 * value bs) / 2 ≡ value bs = omega arith in
    rw (even, half) (ap suc (ctz-value w bs (omega arith) (omega arith)))

count-clear : (bs : List Bool) → value bs ≢ 0 → suc (count (clear bs)) ≡ count bs
count-clear [] ne = absurd (ne refl)
count-clear (true ∷ bs) ne = omega arith
count-clear (false ∷ bs) ne = omega (arith, count-clear bs (omega arith))

length-clear : (bs : List Bool) → length (clear bs) ≡ length bs
length-clear [] = refl
length-clear (true ∷ bs) = refl
length-clear (false ∷ bs) = omega (arith, length-clear bs)

-- The common digits of two numbers, with the digits of the first that are left as fuel.
abbrev common : (n a b : ℕ) → ℕ
common n a b = digits (λ b. zero) min n a b

common_step :
    (n a b : ℕ) → a ≢ 0 → common (suc n) a b ≡ common n (a / 2) (b / 2) * 2 + min (a % 2) (b % 2)
common_step n zero b ne = absurd (ne refl)
common_step n (suc a) b ne = refl

common_self : (n : ℕ) (bs : List Bool) → value bs ≤ n → common n (value bs) (value bs) ≡ value bs
common_self zero [] le = refl
common_self (suc n) [] le = refl
common_self zero (b ∷ bs) le = omega (arith, le)
common_self (suc n) (true ∷ bs) le =
    let half : (1 + 2 * value bs) / 2 ≡ value bs = omega arith in
    let digit : (1 + 2 * value bs) % 2 ≡ 1 = omega arith in
    let step =
      rw (half, digit) at (common_step n (1 + 2 * value bs) (1 + 2 * value bs) (omega arith)) in
    omega (arith, step, common_self n bs (omega arith))
common_self (suc n) (false ∷ bs) le = elim (ℕ_discrete (value bs) 0) [
  | yes e ↦ rw e refl
  | no ne ↦
      let half : (0 + 2 * value bs) / 2 ≡ value bs = omega arith in
      let digit : (0 + 2 * value bs) % 2 ≡ 0 = omega arith in
      let step =
        rw (half, digit) at (common_step n (0 + 2 * value bs) (0 + 2 * value bs) (omega arith)) in
      omega (arith, step, common_self n bs (omega arith))
]

common-pred :
    (n : ℕ) (bs : List Bool)
    → value bs ≢ 0
    → value bs ≤ n
    → common n (value bs) (value bs - 1) ≡ value (clear bs)
common-pred n [] ne le = absurd (ne refl)
common-pred zero (b ∷ bs) ne le = absurd (omega arith)
common-pred (suc n) (true ∷ bs) ne le =
    let half : (1 + 2 * value bs) / 2 ≡ value bs = omega arith in
    let digit : (1 + 2 * value bs) % 2 ≡ 1 = omega arith in
    let half' : (1 + 2 * value bs - 1) / 2 ≡ value bs = omega arith in
    let digit' : (1 + 2 * value bs - 1) % 2 ≡ 0 = omega arith in
    let step =
      rw (half, digit, half', digit') at
        (common_step n (1 + 2 * value bs) (1 + 2 * value bs - 1) (omega arith)) in
    omega (arith, step, common_self n bs (omega arith))
common-pred (suc n) (false ∷ bs) ne le =
    let half : (0 + 2 * value bs) / 2 ≡ value bs = omega arith in
    let digit : (0 + 2 * value bs) % 2 ≡ 0 = omega arith in
    let half' : (0 + 2 * value bs - 1) / 2 ≡ value bs - 1 = omega arith in
    let step =
      rw (half, digit, half') at
        (common_step n (0 + 2 * value bs) (0 + 2 * value bs - 1) (omega arith)) in
    omega (arith, step, common-pred n bs (omega arith) (omega arith))

bit_and-value :
    (bs : List Bool) → value bs ≢ 0 → bit_and (value bs) (value bs - 1) ≡ value (clear bs)
bit_and-value bs ne =
    rw (bit_and-bitwise (value bs) (value bs - 1)) (common-pred (value bs) bs ne (omega arith))

-- The first true digit at which the test holds, counted from `i`.
abbrev pub find_digit : (ℕ → Bool) → (i : ℕ) → List Bool → Option ℕ
find_digit f i [] = none
find_digit f i (b ∷ bs) = if b && f i then some i else find_digit f (suc i) bs

find_digit-zero : (f : ℕ → Bool) (i : ℕ) (bs : List Bool) → value bs ≡ 0 → find_digit f i bs ≡ none
find_digit-zero f i [] e = refl
find_digit-zero f i (true ∷ bs) e = absurd (omega arith)
find_digit-zero f i (false ∷ bs) e = find_digit-zero f (suc i) bs (omega arith)

find_digit-first :
    (f : ℕ → Bool) (i : ℕ) (bs : List Bool)
    → value bs ≢ 0
    → f (i + first bs) ≡ true
    → find_digit f i bs ≡ some (i + first bs)
find_digit-first f i [] ne e = absurd (ne refl)
find_digit-first f i (true ∷ bs) ne e =
    let here : i + 0 ≡ i = omega arith in
    let now : f i ≡ true = subst (λ k. f k ≡ true) here e in rw (now, here) refl
find_digit-first f i (false ∷ bs) ne e =
    let there : i + suc (first bs) ≡ suc i + first bs = omega arith in
    rw there (find_digit-first f (suc i) bs (omega arith) (subst (λ k. f k ≡ true) there e))

find_digit-clear :
    (f : ℕ → Bool) (i : ℕ) (bs : List Bool)
    → value bs ≢ 0
    → f (i + first bs) ≡ false
    → find_digit f i bs ≡ find_digit f i (clear bs)
find_digit-clear f i [] ne e = absurd (ne refl)
find_digit-clear f i (true ∷ bs) ne e =
    let here : i + 0 ≡ i = omega arith in
    let now : f i ≡ false = subst (λ k. f k ≡ false) here e in rw now refl
find_digit-clear f i (false ∷ bs) ne e =
    let there : i + suc (first bs) ≡ suc i + first bs = omega arith in
    find_digit-clear f (suc i) bs (omega arith) (subst (λ k. f k ≡ false) there e)

value-count : (bs : List Bool) → count bs ≡ 0 → value bs ≡ 0
value-count [] e = refl
value-count (true ∷ bs) e = absurd (omega arith)
value-count (false ∷ bs) e = omega (arith, value-count bs (omega arith))

pub zero_add : (n : ℕ) → n ≡ 0 + n
zero_add n = omega arith

pub scan-value :
    (fuel : ℕ) (f : ℕ → Bool) (bs : List Bool)
    → count bs ≤ fuel
    → length bs ≤ 16
    → scan fuel f (value bs) ≡ find_digit f 0 bs
unfolding scan
scan-value zero f bs le short = sym (find_digit-zero f 0 bs (value-count bs (omega arith)))
scan-value (suc fuel) f bs le short = elim (ℕ_discrete (value bs) 0) [
  | yes e ↦
      let stop : (value bs == 0) ≡ true = ground arith in rw stop (sym (find_digit-zero f 0 bs e))
  | no ne ↦
      let go : (value bs == 0) ≡ false = ground arith in
      let low = ctz-value 32 bs ne (omega arith) in
      let left = bit_and-value bs ne in
      elim (Bool-cases (f (first bs))) [
        | inl hit ↦
            rw (go, low, hit)
              (ap (λ (k : ℕ). some k) (zero_add (first bs))
                ∙ sym (
                    find_digit-first f 0 bs ne (subst (λ k. f k ≡ true) (zero_add (first bs)) hit)))
        | inr miss ↦
            rw (go, low, miss, left)
              (scan-value fuel f (clear bs) (omega (arith, count-clear bs ne))
                  (omega (arith, length-clear bs))
                ∙ sym (
                    find_digit-clear f 0 bs ne
                      (subst (λ k. f k ≡ false) (zero_add (first bs)) miss)))
      ]
]
