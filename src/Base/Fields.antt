-- ===== src/Base/Fields.antt =====
-- Two halves of a word, put together by `|`.
use Prim.Native.Nat.{
  ℕ, zero, suc, ◌+◌, ◌*◌, ◌/◌, ◌^◌, ◌≤◌, ◌<◌, max, digits, bit_or, bit_or-bitwise,
}
use mathlib.Core.Path.{◌≡◌, refl, ap, ◌∙◌}
use native.Mathlib.Nat.{pow-suc, le_refl}
use native.Mathlib.Omega.{arith}

-- With enough digits to go, the digits of a multiple of `2 ^ k` and those of a number below stand side
-- by side.
digits_apart :
    (n a b k q : ℕ) → a ≤ n → a ≡ q * 2 ^ k → b < 2 ^ k → digits (λ y. y) max n a b ≡ a + b
digits_apart zero zero b k q fuel e low = omega arith
digits_apart zero (suc a) b k q fuel e low = absurd (omega (arith, fuel))
digits_apart (suc n) zero b k q fuel e low = omega arith
digits_apart (suc n) (suc a) b zero q fuel e low = ground (
  arith,
  digits_apart n (suc a / 2) (b / 2) zero (suc a / 2) (omega arith) (omega arith) (omega arith),
)
digits_apart (suc n) (suc a) b (suc k) q fuel e low =
    let twice : q * 2 ^ suc k ≡ 2 * (q * 2 ^ k) =
      omega (arith, ap (λ (t : ℕ). q * t) (pow-suc 2 k)) in
    let small : b < 2 * 2 ^ k = omega (arith, pow-suc 2 k, low) in
    ground (
      arith,
      twice,
      e,
      digits_apart n (suc a / 2) (b / 2) k q (omega arith) (omega (arith, twice, e))
          (omega (arith, small)),
    )

pub bit_or_halves : (k q r : ℕ) → r < 2 ^ k → bit_or (q * 2 ^ k) r ≡ q * 2 ^ k + r
bit_or_halves k q r low =
    bit_or-bitwise (q * 2 ^ k) r ∙ digits_apart (q * 2 ^ k) (q * 2 ^ k) r k q (le_refl _) refl low
