-- ===== src/Base/Bits.antt =====
-- Bytes as sets of bits: `ctz`, and facts checked at every value.
use Prim.Native.Nat.{ℕ, zero, suc, ◌-◌, ◌/◌, ◌%◌, ◌^◌, ◌<◌, bit_and, bit_or}
use mathlib.Core.Path.{◌≡◌, refl}
use mathlib.Core.Bool.{Bool, true, false, not, ◌&&◌, ◌||◌}
use native.Mathlib.Omega.{arith}
use ein8_proj.Base.Tests.{◌==◌, ==_eq, ltb, if◌then◌else◌}

-- `__builtin_ctz` of a number with at most `width` bits
unfoldable pub ctz : (width : ℕ) → ℕ → ℕ
ctz zero n = 0
ctz (suc width) n = let rest = ctz width (n / 2) in if n % 2 == 1 then 0 else suc rest

-- Whether a test holds of each number under a bound.
unfoldable pub every : (test : ℕ → Bool) → (bound : ℕ) → Bool
every test zero = true
every test (suc top) = every test top && test top

pub every-at : (test : ℕ → Bool) (bound i : ℕ) → i < bound → every test bound ≡ true → test i ≡ true
unfolding every
every-at test zero i under all = absurd (omega arith)
every-at test (suc top) i under all = ground (arith, every-at test top i)

-- Bit `i` of a byte.
abbrev pub has_bit : ℕ → ℕ → Bool
has_bit n i = not (bit_and n (2 ^ i) == 0)

-- The number is one of the common bits, and no common bit is lower.
pub is_lowest_common : (p m s : ℕ) → Bool
unfolding every
is_lowest_common p m s =
    ltb s 8 && has_bit p s && has_bit m s && every (λ j. not (has_bit p j && has_bit m j)) s

lowest_test : ℕ → ℕ → Bool
unfolding is_lowest_common ctz
lowest_test p m = (bit_and p m == 0) || is_lowest_common p m (ctz 8 (bit_and p m))

lowest_table : every (λ p. every (lowest_test p) 256) 256 ≡ true
unfolding every lowest_test
lowest_table = refl

clear_test : ℕ → ℕ → Bool
clear_test p i =
    (bit_and (bit_or p (2 ^ i)) (255 - 2 ^ i) == bit_and p (255 - 2 ^ i))
    && has_bit (bit_or p (2 ^ i)) i
    && ltb (bit_or p (2 ^ i)) 256

clear_table : every (λ p. every (clear_test p) 8) 256 ≡ true
unfolding every clear_test
clear_table = refl

-- The lowest common bit of two bytes, found by `ctz`.
pub ctz-is_lowest_common :
    (p m : ℕ)
    → p < 256
    → m < 256
    → (bit_and p m == 0) ≡ false
    → is_lowest_common p m (ctz 8 (bit_and p m)) ≡ true
unfolding lowest_test
ctz-is_lowest_common p m hp hm h =
    let row = every-at (λ q. every (lowest_test q) 256) 256 p hp lowest_table in
    ground (arith, h, every-at (lowest_test p) 256 m hm row)

-- Setting bit `i` of a byte and clearing it again leaves the other bits as they were.
pub set_clear : (p i : ℕ) → p < 256 → i < 8 → record {
  others : bit_and (bit_or p (2 ^ i)) (255 - 2 ^ i) ≡ bit_and p (255 - 2 ^ i);
  present : has_bit (bit_or p (2 ^ i)) i ≡ true;
  byte : bit_or p (2 ^ i) < 256;
}
unfolding clear_test
set_clear p i hp hi =
    let row = every-at (λ q. every (clear_test q) 8) 256 p hp clear_table in
    let t = every-at (clear_test p) 8 i hi row in
    record { others = ground (arith, t); present = ground (arith, t); byte = ground (arith, t) }

pow_test : ℕ → Bool
pow_test i = 2 ^ i % 2 ^ 8 == 2 ^ i

pow_table : every pow_test 8 ≡ true
unfolding every pow_test
pow_table = refl

-- A bit of a byte is not cut off.
pub pow_byte : (i : ℕ) → i < 8 → 2 ^ i % 2 ^ 8 ≡ 2 ^ i
unfolding pow_test
pow_byte i h = ==_eq (2 ^ i % 2 ^ 8) (2 ^ i) (every-at pow_test 8 i h pow_table)
