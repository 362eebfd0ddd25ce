-- ===== src/Base/Word.antt =====
-- Words of `w` bits: masks and shifts in the form that the arithmetic tactics read.
use Prim.Native.Nat.{ℕ, ◌^◌, ◌%◌}

abbrev pub u8 : ℕ → ℕ
u8 n = n % 2 ^ 8

abbrev pub u16 : ℕ → ℕ
u16 n = n % 2 ^ 16

abbrev pub u32 : ℕ → ℕ
u32 n = n % 2 ^ 32

abbrev pub u64 : ℕ → ℕ
u64 n = n % 2 ^ 64
