-- ===== src/Base/Int.antt =====
-- C integers over the native numbers: `int` values as signed numbers, and the conversions between
-- `int`, `uint16_t`, `uint32_t` and `uint64_t` with their wrap-around.
use Prim.Native.Nat.{ℕ, suc, ◌-◌, ◌/◌, ◌%◌, ◌^◌, ◌<◌}
use mathlib.Core.Path.{◌≡◌}
use mathlib.Core.Bool.{Bool, true, false}
use native.Mathlib.Omega.{arith}
use emer_gen_z.Base.Tests.{ltb, ◌==◌, if◌then◌else◌}

-- `negsuc n` is -(n + 1).
pub data ℤ : Type 0 where
  pos : ℕ → ℤ
  negsuc : ℕ → ℤ

abbrev pub eq_ℤ : ℤ → ℤ → Bool
eq_ℤ (pos a) (pos b) = a == b
eq_ℤ (pos a) (negsuc b) = false
eq_ℤ (negsuc a) (pos b) = false
eq_ℤ (negsuc a) (negsuc b) = a == b

abbrev pub is_neg : ℤ → Bool
is_neg (pos a) = false
is_neg (negsuc a) = true

-- `if (ret)`
abbrev pub nonzero : ℤ → Bool
nonzero (pos a) = ltb 0 a
nonzero (negsuc a) = true

-- minus an error number, as the kernel returns it
abbrev pub error : ℕ → ℤ
error n = negsuc (n - 1)

abbrev pub to_u16 : ℕ → ℕ
to_u16 n = n % 2 ^ 16

abbrev pub to_u32 : ℤ → ℕ
to_u32 (pos n) = n % 2 ^ 32
to_u32 (negsuc n) = 2 ^ 32 - 1 - n % 2 ^ 32

abbrev pub to_u64 : ℤ → ℕ
to_u64 (pos n) = n % 2 ^ 64
to_u64 (negsuc n) = 2 ^ 64 - 1 - n % 2 ^ 64

-- the `int` that the low 32 bits of a word stand for
abbrev pub int_of_bits : ℕ → ℤ
int_of_bits n =
    if ltb (n % 2 ^ 32) (2 ^ 31) then pos (n % 2 ^ 32) else negsuc (2 ^ 32 - 1 - n % 2 ^ 32)

-- a value of any width, stored in an `int`
abbrev pub to_int : ℤ → ℤ
to_int z = int_of_bits (to_u32 z)

-- division by a positive number, which C rounds towards zero
abbrev pub div_trunc : ℤ → ℕ → ℤ
div_trunc (pos n) k = pos (n / k)
div_trunc (negsuc n) k = let q = suc n / k in if q == 0 then pos 0 else negsuc (q - 1)

pub int_of_bits-small : (n : ℕ) → n < 2 ^ 31 → int_of_bits n ≡ pos n
int_of_bits-small n h = ground arith

-- the values of a 32-bit `int`
abbrev pub IsInt : ℤ → Type 0
IsInt (pos n) = n < 2 ^ 31
IsInt (negsuc n) = n < 2 ^ 31

pub to_int-IsInt : (z : ℤ) → IsInt (to_int z)
to_int-IsInt (pos n) = ground arith
to_int-IsInt (negsuc n) = ground arith

pub to_int_self : (z : ℤ) → IsInt z → to_int z ≡ z
to_int_self (pos n) h = ground arith
to_int_self (negsuc n) h = ground arith
