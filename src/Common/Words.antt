-- ===== src/Common/Words.antt =====
-- Machine words as native numbers: casts, wrapping arithmetic, shifts, sign extension.
use Prim.Native.Nat.{ℕ, ◌+◌, ◌-◌, ◌*◌, ◌/◌, ◌%◌, ◌^◌}
use mathlib.Core.Bool.{Bool}
use dbz_budokai_hd.Common.Tests.{ltb, ◌==◌, if◌then◌else◌}
use dbz_budokai_hd.Common.Int.{ℤ, pos, negsuc, pos_part, neg_part}

-- (uint8_t)n, (uint16_t)n, (uint32_t)n
abbrev pub u8 : ℕ → ℕ
u8 n = n % 2 ^ 8

abbrev pub u16 : ℕ → ℕ
u16 n = n % 2 ^ 16

abbrev pub u32 : ℕ → ℕ
u32 n = n % 2 ^ 32

abbrev pub u64 : ℕ → ℕ
u64 n = n % 2 ^ 64

-- a + b and a - b in uint32_t
abbrev pub add32 : ℕ → ℕ → ℕ
add32 a b = u32 (a + b)

abbrev pub sub32 : ℕ → ℕ → ℕ
sub32 a b = u32 (a + 2 ^ 32 - u32 b)

-- ~a in uint32_t and in uint8_t
abbrev pub not32 : ℕ → ℕ
not32 a = 2 ^ 32 - 1 - u32 a

abbrev pub not8 : ℕ → ℕ
not8 a = 2 ^ 8 - 1 - u8 a

-- x << k before any cast, and x >> k
infixl 75 ◌<<<◌ ◌>>>◌
abbrev pub ◌<<<◌ : ℕ → ℕ → ℕ
x <<< k = x * 2 ^ k

abbrev pub ◌>>>◌ : ℕ → ℕ → ℕ
x >>> k = x / 2 ^ k

-- x & (2^k - 1), and x & ~(2^k - 1)
abbrev pub low_bits : ℕ → ℕ → ℕ
low_bits k x = x % 2 ^ k

abbrev pub clear_low : ℕ → ℕ → ℕ
clear_low k x = x / 2 ^ k * 2 ^ k

-- The integer that a w-bit pattern stands for, and the w-bit pattern of an integer.
abbrev pub signed : ℕ → ℕ → ℤ
signed w x = if ltb x (2 ^ (w - 1)) then pos x else negsuc (2 ^ w - x - 1)

abbrev pub wrap : ℕ → ℤ → ℕ
wrap w z = (pos_part z + (2 ^ w - neg_part z % 2 ^ w)) % 2 ^ w

-- The all-ones mask or zero, by a test.
abbrev pub mask32 : Bool → ℕ
mask32 b = if b then 2 ^ 32 - 1 else 0

abbrev pub mask16 : Bool → ℕ
mask16 b = if b then 0xFFFF else 0

abbrev pub mask8 : Bool → ℕ
mask8 b = if b then 0xFF else 0

-- (v >> n) & 1, as a test
abbrev pub test_bit : ℕ → ℕ → Bool
test_bit n v = v / 2 ^ n % 2 == 1

-- The arithmetic shift of a w-bit pattern to the right, which copies the sign in.
abbrev pub sar : ℕ → ℕ → ℕ → ℕ
sar w x s = if ltb x (2 ^ (w - 1)) then x / 2 ^ s else 2 ^ w - 1 - (2 ^ w - 1 - x) / 2 ^ s
