-- ===== src/Common/Bits.antt =====
-- `|` at variables, as arithmetic: how it goes from one binary digit to the next, and what it is on
-- fields that do not overlap.
use Prim.Native.Nat.{ℕ, zero, suc, ◌+◌, ◌*◌, ◌/◌, ◌%◌, ◌^◌, ◌≤◌, ◌<◌, max, min}
use Prim.Native.Nat.{bit_or, bit_and, digits, bit_or-bitwise, bit_and-bitwise}
use mathlib.Core.Path.{◌≡◌, refl, ap}
use mathlib.Core.Logic.{◌⊎◌, inl, inr}
use mathlib.Core.Path.{◌≡⟨◌⟩◌, ◌∎}
use native.Mathlib.Nat.{
  pow-suc, div-add-mod, mod-lt, mul_assoc, mul-add-mod_self_left, mod-eq_of_lt, one-le-pow,
}
use native.Mathlib.Omega.{arith}

-- Any fuel from the first operand on gives the same digits; `bound` only makes the recursion end.
settled :
    (z : ℕ → ℕ) (f : ℕ → ℕ → ℕ) (bound n a b : ℕ)
    → n ≤ bound
    → a ≤ n
    → digits z f n a b ≡ digits z f a a b
settled z f bound zero zero b h k = refl
settled z f bound zero (suc a) b h k = absurd (omega arith)
settled z f bound (suc n) zero b h k = refl
settled z f zero (suc n) (suc a) b h k = absurd (omega arith)
settled z f (suc bound) (suc n) (suc a) b h k =
    let half = suc a / 2 in
    let long = settled z f bound n half (b / 2) (omega arith) (omega arith) in
    let short = settled z f bound a half (b / 2) (omega arith) (omega arith) in
    omega (arith, long, short)

pub bit_or-digit : (a b : ℕ) → bit_or a b ≡ max (a % 2) (b % 2) + 2 * bit_or (a / 2) (b / 2)
bit_or-digit zero b = omega (arith, bit_or-bitwise 0 b, bit_or-bitwise 0 (b / 2))
bit_or-digit (suc a) b = omega (
  arith,
  bit_or-bitwise (suc a) b,
  bit_or-bitwise (suc a / 2) (b / 2),
  settled (λ y. y) max a a (suc a / 2) (b / 2) (omega arith) (omega arith),
)

-- `|` with nothing on the right.
pub bit_or-none : (bound a : ℕ) → a ≤ bound → bit_or a 0 ≡ a
bit_or-none zero zero h = refl
bit_or-none zero (suc a) h = absurd (omega arith)
bit_or-none (suc bound) a h = elim (a_cases a) [
  | inl e ↦ rw e
  | inr p ↦ omega (arith, bit_or-digit a 0, bit_or-none bound (a / 2) (omega arith))
]
  where
    a_cases : (x : ℕ) → (x ≡ 0) ⊎ (0 < x)
    a_cases zero = inl refl
    a_cases (suc x) = inr (omega arith)

shift-suc : (q k : ℕ) → q * 2 ^ suc k ≡ 2 * (q * 2 ^ k)
shift-suc q k = omega (arith, ap (λ (t : ℕ). q * t) (pow-suc 2 k))

-- Fields that do not overlap are joined by `|` as by `+`.
pub bit_or_disjoint : (k q r : ℕ) → r < 2 ^ k → bit_or (q * 2 ^ k) r ≡ q * 2 ^ k + r
bit_or_disjoint zero q r h =
    let none : r ≡ 0 = omega arith in
    rw none (omega (arith, bit_or-none (q * 1) (q * 1) (omega arith)))
bit_or_disjoint (suc k) q r h = ground (
  arith,
  bit_or-digit (q * 2 ^ suc k) r,
  shift-suc q k,
  bit_or_disjoint k q (r / 2) (omega (arith, pow-suc 2 k)),
)

pub bit_and-digit : (a b : ℕ) → bit_and a b ≡ min (a % 2) (b % 2) + 2 * bit_and (a / 2) (b / 2)
bit_and-digit zero b = omega (arith, bit_and-bitwise 0 b, bit_and-bitwise 0 (b / 2))
bit_and-digit (suc a) b = omega (
  arith,
  bit_and-bitwise (suc a) b,
  bit_and-bitwise (suc a / 2) (b / 2),
  settled (λ y. 0) min a a (suc a / 2) (b / 2) (omega arith) (omega arith),
)

bit_and-le_bounded : (bound a b : ℕ) → a ≤ bound → bit_and a b ≤ b
bit_and-le_bounded zero zero b h = omega (arith, bit_and-bitwise 0 b)
bit_and-le_bounded zero (suc a) b h = absurd (omega arith)
bit_and-le_bounded (suc bound) zero b h = omega (arith, bit_and-bitwise 0 b)
bit_and-le_bounded (suc bound) (suc a) b h =
    let rest = bit_and-le_bounded bound (suc a / 2) (b / 2) (omega arith) in
    omega (arith, bit_and-digit (suc a) b, rest)

-- `&` is at most its second operand.
pub bit_and-le : (a b : ℕ) → bit_and a b ≤ b
bit_and-le a b = bit_and-le_bounded a a b (omega arith)

-- `|` of two numbers of n digits has n digits.
pub bit_or-lt : (n a b : ℕ) → a < 2 ^ n → b < 2 ^ n → bit_or a b < 2 ^ n
bit_or-lt zero a b h k =
    let none : b ≡ 0 = omega arith in rw none (omega (arith, bit_or-none a a (omega arith)))
bit_or-lt (suc n) a b h k =
    let rest =
      bit_or-lt n (a / 2) (b / 2) (omega (arith, pow-suc 2 n)) (omega (arith, pow-suc 2 n)) in
    omega (arith, bit_or-digit a b, rest, pow-suc 2 n)

bit_and-none : (a : ℕ) → bit_and a 0 ≡ 0
bit_and-none a = omega (arith, bit_and-le a 0)

-- The k + 1 lowest digits of a number are the lowest, and twice the k lowest of its half.
low-suc : (k a : ℕ) → a % 2 ^ suc k ≡ a % 2 + 2 * (a / 2 % 2 ^ k)
low-suc k a =
    let P = 2 ^ k in
    let q = a / 2 / P in
    let s = a / 2 % P in
    let twice : 2 ^ suc k ≡ 2 * P = omega (arith, pow-suc 2 k) in
    let whole : P * q + s ≡ a / 2 = div-add-mod (a / 2) P in
    let below : s < P = mod-lt (a / 2) (omega (arith, one-le-pow k 2 (omega arith))) in
    let shape : a ≡ (2 * P) * q + (2 * s + a % 2) = omega (arith, whole, mul_assoc 2 P q) in
    a % 2 ^ suc k
    ≡⟨ ap (λ x. a % x) twice ⟩ a % (2 * P)
    ≡⟨ ap (λ x. x % (2 * P)) shape ⟩ ((2 * P) * q + (2 * s + a % 2)) % (2 * P)
    ≡⟨ mul-add-mod_self_left (2 * P) q (2 * s + a % 2) ⟩ (2 * s + a % 2) % (2 * P)
    ≡⟨ mod-eq_of_lt (omega (arith, below)) ⟩ 2 * s + a % 2
    ≡⟨ omega arith ⟩ a % 2 + 2 * (a / 2 % 2 ^ k) ∎

-- `&` with the k lowest digits.
pub bit_and_low : (k m a : ℕ) → m + 1 ≡ 2 ^ k → bit_and a m ≡ a % 2 ^ k
bit_and_low zero m a h =
    let none : m ≡ 0 = omega (arith, h) in rw none (omega (arith, bit_and-none a))
bit_and_low (suc k) m a h =
    let rest = bit_and_low k (m / 2) (a / 2) (omega (arith, h, pow-suc 2 k)) in
    omega (arith, bit_and-digit a m, rest, low-suc k a, h, pow-suc 2 k)
