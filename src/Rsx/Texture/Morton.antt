-- ===== src/Rsx/Texture/Morton.antt =====
-- runtime_glue.cpp: `morton2d` as an interleaving of digits, and where it leads.
use dbz_budokai_hd.Common.{
  ℕ, zero, suc, true, false, ◌+◌, ◌*◌, ◌/◌, ◌%◌, ◌^◌, ◌<◌, ◌≤◌, ◌≡◌, refl, ◌||◌, ap, ap₂, ◌∙◌, ◌==◌,
  leb, bit_or, arith, holds_below, holds_below_lem, ==_iff,
}
use native.Mathlib.Nat.{pow-suc, pow-le-pow_right, mul-mul-mul_comm}
use dbz_budokai_hd.Common.Bits.{bit_or-digit}
use dbz_budokai_hd.Rsx.Texture.{
  morton_spread, morton2d, Texture, is_linear, pixel_count, source_index,
}

-- The first k digits of v with a zero behind each.
unfoldable pub spread : ℕ → ℕ → ℕ
spread zero v = 0
spread (suc k) v = v % 2 + 4 * spread k (v / 2)

-- The first k digits of x and of y in turn, x first.
unfoldable pub interleave : ℕ → ℕ → ℕ → ℕ
interleave zero x y = 0
interleave (suc k) x y = x % 2 + 2 * (y % 2) + 4 * interleave k (x / 2) (y / 2)

-- The texture's sides have at most 12 digits: all the numbers are tried.
spreads : holds_below (λ v. morton_spread v == spread 12 v) 4096 ≡ true
unfolding holds_below morton_spread spread
spreads = refl

bit_or-spread : (k x y : ℕ) → bit_or (spread k x) (2 * spread k y) ≡ interleave k x y
unfolding spread interleave
bit_or-spread zero x y = refl
bit_or-spread (suc k) x y =
    let a = x % 2 + 4 * spread k (x / 2) in
    let b = 2 * (y % 2 + 4 * spread k (y / 2)) in
    let half : a / 2 / 2 ≡ spread k (x / 2) = omega arith in
    let other : b / 2 / 2 ≡ 2 * spread k (y / 2) = omega arith in
    let rest : bit_or (a / 2 / 2) (b / 2 / 2) ≡ interleave k (x / 2) (y / 2) =
      ap₂ bit_or half other ∙ bit_or-spread k (x / 2) (y / 2) in
    omega (arith, bit_or-digit a b, bit_or-digit (a / 2) (b / 2), rest)

interleave_zero : (k : ℕ) → interleave k 0 0 ≡ 0
unfolding interleave
interleave_zero zero = refl
interleave_zero (suc k) = omega (arith, interleave_zero k)

four : (j : ℕ) → 2 ^ suc j * 2 ^ suc j ≡ 4 * (2 ^ j * 2 ^ j)
four j =
    ap₂ (λ a b. a * b) (pow-suc 2 j) (pow-suc 2 j)
    ∙ mul-mul-mul_comm (2 ^ j) 2 (2 ^ j) 2
    ∙ omega arith

pow_positive : (j : ℕ) → 0 < 2 ^ j * 2 ^ j
pow_positive zero = omega arith
pow_positive (suc j) = omega (arith, pow_positive j, four j)

-- Numbers of j digits make one of 2 j digits.
interleave_bound : (k j x y : ℕ) → x < 2 ^ j → y < 2 ^ j → interleave k x y < 2 ^ j * 2 ^ j
unfolding interleave
interleave_bound zero j x y p q = omega (arith, pow_positive j)
interleave_bound (suc k) zero x y p q =
    let none_x : x ≡ 0 = omega arith in
    let none_y : y ≡ 0 = omega arith in rw (none_x, none_y) (omega (arith, interleave_zero k))
interleave_bound (suc k) (suc j) x y p q =
    let half : interleave k (x / 2) (y / 2) < 2 ^ j * 2 ^ j =
      interleave_bound k j (x / 2) (y / 2) (omega (arith, pow-suc 2 j))
        (omega (arith, pow-suc 2 j)) in
    omega (arith, half, four j)

spread_bound : (k v : ℕ) → spread k v < 4 ^ k
unfolding spread
spread_bound zero v = omega arith
spread_bound (suc k) v = omega (arith, spread_bound k (v / 2), pow-suc 4 k)

-- The digits at the even and at the odd places.
unfoldable pub evens : ℕ → ℕ → ℕ
evens zero n = 0
evens (suc k) n = n % 2 + 2 * evens k (n / 4)

unfoldable pub odds : ℕ → ℕ → ℕ
odds zero n = 0
odds (suc k) n = n / 2 % 2 + 2 * odds k (n / 4)

evens-interleave : (k x y : ℕ) → x < 2 ^ k → evens k (interleave k x y) ≡ x
unfolding evens interleave
evens-interleave zero x y h = omega arith
evens-interleave (suc k) x y h =
    let n = x % 2 + 2 * (y % 2) + 4 * interleave k (x / 2) (y / 2) in
    let rest : n / 4 ≡ interleave k (x / 2) (y / 2) = omega arith in
    omega
      (arith, ap (evens k) rest, evens-interleave k (x / 2) (y / 2) (omega (arith, pow-suc 2 k)))

odds-interleave : (k x y : ℕ) → y < 2 ^ k → odds k (interleave k x y) ≡ y
unfolding odds interleave
odds-interleave zero x y h = omega arith
odds-interleave (suc k) x y h =
    let n = x % 2 + 2 * (y % 2) + 4 * interleave k (x / 2) (y / 2) in
    let rest : n / 4 ≡ interleave k (x / 2) (y / 2) = omega arith in
    omega (arith, ap (odds k) rest, odds-interleave k (x / 2) (y / 2) (omega (arith, pow-suc 2 k)))

morton_spread_lem : (v : ℕ) → v < 4096 → morton_spread v ≡ spread 12 v
morton_spread_lem v h =
    (==_iff (morton_spread v) (spread 12 v)).0
      (holds_below_lem (λ u. morton_spread u == spread 12 u) 4096 v h spreads)

-- For coordinates below 4096, the largest side, the bit tricks compute the interleaving of the digits.
pub morton2d_lem : (x y : ℕ) → x < 4096 → y < 4096 → morton2d x y ≡ interleave 12 x y
unfolding morton2d
morton2d_lem x y p q =
    let shifted : morton_spread y * 2 ^ 1 % 2 ^ 32 ≡ 2 * spread 12 y =
      omega (arith, morton_spread_lem y q, spread_bound 12 y) in
    ap₂ bit_or (morton_spread_lem x p) shifted ∙ bit_or-spread 12 x y

-- In a square texture of side 2 ^ k, of at most 4096, each pixel is read at an index within the
-- texture, and its coordinates are the digits of that index at the even and at the odd places, so
-- that no two pixels are read at the same index.
pub morton2d_square :
    (k x y : ℕ)
    → k ≤ 12
    → x < 2 ^ k
    → y < 2 ^ k
    → (morton2d x y < 2 ^ k * 2 ^ k) × (evens 12 (morton2d x y) ≡ x) × (odds 12 (morton2d x y) ≡ y)
morton2d_square k x y small p q =
    let le : 2 ^ k ≤ 2 ^ 12 = pow-le-pow_right {n = 2} (omega arith) small in
    let a : x < 4096 = omega arith in
    let b : y < 4096 = omega arith in
    rw (morton2d_lem x y a b)
      (interleave_bound 12 k x y p q, evens-interleave 12 x y a, odds-interleave 12 x y b)

-- The side 2 ^ i of a texture, spread.
tall_tests :
    holds_below
      (λ k. holds_below (λ j. leb k j || leb (2 ^ j * 2 ^ k) (morton2d 0 (2 ^ k / 2))) 13)
      13
    ≡ true
unfolding holds_below morton2d
tall_tests = refl

-- In a swizzled texture that is higher than it is wide, with sides 2 ^ j and 2 ^ k of at most
-- 4096, the first pixel of the lower half is read at an index that is not within the texture.
pub source_index_tall :
    (t : Texture) (j k : ℕ)
    → j < k
    → k ≤ 12
    → is_linear t ≡ false
    → t.tex_w ≡ 2 ^ j
    → t.tex_h ≡ 2 ^ k
    → pixel_count t ≤ source_index t 0 (t.tex_h / 2)
unfolding source_index
source_index_tall t j k less small swizzled w h =
    let inner : (holds_below (λ i. leb k i || leb (2 ^ i * 2 ^ k) (morton2d 0 (2 ^ k / 2))) 13)
        ≡ true =
      holds_below_lem
        (λ u. holds_below (λ i. leb u i || leb (2 ^ i * 2 ^ u) (morton2d 0 (2 ^ u / 2))) 13) 13 k
        (omega arith) tall_tests in
    let found : (leb k j || leb (2 ^ j * 2 ^ k) (morton2d 0 (2 ^ k / 2))) ≡ true =
      holds_below_lem (λ i. leb k i || leb (2 ^ i * 2 ^ k) (morton2d 0 (2 ^ k / 2))) 13 j
        (omega arith) inner in
    rw (w, h, swizzled) (ground (arith, found))
