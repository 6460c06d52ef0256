-- ===== src/Common/Copy.antt =====
-- Byte arrays as functions of the index, and C's `memcpy` and `memset` on them.
use Prim.Native.Nat.{ℕ, ◌+◌, ◌-◌, ◌≤◌, ◌<◌}
use mathlib.Core.Path.{◌≡◌, ap}
use mathlib.Core.Logic.{◌⊎◌}
use mathlib.Core.Bool.{◌&&◌}
use native.Mathlib.Omega.{arith}
use dbz_budokai_hd.Common.Tests.{leb, ltb, if◌then◌else◌}

abbrev pub Memory : Type 0
Memory = ℕ → ℕ

-- memcpy(dst + d, src + s, n), for regions that do not overlap
unfoldable pub memcpy : Memory → ℕ → Memory → ℕ → ℕ → Memory
memcpy dst d src s n k = if leb d k && ltb k (d + n) then src (s + (k - d)) else dst k

-- memset(dst + d, v, n)
unfoldable pub memset : Memory → ℕ → ℕ → ℕ → Memory
memset dst d v n k = if leb d k && ltb k (d + n) then v else dst k

pub memcpy_inside :
    (dst : Memory) (d : ℕ) (src : Memory) (s n k : ℕ)
    → d ≤ k
    → k < d + n
    → memcpy dst d src s n k ≡ src (s + (k - d))
unfolding memcpy
memcpy_inside dst d src s n k p q = ground arith

pub memcpy_outside :
    (dst : Memory) (d : ℕ) (src : Memory) (s n k : ℕ)
    → (k < d) ⊎ (d + n ≤ k)
    → memcpy dst d src s n k ≡ dst k
unfolding memcpy
memcpy_outside dst d src s n k p = ground arith

pub memset_inside : (dst : Memory) (d v n k : ℕ) → d ≤ k → k < d + n → memset dst d v n k ≡ v
unfolding memset
memset_inside dst d v n k p q = ground arith

pub memset_outside :
    (dst : Memory) (d v n k : ℕ) → (k < d) ⊎ (d + n ≤ k) → memset dst d v n k ≡ dst k
unfolding memset
memset_outside dst d v n k p = ground arith

-- What is copied to a place and from there on is what was copied.
pub memcpy-memcpy :
    (dst : Memory) (d : ℕ) (mid : Memory) (e : ℕ) (src : Memory) (s n k : ℕ)
    → memcpy dst d (memcpy mid e src s n) e n k
      ≡ (if leb d k && ltb k (d + n) then src (s + (k - d)) else dst k)
unfolding memcpy
memcpy-memcpy dst d mid e src s n k =
    let back : s + (e + (k - d) - e) ≡ s + (k - d) = omega arith in ground (arith, ap src back)
