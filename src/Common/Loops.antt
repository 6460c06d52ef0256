-- ===== src/Common/Loops.antt =====
-- Counted loops, and arrays as functions of the index.
use Prim.Native.Nat.{ℕ, zero, suc, ◌+◌, ◌<◌}
use mathlib.Core.Path.{◌≡◌}
use mathlib.Core.Bool.{Bool, true, false}
use native.Mathlib.Omega.{arith}
use dbz_budokai_hd.Common.Tests.{◌==◌, if◌then◌else◌}

-- A counting loop of n rounds from index i on.
unfoldable pub for_range {ℓ} : {S : Type ℓ} (rounds first : ℕ) → (ℕ → S → S) → S → S
for_range zero first round state = state
for_range (suc rounds) first round state = for_range rounds (first + 1) round (round first state)

-- An array with one entry replaced.
abbrev pub update {ℓ} : {A : Type ℓ} → (ℕ → A) → ℕ → A → ℕ → A
update f i v k = if k == i then v else f k

-- A test on every number below n, and what it says of one of them.
unfoldable pub holds_below : (ℕ → Bool) → ℕ → Bool
holds_below test zero = true
holds_below test (suc n) = if test n then holds_below test n else false

pub holds_below_lem :
    (test : ℕ → Bool) (n k : ℕ) → k < n → holds_below test n ≡ true → test k ≡ true
unfolding holds_below
holds_below_lem test zero k h e = absurd (omega arith)
holds_below_lem test (suc n) k h e = ground (arith, holds_below_lem test n k)
