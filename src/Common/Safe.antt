-- ===== src/Common/Safe.antt =====
-- Outcomes that are not undefined, and whose result, if there is one, has a property.
use Prim.Native.Nat.{ℕ}
use dbz_budokai_hd.Common.Outcome.{Outcome, returned, unending, exited, ◌>>=◌}

pub data Safe {ℓ} {A : Type 0} (P : A → Type ℓ) : Outcome A → Type ℓ where
  safe_returned : {a : A} → P a → Safe P (returned a)
  safe_unending : Safe P unending
  safe_exited : (code : ℕ) → Safe P (exited code)

pub Safe->>= {ℓ κ} :
    {A B : Type 0} {P : A → Type ℓ} {Q : B → Type κ} {o : Outcome A} {f : A → Outcome B}
    → Safe P o
    → ((a : A) → P a → Safe Q (f a))
    → Safe Q (o >>= f)
Safe->>= (safe_returned p) next = next _ p
Safe->>= safe_unending next = safe_unending
Safe->>= (safe_exited code) next = safe_exited code
