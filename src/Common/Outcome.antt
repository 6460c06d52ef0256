-- ===== src/Common/Outcome.antt =====
-- What becomes of a call that may not come back: the effects that the C of the runtime has besides
-- a result.
use Prim.Native.Nat.{ℕ}

pub data Outcome {ℓ} (A : Type ℓ) : Type ℓ where
  -- It returns.
  returned : A → Outcome A
  -- A loop is still running when the rounds given to it are over.
  unending : Outcome A
  -- An access through a null or dangling pointer.
  undefined : Outcome A
  -- The thread has ended, with an exit code.
  exited : ℕ → Outcome A

infixl 5 ◌>>=◌
abbrev pub ◌>>=◌ {ℓ κ} : {A : Type ℓ} {B : Type κ} → Outcome A → (A → Outcome B) → Outcome B
returned a >>= f = f a
unending >>= f = unending
undefined >>= f = undefined
exited code >>= f = exited code
