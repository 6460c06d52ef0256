-- ===== src/Guest/Laws.antt =====
-- What the guest's memory gives back.
use dbz_budokai_hd.Common.{ℕ, ◌+◌, ◌≡◌, ◌^◌, ◌<◌, ◌≤◌, ◌⊎◌, arith, Memory}
use dbz_budokai_hd.Guest.{vm_read32, store32}

-- A word read where it was stored.
pub vm_read32-store32_self :
    (m : Memory) (a v : ℕ) → a < 2 ^ 32 → v < 2 ^ 32 → vm_read32 (store32 m a v) a ≡ v
unfolding vm_read32 store32
vm_read32-store32_self m a v h k = ground arith

-- A byte that lies outside of the word stored.
pub store32_outside :
    (m : Memory) (a v x : ℕ) → a + 4 ≤ 2 ^ 32 → (x < a) ⊎ (a + 4 ≤ x) → store32 m a v x ≡ m x
unfolding store32
store32_outside m a v x h o = ground arith

-- A word that lies apart from the word stored.
pub vm_read32-store32_ne :
    (m : Memory) (a b v : ℕ)
    → a + 4 ≤ 2 ^ 32
    → b + 4 ≤ 2 ^ 32
    → (b + 4 ≤ a) ⊎ (a + 4 ≤ b)
    → vm_read32 (store32 m a v) b ≡ vm_read32 m b
unfolding vm_read32 store32
vm_read32-store32_ne m a b v h k o = ground arith
