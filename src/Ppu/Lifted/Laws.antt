-- ===== src/Ppu/Lifted/Laws.antt =====
-- extra_funcs.cpp: what the constructor of the static object at 0x27F7F4 leaves in memory.
use dbz_budokai_hd.Common.{
  ℕ, ◌+◌, ◌*◌, ◌<◌, ◌≤◌, ◌≡◌, ◌==◌, ◌⊎◌, refl, arith, if◌then◌else◌, holds_below, holds_below_lem,
  ==_iff,
}
use dbz_budokai_hd.Common.Outcome.{Outcome, returned}
use dbz_budokai_hd.Guest.{vm_read32, store32}
use dbz_budokai_hd.Rsx.Write.{vm_write32}
use dbz_budokai_hd.Ppu.State.{Ppu, Env, run}
use dbz_budokai_hd.Ppu.Lifted.{func_0002761c}

-- The words of the object: zero, but for the two list heads that `vm_write32` keeps.
abbrev pub word_of_object : ℕ → ℕ
word_of_object k = if k == 8 then 0x70B000 else if k == 10 then 0x70A000 else 0

-- The state of an outcome, or another.
abbrev state_of : Ppu → Outcome Ppu → Ppu
state_of c (returned d) = d
state_of c _ = c

module _ (E : Env) (c : Ppu) where
  -- The state that it returns with.
  abbrev built : Ppu
  built = state_of c (run E func_0002761c c)

  -- Whatever the registers and the memory were, the constructor returns, with the fourteen words
  -- of the object from 0x27F7F4 on zero, but for those at 0x27F814 and 0x27F81C, where the writes
  -- of zero leave the chains 0x70B000 and 0x70A000 of the runtime; every other byte is as it was.
  pub func_0002761c_lem :
      (d : Ppu) × (run E func_0002761c c ≡ returned d)
      × ((k : ℕ) → k < 14 → vm_read32 d.machine.mem (0x27F7F4 + k * 4) ≡ word_of_object k)
      × ((a : ℕ) → (a < 0x27F7F4) ⊎ (0x27F82C ≤ a) → d.machine.mem a ≡ c.machine.mem a)
  unfolding run vm_write32 vm_read32 store32 holds_below
  func_0002761c_lem = (
    built,
    refl,
    λ k h. (==_iff _ _).0 (
        holds_below_lem (λ i. vm_read32 built.machine.mem (0x27F7F4 + i * 4) == word_of_object i) 14
          k h refl),
    λ a o. ground arith,
  )
