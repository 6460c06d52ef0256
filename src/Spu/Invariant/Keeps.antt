-- ===== src/Spu/Invariant/Keeps.antt =====
-- What every instruction keeps, and the instructions that change registers alone.
use dbz_budokai_hd.Common.{ℕ, none, ◌+◌, ◌≤◌, ◌<◌, Option, ◌≡◌, refl, some, List, [], ◌∷◌}
use dbz_budokai_hd.Common.{update}
use dbz_budokai_hd.Spu.Context.{Ctx, ls_size}
use dbz_budokai_hd.Spu.Mfc.{dma_lsa, dma_size, dma_ea}
use dbz_budokai_hd.Spu.Reg.{Reg, Gpr, for_words, for_halves, for_bytes}
use dbz_budokai_hd.Spu.Mfc.Laws.{IsProtected}
use dbz_budokai_hd.Spu.Isa.Handler.{Handler, RegOp, on_gpr, no_effect}
use dbz_budokai_hd.Spu.Invariant.{IsValid, AreBytes, AreByteRegs}
use dbz_budokai_hd.Spu.Invariant.Channels.{gpr-IsValid}
use dbz_budokai_hd.Spu.Invariant.Blocks.{
  for_words-AreBytes, for_halves-AreBytes, for_bytes-AreBytes, update-AreBytes,
}

-- What holds of the context `d` that an instruction makes of `c`.
pub record After (c d : Ctx) : Type 0 where
  pub valid : IsValid d
  pub protected : (a : ℕ) → IsProtected a → d.vm a ≡ c.vm a
  pub same_id : d.id ≡ c.id
  pub same_count : d.insn_count ≡ c.insn_count

-- The DMA command that the registers of the MFC describe stays inside the local store, and is none
-- from one part of it to another.
abbrev pub Fits : Ctx → Type 0
Fits c = (dma_lsa c + dma_size c ≤ ls_size) × (dma_ea c < 0xFE000000)

-- An instruction ends in a context as above, or it has started a command that does not fit.
pub data Effect (c : Ctx) : Option Ctx → Type 0 where
  stuck : ¬ Fits c → Effect c none
  makes : {d : Ctx} → After c d → Effect c (some d)

abbrev pub Keeps : Handler → Type 0
Keeps h = (i pc : ℕ) (c : Ctx) → IsValid c → Effect c (h i pc c)

-- It holds of the handler of each case.
infixr 5 ◌&◌
pub data All (P : Handler → Type 0) : List (ℕ × Handler) → Type 0 where
  nil : All P []
  ◌&◌ :
      {label : ℕ} {h : Handler} {cases : List (ℕ × Handler)}
      → P h
      → All P cases
      → All P ((label, h) ∷ cases)

-- An instruction that leaves the main memory, the identifier and the count alone.
pub local :
    (c d : Ctx)
    → IsValid d
    → d.vm ≡ c.vm
    → d.id ≡ c.id
    → d.insn_count ≡ c.insn_count
    → Effect c (some d)
local c d v m e n =
    makes (record { valid = v; protected = λ a p i. m i a; same_id = e; same_count = n })

pub no_effect-Keeps : Keeps no_effect
no_effect-Keeps i pc c v = local c c v refl refl refl

pub on_gpr-Keeps :
    (f : RegOp) → ((i : ℕ) (R : Gpr) → AreByteRegs R → AreByteRegs (f i R)) → Keeps (on_gpr f)
on_gpr-Keeps f k i pc c v =
    local c (record c { gpr = f i c.gpr }) (gpr-IsValid c (f i c.gpr) (k i c.gpr v.gpr) v) refl refl
      refl

module _ (t : ℕ → ℕ) (f : ℕ → Gpr → ℕ → ℕ) where
  pub words-Keeps : Keeps (on_gpr (λ i R. for_words (t i) (f i) R))
  words-Keeps = on_gpr-Keeps _ (λ i R h. for_words-AreBytes (t i) (f i) R h)

  pub halves-Keeps : Keeps (on_gpr (λ i R. for_halves (t i) (f i) R))
  halves-Keeps = on_gpr-Keeps _ (λ i R h. for_halves-AreBytes (t i) (f i) R h)

  pub bytes-Keeps : Keeps (on_gpr (λ i R. for_bytes (t i) (f i) R))
  bytes-Keeps = on_gpr-Keeps _ (λ i R h. for_bytes-AreBytes (t i) (f i) R h)

pub register-Keeps :
    (t : ℕ → ℕ) (f : ℕ → Gpr → Reg)
    → ((i : ℕ) (R : Gpr) → AreByteRegs R → AreBytes (f i R))
    → Keeps (on_gpr (λ i R. update R (t i) (f i R)))
register-Keeps t f k = on_gpr-Keeps _ (λ i R h. update-AreBytes (t i) (f i R) R (k i R h) h)
