-- ===== src/Spu/Isa/Ri16.antt =====
-- spu_interp.cpp, `spu_step`: the RI18 and RI16 formats.
use dbz_budokai_hd.Common.{ℕ, Bool, ◌-◌, ◌==◌, not, if◌then◌else◌, bit_or}
use dbz_budokai_hd.Common.{some, List, [], ◌∷◌, update}
use dbz_budokai_hd.Common.Words.{u16, u32, add32, low_bits, test_bit, mask8, ◌<<<◌}
use dbz_budokai_hd.Spu.Context.{Ctx}
use dbz_budokai_hd.Spu.Reg.{for_words, for_halves, for_bytes}
use dbz_budokai_hd.Spu.LocalStore.{quad_addr, ls_read128, ls_write128}
use dbz_budokai_hd.Spu.Isa.Fields.{f_rt, f_i16, f_i16u, f_i18, sign_ext16}
use dbz_budokai_hd.Spu.Isa.Handler.{Handler, RegOp, on_gpr, no_effect, gw, preferred}

unfoldable pub ila : RegOp
ila i R = for_words (f_rt i) (λ S k. f_i18 i) R

-- switch (op7)
abbrev pub ri18_cases : List (ℕ × Handler)
ri18_cases = (0x21, on_gpr ila) ∷ (0x08, no_effect) ∷ (0x09, no_effect) ∷ []

-- (pc + (F_I16 << 2)) & (SPU_LS_SIZE - 1), and the absolute (F_I16U << 2) & (SPU_LS_SIZE - 1)
unfoldable pub relative : ℕ → ℕ → ℕ
relative pc i = low_bits 18 (add32 pc (u32 (f_i16 i <<< 2)))

unfoldable pub absolute : ℕ → ℕ
absolute i = low_bits 18 (f_i16u i <<< 2)

abbrev pub jump_if : Bool → ℕ → Ctx → Ctx
jump_if b target c = if b then record c { pc = target } else c

unfoldable pub brz : Handler
unfolding relative
brz i pc c = some (jump_if (gw c.gpr (f_rt i) 0 == 0) (relative pc i) c)

unfoldable pub brnz : Handler
unfolding relative
brnz i pc c = some (jump_if (not (gw c.gpr (f_rt i) 0 == 0)) (relative pc i) c)

unfoldable pub brhz : Handler
unfolding relative
brhz i pc c = some (jump_if (low_bits 16 (gw c.gpr (f_rt i) 0) == 0) (relative pc i) c)

unfoldable pub brhnz : Handler
unfolding relative
brhnz i pc c = some (jump_if (not (low_bits 16 (gw c.gpr (f_rt i) 0) == 0)) (relative pc i) c)

unfoldable pub stqa : Handler
unfolding absolute
stqa i pc c = some (record c { ls = ls_write128 c.ls (quad_addr (absolute i)) (c.gpr (f_rt i)) })

unfoldable pub stqr : Handler
unfolding relative
stqr i pc c = some (record c { ls = ls_write128 c.ls (quad_addr (relative pc i)) (c.gpr (f_rt i)) })

unfoldable pub lqa : Handler
unfolding absolute
lqa i pc c = some (record c {
  gpr = update c.gpr (f_rt i) (ls_read128 c.ls (quad_addr (absolute i)) (c.gpr (f_rt i)));
})

unfoldable pub lqr : Handler
unfolding relative
lqr i pc c = some (record c {
  gpr = update c.gpr (f_rt i) (ls_read128 c.ls (quad_addr (relative pc i)) (c.gpr (f_rt i)));
})

unfoldable pub bra : Handler
unfolding absolute
bra i pc c = some (record c { pc = absolute i })

-- The link is the next address.
unfoldable pub brasl : Handler
unfolding absolute
brasl i pc c = some (record c { gpr = update c.gpr (f_rt i) (preferred c.pc); pc = absolute i })

unfoldable pub br : Handler
unfolding relative
br i pc c = some (record c { pc = relative pc i })

unfoldable pub brsl : Handler
unfolding relative
brsl i pc c = some (record c { gpr = update c.gpr (f_rt i) (preferred c.pc); pc = relative pc i })

unfoldable pub fsmbi : RegOp
fsmbi i R = for_bytes (f_rt i) (λ S k. mask8 (test_bit (15 - k) (f_i16u i))) R

unfoldable pub il : RegOp
il i R = for_words (f_rt i) (λ S k. sign_ext16 (f_i16u i)) R

unfoldable pub ilhu : RegOp
ilhu i R = for_words (f_rt i) (λ S k. f_i16u i <<< 16) R

unfoldable pub ilh : RegOp
ilh i R = for_halves (f_rt i) (λ S k. u16 (f_i16u i)) R

unfoldable pub iohl : RegOp
iohl i R = for_words (f_rt i) (λ S k. bit_or (gw S (f_rt i) k) (f_i16u i)) R

-- switch (op9)
abbrev pub ri16_cases : List (ℕ × Handler)
ri16_cases =
    (0x040, brz)
    ∷ (0x042, brnz)
    ∷ (0x044, brhz)
    ∷ (0x046, brhnz)
    ∷ (0x041, stqa)
    ∷ (0x047, stqr)
    ∷ (0x061, lqa)
    ∷ (0x067, lqr)
    ∷ (0x060, bra)
    ∷ (0x062, brasl)
    ∷ (0x064, br)
    ∷ (0x066, brsl)
    ∷ (0x065, on_gpr fsmbi)
    ∷ (0x081, on_gpr il)
    ∷ (0x082, on_gpr ilhu)
    ∷ (0x083, on_gpr ilh)
    ∷ (0x0C1, on_gpr iohl)
    ∷ []
