-- ===== src/Spu/Tests/Elements.antt =====
-- Arithmetic and shuffles on concrete registers.
use dbz_budokai_hd.Common.{
  ℕ, refl, ◌≡◌, ◌+◌, ◌-◌, ◌*◌, ◌^◌, ◌&&◌, inl, inr, arith, leb, ltb, if◌then◌else◌,
}
use dbz_budokai_hd.Common.Words.{u8, u32, add32, low_bits}
use dbz_budokai_hd.Spu.Reg.{Gpr}
use dbz_budokai_hd.Spu.Shuffle.{do_shufb, gen_controls, slot}
use dbz_budokai_hd.Spu.Shuffle.Insert.{do_shufb-gen_controls}
use dbz_budokai_hd.Spu.Isa.Handler.{gw}
use dbz_budokai_hd.Spu.Isa.Rr.Multiply.{mpyh, mpyu}
use dbz_budokai_hd.Spu.Isa.Rr.Arithmetic.{rr_a, cg, addx, cgx}
use dbz_budokai_hd.Spu.Invariant.{AreByteRegs}
use dbz_budokai_hd.Spu.Meaning.Carry.{target, a-cg, addx-cgx}
use dbz_budokai_hd.Spu.Meaning.Product.{mpyh-mpyu}

-- Byte k of register r.
abbrev regs : Gpr
regs r k = u8 (200 * r + 77 * k + 131)

regs-AreByteRegs : AreByteRegs regs
regs-AreByteRegs r k = omega arith

-- The registers of an instruction word: RT 3, RA 4, RB 5; and RB 4, RA 5.
abbrev word_345 : ℕ
word_345 = 3 + 4 * 2 ^ 7 + 5 * 2 ^ 14

abbrev word_354 : ℕ
word_354 = 3 + 5 * 2 ^ 7 + 4 * 2 ^ 14

a-cg_example :
    target word_345 (rr_a word_345 regs) 2 + 2 ^ 32 * target word_345 (cg word_345 regs) 2
    ≡ gw regs 4 2 + gw regs 5 2
a-cg_example = a-cg word_345 regs 2 regs-AreByteRegs (omega arith)

do_shufb-gen_controls_example : do_shufb (regs 4) (regs 5) (gen_controls 0x17 4) 6 ≡ (
    if leb (slot 0x17 4) 6 && ltb 6 (slot 0x17 4 + 4) then regs 4 (6 - slot 0x17 4) else regs 5 6)
do_shufb-gen_controls_example =
    do_shufb-gen_controls (regs 4) (regs 5) 0x17 4 6 (inr (inr (inl refl))) (omega arith)

-- The target is one of the sources.

addx-cgx_example :
    target word_345 (addx word_345 regs) 1 + 2 ^ 32 * target word_345 (cgx word_345 regs) 1
    ≡ gw regs 4 1 + gw regs 5 1 + low_bits 1 (gw regs 3 1)
addx-cgx_example = addx-cgx word_345 regs 1 regs-AreByteRegs (omega arith)

mpyh-mpyu_example :
    add32
      (add32 (target word_345 (mpyh word_345 regs) 2) (target word_354 (mpyh word_354 regs) 2))
      (target word_345 (mpyu word_345 regs) 2)
    ≡ u32 (gw regs 4 2 * gw regs 5 2)
mpyh-mpyu_example =
    mpyh-mpyu word_345 word_354 word_345 regs 2 regs-AreByteRegs (omega arith) refl refl refl refl
