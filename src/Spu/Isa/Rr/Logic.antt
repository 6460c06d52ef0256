-- ===== src/Spu/Isa/Rr/Logic.antt =====
-- spu_interp.cpp, `spu_step`, RR format: bitwise logic, byte by byte.
use dbz_budokai_hd.Common.{ℕ, bit_and, bit_or, bit_xor, List, [], ◌∷◌, update}
use dbz_budokai_hd.Common.Words.{not8}
use dbz_budokai_hd.Spu.Reg.{for_bytes}
use dbz_budokai_hd.Spu.Isa.Fields.{f_rt, f_ra, f_rb}
use dbz_budokai_hd.Spu.Isa.Handler.{Handler, RegOp, on_gpr, gw, preferred}

unfoldable pub rr_and : RegOp
rr_and i R = for_bytes (f_rt i) (λ S k. bit_and (S (f_ra i) k) (S (f_rb i) k)) R

unfoldable pub rr_or : RegOp
rr_or i R = for_bytes (f_rt i) (λ S k. bit_or (S (f_ra i) k) (S (f_rb i) k)) R

unfoldable pub rr_xor : RegOp
rr_xor i R = for_bytes (f_rt i) (λ S k. bit_xor (S (f_ra i) k) (S (f_rb i) k)) R

unfoldable pub nand : RegOp
nand i R = for_bytes (f_rt i) (λ S k. not8 (bit_and (S (f_ra i) k) (S (f_rb i) k))) R

unfoldable pub nor : RegOp
nor i R = for_bytes (f_rt i) (λ S k. not8 (bit_or (S (f_ra i) k) (S (f_rb i) k))) R

unfoldable pub andc : RegOp
andc i R = for_bytes (f_rt i) (λ S k. bit_and (S (f_ra i) k) (not8 (S (f_rb i) k))) R

unfoldable pub orc : RegOp
orc i R = for_bytes (f_rt i) (λ S k. bit_or (S (f_ra i) k) (not8 (S (f_rb i) k))) R

unfoldable pub eqv : RegOp
eqv i R = for_bytes (f_rt i) (λ S k. not8 (bit_xor (S (f_ra i) k) (S (f_rb i) k))) R

unfoldable pub orx : RegOp
orx i R =
    let w = λ (k : ℕ). gw R (f_ra i) k in
    update R (f_rt i) (preferred (bit_or (bit_or (bit_or (w 0) (w 1)) (w 2)) (w 3)))

abbrev pub logic_cases : List (ℕ × Handler)
logic_cases =
    (0x0C1, on_gpr rr_and)
    ∷ (0x041, on_gpr rr_or)
    ∷ (0x241, on_gpr rr_xor)
    ∷ (0x0C9, on_gpr nand)
    ∷ (0x049, on_gpr nor)
    ∷ (0x2C1, on_gpr andc)
    ∷ (0x2C9, on_gpr orc)
    ∷ (0x249, on_gpr eqv)
    ∷ (0x1F0, on_gpr orx)
    ∷ []
