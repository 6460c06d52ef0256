-- ===== src/Spu/Isa/Rr/Compare.antt =====
-- spu_interp.cpp, `spu_step`, RR format: comparisons.
use dbz_budokai_hd.Common.{ℕ, ◌==◌, ltb, List, [], ◌∷◌}
use dbz_budokai_hd.Common.Int.{ltb_ℤ}
use dbz_budokai_hd.Common.Words.{signed, mask8, mask16, mask32}
use dbz_budokai_hd.Spu.Reg.{get_h, for_words, for_halves, for_bytes}
use dbz_budokai_hd.Spu.Isa.Fields.{f_rt, f_ra, f_rb}
use dbz_budokai_hd.Spu.Isa.Handler.{Handler, RegOp, on_gpr, no_effect, gw}

unfoldable pub ceq : RegOp
ceq i R = for_words (f_rt i) (λ S k. mask32 (gw S (f_ra i) k == gw S (f_rb i) k)) R

unfoldable pub ceqh : RegOp
ceqh i R = for_halves (f_rt i) (λ S k. mask16 (get_h (S (f_ra i)) k == get_h (S (f_rb i)) k)) R

unfoldable pub ceqb : RegOp
ceqb i R = for_bytes (f_rt i) (λ S k. mask8 (S (f_ra i) k == S (f_rb i) k)) R

unfoldable pub cgt : RegOp
cgt i R =
    for_words (f_rt i)
      (λ S k. mask32 (ltb_ℤ (signed 32 (gw S (f_rb i) k)) (signed 32 (gw S (f_ra i) k)))) R

unfoldable pub cgth : RegOp
cgth i R =
    for_halves (f_rt i)
      (λ S k. mask16 (ltb_ℤ (signed 16 (get_h (S (f_rb i)) k)) (signed 16 (get_h (S (f_ra i)) k))))
      R

unfoldable pub cgtb : RegOp
cgtb i R =
    for_bytes (f_rt i) (λ S k. mask8 (ltb_ℤ (signed 8 (S (f_rb i) k)) (signed 8 (S (f_ra i) k)))) R

unfoldable pub clgt : RegOp
clgt i R = for_words (f_rt i) (λ S k. mask32 (ltb (gw S (f_rb i) k) (gw S (f_ra i) k))) R

unfoldable pub clgth : RegOp
clgth i R =
    for_halves (f_rt i) (λ S k. mask16 (ltb (get_h (S (f_rb i)) k) (get_h (S (f_ra i)) k))) R

unfoldable pub clgtb : RegOp
clgtb i R = for_bytes (f_rt i) (λ S k. mask8 (ltb (S (f_rb i) k) (S (f_ra i) k))) R

-- The halts are ignored.
abbrev pub compare_cases : List (ℕ × Handler)
compare_cases =
    (0x3C0, on_gpr ceq)
    ∷ (0x3C8, on_gpr ceqh)
    ∷ (0x3D0, on_gpr ceqb)
    ∷ (0x240, on_gpr cgt)
    ∷ (0x248, on_gpr cgth)
    ∷ (0x250, on_gpr cgtb)
    ∷ (0x2C0, on_gpr clgt)
    ∷ (0x2C8, on_gpr clgth)
    ∷ (0x2D0, on_gpr clgtb)
    ∷ (0x258, no_effect)
    ∷ (0x2D8, no_effect)
    ∷ (0x3D8, no_effect)
    ∷ []
