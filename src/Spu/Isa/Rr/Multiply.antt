-- ===== src/Spu/Isa/Rr/Multiply.antt =====
-- spu_interp.cpp, `spu_step`, RR format: multiplication of halfwords into words.
use dbz_budokai_hd.Common.{ℕ, ◌*◌, List, [], ◌∷◌}
use dbz_budokai_hd.Common.Int.{◌*ℤ◌}
use dbz_budokai_hd.Common.Words.{u16, u32, add32, low_bits, signed, wrap, sar, ◌<<<◌, ◌>>>◌}
use dbz_budokai_hd.Spu.Reg.{for_words}
use dbz_budokai_hd.Spu.Isa.Fields.{f_rt, f_ra, f_rb}
use dbz_budokai_hd.Spu.Isa.Handler.{Handler, RegOp, on_gpr, gw}

-- (int16_t)(w & 0xFFFF) and (int16_t)(w >> 16), as patterns
abbrev pub lo : ℕ → ℕ
lo w = low_bits 16 w

abbrev pub hi : ℕ → ℕ
hi w = u16 (w >>> 16)

unfoldable pub mpy : RegOp
mpy i R =
    for_words (f_rt i)
      (λ S k. wrap 32 (signed 16 (lo (gw S (f_ra i) k)) *ℤ signed 16 (lo (gw S (f_rb i) k)))) R

unfoldable pub mpyu : RegOp
mpyu i R = for_words (f_rt i) (λ S k. u32 (lo (gw S (f_ra i) k) * lo (gw S (f_rb i) k))) R

unfoldable pub mpyh : RegOp
mpyh i R =
    for_words (f_rt i)
      (λ S k.
        u32 (wrap 32 (signed 16 (hi (gw S (f_ra i) k)) *ℤ signed 16 (lo (gw S (f_rb i) k))) <<< 16))
      R

unfoldable pub mpys : RegOp
mpys i R =
    for_words (f_rt i)
      (λ S k.
        sar 32 (wrap 32 (signed 16 (lo (gw S (f_ra i) k)) *ℤ signed 16 (lo (gw S (f_rb i) k)))) 16)
      R

unfoldable pub mpyhh : RegOp
mpyhh i R =
    for_words (f_rt i)
      (λ S k. wrap 32 (signed 16 (hi (gw S (f_ra i) k)) *ℤ signed 16 (hi (gw S (f_rb i) k)))) R

unfoldable pub mpyhhu : RegOp
mpyhhu i R = for_words (f_rt i) (λ S k. u32 (hi (gw S (f_ra i) k) * hi (gw S (f_rb i) k))) R

unfoldable pub mpyhha : RegOp
mpyhha i R =
    for_words (f_rt i)
      (λ S k.
        add32 (gw S (f_rt i) k)
          (wrap 32 (signed 16 (hi (gw S (f_ra i) k)) *ℤ signed 16 (hi (gw S (f_rb i) k)))))
      R

unfoldable pub mpyhhau : RegOp
mpyhhau i R =
    for_words (f_rt i)
      (λ S k. add32 (gw S (f_rt i) k) (u32 (hi (gw S (f_ra i) k) * hi (gw S (f_rb i) k)))) R

abbrev pub multiply_cases : List (ℕ × Handler)
multiply_cases =
    (0x3C4, on_gpr mpy)
    ∷ (0x3CC, on_gpr mpyu)
    ∷ (0x3C5, on_gpr mpyh)
    ∷ (0x3C7, on_gpr mpys)
    ∷ (0x3C6, on_gpr mpyhh)
    ∷ (0x3CE, on_gpr mpyhhu)
    ∷ (0x346, on_gpr mpyhha)
    ∷ (0x34E, on_gpr mpyhhau)
    ∷ []
