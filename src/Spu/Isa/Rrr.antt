-- ===== src/Spu/Isa/Rrr.antt =====
-- spu_interp.cpp, `spu_step`: the RRR format, with its destination in the high field.
use dbz_budokai_hd.Common.{ℕ, bit_and, bit_or, List, [], ◌∷◌, update}
use dbz_budokai_hd.Common.Int.{◌+ℤ◌, ◌*ℤ◌}
use dbz_budokai_hd.Common.Words.{u8, not8, low_bits, signed, wrap}
use dbz_budokai_hd.Spu.Shuffle.{do_shufb}
use dbz_budokai_hd.Spu.Isa.Fields.{f_rt, f_ra, f_rb, f_rc}
use dbz_budokai_hd.Spu.Isa.Floats.{Floats}
use dbz_budokai_hd.Spu.Isa.Handler.{Handler, RegOp, on_gpr, gw, of_words}

unfoldable pub selb : RegOp
selb i R = update R (f_rc i) (λ k.
    u8 (
      bit_or (bit_and (R (f_rt i) k) (R (f_rb i) k))
        (bit_and (not8 (R (f_rt i) k)) (R (f_ra i) k))))

unfoldable pub shufb : RegOp
shufb i R = update R (f_rc i) (do_shufb (R (f_ra i)) (R (f_rb i)) (R (f_rt i)))

-- The signed sum is taken to wrap.
unfoldable pub mpya : RegOp
mpya i R = update R (f_rc i) (
    of_words λ k. wrap 32 (
      signed 16 (low_bits 16 (gw R (f_ra i) k)) *ℤ signed 16 (low_bits 16 (gw R (f_rb i) k))
      +ℤ signed 32 (gw R (f_rt i) k)))

module _ (F : Floats) where
  open F use {f32_add, f32_sub, f32_mul}

  unfoldable pub fnms : RegOp
  fnms i R =
      update R (f_rc i)
        (of_words λ k. f32_sub (gw R (f_rt i) k) (f32_mul (gw R (f_ra i) k) (gw R (f_rb i) k)))

  unfoldable pub fma : RegOp
  fma i R =
      update R (f_rc i)
        (of_words λ k. f32_add (f32_mul (gw R (f_ra i) k) (gw R (f_rb i) k)) (gw R (f_rt i) k))

  unfoldable pub fms : RegOp
  fms i R =
      update R (f_rc i)
        (of_words λ k. f32_sub (f32_mul (gw R (f_ra i) k) (gw R (f_rb i) k)) (gw R (f_rt i) k))

  -- switch (op4)
  abbrev pub rrr_cases : List (ℕ × Handler)
  rrr_cases =
      (0x8, on_gpr selb)
      ∷ (0xB, on_gpr shufb)
      ∷ (0xC, on_gpr mpya)
      ∷ (0xD, on_gpr fnms)
      ∷ (0xE, on_gpr fma)
      ∷ (0xF, on_gpr fms)
      ∷ []
