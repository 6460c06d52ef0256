-- ===== src/Spu/Isa/Rr/Single.antt =====
-- spu_interp.cpp, `spu_step`, RR format: single precision, and conversions with integers.
use dbz_budokai_hd.Common.{ℕ, if◌then◌else◌, List, [], ◌∷◌, update}
use dbz_budokai_hd.Common.Int.{sub_ℕ}
use dbz_budokai_hd.Common.Words.{mask32}
use dbz_budokai_hd.Spu.Reg.{for_words, zero_reg}
use dbz_budokai_hd.Spu.Isa.Fields.{f_rt, f_ra, f_rb, f_i8}
use dbz_budokai_hd.Spu.Isa.Handler.{Handler, RegOp, on_gpr, no_effect, gw}
use dbz_budokai_hd.Spu.Isa.Floats.{Floats}

-- 0.f and 1.f; then 2147483647.0, -2147483648.0, 4294967295.0 and 0.0
abbrev pub f32_zero : ℕ
f32_zero = 0

abbrev pub f32_one : ℕ
f32_one = 0x3F800000

abbrev pub f64_int_max : ℕ
f64_int_max = 0x41DFFFFFFFC00000

abbrev pub f64_int_min : ℕ
f64_int_min = 0xC1E0000000000000

abbrev pub f64_uint_max : ℕ
f64_uint_max = 0x41EFFFFFFFE00000

abbrev pub f64_zero : ℕ
f64_zero = 0

-- `fi` passes RB through.
unfoldable pub fi : RegOp
fi i R = update R (f_rt i) (R (f_rb i))

unfoldable pub fscrrd : RegOp
fscrrd i R = update R (f_rt i) zero_reg

module _ (F : Floats) where
  open F use {
    f32_add, f32_sub, f32_mul, f32_div, f32_sqrt, f32_abs, f32_eq, f32_gt, f64_mul, f64_gt, f64_ge,
    f64_exp2, f64_of_f32, f32_of_f64, f64_of_i32, f64_of_u32, i32_of_f64, u32_of_f64,
  }

  unfoldable pub fa : RegOp
  fa i R = for_words (f_rt i) (λ S k. f32_add (gw S (f_ra i) k) (gw S (f_rb i) k)) R

  unfoldable pub fs : RegOp
  fs i R = for_words (f_rt i) (λ S k. f32_sub (gw S (f_ra i) k) (gw S (f_rb i) k)) R

  unfoldable pub fm : RegOp
  fm i R = for_words (f_rt i) (λ S k. f32_mul (gw S (f_ra i) k) (gw S (f_rb i) k)) R

  unfoldable pub fceq : RegOp
  fceq i R = for_words (f_rt i) (λ S k. mask32 (f32_eq (gw S (f_ra i) k) (gw S (f_rb i) k))) R

  unfoldable pub fcmeq : RegOp
  fcmeq i R =
      for_words (f_rt i)
        (λ S k. mask32 (f32_eq (f32_abs (gw S (f_ra i) k)) (f32_abs (gw S (f_rb i) k)))) R

  unfoldable pub fcgt : RegOp
  fcgt i R = for_words (f_rt i) (λ S k. mask32 (f32_gt (gw S (f_ra i) k) (gw S (f_rb i) k))) R

  unfoldable pub fcmgt : RegOp
  fcmgt i R =
      for_words (f_rt i)
        (λ S k. mask32 (f32_gt (f32_abs (gw S (f_ra i) k)) (f32_abs (gw S (f_rb i) k)))) R

  -- v ≠ 0 ? 1 / v : 0
  unfoldable pub frest : RegOp
  frest i R =
      for_words (f_rt i)
        (λ S k.
          if f32_eq (gw S (f_ra i) k) f32_zero then f32_zero else f32_div f32_one (gw S (f_ra i) k))
        R

  unfoldable pub frsqest : RegOp
  frsqest i R =
      for_words (f_rt i)
        (λ S k.
          let v = f32_abs (gw S (f_ra i) k) in
          if f32_gt v f32_zero then f32_div f32_one (f32_sqrt v) else f32_zero)
        R

  -- A value of at least the largest integer, or at most the least one, is clamped.
  abbrev pub to_i32 : ℕ → ℕ
  to_i32 v =
      if f64_ge v f64_int_max
      then 0x7FFFFFFF
      else if f64_ge f64_int_min v
      then 0x80000000
      else i32_of_f64 v

  abbrev pub to_u32 : ℕ → ℕ
  to_u32 v =
      if f64_ge v f64_uint_max then 0xFFFFFFFF else if f64_gt f64_zero v then 0 else u32_of_f64 v

  unfoldable pub cflts : RegOp
  cflts i R =
      let sc = f64_exp2 (sub_ℕ 173 (f_i8 i)) in
      for_words (f_rt i) (λ S k. to_i32 (f64_mul (f64_of_f32 (gw S (f_ra i) k)) sc)) R

  unfoldable pub cfltu : RegOp
  cfltu i R =
      let sc = f64_exp2 (sub_ℕ 173 (f_i8 i)) in
      for_words (f_rt i) (λ S k. to_u32 (f64_mul (f64_of_f32 (gw S (f_ra i) k)) sc)) R

  unfoldable pub csflt : RegOp
  csflt i R =
      let sc = f64_exp2 (sub_ℕ (f_i8 i) 155) in
      for_words (f_rt i) (λ S k. f32_of_f64 (f64_mul (f64_of_i32 (gw S (f_ra i) k)) sc)) R

  unfoldable pub cuflt : RegOp
  cuflt i R =
      let sc = f64_exp2 (sub_ℕ (f_i8 i) 155) in
      for_words (f_rt i) (λ S k. f32_of_f64 (f64_mul (f64_of_u32 (gw S (f_ra i) k)) sc)) R

  abbrev pub single_cases : List (ℕ × Handler)
  single_cases =
      (0x2C4, on_gpr fa)
      ∷ (0x2C5, on_gpr fs)
      ∷ (0x2C6, on_gpr fm)
      ∷ (0x3C2, on_gpr fceq)
      ∷ (0x3CA, on_gpr fcmeq)
      ∷ (0x2C2, on_gpr fcgt)
      ∷ (0x2CA, on_gpr fcmgt)
      ∷ (0x3D4, on_gpr fi)
      ∷ (0x1B8, on_gpr frest)
      ∷ (0x1B9, on_gpr frsqest)
      ∷ (0x398, on_gpr fscrrd)
      ∷ (0x3BA, no_effect)
      ∷ []

  abbrev pub conversion_cases : List (ℕ × Handler)
  conversion_cases =
      (0x3B0, on_gpr cflts)
      ∷ (0x3B1, on_gpr cflts)
      ∷ (0x3B2, on_gpr cfltu)
      ∷ (0x3B3, on_gpr cfltu)
      ∷ (0x3B4, on_gpr csflt)
      ∷ (0x3B5, on_gpr csflt)
      ∷ (0x3B6, on_gpr cuflt)
      ∷ (0x3B7, on_gpr cuflt)
      ∷ []
