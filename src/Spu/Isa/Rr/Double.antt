-- ===== src/Spu/Isa/Rr/Double.antt =====
-- spu_interp.cpp, `spu_step`, RR format: double precision.
use dbz_budokai_hd.Common.{ℕ, Bool, ◌+◌, ◌*◌, List, [], ◌∷◌, for_range}
use dbz_budokai_hd.Common.Words.{mask32}
use dbz_budokai_hd.Spu.Reg.{set_w}
use dbz_budokai_hd.Spu.Isa.Fields.{f_rt, f_ra, f_rb}
use dbz_budokai_hd.Spu.Isa.Handler.{Handler, RegOp, on_gpr, no_effect, gw}
use dbz_budokai_hd.Spu.Reg.{Gpr, modify}
use dbz_budokai_hd.Spu.Isa.Floats.{Floats, get_d, set_d}

-- for (i = 0; i < 2; i++) set_d(&R[t], i, f(R, i)), in place
unfoldable pub for_doubles : ℕ → (Gpr → ℕ → ℕ) → Gpr → Gpr
unfolding for_range
for_doubles t f R = for_range 2 0 (λ k S. modify t (λ r. set_d r k (f S k)) S) R

-- Both words of double k become the mask m.
unfoldable pub for_double_masks : ℕ → (Gpr → ℕ → Bool) → Gpr → Gpr
unfolding for_range
for_double_masks t f R =
    for_range 2 0
      (λ k S. let m = mask32 (f S k) in modify t (λ r. set_w (set_w r (2 * k) m) (2 * k + 1) m) S) R

module _ (F : Floats) where
  open F use {f64_add, f64_sub, f64_mul, f64_neg, f64_abs, f64_eq, f64_gt, f64_of_f32, f32_of_f64}

  unfoldable pub dfa : RegOp
  dfa i R = for_doubles (f_rt i) (λ S k. f64_add (get_d (S (f_ra i)) k) (get_d (S (f_rb i)) k)) R

  unfoldable pub dfs : RegOp
  dfs i R = for_doubles (f_rt i) (λ S k. f64_sub (get_d (S (f_ra i)) k) (get_d (S (f_rb i)) k)) R

  unfoldable pub dfm : RegOp
  dfm i R = for_doubles (f_rt i) (λ S k. f64_mul (get_d (S (f_ra i)) k) (get_d (S (f_rb i)) k)) R

  unfoldable pub dfma : RegOp
  dfma i R =
      for_doubles (f_rt i)
        (λ S k.
          f64_add (f64_mul (get_d (S (f_ra i)) k) (get_d (S (f_rb i)) k)) (get_d (S (f_rt i)) k))
        R

  unfoldable pub dfms : RegOp
  dfms i R =
      for_doubles (f_rt i)
        (λ S k.
          f64_sub (f64_mul (get_d (S (f_ra i)) k) (get_d (S (f_rb i)) k)) (get_d (S (f_rt i)) k))
        R

  unfoldable pub dfnms : RegOp
  dfnms i R =
      for_doubles (f_rt i)
        (λ S k.
          f64_sub (get_d (S (f_rt i)) k) (f64_mul (get_d (S (f_ra i)) k) (get_d (S (f_rb i)) k)))
        R

  unfoldable pub dfnma : RegOp
  dfnma i R =
      for_doubles (f_rt i)
        (λ S k.
          f64_neg (
            f64_add (f64_mul (get_d (S (f_ra i)) k) (get_d (S (f_rb i)) k)) (get_d (S (f_rt i)) k)))
        R

  unfoldable pub dfceq : RegOp
  dfceq i R =
      for_double_masks (f_rt i) (λ S k. f64_eq (get_d (S (f_ra i)) k) (get_d (S (f_rb i)) k)) R

  unfoldable pub dfcmeq : RegOp
  dfcmeq i R =
      for_double_masks (f_rt i)
        (λ S k. f64_eq (f64_abs (get_d (S (f_ra i)) k)) (f64_abs (get_d (S (f_rb i)) k))) R

  unfoldable pub dfcgt : RegOp
  dfcgt i R =
      for_double_masks (f_rt i) (λ S k. f64_gt (get_d (S (f_ra i)) k) (get_d (S (f_rb i)) k)) R

  unfoldable pub dfcmgt : RegOp
  dfcmgt i R =
      for_double_masks (f_rt i)
        (λ S k. f64_gt (f64_abs (get_d (S (f_ra i)) k)) (f64_abs (get_d (S (f_rb i)) k))) R

  -- Both floats, and below both doubles, are read before the first write.
  unfoldable pub fesd : RegOp
  fesd i R =
      let d₀ = f64_of_f32 (gw R (f_ra i) 0) in
      let d₁ = f64_of_f32 (gw R (f_ra i) 2) in modify (f_rt i) (λ r. set_d (set_d r 0 d₀) 1 d₁) R

  unfoldable pub frds : RegOp
  frds i R =
      let f₀ = f32_of_f64 (get_d (R (f_ra i)) 0) in
      let f₁ = f32_of_f64 (get_d (R (f_ra i)) 1) in
      modify (f_rt i) (λ r. set_w (set_w (set_w (set_w r 0 f₀) 1 0) 2 f₁) 3 0) R

  abbrev pub double_cases : List (ℕ × Handler)
  double_cases =
      (0x2CC, on_gpr dfa)
      ∷ (0x2CD, on_gpr dfs)
      ∷ (0x2CE, on_gpr dfm)
      ∷ (0x35C, on_gpr dfma)
      ∷ (0x35D, on_gpr dfms)
      ∷ (0x35E, on_gpr dfnms)
      ∷ (0x35F, on_gpr dfnma)
      ∷ (0x3C3, on_gpr dfceq)
      ∷ (0x3CB, on_gpr dfcmeq)
      ∷ (0x2C3, on_gpr dfcgt)
      ∷ (0x2CB, on_gpr dfcmgt)
      ∷ (0x3BF, no_effect)
      ∷ (0x3B8, on_gpr fesd)
      ∷ (0x3B9, on_gpr frds)
      ∷ []
