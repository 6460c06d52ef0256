-- ===== src/Spu/Invariant/Cases/Double.antt =====
-- The double-precision instructions keep the invariant.
use dbz_budokai_hd.Spu.Invariant.Keeps.{Keeps, All, nil, ◌&◌, no_effect-Keeps, on_gpr-Keeps}
use dbz_budokai_hd.Spu.Invariant.Blocks.{
  for_doubles-AreBytes, for_double_masks-AreBytes, modify-AreBytes, set_d-AreBytes,
}
use dbz_budokai_hd.Spu.Reg.Words.{set_w-IsBytes}
use dbz_budokai_hd.Spu.Isa.Fields.{f_ra}
use dbz_budokai_hd.Spu.Isa.Floats.{Floats}
use dbz_budokai_hd.Spu.Isa.Rr.Double.{
  dfa, dfceq, dfcgt, dfcmeq, dfcmgt, dfm, dfma, dfms, dfnma, dfnms, dfs, double_cases, fesd, frds,
}
use dbz_budokai_hd.Common.{ℕ}
use dbz_budokai_hd.Spu.Reg.{Gpr, set_w}
use dbz_budokai_hd.Spu.Isa.Fields.{f_rt}
use dbz_budokai_hd.Spu.Isa.Floats.{get_d, set_d}
use dbz_budokai_hd.Spu.Isa.Handler.{gw}
use dbz_budokai_hd.Spu.Invariant.{AreByteRegs}

module _ (F : Floats) where
  fesd-AreBytes : (i : ℕ) (R : Gpr) → AreByteRegs R → AreByteRegs (fesd F i R)
  unfolding fesd
  fesd-AreBytes i R h =
      let d₀ = F.f64_of_f32 (gw R (f_ra i) 0) in
      let d₁ = F.f64_of_f32 (gw R (f_ra i) 2) in
      modify-AreBytes (f_rt i) (λ r. set_d (set_d r 0 d₀) 1 d₁) R
        (λ r k. set_d-AreBytes 1 d₁ (set_d r 0 d₀) (set_d-AreBytes 0 d₀ r k)) h

  frds-AreBytes : (i : ℕ) (R : Gpr) → AreByteRegs R → AreByteRegs (frds F i R)
  unfolding frds
  frds-AreBytes i R h =
      let f₀ = F.f32_of_f64 (get_d (R (f_ra i)) 0) in
      let f₁ = F.f32_of_f64 (get_d (R (f_ra i)) 1) in
      modify-AreBytes (f_rt i) (λ r. set_w (set_w (set_w (set_w r 0 f₀) 1 0) 2 f₁) 3 0) R
        (λ r k. set_w-IsBytes 3 0 (set_w-IsBytes 2 f₁ (set_w-IsBytes 1 0 (set_w-IsBytes 0 f₀ k)))) h

  pub double_cases-Keeps : All Keeps (double_cases F)
  unfolding dfa dfs dfm dfma dfms dfnms dfnma dfceq dfcmeq dfcgt dfcmgt
  double_cases-Keeps =
      on_gpr-Keeps _ (λ i R h. for_doubles-AreBytes _ _ R h)
      & on_gpr-Keeps _ (λ i R h. for_doubles-AreBytes _ _ R h)
      & on_gpr-Keeps _ (λ i R h. for_doubles-AreBytes _ _ R h)
      & on_gpr-Keeps _ (λ i R h. for_doubles-AreBytes _ _ R h)
      & on_gpr-Keeps _ (λ i R h. for_doubles-AreBytes _ _ R h)
      & on_gpr-Keeps _ (λ i R h. for_doubles-AreBytes _ _ R h)
      & on_gpr-Keeps _ (λ i R h. for_doubles-AreBytes _ _ R h)
      & on_gpr-Keeps _ (λ i R h. for_double_masks-AreBytes _ _ R h)
      & on_gpr-Keeps _ (λ i R h. for_double_masks-AreBytes _ _ R h)
      & on_gpr-Keeps _ (λ i R h. for_double_masks-AreBytes _ _ R h)
      & on_gpr-Keeps _ (λ i R h. for_double_masks-AreBytes _ _ R h)
      & no_effect-Keeps
      & on_gpr-Keeps _ fesd-AreBytes
      & on_gpr-Keeps _ frds-AreBytes
      & nil
