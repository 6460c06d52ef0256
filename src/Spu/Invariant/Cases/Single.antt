-- ===== src/Spu/Invariant/Cases/Single.antt =====
-- The single-precision instructions keep the invariant.
use dbz_budokai_hd.Spu.Invariant.Keeps.{
  Keeps, All, nil, ◌&◌, no_effect-Keeps, words-Keeps, register-Keeps,
}
use dbz_budokai_hd.Spu.Invariant.Blocks.{zero_reg-AreBytes}
use dbz_budokai_hd.Spu.Isa.Fields.{f_rb}
use dbz_budokai_hd.Spu.Isa.Floats.{Floats}
use dbz_budokai_hd.Spu.Isa.Rr.Single.{
  cflts, cfltu, conversion_cases, csflt, cuflt, fa, fceq, fcgt, fcmeq, fcmgt, fi, fm, frest,
  frsqest, fs, fscrrd, single_cases,
}

module _ (F : Floats) where
  pub single_cases-Keeps : All Keeps (single_cases F)
  unfolding fa fs fm fceq fcmeq fcgt fcmgt fi frest frsqest fscrrd
  single_cases-Keeps =
      words-Keeps _ _
      & words-Keeps _ _
      & words-Keeps _ _
      & words-Keeps _ _
      & words-Keeps _ _
      & words-Keeps _ _
      & words-Keeps _ _
      & register-Keeps _ _ (λ i R h. h (f_rb i))
      & words-Keeps _ _
      & words-Keeps _ _
      & register-Keeps _ _ (λ i R h. zero_reg-AreBytes)
      & no_effect-Keeps
      & nil

  pub conversion_cases-Keeps : All Keeps (conversion_cases F)
  unfolding cflts cfltu csflt cuflt
  conversion_cases-Keeps =
      words-Keeps _ _
      & words-Keeps _ _
      & words-Keeps _ _
      & words-Keeps _ _
      & words-Keeps _ _
      & words-Keeps _ _
      & words-Keeps _ _
      & words-Keeps _ _
      & nil
