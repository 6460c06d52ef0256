-- ===== src/Spu/Invariant/Cases/Rrr.antt =====
-- The instructions of the RRR format keep the invariant.
use dbz_budokai_hd.Spu.Invariant.Keeps.{Keeps, All, nil, ◌&◌, register-Keeps}
use dbz_budokai_hd.Spu.Invariant.Blocks.{of_words-AreBytes, do_shufb-AreBytes}
use dbz_budokai_hd.Spu.Isa.Fields.{f_ra, f_rb}
use dbz_budokai_hd.Spu.Isa.Floats.{Floats}
use dbz_budokai_hd.Common.{arith}
use dbz_budokai_hd.Spu.Isa.Rrr.{fma, fms, fnms, mpya, rrr_cases, selb, shufb}

module _ (F : Floats) where
  pub rrr_cases-Keeps : All Keeps (rrr_cases F)
  unfolding selb shufb mpya fnms fma fms
  rrr_cases-Keeps =
      register-Keeps _ _ (λ i R h k. omega arith)
      & register-Keeps _ _ (λ i R h. do_shufb-AreBytes _ (h (f_ra i)) _ _ (h (f_rb i)))
      & register-Keeps _ _ (λ i R h. of_words-AreBytes _)
      & register-Keeps _ _ (λ i R h. of_words-AreBytes _)
      & register-Keeps _ _ (λ i R h. of_words-AreBytes _)
      & register-Keeps _ _ (λ i R h. of_words-AreBytes _)
      & nil
