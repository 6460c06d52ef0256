-- ===== src/Spu/Invariant/Cases/Count.antt =====
-- The instructions that count and gather keep the invariant.
use dbz_budokai_hd.Spu.Invariant.Keeps.{
  Keeps, All, nil, ◌&◌, on_gpr-Keeps, words-Keeps, halves-Keeps, bytes-Keeps, register-Keeps,
}
use dbz_budokai_hd.Spu.Invariant.Blocks.{
  of_words-AreBytes, preferred-AreBytes, for_words-AreBytes, for_halves-AreBytes,
  for_bytes-AreBytes,
}
use dbz_budokai_hd.Spu.Isa.Rr.Count.{
  clz, cntb, count_cases, fsm, fsmb, fsmh, gb, gbb, gbh, xsbh, xshw, xswd,
}

pub count_cases-Keeps : All Keeps count_cases
unfolding clz cntb xsbh xshw xswd gb gbh gbb fsm fsmh fsmb
count_cases-Keeps =
    words-Keeps _ _
    & bytes-Keeps _ _
    & halves-Keeps _ _
    & words-Keeps _ _
    & register-Keeps _ _ (λ i R h. of_words-AreBytes _)
    & register-Keeps _ _ (λ i R h. preferred-AreBytes _)
    & register-Keeps _ _ (λ i R h. preferred-AreBytes _)
    & register-Keeps _ _ (λ i R h. preferred-AreBytes _)
    & on_gpr-Keeps _ (λ i R h. for_words-AreBytes _ _ R h)
    & on_gpr-Keeps _ (λ i R h. for_halves-AreBytes _ _ R h)
    & on_gpr-Keeps _ (λ i R h. for_bytes-AreBytes _ _ R h)
    & nil
