-- ===== src/Spu/Invariant/Cases/Arithmetic.antt =====
-- The integer arithmetic instructions keep the invariant.
use dbz_budokai_hd.Spu.Invariant.Keeps.{
  Keeps, All, nil, ◌&◌, words-Keeps, halves-Keeps, bytes-Keeps, register-Keeps,
}
use dbz_budokai_hd.Spu.Invariant.Blocks.{of_halves-AreBytes}
use dbz_budokai_hd.Spu.Isa.Rr.Arithmetic.{
  absdb, addx, ah, arithmetic_cases, avgb, bg, bgx, cg, cgx, rr_a, sf, sfh, sfx, sumb,
}

pub arithmetic_cases-Keeps : All Keeps arithmetic_cases
unfolding rr_a sf ah sfh cg bg addx sfx cgx bgx absdb avgb sumb
arithmetic_cases-Keeps =
    words-Keeps _ _
    & words-Keeps _ _
    & halves-Keeps _ _
    & halves-Keeps _ _
    & words-Keeps _ _
    & words-Keeps _ _
    & words-Keeps _ _
    & words-Keeps _ _
    & words-Keeps _ _
    & words-Keeps _ _
    & bytes-Keeps _ _
    & bytes-Keeps _ _
    & register-Keeps _ _ (λ i R h. of_halves-AreBytes _)
    & nil
