-- ===== src/Spu/Invariant/Cases/Compare.antt =====
-- The comparisons keep the invariant.
use dbz_budokai_hd.Spu.Invariant.Keeps.{
  Keeps, All, nil, ◌&◌, no_effect-Keeps, words-Keeps, halves-Keeps, bytes-Keeps,
}
use dbz_budokai_hd.Spu.Invariant.Blocks.{}
use dbz_budokai_hd.Spu.Isa.Rr.Compare.{
  ceq, ceqb, ceqh, cgt, cgtb, cgth, clgt, clgtb, clgth, compare_cases,
}

pub compare_cases-Keeps : All Keeps compare_cases
unfolding ceq ceqh ceqb cgt cgth cgtb clgt clgth clgtb
compare_cases-Keeps =
    words-Keeps _ _
    & halves-Keeps _ _
    & bytes-Keeps _ _
    & words-Keeps _ _
    & halves-Keeps _ _
    & bytes-Keeps _ _
    & words-Keeps _ _
    & halves-Keeps _ _
    & bytes-Keeps _ _
    & no_effect-Keeps
    & no_effect-Keeps
    & no_effect-Keeps
    & nil
