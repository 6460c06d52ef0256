-- ===== src/Spu/Invariant/Cases/Multiply.antt =====
-- The multiplications keep the invariant.
use dbz_budokai_hd.Spu.Invariant.Keeps.{Keeps, All, nil, ◌&◌, words-Keeps}
use dbz_budokai_hd.Spu.Invariant.Blocks.{}
use dbz_budokai_hd.Spu.Isa.Rr.Multiply.{
  mpy, mpyh, mpyhh, mpyhha, mpyhhau, mpyhhu, mpys, mpyu, multiply_cases,
}

pub multiply_cases-Keeps : All Keeps multiply_cases
unfolding mpy mpyu mpyh mpys mpyhh mpyhhu mpyhha mpyhhau
multiply_cases-Keeps =
    words-Keeps _ _
    & words-Keeps _ _
    & words-Keeps _ _
    & words-Keeps _ _
    & words-Keeps _ _
    & words-Keeps _ _
    & words-Keeps _ _
    & words-Keeps _ _
    & nil
