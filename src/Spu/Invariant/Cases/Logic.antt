-- ===== src/Spu/Invariant/Cases/Logic.antt =====
-- The logic instructions keep the invariant.
use dbz_budokai_hd.Spu.Invariant.Keeps.{Keeps, All, nil, ◌&◌, bytes-Keeps, register-Keeps}
use dbz_budokai_hd.Spu.Invariant.Blocks.{preferred-AreBytes}
use dbz_budokai_hd.Spu.Isa.Rr.Logic.{
  andc, eqv, logic_cases, nand, nor, orc, orx, rr_and, rr_or, rr_xor,
}

pub logic_cases-Keeps : All Keeps logic_cases
unfolding rr_and rr_or rr_xor nand nor andc orc eqv orx
logic_cases-Keeps =
    bytes-Keeps _ _
    & bytes-Keeps _ _
    & bytes-Keeps _ _
    & bytes-Keeps _ _
    & bytes-Keeps _ _
    & bytes-Keeps _ _
    & bytes-Keeps _ _
    & bytes-Keeps _ _
    & register-Keeps _ _ (λ i R h. preferred-AreBytes _)
    & nil
