-- ===== src/Spu/Invariant/Cases/Shift.antt =====
-- The element shifts keep the invariant.
use dbz_budokai_hd.Spu.Invariant.Keeps.{Keeps, All, nil, ◌&◌, words-Keeps, halves-Keeps}
use dbz_budokai_hd.Spu.Invariant.Blocks.{}
use dbz_budokai_hd.Spu.Isa.Rr.Shift.{
  rot, roth, rothi, rothm, rothmi, roti, rotm, rotma, rotmah, rotmahi, rotmai, rotmi, shift_cases,
  shl, shlh, shlhi, shli,
}

pub shift_cases-Keeps : All Keeps shift_cases
unfolding rot rotm rotma shl roth rothm rotmah shlh roti rotmi rotmai shli rothi rothmi rotmahi
    shlhi
shift_cases-Keeps =
    words-Keeps _ _
    & words-Keeps _ _
    & words-Keeps _ _
    & words-Keeps _ _
    & halves-Keeps _ _
    & halves-Keeps _ _
    & halves-Keeps _ _
    & halves-Keeps _ _
    & words-Keeps _ _
    & words-Keeps _ _
    & words-Keeps _ _
    & words-Keeps _ _
    & halves-Keeps _ _
    & halves-Keeps _ _
    & halves-Keeps _ _
    & halves-Keeps _ _
    & nil
