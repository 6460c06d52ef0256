-- ===== src/Spu/Invariant/Cases/Ri10.antt =====
-- The instructions of the RI10 format keep the invariant.
use dbz_budokai_hd.Spu.Invariant.Keeps.{
  Keeps, All, nil, ◌&◌, no_effect-Keeps, words-Keeps, halves-Keeps, bytes-Keeps,
}
use dbz_budokai_hd.Spu.Invariant.Blocks.{}
use dbz_budokai_hd.Spu.Isa.Ri10.{
  ahi, ai, andbi, andhi, andi, ceqbi, ceqhi, ceqi, cgtbi, cgthi, cgti, clgtbi, clgthi, clgti, lqd,
  mpyi, mpyui, orbi, orhi, ori, ri10_cases, sfhi, sfi, stqd, xorbi, xorhi, xori,
}
use dbz_budokai_hd.Spu.Invariant.Moves.{load_lem, store_lem}
use dbz_budokai_hd.Spu.Isa.Fields.{f_rt}

lqd-Keeps : Keeps lqd
unfolding lqd
lqd-Keeps i pc c v = load_lem c v (f_rt i) _

stqd-Keeps : Keeps stqd
unfolding stqd
stqd-Keeps i pc c v = store_lem c v (f_rt i) _

pub ri10_cases-Keeps : All Keeps ri10_cases
unfolding ai sfi ahi sfhi andi andhi andbi ori orhi orbi xori xorhi xorbi ceqi ceqhi ceqbi cgti
    cgthi cgtbi clgti clgthi clgtbi mpyi mpyui
ri10_cases-Keeps =
    lqd-Keeps
    & stqd-Keeps
    & words-Keeps _ _
    & words-Keeps _ _
    & halves-Keeps _ _
    & halves-Keeps _ _
    & words-Keeps _ _
    & halves-Keeps _ _
    & bytes-Keeps _ _
    & words-Keeps _ _
    & halves-Keeps _ _
    & bytes-Keeps _ _
    & words-Keeps _ _
    & halves-Keeps _ _
    & bytes-Keeps _ _
    & words-Keeps _ _
    & halves-Keeps _ _
    & bytes-Keeps _ _
    & words-Keeps _ _
    & halves-Keeps _ _
    & bytes-Keeps _ _
    & words-Keeps _ _
    & halves-Keeps _ _
    & bytes-Keeps _ _
    & words-Keeps _ _
    & words-Keeps _ _
    & no_effect-Keeps
    & no_effect-Keeps
    & no_effect-Keeps
    & nil
