-- ===== src/Spu/Invariant/Cases/Ri16.antt =====
-- The instructions of the RI18 and RI16 formats keep the invariant.
use dbz_budokai_hd.Spu.Invariant.Keeps.{
  Keeps, All, nil, ◌&◌, no_effect-Keeps, words-Keeps, halves-Keeps, bytes-Keeps,
}
use dbz_budokai_hd.Spu.Invariant.Blocks.{}
use dbz_budokai_hd.Common.{arith}
use dbz_budokai_hd.Spu.Isa.Ri16.{
  absolute, br, bra, brasl, brhnz, brhz, brnz, brsl, brz, fsmbi, il, ila, ilh, ilhu, iohl, lqa, lqr,
  relative, ri16_cases, ri18_cases, stqa, stqr,
}
use dbz_budokai_hd.Spu.Invariant.Moves.{load_lem, store_lem, jump_lem, jump_if_lem, call_lem}
use dbz_budokai_hd.Common.{ℕ, ◌<◌, ◌^◌}
use dbz_budokai_hd.Spu.Isa.Fields.{f_rt}

relative-lt : (pc i : ℕ) → relative pc i < 2 ^ 18
unfolding relative
relative-lt pc i = omega arith

absolute-lt : (i : ℕ) → absolute i < 2 ^ 18
unfolding absolute
absolute-lt i = omega arith

brz-Keeps : Keeps brz
unfolding brz
brz-Keeps i pc c v = jump_if_lem c v _ (relative pc i) (relative-lt pc i)

brnz-Keeps : Keeps brnz
unfolding brnz
brnz-Keeps i pc c v = jump_if_lem c v _ (relative pc i) (relative-lt pc i)

brhz-Keeps : Keeps brhz
unfolding brhz
brhz-Keeps i pc c v = jump_if_lem c v _ (relative pc i) (relative-lt pc i)

brhnz-Keeps : Keeps brhnz
unfolding brhnz
brhnz-Keeps i pc c v = jump_if_lem c v _ (relative pc i) (relative-lt pc i)

stqa-Keeps : Keeps stqa
unfolding stqa
stqa-Keeps i pc c v = store_lem c v (f_rt i) _

stqr-Keeps : Keeps stqr
unfolding stqr
stqr-Keeps i pc c v = store_lem c v (f_rt i) _

lqa-Keeps : Keeps lqa
unfolding lqa
lqa-Keeps i pc c v = load_lem c v (f_rt i) _

lqr-Keeps : Keeps lqr
unfolding lqr
lqr-Keeps i pc c v = load_lem c v (f_rt i) _

bra-Keeps : Keeps bra
unfolding bra
bra-Keeps i pc c v = jump_lem c v (absolute i) (absolute-lt i)

br-Keeps : Keeps br
unfolding br
br-Keeps i pc c v = jump_lem c v (relative pc i) (relative-lt pc i)

brasl-Keeps : Keeps brasl
unfolding brasl
brasl-Keeps i pc c v = call_lem c v (f_rt i) c.pc (absolute i) (absolute-lt i)

brsl-Keeps : Keeps brsl
unfolding brsl
brsl-Keeps i pc c v = call_lem c v (f_rt i) c.pc (relative pc i) (relative-lt pc i)

pub ri18_cases-Keeps : All Keeps ri18_cases
unfolding ila
ri18_cases-Keeps = words-Keeps _ _ & no_effect-Keeps & no_effect-Keeps & nil

pub ri16_cases-Keeps : All Keeps ri16_cases
unfolding fsmbi il ilhu ilh iohl
ri16_cases-Keeps =
    brz-Keeps
    & brnz-Keeps
    & brhz-Keeps
    & brhnz-Keeps
    & stqa-Keeps
    & stqr-Keeps
    & lqa-Keeps
    & lqr-Keeps
    & bra-Keeps
    & brasl-Keeps
    & br-Keeps
    & brsl-Keeps
    & bytes-Keeps _ _
    & words-Keeps _ _
    & words-Keeps _ _
    & halves-Keeps _ _
    & words-Keeps _ _
    & nil
