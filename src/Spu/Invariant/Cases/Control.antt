-- ===== src/Spu/Invariant/Cases/Control.antt =====
-- The control, memory, channel and branch instructions keep the invariant.
use dbz_budokai_hd.Spu.Invariant.Keeps.{
  Keeps, All, nil, ◌&◌, no_effect-Keeps, register-Keeps, local,
}
use dbz_budokai_hd.Spu.Invariant.Blocks.{zero_reg-AreBytes, gen_controls-AreBytes}
use dbz_budokai_hd.Common.{arith}
use dbz_budokai_hd.Spu.Isa.Rr.Control.{
  bi, bihnz, bihz, binz, bisl, bisled, biz, branch_cases, channel_cases, control_cases, controls_d,
  controls_x, indirect, iret, lqx, mfspr, stop, stqx,
}
use dbz_budokai_hd.Spu.Invariant.Moves.{
  load_lem, store_lem, link_lem, jump_lem, jump_if_lem, call_lem, read_channel-Keeps,
  write_channel-Keeps, read_count-Keeps,
}
use dbz_budokai_hd.Common.{ℕ, ◌<◌, ◌^◌, refl}
use dbz_budokai_hd.Spu.Isa.Fields.{f_rt}
use dbz_budokai_hd.Spu.LocalStore.{word_addr}
use dbz_budokai_hd.Common.{false}
use dbz_budokai_hd.Common.Words.{low_bits}
use dbz_budokai_hd.Spu.Context.{Ctx}
use dbz_budokai_hd.Spu.Invariant.{IsValid}

word_addr-lt : (a : ℕ) → word_addr a < 2 ^ 18
word_addr-lt a = omega arith

stop-IsValid :
    (i : ℕ) (c : Ctx)
    → IsValid c
    → IsValid (record c { stop_code = low_bits 14 i; running = false })
stop-IsValid i c v = let small : low_bits 14 i < 2 ^ 14 = omega arith in assumption

halt-IsValid : (c : Ctx) → IsValid c → IsValid (record c { running = false })
halt-IsValid c v = assumption

stop-Keeps : Keeps stop
unfolding stop
stop-Keeps i pc c v =
    local c (record c { stop_code = low_bits 14 i; running = false }) (stop-IsValid i c v) refl refl
      refl

lqx-Keeps : Keeps lqx
unfolding lqx
lqx-Keeps i pc c v = load_lem c v (f_rt i) _

stqx-Keeps : Keeps stqx
unfolding stqx
stqx-Keeps i pc c v = store_lem c v (f_rt i) _

bi-Keeps : Keeps bi
unfolding bi
bi-Keeps i pc c v = jump_lem c v (indirect i c) (word_addr-lt _)

bisl-Keeps : Keeps bisl
unfolding bisl
bisl-Keeps i pc c v = call_lem c v (f_rt i) c.pc (indirect i c) (word_addr-lt _)

iret-Keeps : Keeps iret
unfolding iret
iret-Keeps i pc c v = local c (record c { running = false }) (halt-IsValid c v) refl refl refl

bisled-Keeps : Keeps bisled
unfolding bisled
bisled-Keeps i pc c v = link_lem c v (f_rt i) c.pc

biz-Keeps : Keeps biz
unfolding biz
biz-Keeps i pc c v = jump_if_lem c v _ (indirect i c) (word_addr-lt _)

binz-Keeps : Keeps binz
unfolding binz
binz-Keeps i pc c v = jump_if_lem c v _ (indirect i c) (word_addr-lt _)

bihz-Keeps : Keeps bihz
unfolding bihz
bihz-Keeps i pc c v = jump_if_lem c v _ (indirect i c) (word_addr-lt _)

bihnz-Keeps : Keeps bihnz
unfolding bihnz
bihnz-Keeps i pc c v = jump_if_lem c v _ (indirect i c) (word_addr-lt _)

pub channel_cases-Keeps : All Keeps channel_cases
channel_cases-Keeps = read_channel-Keeps & write_channel-Keeps & read_count-Keeps & nil

pub control_cases-Keeps : All Keeps control_cases
unfolding mfspr controls_d controls_x
control_cases-Keeps =
    stop-Keeps
    & stop-Keeps
    & no_effect-Keeps
    & no_effect-Keeps
    & no_effect-Keeps
    & no_effect-Keeps
    & register-Keeps _ _ (λ i R h. zero_reg-AreBytes)
    & no_effect-Keeps
    & no_effect-Keeps
    & lqx-Keeps
    & stqx-Keeps
    & register-Keeps _ _ (λ i R h. gen_controls-AreBytes _ _)
    & register-Keeps _ _ (λ i R h. gen_controls-AreBytes _ _)
    & register-Keeps _ _ (λ i R h. gen_controls-AreBytes _ _)
    & register-Keeps _ _ (λ i R h. gen_controls-AreBytes _ _)
    & register-Keeps _ _ (λ i R h. gen_controls-AreBytes _ _)
    & register-Keeps _ _ (λ i R h. gen_controls-AreBytes _ _)
    & register-Keeps _ _ (λ i R h. gen_controls-AreBytes _ _)
    & register-Keeps _ _ (λ i R h. gen_controls-AreBytes _ _)
    & nil

pub branch_cases-Keeps : All Keeps branch_cases
branch_cases-Keeps =
    bi-Keeps & bisl-Keeps & iret-Keeps & bisled-Keeps & biz-Keeps & binz-Keeps & bihz-Keeps
    & bihnz-Keeps & nil
