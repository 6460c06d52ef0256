-- ===== src/Spu/Isa/Rr/Control.antt =====
-- spu_interp.cpp, `spu_step`, RR format: control, memory, channels, generated controls, indirect branches.
use dbz_budokai_hd.Common.{ℕ, false, not, ◌==◌, some, List, [], ◌∷◌, update}
use dbz_budokai_hd.Common.Words.{add32, low_bits}
use dbz_budokai_hd.Spu.Reg.{zero_reg}
use dbz_budokai_hd.Spu.Isa.Fields.{f_rt, f_ra, f_rb, f_i7, sign_ext7}
use dbz_budokai_hd.Spu.Isa.Handler.{Handler, RegOp, on_gpr, no_effect, gw, preferred}
use dbz_budokai_hd.Spu.Context.{Ctx}
use dbz_budokai_hd.Spu.LocalStore.{word_addr, quad_addr, ls_read128, ls_write128}
use dbz_budokai_hd.Spu.Shuffle.{gen_controls}
use dbz_budokai_hd.Spu.Channel.{rdch, wrch, rchcnt}
use dbz_budokai_hd.Spu.Isa.Fields.{f_ch}
use dbz_budokai_hd.Spu.Isa.Ri16.{jump_if}

-- `rdch`, `wrch` and `rchcnt`, decoded before the other eleven-bit opcodes.
unfoldable pub read_channel : Handler
unfolding rdch
read_channel i pc c =
    let (d, val) = rdch c (f_ch i) in
    some (record d { gpr = update d.gpr (f_rt i) (preferred val) })

unfoldable pub write_channel : Handler
unfolding wrch
write_channel i pc c = wrch c (f_ch i) (gw c.gpr (f_rt i) 0)

unfoldable pub read_count : Handler
unfolding rchcnt
read_count i pc c = some (record c { gpr = update c.gpr (f_rt i) (preferred (rchcnt c (f_ch i))) })

abbrev pub channel_cases : List (ℕ × Handler)
channel_cases = (0x00D, read_channel) ∷ (0x10D, write_channel) ∷ (0x00F, read_count) ∷ []

unfoldable pub stop : Handler
stop i pc c = some (record c { stop_code = low_bits 14 i; running = false })

unfoldable pub mfspr : RegOp
mfspr i R = update R (f_rt i) zero_reg

unfoldable pub lqx : Handler
lqx i pc c =
    let ea = quad_addr (add32 (gw c.gpr (f_ra i) 0) (gw c.gpr (f_rb i) 0)) in
    some (record c { gpr = update c.gpr (f_rt i) (ls_read128 c.ls ea (c.gpr (f_rt i))) })

unfoldable pub stqx : Handler
stqx i pc c =
    let ea = quad_addr (add32 (gw c.gpr (f_ra i) 0) (gw c.gpr (f_rb i) 0)) in
    some (record c { ls = ls_write128 c.ls ea (c.gpr (f_rt i)) })

-- `cbd`, `chd`, `cwd` and `cdd`, by the size of the element; then `cbx` and so on.
unfoldable pub controls_d : ℕ → RegOp
controls_d size i R =
    update R (f_rt i) (gen_controls (add32 (gw R (f_ra i) 0) (sign_ext7 (f_i7 i))) size)

unfoldable pub controls_x : ℕ → RegOp
controls_x size i R =
    update R (f_rt i) (gen_controls (add32 (gw R (f_ra i) 0) (gw R (f_rb i) 0)) size)

abbrev pub control_cases : List (ℕ × Handler)
control_cases =
    (0x000, stop)
    ∷ (0x140, stop)
    ∷ (0x001, no_effect)
    ∷ (0x201, no_effect)
    ∷ (0x002, no_effect)
    ∷ (0x003, no_effect)
    ∷ (0x00C, on_gpr mfspr)
    ∷ (0x10C, no_effect)
    ∷ (0x1AC, no_effect)
    ∷ (0x1C4, lqx)
    ∷ (0x144, stqx)
    ∷ (0x1F4, on_gpr (controls_d 1))
    ∷ (0x1F5, on_gpr (controls_d 2))
    ∷ (0x1F6, on_gpr (controls_d 4))
    ∷ (0x1F7, on_gpr (controls_d 8))
    ∷ (0x1D4, on_gpr (controls_x 1))
    ∷ (0x1D5, on_gpr (controls_x 2))
    ∷ (0x1D6, on_gpr (controls_x 4))
    ∷ (0x1D7, on_gpr (controls_x 8))
    ∷ []

-- GW(R[ra], 0) & (SPU_LS_SIZE - 1) & ~3u
abbrev pub indirect : ℕ → Ctx → ℕ
indirect i c = word_addr (gw c.gpr (f_ra i) 0)

unfoldable pub bi : Handler
bi i pc c = some (record c { pc = indirect i c })

-- The link is taken before the jump and written after it.
unfoldable pub bisl : Handler
bisl i pc c = some (record c { gpr = update c.gpr (f_rt i) (preferred c.pc); pc = indirect i c })

unfoldable pub iret : Handler
iret i pc c = some (record c { running = false })

unfoldable pub bisled : Handler
bisled i pc c = some (record c { gpr = update c.gpr (f_rt i) (preferred c.pc) })

unfoldable pub biz : Handler
biz i pc c = some (jump_if (gw c.gpr (f_rt i) 0 == 0) (indirect i c) c)

unfoldable pub binz : Handler
binz i pc c = some (jump_if (not (gw c.gpr (f_rt i) 0 == 0)) (indirect i c) c)

unfoldable pub bihz : Handler
bihz i pc c = some (jump_if (low_bits 16 (gw c.gpr (f_rt i) 0) == 0) (indirect i c) c)

unfoldable pub bihnz : Handler
bihnz i pc c = some (jump_if (not (low_bits 16 (gw c.gpr (f_rt i) 0) == 0)) (indirect i c) c)

abbrev pub branch_cases : List (ℕ × Handler)
branch_cases =
    (0x1A8, bi)
    ∷ (0x1A9, bisl)
    ∷ (0x1AA, iret)
    ∷ (0x1AB, bisled)
    ∷ (0x128, biz)
    ∷ (0x129, binz)
    ∷ (0x12A, bihz)
    ∷ (0x12B, bihnz)
    ∷ []
