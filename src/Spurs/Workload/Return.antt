-- ===== src/Spurs/Workload/Return.antt =====
-- spu_spurs.cpp: how a workload, and the kernel, get back to the sentinel at LS[0x40].
use dbz_budokai_hd.Common.{ℕ, false, true, ◌+◌, ◌*◌, ◌^◌, ◌≡◌, refl, arith, some, ◌∙◌, ap}
use dbz_budokai_hd.Common.Words.{low_bits, u32, sar}
use dbz_budokai_hd.Spu.Context.{Ctx}
use dbz_budokai_hd.Spu.Reg.{Reg, get_w, set_w}
use dbz_budokai_hd.Spu.Reg.Words.{get_w-set_w_self}
use dbz_budokai_hd.Spu.Reg.Lanes.{for_words_lem}
use dbz_budokai_hd.Spu.LocalStore.{ls_read32}
use dbz_budokai_hd.Spu.Isa.Floats.{Floats}
use dbz_budokai_hd.Spu.Isa.Handler.{gw}
use dbz_budokai_hd.Spu.Isa.Rr.Shift.{rotmai}
use dbz_budokai_hd.Spu.Isa.Rr.Control.{stop}
use dbz_budokai_hd.Spu.Step.{edge_fixup, spu_step}
use dbz_budokai_hd.Spurs.State.{put_bytes, place_sentinel}
use dbz_budokai_hd.Spurs.Workload.{set_registers}

-- The instruction word of rotmai r0, ra, i7.
abbrev pub rotmai_word : ℕ → ℕ → ℕ
rotmai_word ra i7 = 0x07A * 2 ^ 21 + low_bits 7 i7 * 2 ^ 14 + ra * 2 ^ 7

module _ (c : Ctx) where
  -- The word that a shift by n to the right makes of a register.
  from :
      (n : ℕ) (r : Reg) (v : ℕ)
      → u32 (sar 32 (u32 v) n) ≡ 0x40
      → u32 (sar 32 (get_w (set_w r 0 v) 0) n) ≡ 0x40
  from n r v e = rw (get_w-set_w_self r 0 v) e

  shifted_88 : gw (rotmai (rotmai_word 88 511) (set_registers c).gpr) 0 0 ≡ 0x40
  unfolding set_registers rotmai
  shifted_88 =
      for_words_lem 0 _ (set_registers c).gpr (λ S T k h. ap (λ x. sar 32 x 1) (h 88)) 0
        (omega arith)
      ∙ from 1 (c.gpr 88) 0x80 refl

  shifted_19 : gw (rotmai (rotmai_word 19 0) (set_registers c).gpr) 0 0 ≡ 0x40
  unfolding set_registers rotmai
  shifted_19 =
      for_words_lem 0 _ (set_registers c).gpr (λ S T k h. ap (λ x. sar 32 x 0) (h 19)) 0
        (omega arith)
      ∙ from 0 (c.gpr 19) 0x40 refl

  shifted_114 : gw (rotmai (rotmai_word 114 56) (set_registers c).gpr) 0 0 ≡ 0x40
  unfolding set_registers rotmai
  shifted_114 =
      for_words_lem 0 _ (set_registers c).gpr (λ S T k h. ap (λ x. sar 32 x 8) (h 114)) 0
        (omega arith)
      ∙ from 8 (c.gpr 114) 0x4000 refl

module _ (F : Floats) (c : Ctx) where
  -- With the registers that a workload is started with, each of the three shifts that it may
  -- compute its return address by leaves 0x40 in r0, and the instruction at 0x40 stops the
  -- processor with code 0x100.
  pub returns_to_sentinel :
      (gw (rotmai (rotmai_word 88 511) (set_registers c).gpr) 0 0 ≡ 0x40)
      × (gw (rotmai (rotmai_word 19 0) (set_registers c).gpr) 0 0 ≡ 0x40)
      × (gw (rotmai (rotmai_word 114 56) (set_registers c).gpr) 0 0 ≡ 0x40)
      × ((d : Ctx) × (spu_step F (record (set_registers c) { pc = 0x40; running = true }) ≡ some d)
          × (d.running ≡ false)
          × (d.stop_code ≡ 0x100))
  unfolding set_registers place_sentinel put_bytes spu_step ls_read32 stop edge_fixup
  returns_to_sentinel = (shifted_88 c, shifted_19 c, shifted_114 c, (_, refl, refl, refl))
