-- ===== src/Spu/Tests/Runs.antt =====
-- A program run to its end.
use dbz_budokai_hd.Common.{
  ℕ, false, refl, ◌≡◌, ◌≢◌, ◌+◌, ◌≤◌, ◌⊎◌, some, none, Option, inl, inr, arith,
}
use dbz_budokai_hd.Common.Words.{u64}
use dbz_budokai_hd.Spu.Context.{Ctx, spu_ctx_init}
use dbz_budokai_hd.Spu.Reg.{get_w, set_w, for_words}
use dbz_budokai_hd.Spu.LocalStore.{ls_read32, ls_write32}
use dbz_budokai_hd.Spu.Isa.Ri16.{il}
use dbz_budokai_hd.Spu.Isa.Rr.Control.{write_channel, stop}
use dbz_budokai_hd.Spu.Step.{spu_step, spu_run}
use dbz_budokai_hd.Spu.Invariant.{IsValid}
use dbz_budokai_hd.Spu.Invariant.Step.{spu_step_total}
use dbz_budokai_hd.Spu.Invariant.Run.{spu_run_protects, spu_run_count}
use dbz_budokai_hd.Spu.Invariant.Fault.{spu_run_fault, IsFaultAt}
use dbz_budokai_hd.Spu.Tests.{no_floats, boot, boot-IsValid}

abbrev outcome : Option (ℕ × Ctx) → ℕ × Ctx
outcome none = (0, boot)
outcome (some p) = p

abbrev halted : Ctx
halted = (outcome (spu_run no_floats boot 10)).1

abbrev executed : ℕ
executed = 3

boot_runs : spu_run no_floats boot 10 ≡ some (executed, halted)
unfolding spu_run spu_step spu_ctx_init ls_read32 ls_write32 write_channel get_w il for_words set_w
    stop
boot_runs = refl

spu_run_protects_example : halted.vm 0x40000000 ≡ boot.vm 0x40000000
spu_run_protects_example =
    spu_run_protects no_floats boot halted 10 executed boot-IsValid boot_runs 0x40000000
      (inr (inl (omega arith, omega arith)))

spu_run_count_example :
    (executed ≤ 10)
    × (halted.insn_count ≡ u64 (boot.insn_count + executed))
    × ((executed ≡ 10) ⊎ (halted.running ≡ false))
unfolding spu_ctx_init
spu_run_count_example =
    spu_run_count no_floats boot halted 10 executed boot-IsValid boot_runs (omega arith)

abbrev step_outcome : Option Ctx → Ctx
step_outcome none = boot
step_outcome (some c) = c

abbrev stepped : Ctx
stepped = step_outcome (spu_step no_floats boot)

boot_steps : spu_step no_floats boot ≡ some stepped
unfolding spu_step spu_ctx_init ls_read32 ls_write32 il for_words set_w
boot_steps = refl

spu_step_total_example : spu_step no_floats boot ≢ none
unfolding spu_ctx_init
spu_step_total_example = spu_step_total no_floats boot boot-IsValid (omega arith) (omega arith)

-- The PUT takes 32 bytes from 16 bytes before the end of the local store.
abbrev doomed : Ctx
doomed = record boot { mfc_lsa = 0x3FFF0; mfc_size = 32 }

doomed-IsValid : IsValid doomed
unfolding spu_ctx_init
doomed-IsValid = record {
  gpr = boot-IsValid.gpr;
  ls = boot-IsValid.ls;
  vm = boot-IsValid.vm;
  pc = omega arith;
  stop_code = omega arith;
  mfc_lsa = omega arith;
  mfc_eah = omega arith;
  mfc_eal = omega arith;
  mfc_size = omega arith;
  mfc_tag = omega arith;
  mfc_tagmask = omega arith;
  inbound_mbox = omega arith;
  outbound_mbox = omega arith;
  signal = boot-IsValid.signal;
  decr = omega arith;
}

doomed_faults : spu_run no_floats doomed 10 ≡ none
unfolding spu_run spu_step spu_ctx_init ls_read32 ls_write32 write_channel get_w il for_words set_w
doomed_faults = refl

spu_run_fault_example :
    (m : ℕ) × (d : Ctx) × (spu_run no_floats doomed m ≡ some (m, d))
    × IsFaultAt no_floats 10 doomed m d
spu_run_fault_example = spu_run_fault no_floats doomed 10 doomed-IsValid doomed_faults
