-- ===== src/Rsx/Control.antt =====
-- runtime_glue.cpp: `gcm_get_control_register` and `gcm_ctrl_advance_ref`, the block of put, get and
-- reference registers that the game polls.
use dbz_budokai_hd.Common.{ℕ, ◌+◌, ◌==◌, if◌then◌else◌}
use dbz_budokai_hd.Common.Words.{add32}
use dbz_budokai_hd.Common.Outcome.{Outcome, returned, ◌>>=◌}
use dbz_budokai_hd.Guest.{vm_read32}
use dbz_budokai_hd.Rsx.Write.{Machine, vm_write32}

-- `g_gcm_ctrl_ea`, with the machine
pub record Gcm : Type 0 where
  pub machine : Machine
  pub ctrl_ea : ℕ

abbrev pub ctrl_block : ℕ
ctrl_block = 0x70E280

unfoldable pub gcm_get_control_register : ℕ → Gcm → Outcome (Gcm × ℕ)
unfolding vm_write32
gcm_get_control_register fuel g =
    if g.ctrl_ea == 0
    then (do
      a ← vm_write32 fuel (ctrl_block + 0) 0 g.machine
      b ← vm_write32 fuel (ctrl_block + 4) 0 a
      c ← vm_write32 fuel (ctrl_block + 8) 0 b
      returned (record { machine = c; ctrl_ea = ctrl_block }, ctrl_block))
    else returned (g, g.ctrl_ea)

unfoldable pub gcm_ctrl_advance_ref : ℕ → Gcm → Outcome Gcm
unfolding vm_write32
gcm_ctrl_advance_ref fuel g = if g.ctrl_ea == 0 then returned g else (do
  m ←
      vm_write32 fuel (add32 g.ctrl_ea 8) (add32 (vm_read32 g.machine.mem (add32 g.ctrl_ea 8)) 1)
        g.machine
  returned (record g { machine = m }))
