-- ===== src/Spurs/State.antt =====
-- spu_spurs.cpp: the constants, the globals and the accesses that the functions of the file share.
use dbz_budokai_hd.Common.{
  ℕ, Bool, ◌+◌, ◌-◌, Option, some, List, [], ◌∷◌, Memory, update, if◌then◌else◌,
}
use dbz_budokai_hd.Common.Words.{u8, ◌>>>◌}
use dbz_budokai_hd.Spu.Context.{Ctx}
use dbz_budokai_hd.Spu.Mfc.{◌>>=◌}
use dbz_budokai_hd.Spu.Reg.{set_w, modify}
use dbz_budokai_hd.Spu.Isa.Floats.{Floats}
use dbz_budokai_hd.Spu.Step.{spu_run}
use dbz_budokai_hd.Spu.Elf.{File}

abbrev pub spurs_kernel_a_gaddr : ℕ
spurs_kernel_a_gaddr = 0x10BD00

abbrev pub game_workload_1_gaddr : ℕ
game_workload_1_gaddr = 0x142900

abbrev pub game_workload_2_gaddr : ℕ
game_workload_2_gaddr = 0x14AE80

abbrev pub spurs_kernel_elf_size : ℕ
spurs_kernel_elf_size = 0x36800

abbrev pub game_workload_1_size : ℕ
game_workload_1_size = game_workload_2_gaddr - game_workload_1_gaddr

abbrev pub spurs_ctx_ea : ℕ
spurs_ctx_ea = 0x70A000

abbrev pub spurs_kernel_mgmt_ea : ℕ
spurs_kernel_mgmt_ea = 0x300000

-- The globals, the `static` variables of the functions among them. The main memory, which the two
-- contexts share, stands in `vm`; it is lent to a context while that runs. `renders` counts the
-- calls of the rasteriser by `rsx_process_edge`.
pub record Spurs : Type 0 where
  pub vm_base : Bool
  pub vm : Memory
  pub kernel : Ctx
  pub started : Bool
  pub entry_pc : ℕ
  pub workload : Ctx
  pub workload_valid : Bool
  pub edge_frame : ℕ
  pub edge_first_dispatch : Bool
  pub renders : ℕ

-- vm_base + gaddr, as the bytes of a file
abbrev pub elf_at : Spurs → ℕ → ℕ → File
elf_at s gaddr size = record { bytes = λ i. s.vm (gaddr + i); length = size }

-- spu_reg_set_w(&c.gpr[t], i, v)
abbrev pub set_word : ℕ → ℕ → ℕ → Ctx → Ctx
set_word t i v c = record c { gpr = modify t (λ r. set_w r i v) c.gpr }

-- memset(&c.gpr[t], 0, 16)
abbrev pub clear_reg : ℕ → Ctx → Ctx
clear_reg t c = record c { gpr = modify t (λ r k. 0) c.gpr }

-- Bytes written one after the other.
unfoldable pub put_bytes : Memory → ℕ → List ℕ → Memory
put_bytes m a [] = m
put_bytes m a (b ∷ bs) = put_bytes (update m a b) (a + 1) bs

-- A word written as its four bytes, the most significant one first.
unfoldable pub put_be32 : Memory → ℕ → ℕ → Memory
unfolding put_bytes
put_be32 m a v = put_bytes m a (u8 (v >>> 24) ∷ u8 (v >>> 16) ∷ u8 (v >>> 8) ∷ u8 v ∷ [])

-- The stop instruction that the local store gets at 0x40.
abbrev pub stop100 : List ℕ
stop100 = 0 ∷ 0 ∷ 1 ∷ 0 ∷ []

unfoldable pub place_sentinel : Ctx → Ctx
unfolding put_bytes
place_sentinel c = record c { ls = put_bytes c.ls 0x40 stop100 }

-- `rsx_process_edge`: nothing without a main memory.
unfoldable pub rsx_process_edge : Spurs → Spurs
rsx_process_edge s = if s.vm_base then record s { renders = s.renders + 1 } else s

module _ (F : Floats) where
  -- spu_run(&g_wl_ctx, max), with the number of instructions
  unfoldable pub run_workload_ctx : ℕ → Spurs → Option (ℕ × Spurs)
  unfolding spu_run
  run_workload_ctx max s = do
    (n, d) ← spu_run F (record (s.workload) { vm = s.vm }) max
    some (n, record s { workload = d; vm = d.vm })

  -- spu_run(&g_spurs_ctx, max)
  unfoldable pub run_kernel_ctx : ℕ → Spurs → Option (ℕ × Spurs)
  unfolding spu_run
  run_kernel_ctx max s = do
    (n, d) ← spu_run F (record (s.kernel) { vm = s.vm }) max
    some (n, record s { kernel = d; vm = d.vm })
