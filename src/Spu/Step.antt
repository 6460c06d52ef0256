-- ===== src/Spu/Step.antt =====
-- spu_interp.cpp: `spu_step` and `spu_run`.
use dbz_budokai_hd.Common.{
  ℕ, zero, suc, true, false, ◌&&◌, ◌+◌, ◌==◌, leb, ltb, not, if◌then◌else◌, Option, some, none,
  List, ◌++◌, update,
}
use dbz_budokai_hd.Common.Words.{add32, u64, low_bits}
use dbz_budokai_hd.Spu.Context.{Ctx}
use dbz_budokai_hd.Spu.Reg.{set_w, modify}
use dbz_budokai_hd.Spu.LocalStore.{quad_addr, ls_read32}
use dbz_budokai_hd.Spu.Mfc.{◌>>=◌}
use dbz_budokai_hd.Spu.Isa.Fields.{f_op4, f_op7, f_op8, f_op9, f_op11}
use dbz_budokai_hd.Spu.Isa.Floats.{Floats}
use dbz_budokai_hd.Spu.Isa.Handler.{Handler, gw, switch, or_else}
use dbz_budokai_hd.Spu.Isa.Rrr.{rrr_cases}
use dbz_budokai_hd.Spu.Isa.Ri16.{ri18_cases, ri16_cases}
use dbz_budokai_hd.Spu.Isa.Ri10.{ri10_cases}
use dbz_budokai_hd.Spu.Isa.Rr.Control.{channel_cases, control_cases, branch_cases}
use dbz_budokai_hd.Spu.Isa.Rr.Arithmetic.{arithmetic_cases}
use dbz_budokai_hd.Spu.Isa.Rr.Count.{count_cases}
use dbz_budokai_hd.Spu.Isa.Rr.Logic.{logic_cases}
use dbz_budokai_hd.Spu.Isa.Rr.Shift.{shift_cases}
use dbz_budokai_hd.Spu.Isa.Rr.QuadShift.{quad_shift_cases}
use dbz_budokai_hd.Spu.Isa.Rr.Compare.{compare_cases}
use dbz_budokai_hd.Spu.Isa.Rr.Multiply.{multiply_cases}
use dbz_budokai_hd.Spu.Isa.Rr.Single.{single_cases, conversion_cases}
use dbz_budokai_hd.Spu.Isa.Rr.Double.{double_cases}

-- The stream descriptor's PUT address, bytes 4 to 7, becomes 0xD0100000.
abbrev pub patch_descriptor : ℕ → Ctx → Ctx
patch_descriptor lsaddr c = record c {
  ls =
      update (update (update (update c.ls (lsaddr + 4) 0xD0) (lsaddr + 5) 0x10) (lsaddr + 6) 0x00)
        (lsaddr + 7) 0x00;
}

-- What the EDGE job (processor 2) has patched before its load at 0x35FC; a descriptor address in the
-- first 128 bytes is replaced, in the registers too.
unfoldable pub edge_fixup : ℕ → Ctx → Ctx
edge_fixup pc c =
    let lsaddr = quad_addr (add32 (gw c.gpr 49 0) (gw c.gpr 124 0)) in
    if pc == 0x35FC && c.id == 2
    then (if ltb lsaddr 0x80
        then patch_descriptor 0xADD0 (record c {
          gpr = modify 124 (λ r. set_w r 0 0) (modify 49 (λ r. set_w r 0 0xADD0) c.gpr);
        })
        else patch_descriptor lsaddr c)
    else c

-- The count of traced instructions, the only trace of the trace.
unfoldable pub count_trace : Ctx → Ctx
count_trace c =
    if not (c.trace_limit == 0) && ltb c.trace_count c.trace_limit
    then record c { trace_count = c.trace_count + 1 }
    else c

module _ (F : Floats) where
  -- The last switch, over op11.
  abbrev pub rr_cases : List (ℕ × Handler)
  rr_cases =
      control_cases
      ++ arithmetic_cases
      ++ count_cases
      ++ logic_cases
      ++ shift_cases
      ++ quad_shift_cases
      ++ compare_cases
      ++ multiply_cases
      ++ branch_cases
      ++ single_cases F
      ++ double_cases F
      ++ conversion_cases F

  -- The handler of an instruction word: op4 from 8 on is decoded as RRR alone, anything else by the
  -- first format that has its opcode.
  unfoldable pub decode : ℕ → Option Handler
  unfolding switch
  decode insn =
      if leb 0x8 (f_op4 insn)
      then switch (f_op4 insn) (rrr_cases F)
      else or_else (switch (f_op7 insn) ri18_cases) (
          or_else (switch (f_op9 insn) ri16_cases) (
            or_else (switch (f_op8 insn) ri10_cases)
              (or_else (switch (f_op11 insn) channel_cases) (switch (f_op11 insn) rr_cases))))

  -- An unknown instruction is passed over.
  abbrev pub run_handler : Option Handler → Handler
  run_handler (some h) insn pc c = h insn pc c
  run_handler none insn pc c = some c

  -- From the fixup to the dispatch, with `pc` the address of the instruction.
  unfoldable pub execute_at : ℕ → Ctx → Option Ctx
  unfolding edge_fixup count_trace decode
  execute_at pc c =
      let c₁ = edge_fixup pc c in
      let insn = ls_read32 c₁.ls pc in
      let c₂ = count_trace (record c₁ { pc = low_bits 18 (pc + 4) }) in
      run_handler (decode insn) insn pc c₂

  unfoldable pub spu_step : Ctx → Option Ctx
  unfolding execute_at
  spu_step c = execute_at (low_bits 18 c.pc) c

  -- The loop of `spu_run`, with the instructions left and the number executed.
  unfoldable pub spu_run_loop : ℕ → ℕ → Ctx → Option (ℕ × Ctx)
  spu_run_loop zero n c = some (n, c)
  spu_run_loop (suc left) n c = elim c.running [
    | true ↦ (do
      c' ← spu_step c
      spu_run_loop left (n + 1) (record c' { insn_count = u64 (c'.insn_count + 1) }))
    | false ↦ some (n, c)
  ]

  unfoldable pub spu_run : Ctx → ℕ → Option (ℕ × Ctx)
  unfolding spu_run_loop
  spu_run c max_insns = spu_run_loop max_insns 0 c
