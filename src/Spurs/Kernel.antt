-- ===== src/Spurs/Kernel.antt =====
-- spu_spurs.cpp: `spurs_kernel_thread`, `spurs_start` and `spurs_test_edge_geometry`. The code between
-- `#ifdef SPURS_LEGACY_LS_PATCHES` and its `#endif` is not compiled.
pub mod Keeps
pub mod Start
pub mod Decides
use dbz_budokai_hd.Common.{
  ℕ, zero, suc, Bool, true, false, ◌+◌, ◌-◌, ◌/◌, ◌&&◌, ◌||◌, ◌==◌, leb, not, if◌then◌else◌, Option,
  some, none, List, [], ◌∷◌,
}
use dbz_budokai_hd.Common.Words.{add32, sub32}
use dbz_budokai_hd.Spu.Context.{Ctx, spu_ctx_init}
use dbz_budokai_hd.Spu.Mfc.{◌>>=◌}
use dbz_budokai_hd.Spu.Isa.Floats.{Floats}
use dbz_budokai_hd.Spu.Elf.{Loaded, rejected, loaded, undefined, has_magic, spu_load_elf}
use dbz_budokai_hd.Spurs.State.{
  Spurs, elf_at, set_word, clear_reg, put_be32, place_sentinel, run_workload_ctx, run_kernel_ctx,
  spurs_kernel_a_gaddr, spurs_kernel_elf_size, spurs_kernel_mgmt_ea, spurs_ctx_ea,
}
use dbz_budokai_hd.Spurs.Vertices.{Sphere}
use dbz_budokai_hd.Spurs.Workload.{spurs_run_workload, workload_elf}

-- The slot whose dispatch a stop in LS[0x04..0x3C] is.
abbrev pub dispatched : ℕ → Bool
dispatched pc = leb 0x04 pc && leb pc 0x3C

abbrev pub slot_of : ℕ → ℕ
slot_of pc = (pc - 0x04) / 4

-- The arguments, the return address and the sentinel at it, for another pass from the entry on.
unfoldable pub reset_arguments : Ctx → Ctx
unfolding place_sentinel
reset_arguments c =
    let c₁ = clear_reg 4 (set_word 3 1 spurs_kernel_mgmt_ea (clear_reg 3 c)) in
    place_sentinel (set_word 0 0 0x40 c₁)

unfoldable pub restart_from_entry : Spurs → Spurs
unfolding reset_arguments
restart_from_entry s =
    if s.entry_pc == 0
    then s
    else record s { kernel = reset_arguments (record (s.kernel) { pc = s.entry_pc }) }

-- g_spurs_ctx.running = 1
abbrev pub resume : Spurs → Spurs
resume s = record s { kernel = record (s.kernel) { running = true } }

-- Whether the thread goes on or leaves its loop.
pub data Decision : Type 0 where
  runs : Spurs → Decision
  leaves_loop : Decision

-- What a round of the burst does before `spu_run`.
pub data Burst : Type 0 where
  -- to `spu_run`
  bursts : Spurs → Burst
  -- out of the loop
  breaks : Spurs → Burst

-- The context before the burst.
unfoldable pub kernel_arguments : Ctx → Ctx
unfolding place_sentinel
kernel_arguments c =
    let c₁ = set_word 0 0 0x40 (place_sentinel c) in
    let c₂ = set_word 3 1 spurs_kernel_mgmt_ea (clear_reg 3 c₁) in
    let c₃ = clear_reg 86 (clear_reg 6 (clear_reg 5 (clear_reg 4 c₂))) in
    set_word 89 0 0x80 (set_word 70 0 0x20000 (set_word 86 0 0x80 c₃))

module _ (F : Floats) (sphere : Sphere) where
  -- A stop with code 0; its test for code 0x100 is never true.
  unfoldable pub kernel_yielded : Spurs → Option Spurs
  unfolding spurs_run_workload restart_from_entry
  kernel_yielded s =
      let pc = s.kernel.pc in
      if dispatched pc
      then (do t ← spurs_run_workload F sphere (slot_of pc) s; some (resume t))
      else if leb 0x20000 pc
      then some (resume (restart_from_entry s))
      else some (resume s)

  -- The body of the loop before `spu_run`.
  unfoldable pub kernel_decision : Spurs → Option Decision
  unfolding kernel_yielded restart_from_entry
  kernel_decision s =
      if s.kernel.running
      then some (runs s)
      else if s.kernel.stop_code == 0
      then (do t ← kernel_yielded s; some (runs t))
      else if s.kernel.stop_code == 0x100
      then some (runs (resume (restart_from_entry s)))
      else some leaves_loop

  -- The thread, with the values of `g_threads_should_exit` that it reads; where they are used up the
  -- thread is still in its loop.
  unfoldable pub spurs_kernel_thread : List Bool → Spurs → Option Spurs
  unfolding kernel_decision run_kernel_ctx
  spurs_kernel_thread [] s = some s
  spurs_kernel_thread (true ∷ flags) s = some s
  spurs_kernel_thread (false ∷ flags) s = do
    decision ← kernel_decision s
    elim decision [
      | leaves_loop ↦ some s
      | runs t ↦ (do (n, u) ← run_kernel_ctx F 100000 t; spurs_kernel_thread flags u)
    ]

  unfoldable pub burst_yielded : ℕ → Spurs → Option Burst
  unfolding spurs_run_workload
  burst_yielded restart s =
      let pc = s.kernel.pc in
      if dispatched pc
      then (do t ← spurs_run_workload F sphere (slot_of pc) s; some (bursts (resume t)))
      else if leb 0x29000 pc || leb 0x20600 pc
      then some (breaks (resume s))
      else if restart == 1
      then some (
          bursts (
            resume
              (record s { kernel = record (s.kernel) { trace_limit = 200; trace_count = 0 } })))
      else some (bursts (resume (record s { kernel = record (s.kernel) { trace_limit = 0 } })))

  unfoldable pub burst_decision : ℕ → Spurs → Option Burst
  unfolding burst_yielded reset_arguments
  burst_decision restart s =
      if s.kernel.running
      then some (bursts s)
      else if s.kernel.stop_code == 0
      then burst_yielded restart s
      else if s.kernel.stop_code == 0x100
      then (let c = record (s.kernel) { pc = s.entry_pc; running = true } in
          some (bursts (record s { kernel = reset_arguments c })))
      else some (breaks s)

  -- The loop, with the rounds left, the number of this one and the instructions so far.
  unfoldable pub burst_loop : ℕ → ℕ → ℕ → Spurs → Option (ℕ × Spurs)
  unfolding burst_decision run_kernel_ctx
  burst_loop zero restart total s = some (total, s)
  burst_loop (suc left) restart total s = do
    decision ← burst_decision restart s
    elim decision [
      | breaks t ↦ some (total, t)
      | bursts t ↦ (do
        (n, u) ← run_kernel_ctx F 200000 t
        burst_loop left (restart + 1) (add32 total n) u)
    ]

  -- What follows `spu_load_elf`: the burst, and whether the thread is then created.
  unfoldable pub started_with : Spurs → Loaded → Option (Spurs × Bool)
  unfolding kernel_arguments burst_loop
  started_with s undefined = none
  started_with s rejected = some (s, false)
  started_with s (loaded d) = do
    (total, t) ← burst_loop 200 0 0 (record s { kernel = kernel_arguments d; entry_pc = d.pc })
    some (t, true)

  unfoldable pub spurs_start : Spurs → Option (Spurs × Bool)
  unfolding spu_ctx_init spu_load_elf started_with
  spurs_start s =
      if s.started
      then some (s, false)
      else if not s.vm_base
      then none
      else (let c = record (spu_ctx_init 0 s.vm_base s.vm) { trace_limit = 50; trace_count = 0 } in
          let t = record s { started = true; kernel = c } in
          let elf = elf_at s spurs_kernel_a_gaddr spurs_kernel_elf_size in
          if has_magic elf then started_with t (spu_load_elf c elf) else some (t, false))

-- The task and the registers of the test.
unfoldable pub test_task : Ctx → Ctx
unfolding put_be32 place_sentinel
test_task c =
    let c₁ = record c { pc = 0x3108; ls = put_be32 c.ls 0x3004 spurs_ctx_ea } in
    let c₂ = set_word 1 0 0x2000 (set_word 87 0 0x3000 (set_word 3 0 0x3000 c₁)) in
    let c₃ = set_word 19 0 0x40 (set_word 88 0 0x80 (set_word 0 0 0x40 c₂)) in
    record (place_sentinel (set_word 114 0 0x4000 c₃)) { trace_limit = 100; trace_count = 0 }

module _ (F : Floats) where
  unfoldable pub test_loop : ℕ → Spurs → Option Spurs
  unfolding run_workload_ctx
  test_loop zero s = some s
  test_loop (suc left) s = elim s.workload.running [
    | true ↦ (do (n, t) ← run_workload_ctx F 50000 s; test_loop left t)
    | false ↦ some s
  ]

  unfoldable pub test_loaded : Spurs → Loaded → Option Spurs
  unfolding test_task test_loop
  test_loaded s undefined = none
  test_loaded s rejected = some s
  test_loaded s (loaded d) = test_loop 10 (record s { workload = test_task d })

  unfoldable pub spurs_test_edge_geometry : Spurs → Option Spurs
  unfolding spu_load_elf test_loaded
  spurs_test_edge_geometry s =
      if not s.workload_valid
      then some s
      else if not s.vm_base
      then none
      else test_loaded s (spu_load_elf s.workload (workload_elf s))
