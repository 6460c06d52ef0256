-- ===== src/Spurs/Tests.antt =====
-- A kernel that dispatches slot 0 and stops, and a workload that asks for the geometry processor.
use dbz_budokai_hd.Common.{
  ℕ, Bool, true, false, refl, ◌≡◌, ◌≢◌, ◌↔◌, ◌⊎◌, zero, suc, ◌<◌, ◌≤◌, ◌+◌, some, none, arith,
  Memory, Option, List, [], ◌∷◌,
}
use dbz_budokai_hd.Common.Words.{u64}
use dbz_budokai_hd.Spu.Context.{Ctx, zeros, ls_size, spu_ctx_init}
use dbz_budokai_hd.Spu.Reg.{get_w, set_w}
use dbz_budokai_hd.Spu.LocalStore.{ls_read32}
use dbz_budokai_hd.Spu.Isa.Rr.Control.{stop}
use dbz_budokai_hd.Spu.Step.{spu_step}
use dbz_budokai_hd.Spu.Invariant.{AreBytes}
use dbz_budokai_hd.Spu.Elf.{spu_load_elf}
use dbz_budokai_hd.Spu.Tests.{no_floats}
use dbz_budokai_hd.Spurs.State.{Spurs, spurs_kernel_mgmt_ea, put_bytes}
use dbz_budokai_hd.Spurs.Within.{put_bytes-Within}
use dbz_budokai_hd.Spurs.Steady.{IsReady}
use dbz_budokai_hd.Spurs.Vertices.{Sphere, spurs_render_sphere_tick}
use dbz_budokai_hd.Spurs.Workload.{
  spurs_run_workload, workload_loop, edge_service, goes_on, set_registers,
}
use dbz_budokai_hd.Spurs.Workload.Service.{edge_service_faults, edge_service_sends}
use dbz_budokai_hd.Spurs.Workload.Budget.{workload_loop_count}
use dbz_budokai_hd.Spurs.Workload.Return.{returns_to_sentinel, rotmai_word}
use dbz_budokai_hd.Spurs.Kernel.Decides.{kernel_decision_lem, restart_from_entry_lem}
use dbz_budokai_hd.Spurs.Kernel.Start.{spurs_protects}
use dbz_budokai_hd.Spurs.Vertices.Count.{spurs_render_sphere_tick_lem}
use dbz_budokai_hd.Spu.Mfc.Laws.{IsProtected}
use dbz_budokai_hd.Spu.Isa.Handler.{gw}
use dbz_budokai_hd.Spu.Isa.Rr.Shift.{rotmai}
use dbz_budokai_hd.Spurs.Workload.Prepare.{spu_ctx_init-IsValid}
use dbz_budokai_hd.Spurs.Kernel.{
  kernel_decision, leaves_loop, runs, resume, restart_from_entry, spurs_start, spurs_kernel_thread,
  spurs_test_edge_geometry,
}

abbrev zero_bytes : ℕ → List ℕ → List ℕ
zero_bytes zero bs = bs
zero_bytes (suc n) bs = 0 ∷ zero_bytes n bs

-- An ELF file of one segment, of eight bytes.
abbrev elf_bytes : ℕ → ℕ → List ℕ → List ℕ
elf_bytes hi lo code =
    0x7F
    ∷ 0x45
    ∷ 0x4C
    ∷ 0x46
    ∷ zero_bytes 22 (
        hi
        ∷ lo
        ∷ 0
        ∷ 0
        ∷ 0
        ∷ 52
        ∷ zero_bytes 10 (
            0
            ∷ 32
            ∷ 0
            ∷ 1
            ∷ zero_bytes 6 (
                0
                ∷ 0
                ∷ 0
                ∷ 1
                ∷ 0
                ∷ 0
                ∷ 0
                ∷ 84
                ∷ 0
                ∷ 0
                ∷ hi
                ∷ lo
                ∷ 0
                ∷ 0
                ∷ 0
                ∷ 0
                ∷ 0
                ∷ 0
                ∷ 0
                ∷ 8
                ∷ 0
                ∷ 0
                ∷ 0
                ∷ 8
                ∷ zero_bytes 8 code)))

-- stop 0; stop 1
abbrev kernel_bytes : List ℕ
kernel_bytes = elf_bytes 0 0 (0 ∷ 0 ∷ 0 ∷ 0 ∷ 0 ∷ 0 ∷ 0 ∷ 1 ∷ [])

-- stop 0x3FFF; stop 0
abbrev workload_bytes : List ℕ
workload_bytes = elf_bytes 0x30 0x50 (0 ∷ 0 ∷ 0x3F ∷ 0xFF ∷ 0 ∷ 0 ∷ 0 ∷ 0 ∷ [])

abbrev main_memory : Memory
main_memory = put_bytes (put_bytes zeros 0x10BD00 kernel_bytes) 0x142900 workload_bytes

main_memory-AreBytes : AreBytes main_memory
main_memory-AreBytes =
    let kernel =
      put_bytes-Within {lo = 0} {hi = 0x200000} zeros 0x10BD00 kernel_bytes (omega arith)
        (omega arith) (omega arith) in
    let both =
      put_bytes-Within {lo = 0} {hi = 0x200000} (put_bytes zeros 0x10BD00 kernel_bytes) 0x142900
        workload_bytes (omega arith) (omega arith) (omega arith) in
    both.bytes (kernel.bytes (λ k. omega arith))

abbrev cold : Spurs
cold = record {
  vm_base = true;
  vm = main_memory;
  kernel = spu_ctx_init 0 false zeros;
  started = false;
  entry_pc = 0;
  workload = spu_ctx_init 0 false zeros;
  workload_valid = false;
  edge_frame = 0;
  edge_first_dispatch = true;
  renders = 0;
}

cold-IsReady : IsReady cold
unfolding spu_ctx_init
cold-IsReady =
    let fresh = spu_ctx_init-IsValid 0 0 false zeros (λ k. omega arith) in
    record { vm = main_memory-AreBytes; kernel = fresh; workload = fresh; entry_pc = omega arith }

abbrev flat : Sphere
flat frame i j k = (0, 0, 0)

abbrev state_of : Option (Spurs × Bool) → Spurs
state_of none = cold
state_of (some p) = p.0

abbrev state_or : Option Spurs → Spurs
state_or none = cold
state_or (some s) = s

abbrev burst : Spurs
burst = state_of (spurs_start no_floats flat cold)

burst_starts : spurs_start no_floats flat cold ≡ some (burst, true)
unfolding spurs_start spu_load_elf spurs_run_workload spu_ctx_init spu_step ls_read32 stop get_w
    set_w
burst_starts = refl

-- The workload came from its entry to the geometry processor and on from there.
burst_dispatches : (burst.renders ≡ 1) × (burst.workload.pc ≡ 0x3154) × (burst.kernel.stop_code ≡ 1)
unfolding spurs_start spu_load_elf spurs_run_workload spu_ctx_init spu_step ls_read32 stop get_w
    set_w
burst_dispatches = (refl, refl, refl)

abbrev tested : Spurs
tested = state_or (spurs_test_edge_geometry no_floats burst)

burst_tests : spurs_test_edge_geometry no_floats burst ≡ some tested
unfolding spurs_start spu_load_elf spurs_run_workload spu_ctx_init spu_step ls_read32 stop get_w
    set_w spurs_test_edge_geometry
burst_tests = refl

abbrev flags : List Bool
flags = false ∷ true ∷ []

abbrev last_state : Spurs
last_state = state_or (spurs_kernel_thread no_floats flat flags tested)

thread_ends : spurs_kernel_thread no_floats flat flags tested ≡ some last_state
unfolding spurs_start spu_load_elf spurs_run_workload spu_ctx_init spu_step ls_read32 stop get_w
    set_w spurs_test_edge_geometry spurs_kernel_thread
thread_ends = refl

spurs_protects_example :
    IsReady last_state × ((a : ℕ) → IsProtected a → last_state.vm a ≡ cold.vm a)
spurs_protects_example =
    spurs_protects no_floats flat cold burst tested last_state true flags cold-IsReady burst_starts
      burst_tests thread_ends

decided : kernel_decision no_floats flat burst ≡ some leaves_loop
unfolding spurs_start spu_load_elf spurs_run_workload spu_ctx_init spu_step ls_read32 stop get_w
    set_w kernel_decision
decided = refl

kernel_decision_lem_example :
    ((leaves_loop ≡ leaves_loop) ↔ (
      (burst.kernel.running ≡ false)
      × (burst.kernel.stop_code ≢ 0)
      × (burst.kernel.stop_code ≢ 0x100)))
    × ((t : Spurs) → leaves_loop ≡ runs t → t.kernel.running ≡ true)
kernel_decision_lem_example = kernel_decision_lem no_floats flat burst leaves_loop decided

abbrev warm : Spurs
warm = record cold { entry_pc = 0xD0 }

restart_from_entry_lem_example :
    let k = (resume (restart_from_entry warm)).kernel in
    (k.running ≡ true)
    × (k.pc ≡ 0xD0)
    × (get_w (k.gpr 3) 1 ≡ spurs_kernel_mgmt_ea)
    × ((i : ℕ) → i ≢ 1 → get_w (k.gpr 3) i ≡ 0)
    × ((i : ℕ) → k.gpr 4 i ≡ 0)
    × (ls_read32 k.ls (get_w (k.gpr 0) 0) ≡ 0x100)
    × ((r : ℕ) → r ≢ 0 → r ≢ 3 → r ≢ 4 → k.gpr r ≡ warm.kernel.gpr r)
restart_from_entry_lem_example = restart_from_entry_lem warm (omega arith)

-- A workload that asks for the geometry processor with its descriptor at `desc_ls`.
abbrev asking : ℕ → Spurs
asking desc_ls = record cold {
  workload = record (spu_ctx_init 2 true zeros) {
    gpr = λ r. set_w zeros 0 desc_ls;
    pc = 0x3054;
    stop_code = 0x3FFF;
  };
}

edge_service_faults_example :
    (edge_service flat 0 (asking 0x3FFF8) ≡ none)
    ↔ (ls_size < get_w ((asking 0x3FFF8).workload.gpr 4) 0 + 16)
unfolding get_w set_w
edge_service_faults_example =
    edge_service_faults flat 0 (asking 0x3FFF8) (omega arith) (omega arith)

edge_service_sends_example :
    (t : Spurs) × (edge_service flat 0 (asking 0x200) ≡ some (goes_on t))
    × (t.workload.pc ≡ 0x3108)
    × (t.workload.running ≡ true)
    × (get_w (t.workload.gpr 3) 0 ≡ 0x200)
    × (get_w (t.workload.gpr 87) 0 ≡ 0x200)
    × (ls_read32 t.workload.ls 0x200 ≡ 0)
    × (ls_read32 t.workload.ls 0x204 ≡ 0x70C000)
    × (ls_read32 t.workload.ls 0x208 ≡ 0xD0100000)
    × (ls_read32 t.workload.ls 0x20C ≡ 0)
unfolding get_w set_w
edge_service_sends_example =
    edge_service_sends flat 0 (asking 0x200) (omega arith) (omega arith) (omega arith) (omega arith)

abbrev counted_end : Option (ℕ × Spurs) → ℕ × Spurs
counted_end none = (0, cold)
counted_end (some p) = p

abbrev looped : ℕ × Spurs
looped = counted_end (workload_loop no_floats flat 0 20 0 0 cold)

loop_ends : workload_loop no_floats flat 0 20 0 0 cold ≡ some looped
unfolding spurs_start spu_load_elf spurs_run_workload spu_ctx_init spu_step ls_read32 stop get_w
    set_w workload_loop
loop_ends = refl

workload_loop_count_example :
    (looped.0 ≤ 1000000)
    × (looped.1.workload.insn_count ≡ u64 (cold.workload.insn_count + looped.0))
    × (looped.1.kernel ≡ cold.kernel)
    × (looped.1.entry_pc ≡ cold.entry_pc)
unfolding spu_ctx_init
workload_loop_count_example =
    workload_loop_count no_floats flat 0 cold looped.1 looped.0 cold-IsReady (omega arith) loop_ends

returns_to_sentinel_example :
    let c = cold.workload in
    (gw (rotmai (rotmai_word 88 511) (set_registers c).gpr) 0 0 ≡ 0x40)
    × (gw (rotmai (rotmai_word 19 0) (set_registers c).gpr) 0 0 ≡ 0x40)
    × (gw (rotmai (rotmai_word 114 56) (set_registers c).gpr) 0 0 ≡ 0x40)
    × ((d : Ctx) × (spu_step no_floats (record (set_registers c) { pc = 0x40; running = true })
          ≡ some d)
        × (d.running ≡ false)
        × (d.stop_code ≡ 0x100))
returns_to_sentinel_example = returns_to_sentinel no_floats cold.workload

spurs_render_sphere_tick_lem_example :
    ((spurs_render_sphere_tick flat true 1 main_memory).drawn ≡ some 1023)
    × ((spurs_render_sphere_tick flat true 1 main_memory).frame ≡ 2)
    × ((a : ℕ)
        → (a < 0xD0180000) ⊎ (0xD0184000 ≤ a)
        → (spurs_render_sphere_tick flat true 1 main_memory).vm a ≡ main_memory a)
    × (spurs_render_sphere_tick flat false 1 main_memory
        ≡ record { vm = main_memory; frame = 1; drawn = none })
spurs_render_sphere_tick_lem_example = spurs_render_sphere_tick_lem flat 1 main_memory
