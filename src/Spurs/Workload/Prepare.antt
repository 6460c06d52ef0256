-- ===== src/Spurs/Workload/Prepare.antt =====
-- spu_spurs.cpp: the preparation of a workload keeps the state well formed.
use dbz_budokai_hd.Common.{ℕ, Bool, true, ◌+◌, ◌≡◌, not, refl, arith, if_keeps, Memory}
use dbz_budokai_hd.Spu.Context.{Ctx, spu_ctx_init}
use dbz_budokai_hd.Spu.Invariant.{IsValid, AreBytes}
use dbz_budokai_hd.Spu.Invariant.Channels.{ls-IsValid}
use dbz_budokai_hd.Spu.Elf.{Loaded, rejected, loaded, undefined, has_magic, spu_load_elf}
use dbz_budokai_hd.Spu.Elf.Laws.{spu_load_elf_loaded}
use dbz_budokai_hd.Spurs.State.{Spurs, game_workload_1_gaddr, game_workload_1_size}
use dbz_budokai_hd.Spurs.Within.{put_bytes-Within}
use dbz_budokai_hd.Spurs.Steady.{
  Partial, no_result, result, IsReady, Kept, Kept-refl, control-IsValid, set_word-IsValid,
  place_sentinel-IsValid,
}
use dbz_budokai_hd.Spurs.Workload.{
  Prepared, skip, ready, workload_elf, geometry_sentinel, first_loaded, first_load, reloaded,
  prepare, set_registers,
}

-- A context that the loader gives is valid.
pub loaded-IsValid :
    (c d : Ctx) (s : Spurs) (gaddr size : ℕ)
    → AreBytes s.vm
    → IsValid c
    → spu_load_elf c (record { bytes = λ i. s.vm (gaddr + i); length = size }) ≡ loaded d
    → IsValid d
loaded-IsValid c d s gaddr size b v e = (spu_load_elf_loaded c d _ v (λ k. b (gaddr + k)) e).0.valid

pub spu_ctx_init-IsValid :
    (id limit : ℕ) (base : Bool) (vm : Memory)
    → AreBytes vm
    → IsValid (record (spu_ctx_init id base vm) { trace_limit = limit; trace_count = 0 })
unfolding spu_ctx_init
spu_ctx_init-IsValid id limit base vm b = record {
  gpr = λ r k. omega arith;
  ls = λ k. omega arith;
  vm = b;
  pc = omega arith;
  stop_code = omega arith;
  mfc_lsa = omega arith;
  mfc_eah = omega arith;
  mfc_eal = omega arith;
  mfc_size = omega arith;
  mfc_tag = omega arith;
  mfc_tagmask = omega arith;
  inbound_mbox = omega arith;
  outbound_mbox = omega arith;
  signal = λ i. omega arith;
  decr = omega arith;
}

-- What holds of the state in which the preparation leaves.
abbrev pub Prepares : Spurs → Prepared → Type 0
Prepares s (skip t) = Kept s t
Prepares s (ready t) = Kept s t

-- A new workload context.
workload-Kept :
    (s : Spurs) (c : Ctx) (valid : Bool)
    → IsReady s
    → IsValid c
    → Kept s (record s { workload = c; workload_valid = valid })
workload-Kept s c valid r v = record {
  ready = record { vm = r.vm; kernel = r.kernel; workload = v; entry_pc = r.entry_pc };
  protected = λ a o. refl;
}

module _ (s : Spurs) (r : IsReady s) where
  first_loaded-Kept :
      (c : Ctx) (l : Loaded)
      → IsValid c
      → ((d : Ctx) → l ≡ loaded d → IsValid d)
      → Partial (Prepares s) (first_loaded c s l)
  unfolding first_loaded
  first_loaded-Kept c undefined v k = no_result
  first_loaded-Kept c rejected v k = result (workload-Kept s c s.workload_valid r v)
  first_loaded-Kept c (loaded d) v k =
      let table =
        put_bytes-Within {lo = 0xBC00} {hi = 0xBC10} d.ls 0xBC00 geometry_sentinel (omega arith)
          (omega arith) (omega arith) in
      result (workload-Kept s _ true r (ls-IsValid d _ (table.bytes ((k d refl).ls)) (k d refl)))

  first_load-Kept : Partial (Prepares s) (first_load s)
  unfolding first_load
  first_load-Kept =
      let c = record (spu_ctx_init 2 s.vm_base s.vm) { trace_limit = 50; trace_count = 0 } in
      let v = spu_ctx_init-IsValid 2 50 s.vm_base s.vm r.vm in
      if_keeps (Partial (Prepares s)) (not s.vm_base) no_result (
        if_keeps (Partial (Prepares s)) (not (has_magic (workload_elf s))) (result (Kept-refl s r))
          (first_loaded-Kept c (spu_load_elf c (workload_elf s)) v
            λ d e. loaded-IsValid c d s game_workload_1_gaddr game_workload_1_size r.vm v e))

  reloaded-Kept :
      (l : Loaded) → ((d : Ctx) → l ≡ loaded d → IsValid d) → Partial (Prepares s) (reloaded s l)
  unfolding reloaded
  reloaded-Kept undefined k = no_result
  reloaded-Kept rejected k = result (Kept-refl s r)
  reloaded-Kept (loaded d) k =
      let v = k d refl in
      result (
        workload-Kept s _ s.workload_valid r
          (control-IsValid d d.pc 0 d.trace_count d.running v.pc v))

  pub prepare-Kept : Partial (Prepares s) (prepare s)
  unfolding prepare
  prepare-Kept = if_keeps (Partial (Prepares s)) (not s.workload_valid) first_load-Kept (
      if_keeps (Partial (Prepares s)) (not s.vm_base) no_result (
        reloaded-Kept (spu_load_elf s.workload (workload_elf s)) λ d e.
          loaded-IsValid s.workload d s game_workload_1_gaddr game_workload_1_size r.vm r.workload
            e))

pub set_registers-IsValid : (c : Ctx) → IsValid c → IsValid (set_registers c)
unfolding set_registers
set_registers-IsValid c v = place_sentinel-IsValid _ (
    set_word-IsValid 89 0 0x80 _ (
      set_word-IsValid 86 0 0x80 _ (
        set_word-IsValid 114 0 0x4000 _ (
          set_word-IsValid 19 0 0x40 _ (
            set_word-IsValid 88 0 0x80 _
              (set_word-IsValid 0 0 0x40 _ (set_word-IsValid 3 0 0x70A000 c v)))))))
