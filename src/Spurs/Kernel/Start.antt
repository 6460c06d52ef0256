-- ===== src/Spurs/Kernel/Start.antt =====
-- spu_spurs.cpp: the kernel's burst, with the thread after it, keeps the state well formed and protects
-- the main memory, whatever the kernel and the workloads that it dispatches do.
use dbz_budokai_hd.Common.{
  ℕ, zero, suc, Bool, true, false, ◌+◌, ◌||◌, ◌≡◌, ◌==◌, leb, not, refl, arith, subst, Option, some,
  none, if_keeps, List,
}
use dbz_budokai_hd.Common.Words.{add32}
use dbz_budokai_hd.Spu.Context.{Ctx, spu_ctx_init}
use dbz_budokai_hd.Spu.Mfc.{◌>>=◌}
use dbz_budokai_hd.Spu.Mfc.Laws.{IsProtected}
use dbz_budokai_hd.Spu.Isa.Floats.{Floats}
use dbz_budokai_hd.Spu.Invariant.{IsValid}
use dbz_budokai_hd.Spu.Invariant.Channels.{ls-IsValid}
use dbz_budokai_hd.Spu.Elf.{Loaded, rejected, loaded, undefined, has_magic, spu_load_elf}
use dbz_budokai_hd.Spurs.State.{
  Spurs, elf_at, set_word, put_be32, place_sentinel, spurs_kernel_a_gaddr, spurs_kernel_elf_size,
  spurs_ctx_ea, run_kernel_ctx, game_workload_1_gaddr, game_workload_1_size,
}
use dbz_budokai_hd.Spurs.Within.{put_be32-Within}
use dbz_budokai_hd.Spurs.Steady.{
  Partial, no_result, result, Partial->>=, IsReady, Kept, Kept-refl, Kept-trans, contexts-Kept,
  control-IsValid, set_word-IsValid, place_sentinel-IsValid, run_workload_ctx-Kept,
  run_kernel_ctx-Kept, after, after_counted,
}
use dbz_budokai_hd.Spurs.Vertices.{Sphere}
use dbz_budokai_hd.Spurs.Workload.{workload_elf}
use dbz_budokai_hd.Spurs.Workload.Keeps.{spurs_run_workload-Kept}
use dbz_budokai_hd.Spurs.Workload.Prepare.{loaded-IsValid, spu_ctx_init-IsValid}
use dbz_budokai_hd.Spurs.Kernel.{
  dispatched, slot_of, spurs_kernel_thread, Burst, bursts, breaks, burst_yielded, burst_decision,
  burst_loop, kernel_arguments, started_with, spurs_start, test_task, test_loop, test_loaded,
  spurs_test_edge_geometry,
}
use dbz_budokai_hd.Spurs.Kernel.Keeps.{
  reset_arguments-IsValid, kernel_arguments-IsValid, kernel-Kept, traced-Kept, resume-Kept, resumed,
  spurs_kernel_thread-Kept,
}

abbrev Bursts : Spurs → Burst → Type 0
Bursts s (bursts t) = Kept s t
Bursts s (breaks t) = Kept s t

module _ (F : Floats) (sphere : Sphere) where
  burst_yielded-Kept :
      (restart : ℕ) (s : Spurs) → IsReady s → Partial (Bursts s) (burst_yielded F sphere restart s)
  unfolding burst_yielded
  burst_yielded-Kept restart s r =
      let pc = s.kernel.pc in
      let P = Partial (Bursts s) in
      if_keeps P (dispatched pc)
        (Partial->>= (spurs_run_workload-Kept F sphere (slot_of pc) s r)
          (λ t k. result (resumed k)))
        (if_keeps P (leb 0x29000 pc || leb 0x20600 pc) (result (resume-Kept s r)) (
          if_keeps P (restart == 1) (result (traced-Kept s 200 0 r))
            (result (traced-Kept s 0 s.kernel.trace_count r))))

  burst_decision-Kept :
      (restart : ℕ) (s : Spurs) → IsReady s → Partial (Bursts s) (burst_decision F sphere restart s)
  unfolding burst_decision
  burst_decision-Kept restart s r =
      let k = s.kernel in
      let P = Partial (Bursts s) in
      let v = control-IsValid k s.entry_pc k.trace_limit k.trace_count true r.entry_pc r.kernel in
      if_keeps P k.running (result (Kept-refl s r)) (
        if_keeps P (k.stop_code == 0) (burst_yielded-Kept restart s r) (
          if_keeps P (k.stop_code == 0x100)
            (result (kernel-Kept s _ r (reset_arguments-IsValid _ v))) (result (Kept-refl s r))))

  burst_rest-Kept :
      (left restart total : ℕ) (s : Spurs) (decision : Burst)
      → Bursts s decision
      → ((n : ℕ) (u : Spurs)
          → IsReady u
          → Partial (λ p. Kept u p.1) (burst_loop F sphere left restart n u))
      → Partial
          (λ p. Kept s p.1)
          (elim decision [
            | breaks t ↦ some (total, t)
            | bursts t ↦ (do
              (n, u) ← run_kernel_ctx F 200000 t
              burst_loop F sphere left restart (add32 total n) u)
          ])
  burst_rest-Kept left restart total s (breaks t) k rest = result k
  burst_rest-Kept left restart total s (bursts t) k rest =
      Partial->>= (run_kernel_ctx-Kept F 200000 t k.ready) λ p q.
        after_counted (Kept-trans k q) (burst_loop F sphere left restart (add32 total p.0) p.1)
          (rest (add32 total p.0) p.1 q.ready)

  burst_loop-Kept :
      (left restart total : ℕ) (s : Spurs)
      → IsReady s
      → Partial (λ p. Kept s p.1) (burst_loop F sphere left restart total s)
  unfolding burst_loop
  burst_loop-Kept zero restart total s r = result (Kept-refl s r)
  burst_loop-Kept (suc left) restart total s r =
      Partial->>= (burst_decision-Kept restart s r) λ decision d.
        burst_rest-Kept left (restart + 1) total s decision d (burst_loop-Kept left (restart + 1))

  started_with-Kept :
      (s : Spurs) (l : Loaded)
      → IsReady s
      → ((d : Ctx) → l ≡ loaded d → IsValid d)
      → Partial (λ p. Kept s p.0) (started_with F sphere s l)
  unfolding started_with
  started_with-Kept s undefined r k = no_result
  started_with-Kept s rejected r k = result (Kept-refl s r)
  started_with-Kept s (loaded d) r k =
      let v = k d refl in
      let t = record s { kernel = kernel_arguments d; entry_pc = d.pc } in
      let begun : Kept s t = record {
        ready = record {
          vm = r.vm;
          kernel = kernel_arguments-IsValid d v;
          workload = r.workload;
          entry_pc = v.pc;
        };
        protected = λ a o. refl;
      } in
      Partial->>= (burst_loop-Kept 200 0 0 t begun.ready) (λ p q. result (Kept-trans begun q))

  spurs_start-Kept : (s : Spurs) → IsReady s → Partial (λ p. Kept s p.0) (spurs_start F sphere s)
  unfolding spurs_start
  spurs_start-Kept s r =
      let c = record (spu_ctx_init 0 s.vm_base s.vm) { trace_limit = 50; trace_count = 0 } in
      let elf = elf_at s spurs_kernel_a_gaddr spurs_kernel_elf_size in
      let v = spu_ctx_init-IsValid 0 50 s.vm_base s.vm r.vm in
      let begun : Kept s (record s { started = true; kernel = c }) = record {
        ready = record { vm = r.vm; kernel = v; workload = r.workload; entry_pc = r.entry_pc };
        protected = λ a o. refl;
      } in
      let P : Option (Spurs × Bool) → Type 0 = Partial (λ p. Kept s p.0) in
      if_keeps P s.started (result (Kept-refl s r)) (
        if_keeps P (not s.vm_base) no_result (
          if_keeps P (has_magic elf)
            (from begun _ (
              started_with-Kept _ (spu_load_elf c elf) begun.ready
                λ d e. loaded-IsValid c d s spurs_kernel_a_gaddr spurs_kernel_elf_size r.vm v e))
            (result begun)))
    where
      from :
          {t u : Spurs}
          → Kept t u
          → (o : Option (Spurs × Bool)) → Partial (λ p. Kept u p.0) o
          → Partial (λ p. Kept t p.0) o
      from k none no_result = no_result
      from k (some p) (result q) = result (Kept-trans k q)

test_task-IsValid : (c : Ctx) → IsValid c → IsValid (test_task c)
unfolding test_task
test_task-IsValid c v =
    let c₁ = record c { pc = 0x3108; ls = put_be32 c.ls 0x3004 spurs_ctx_ea } in
    let w =
      put_be32-Within {lo = 0x3004} {hi = 0x3008} c.ls 0x3004 spurs_ctx_ea (omega arith)
        (omega arith) in
    let v₁ : IsValid c₁ =
      ls-IsValid (record c { pc = 0x3108 }) _ (w.bytes v.ls)
        (control-IsValid c 0x3108 c.trace_limit c.trace_count c.running (omega arith) v) in
    let c₃ = place_sentinel (
      set_word 114 0 0x4000 (
        set_word 19 0 0x40 (
          set_word 88 0 0x80 (
            set_word 0 0 0x40
              (set_word 1 0 0x2000 (set_word 87 0 0x3000 (set_word 3 0 0x3000 c₁))))))) in
    let v₃ : IsValid c₃ = place_sentinel-IsValid _ (
      set_word-IsValid 114 0 0x4000 _ (
        set_word-IsValid 19 0 0x40 _ (
          set_word-IsValid 88 0 0x80 _ (
            set_word-IsValid 0 0 0x40 _ (
              set_word-IsValid 1 0 0x2000 _
                (set_word-IsValid 87 0 0x3000 _ (set_word-IsValid 3 0 0x3000 c₁ v₁))))))) in
    control-IsValid c₃ c₃.pc 100 0 c₃.running v₃.pc v₃

module _ (F : Floats) where
  test_loop-Kept : (left : ℕ) (s : Spurs) → IsReady s → Partial (Kept s) (test_loop F left s)
  unfolding test_loop
  test_loop-Kept zero s r = result (Kept-refl s r)
  test_loop-Kept (suc left) s r =
      branch s.workload.running
        (Partial->>= (run_workload_ctx-Kept F 50000 s r)
          λ p k. after k (test_loop F left p.1) (test_loop-Kept left p.1 k.ready))
        (result (Kept-refl s r))
    where
      branch :
          (b : Bool) {x y : Option Spurs}
          → Partial (Kept s) x
          → Partial (Kept s) y
          → Partial (Kept s) (elim b [ true ↦ x | false ↦ y ])
      branch true p q = p
      branch false p q = q

  test_loaded-Kept :
      (s : Spurs) (l : Loaded)
      → IsReady s
      → ((d : Ctx) → l ≡ loaded d → IsValid d)
      → Partial (Kept s) (test_loaded F s l)
  unfolding test_loaded
  test_loaded-Kept s undefined r k = no_result
  test_loaded-Kept s rejected r k = result (Kept-refl s r)
  test_loaded-Kept s (loaded d) r k =
      let begun = contexts-Kept s s.kernel _ r r.kernel (test_task-IsValid d (k d refl)) in
      after begun _ (test_loop-Kept 10 _ begun.ready)

  spurs_test_edge_geometry-Kept :
      (s : Spurs) → IsReady s → Partial (Kept s) (spurs_test_edge_geometry F s)
  unfolding spurs_test_edge_geometry
  spurs_test_edge_geometry-Kept s r =
      if_keeps (Partial (Kept s)) (not s.workload_valid) (result (Kept-refl s r)) (
        if_keeps (Partial (Kept s)) (not s.vm_base) no_result (
          test_loaded-Kept s (spu_load_elf s.workload (workload_elf s)) r λ d e.
            loaded-IsValid s.workload d s game_workload_1_gaddr game_workload_1_size r.vm r.workload
              e))

holds : {A : Type 0} {P : A → Type 0} {a : A} → Partial P (some a) → P a
holds (result p) = p

module _ (F : Floats) (sphere : Sphere) (s t u v : Spurs) (created : Bool) (flags : List Bool)
    (r : IsReady s) (started : spurs_start F sphere s ≡ some (t, created))
    (tested : spurs_test_edge_geometry F t ≡ some u)
    (run : spurs_kernel_thread F sphere flags u ≡ some v) where
  -- From a well-formed state, the start of the kernel with its burst, the test of the geometry
  -- processor, and any number of rounds of the kernel's thread, with the workloads that they
  -- dispatch, end in a well-formed state and leave every byte of the main memory below 0x10000,
  -- from 0x40000000 up to 0xD0100000 and from 0xD0200000 on as it was, if no access is undefined.
  pub spurs_protects : IsReady v × ((a : ℕ) → IsProtected a → v.vm a ≡ s.vm a)
  spurs_protects =
      let k = holds (subst (Partial (λ p. Kept s p.0)) started (spurs_start-Kept F sphere s r)) in
      let l = holds (subst (Partial (Kept t)) tested (spurs_test_edge_geometry-Kept F t k.ready)) in
      let m =
        holds (subst (Partial (Kept u)) run (spurs_kernel_thread-Kept F sphere flags u l.ready)) in
      let all = Kept-trans k (Kept-trans l m) in (all.ready, all.protected)
