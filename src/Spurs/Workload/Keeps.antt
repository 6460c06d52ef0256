-- ===== src/Spurs/Workload/Keeps.antt =====
-- spu_spurs.cpp: `spurs_run_workload` keeps the state well formed and protects the main memory.
use dbz_budokai_hd.Common.{
  ℕ, zero, suc, Bool, true, ◌+◌, ◌&&◌, ◌==◌, leb, ltb, arith, some, if_keeps, Memory,
}
use dbz_budokai_hd.Common.Words.{u32, add32, ◌>>>◌}
use dbz_budokai_hd.Spu.Context.{Ctx, ls_size}
use dbz_budokai_hd.Spu.Reg.{get_w}
use dbz_budokai_hd.Spu.Isa.Floats.{Floats}
use dbz_budokai_hd.Spu.Invariant.{IsValid, AreBytes}
use dbz_budokai_hd.Spu.Invariant.Channels.{ls-IsValid}
use dbz_budokai_hd.Spurs.State.{Spurs, set_word}
use dbz_budokai_hd.Spurs.Steady.{
  Partial, no_result, result, Partial->>=, IsReady, Kept, Kept-refl, Kept-trans, contexts-Kept,
  control-IsValid, set_word-IsValid, rsx_process_edge-Kept, run_workload_ctx-Kept, after_counted,
}
use dbz_budokai_hd.Spurs.Vertices.{Sphere}
use dbz_budokai_hd.Spurs.Vertices.Written.{fill_streams-IsStream}
use dbz_budokai_hd.Spurs.Workload.{
  Prepared, skip, ready, set_registers, ls_put, ls_put_be32, put_task_descriptor, Next, goes_on,
  ends, yielded, stream, redirect, edge_service, after_run, workload_loop, run_prepared,
  spurs_run_workload,
}
use dbz_budokai_hd.Spurs.Workload.Prepare.{Prepares, prepare-Kept, set_registers-IsValid}

ls_put-AreBytes : (a v : ℕ) (ls : Memory) → AreBytes ls → Partial AreBytes (ls_put a v ls)
unfolding ls_put
ls_put-AreBytes a v ls b =
    if_keeps (Partial AreBytes) (ltb (u32 a) ls_size) (result (λ k. ground (arith, b k))) no_result

ls_put_be32-AreBytes :
    (off v : ℕ) (ls : Memory) → AreBytes ls → Partial AreBytes (ls_put_be32 off v ls)
unfolding ls_put_be32
ls_put_be32-AreBytes off v ls h = Partial->>= (ls_put-AreBytes off (v >>> 24) ls h) λ a ha.
    Partial->>= (ls_put-AreBytes (off + 1) (v >>> 16) a ha) λ b hb.
      Partial->>= (ls_put-AreBytes (off + 2) (v >>> 8) b hb)
        λ c hc. ls_put-AreBytes (off + 3) v c hc

put_task_descriptor-AreBytes :
    (desc_ls : ℕ) (ls : Memory) → AreBytes ls → Partial AreBytes (put_task_descriptor desc_ls ls)
unfolding put_task_descriptor
put_task_descriptor-AreBytes desc_ls ls h =
    Partial->>= (ls_put_be32-AreBytes desc_ls 0 ls h) λ a ha.
      Partial->>= (ls_put_be32-AreBytes (add32 desc_ls 4) 0x70C000 a ha) λ b hb.
        Partial->>= (ls_put_be32-AreBytes (add32 desc_ls 8) 0xD0100000 b hb)
          λ c hc. ls_put_be32-AreBytes (add32 desc_ls 12) 0 c hc

-- What holds of the state in which a round leaves.
abbrev pub Rounds : Spurs → Next → Type 0
Rounds s (goes_on t) = Kept s t
Rounds s (ends t) = Kept s t

-- Another workload context that differs in the control fields alone.
control-Kept :
    (s : Spurs) (running : Bool) (limit traced : ℕ)
    → IsReady s
    → Kept s (record s {
      workload = record (s.workload) {
        running = running;
        trace_limit = limit;
        trace_count = traced;
      };
    })
control-Kept s running limit traced r =
    contexts-Kept s s.kernel _ r r.kernel
      (control-IsValid s.workload s.workload.pc limit traced running r.workload.pc r.workload)

yielded-Kept : (restart : ℕ) (s : Spurs) → IsReady s → Rounds s (yielded restart s)
unfolding yielded
yielded-Kept restart s r = if_keeps (Rounds s) (leb 0x20000 s.workload.pc) (Kept-refl s r) (
    if_keeps (Rounds s) (restart == 0) (control-Kept s true 30 0 r)
      (control-Kept s true 0 s.workload.trace_count r))

module _ (sphere : Sphere) (slot : ℕ) where
  stream-Kept : (s : Spurs) → IsReady s → Kept s (stream sphere slot s)
  unfolding stream
  stream-Kept s r =
      let w = fill_streams-IsStream sphere (u32 (s.edge_frame + 1)) s.vm in
      if_keeps (Kept s) (s.vm_base && slot == 0)
        (record {
          ready = record {
            vm = w.bytes r.vm;
            kernel = r.kernel;
            workload = r.workload;
            entry_pc = r.entry_pc;
          };
          protected = λ a o. w.outside a (ground (arith, o));
        })
        (Kept-refl s r)

  redirect-Kept :
      (desc_ls : ℕ) (ls : Memory) (s : Spurs)
      → AreBytes ls
      → IsReady s
      → Kept s (redirect sphere slot desc_ls ls s)
  unfolding redirect
  redirect-Kept desc_ls ls s b r =
      let t = stream sphere slot s in
      let k = stream-Kept s r in
      let w = k.ready.workload in
      let c₀ : Ctx = record (t.workload) { ls = ls } in
      let c = set_word 87 0 desc_ls (set_word 3 0 desc_ls c₀) in
      let v : IsValid c =
        set_word-IsValid 87 0 desc_ls (set_word 3 0 desc_ls c₀)
          (set_word-IsValid 3 0 desc_ls c₀ (ls-IsValid t.workload ls b w)) in
      if_keeps (Kept s) (slot == 0 && t.edge_first_dispatch)
        (record {
          ready = record {
            vm = k.ready.vm;
            kernel = k.ready.kernel;
            workload = control-IsValid c 0x3108 0 0 true (omega arith) v;
            entry_pc = k.ready.entry_pc;
          };
          protected = k.protected;
        })
        (Kept-trans k (
          contexts-Kept t t.kernel _ k.ready k.ready.kernel
            (control-IsValid c 0x3108 c.trace_limit c.trace_count true (omega arith) v)))

  edge_service-Kept : (s : Spurs) → IsReady s → Partial (Rounds s) (edge_service sphere slot s)
  unfolding edge_service
  edge_service-Kept s r =
      let desc_ls = get_w (s.workload.gpr 4) 0 in
      if_keeps (Partial (Rounds s)) (leb 0x3100 s.workload.pc) (result (rsx_process_edge-Kept s r))
        (Partial->>= (put_task_descriptor-AreBytes desc_ls s.workload.ls r.workload.ls)
          λ ls b. result (redirect-Kept desc_ls ls s b r))

  pub after_run-Kept :
      (restart : ℕ) (s : Spurs) → IsReady s → Partial (Rounds s) (after_run sphere slot restart s)
  unfolding after_run
  after_run-Kept restart s r =
      let P = Partial (Rounds s) in
      if_keeps P s.workload.running (result (Kept-refl s r)) (
        if_keeps P (s.workload.stop_code == 0) (result (yielded-Kept restart s r)) (
          if_keeps P (s.workload.stop_code == 0x100) (result (Kept-refl s r)) (
            if_keeps P (s.workload.stop_code == 0x3FFF) (edge_service-Kept s r)
              (result (Kept-refl s r)))))

-- What the result of the loop says of its start.
abbrev Ends : Spurs → ℕ × Spurs → Type 0
Ends s p = Kept s p.1

module _ (F : Floats) (sphere : Sphere) (slot : ℕ) where
  round_rest-Kept :
      (left restart ran : ℕ) (s : Spurs) (next : Next)
      → Rounds s next
      → ((u : Spurs)
          → IsReady u
          → Partial (Ends u) (workload_loop F sphere slot left restart ran u))
      → Partial (Ends s) (elim next [
        | goes_on u ↦ workload_loop F sphere slot left restart ran u
        | ends u ↦ some (ran, u)
      ])
  round_rest-Kept left restart ran s (goes_on u) k rest =
      after_counted k (workload_loop F sphere slot left restart ran u) (rest u k.ready)
  round_rest-Kept left restart ran s (ends u) k rest = result k

  workload_loop-Kept :
      (left restart ran : ℕ) (s : Spurs)
      → IsReady s
      → Partial (Ends s) (workload_loop F sphere slot left restart ran s)
  unfolding workload_loop
  workload_loop-Kept zero restart ran s r = result (Kept-refl s r)
  workload_loop-Kept (suc left) restart ran s r =
      Partial->>= (run_workload_ctx-Kept F 50000 s r) λ p k.
        Partial->>= (after_run-Kept sphere slot restart p.1 k.ready) λ next n.
          round_rest-Kept left (restart + 1) (add32 ran p.0) s next (after k next n)
            (workload_loop-Kept left (restart + 1) (add32 ran p.0))
    where
      after : {t : Spurs} → Kept s t → (next : Next) → Rounds t next → Rounds s next
      after k (goes_on u) n = Kept-trans k n
      after k (ends u) n = Kept-trans k n

  run_prepared-Kept :
      (s : Spurs) (p : Prepared) → Prepares s p → Partial (Kept s) (run_prepared F sphere slot p)
  unfolding run_prepared
  run_prepared-Kept s (skip t) k = result k
  run_prepared-Kept s (ready t) k =
      let c = set_registers t.workload in
      let v = set_registers-IsValid t.workload k.ready.workload in
      let started = contexts-Kept t t.kernel c k.ready k.ready.kernel v in
      Partial->>= (workload_loop-Kept 20 0 0 (record t { workload = c }) started.ready) λ p q.
        let all = Kept-trans k (Kept-trans started q) in
        result
          (if_keeps (Kept s) (slot == 0) (Kept-trans all (rsx_process_edge-Kept p.1 q.ready)) all)

  pub spurs_run_workload-Kept :
      (s : Spurs) → IsReady s → Partial (Kept s) (spurs_run_workload F sphere slot s)
  unfolding spurs_run_workload
  spurs_run_workload-Kept s r = Partial->>= (prepare-Kept s r) (λ p k. run_prepared-Kept s p k)
