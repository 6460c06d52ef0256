-- ===== src/Spurs/Workload/Budget.antt =====
-- spu_spurs.cpp: how many instructions a workload runs for, and what it cannot reach.
use dbz_budokai_hd.Common.{
  ℕ, zero, suc, ◌+◌, ◌*◌, ◌^◌, ◌≤◌, ◌<◌, ◌≡◌, ◌==◌, ◌&&◌, ◌∙◌, refl, arith, subst, Option, some,
  none, Option-cases, inl, inr, if_keeps, leb, Memory,
}
use dbz_budokai_hd.Common.Words.{add32, u64}
use dbz_budokai_hd.Spu.Reg.{get_w}
use dbz_budokai_hd.Spu.Isa.Floats.{Floats}
use dbz_budokai_hd.Spu.Step.{spu_run}
use dbz_budokai_hd.Spu.Invariant.Channels.{vm-IsValid}
use dbz_budokai_hd.Spu.Invariant.Run.{spu_run_bound, spu_run_count}
use dbz_budokai_hd.Spurs.State.{Spurs, rsx_process_edge, run_workload_ctx}
use dbz_budokai_hd.Spurs.Steady.{
  Partial, no_result, result, Partial->>=, IsReady, run_workload_ctx-Kept,
}
use dbz_budokai_hd.Spurs.Vertices.{Sphere}
use dbz_budokai_hd.Spurs.Workload.{
  Next, goes_on, ends, put_task_descriptor, yielded, stream, redirect, edge_service, after_run,
  workload_loop,
}
use dbz_budokai_hd.Spurs.Workload.Keeps.{Rounds, after_run-Kept}

both :
    {A : Type 0} {P Q : A → Type 0} (o : Option A)
    → Partial P o
    → Partial Q o
    → Partial (λ a. P a × Q a) o
both none p q = no_result
both (some a) (result p) (result q) = result (p, q)

anything : {A : Type 0} (o : Option A) → Partial (λ a. Unit {0}) o
anything none = no_result
anything (some a) = result tt

-- n instructions of the workload later, and nothing else of the kernel or of its entry.
record Spent (n : ℕ) (s t : Spurs) : Type 0 where
  counted : s.workload.insn_count < 2 ^ 64 → t.workload.insn_count ≡ u64 (s.workload.insn_count + n)
  kernel : t.kernel ≡ s.kernel
  entry : t.entry_pc ≡ s.entry_pc

Spent-refl : (s : Spurs) → Spent 0 s s
Spent-refl s = record { counted = λ small. omega arith; kernel = refl; entry = refl }

Spent-trans : {m n : ℕ} {s t u : Spurs} → Spent m s t → Spent n t u → Spent (m + n) s u
Spent-trans p q = record {
  counted = λ small. omega (arith, p.counted small, q.counted (omega (arith, p.counted small)));
  kernel = q.kernel ∙ p.kernel;
  entry = q.entry ∙ p.entry;
}

idle :
    {s t : Spurs}
    → t.workload.insn_count ≡ s.workload.insn_count
    → t.kernel ≡ s.kernel
    → t.entry_pc ≡ s.entry_pc
    → Spent 0 s t
idle c k e = record { counted = λ small. omega (arith, c); kernel = k; entry = e }

run_workload_ctx-Spent :
    (F : Floats) (max : ℕ) (s : Spurs)
    → IsReady s
    → Partial (λ p. (p.0 ≤ max) × Spent p.0 s p.1) (run_workload_ctx F max s)
unfolding run_workload_ctx
run_workload_ctx-Spent F max s r =
    let c = record (s.workload) { vm = s.vm } in
    let v = vm-IsValid s.workload s.vm r.vm r.workload in
    elim (Option-cases (spu_run F c max)) [
      | inl n ↦ rw n no_result
      | inr ((n, d), e) ↦
          let bound = spu_run_bound F c d max n v e in
          let growth = λ (small : c.insn_count < 2 ^ 64). (spu_run_count F c d max n v e small).1 in
          rw e (result (bound, record { counted = growth; kernel = refl; entry = refl }))
    ]

-- What a round spends after `spu_run`: nothing.
abbrev Idles : Spurs → Next → Type 0
Idles s (goes_on t) = Spent 0 s t
Idles s (ends t) = Spent 0 s t

rsx_process_edge-Spent : (s : Spurs) → Spent 0 s (rsx_process_edge s)
unfolding rsx_process_edge
rsx_process_edge-Spent s = if_keeps (Spent 0 s) s.vm_base (idle refl refl refl) (Spent-refl s)

yielded-Idles : (restart : ℕ) (s : Spurs) → Idles s (yielded restart s)
unfolding yielded
yielded-Idles restart s =
    if_keeps (Idles s) (leb 0x20000 s.workload.pc) (Spent-refl s)
      (if_keeps (Idles s) (restart == 0) (idle refl refl refl) (idle refl refl refl))

module _ (sphere : Sphere) (slot : ℕ) where
  stream-Spent : (s : Spurs) → Spent 0 s (stream sphere slot s)
  unfolding stream
  stream-Spent s =
      if_keeps (Spent 0 s) (s.vm_base && slot == 0) (idle refl refl refl) (Spent-refl s)

  redirect-Spent :
      (desc_ls : ℕ) (ls : Memory) (s : Spurs) → Spent 0 s (redirect sphere slot desc_ls ls s)
  unfolding redirect
  redirect-Spent desc_ls ls s =
      let t = stream sphere slot s in
      let p = stream-Spent s in
      if_keeps (Spent 0 s) (slot == 0 && t.edge_first_dispatch)
        (Spent-trans p (idle refl refl refl)) (Spent-trans p (idle refl refl refl))

  after_run-Idles : (restart : ℕ) (s : Spurs) → Partial (Idles s) (after_run sphere slot restart s)
  unfolding after_run edge_service
  after_run-Idles restart s =
      let P = Partial (Idles s) in
      let desc_ls = get_w (s.workload.gpr 4) 0 in
      if_keeps P s.workload.running (result (Spent-refl s)) (
        if_keeps P (s.workload.stop_code == 0) (result (yielded-Idles restart s)) (
          if_keeps P (s.workload.stop_code == 0x100) (result (Spent-refl s)) (
            if_keeps P (s.workload.stop_code == 0x3FFF)
              (if_keeps P (leb 0x3100 s.workload.pc) (result (rsx_process_edge-Spent s)) (
                Partial->>= (anything (put_task_descriptor desc_ls s.workload.ls))
                  λ ls a. result (redirect-Spent desc_ls ls s)))
              (result (Spent-refl s)))))

-- What the loop has done by its end: n instructions, at most `most` beyond those before.
record Costs (most ran : ℕ) (s : Spurs) (p : ℕ × Spurs) : Type 0 where
  more : ℕ
  total : p.0 ≡ ran + more
  bounded : more ≤ most
  spent : Spent more s p.1

module _ (F : Floats) (sphere : Sphere) (slot : ℕ) where
  -- The end of a round that has spent n.
  round-Costs :
      (left restart ran n : ℕ) (s : Spurs) (next : Next)
      → ran + 50000 + left * 50000 < 2 ^ 32
      → n ≤ 50000
      → (t : Spurs) → Spent n s t
      → Idles t next
      → Rounds t next
      → ((u : Spurs)
          → IsReady u
          → Partial
              (Costs (left * 50000) (add32 ran n) u)
              (workload_loop F sphere slot left restart (add32 ran n) u))
      → Partial (Costs (suc left * 50000) ran s) (elim next [
        | goes_on u ↦ workload_loop F sphere slot left restart (add32 ran n) u
        | ends u ↦ some (add32 ran n, u)
      ])
  round-Costs left restart ran n s (ends u) small most t p q k rest =
      result (record {
        more = n + 0;
        total = omega arith;
        bounded = omega arith;
        spent = Spent-trans p q;
      })
  round-Costs left restart ran n s (goes_on u) small most t p q k rest =
      widen (workload_loop F sphere slot left restart (add32 ran n) u) (rest u k.ready)
    where
      widen :
          (o : Option (ℕ × Spurs))
          → Partial (Costs (left * 50000) (add32 ran n) u) o
          → Partial (Costs (suc left * 50000) ran s) o
      widen none no_result = no_result
      widen (some p') (result w) = result (record {
        more = n + 0 + w.more;
        total = omega (arith, w.total);
        bounded = omega (arith, w.bounded);
        spent = Spent-trans (Spent-trans p q) w.spent;
      })

  workload_loop-Costs :
      (left restart ran : ℕ) (s : Spurs)
      → ran + left * 50000 < 2 ^ 32
      → IsReady s
      → Partial (Costs (left * 50000) ran s) (workload_loop F sphere slot left restart ran s)
  unfolding workload_loop
  workload_loop-Costs zero restart ran s small r =
      result (record { more = 0; total = omega arith; bounded = omega arith; spent = Spent-refl s })
  workload_loop-Costs (suc left) restart ran s small r =
      Partial->>=
        (both (run_workload_ctx F 50000 s) (run_workload_ctx-Kept F 50000 s r)
          (run_workload_ctx-Spent F 50000 s r))
        λ (n, t) (k, (bound, spent)).
          Partial->>=
            (both (after_run sphere slot restart t) (after_run-Kept sphere slot restart t k.ready)
              (after_run-Idles sphere slot restart t))
            λ next (rounds, idles).
              round-Costs left (restart + 1) ran n s next (omega (arith, small)) bound t spent idles
                rounds
                (λ u ready.
                  workload_loop-Costs left (restart + 1) (add32 ran n) u
                    (omega (arith, small, bound)) ready)

  -- The rounds of a workload, started in a well-formed state whose counter has 64 bits, return,
  -- if no access is undefined, the number of instructions that the workload has run, at most a
  -- million, which its counter has grown by, modulo 2 ^ 64, and leave the context of the kernel
  -- and its entry point as they were.
  pub workload_loop_count :
      (s t : Spurs) (n : ℕ)
      → IsReady s
      → s.workload.insn_count < 2 ^ 64
      → workload_loop F sphere slot 20 0 0 s ≡ some (n, t)
      → (n ≤ 1000000)
        × (t.workload.insn_count ≡ u64 (s.workload.insn_count + n))
        × (t.kernel ≡ s.kernel)
        × (t.entry_pc ≡ s.entry_pc)
  workload_loop_count s t n r small e =
      conclude
        (subst (Partial (Costs 1000000 0 s)) e (workload_loop-Costs 20 0 0 s (omega arith) r))
    where
      conclude :
          Partial (Costs 1000000 0 s) (some (n, t))
          → (n ≤ 1000000)
            × (t.workload.insn_count ≡ u64 (s.workload.insn_count + n))
            × (t.kernel ≡ s.kernel)
            × (t.entry_pc ≡ s.entry_pc)
      conclude (result w) = (
        omega (arith, w.total, w.bounded),
        omega (arith, w.spent.counted small, w.total),
        w.spent.kernel,
        w.spent.entry,
      )
