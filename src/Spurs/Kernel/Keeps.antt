-- ===== src/Spurs/Kernel/Keeps.antt =====
-- spu_spurs.cpp: the kernel's thread keeps the state well formed and protects the main memory.
use dbz_budokai_hd.Common.{ℕ, Bool, true, false, ◌==◌, leb, some, if_keeps, List, [], ◌∷◌}
use dbz_budokai_hd.Spu.Context.{Ctx}
use dbz_budokai_hd.Spu.Mfc.{◌>>=◌}
use dbz_budokai_hd.Spu.Isa.Floats.{Floats}
use dbz_budokai_hd.Spu.Invariant.{IsValid}
use dbz_budokai_hd.Spurs.State.{Spurs, spurs_kernel_mgmt_ea, run_kernel_ctx}
use dbz_budokai_hd.Spurs.Steady.{
  Partial, result, Partial->>=, IsReady, Kept, Kept-refl, Kept-trans, contexts-Kept,
  control-IsValid, set_word-IsValid, clear_reg-IsValid, place_sentinel-IsValid, run_kernel_ctx-Kept,
  after,
}
use dbz_budokai_hd.Spurs.Vertices.{Sphere}
use dbz_budokai_hd.Spurs.Workload.Keeps.{spurs_run_workload-Kept}
use dbz_budokai_hd.Spurs.Kernel.{
  dispatched, slot_of, reset_arguments, restart_from_entry, resume, Decision, runs, leaves_loop,
  kernel_yielded, kernel_decision, spurs_kernel_thread, kernel_arguments,
}

pub reset_arguments-IsValid : (c : Ctx) → IsValid c → IsValid (reset_arguments c)
unfolding reset_arguments
reset_arguments-IsValid c v = place_sentinel-IsValid _ (
    set_word-IsValid 0 0 0x40 _ (
      clear_reg-IsValid 4 _
        (set_word-IsValid 3 1 spurs_kernel_mgmt_ea _ (clear_reg-IsValid 3 c v))))

pub kernel_arguments-IsValid : (c : Ctx) → IsValid c → IsValid (kernel_arguments c)
unfolding kernel_arguments
kernel_arguments-IsValid c v = set_word-IsValid 89 0 0x80 _ (
    set_word-IsValid 70 0 0x20000 _ (
      set_word-IsValid 86 0 0x80 _ (
        clear_reg-IsValid 86 _ (
          clear_reg-IsValid 6 _ (
            clear_reg-IsValid 5 _ (
              clear_reg-IsValid 4 _ (
                set_word-IsValid 3 1 spurs_kernel_mgmt_ea _ (
                  clear_reg-IsValid 3 _
                    (set_word-IsValid 0 0 0x40 _ (place_sentinel-IsValid c v))))))))))

-- A change of the kernel's context alone.
pub kernel-Kept : (s : Spurs) (c : Ctx) → IsReady s → IsValid c → Kept s (record s { kernel = c })
kernel-Kept s c r v = contexts-Kept s c s.workload r v r.workload

restart_from_entry-Kept : (s : Spurs) → IsReady s → Kept s (restart_from_entry s)
unfolding restart_from_entry
restart_from_entry-Kept s r =
    let k = s.kernel in
    let v =
      control-IsValid k s.entry_pc k.trace_limit k.trace_count k.running r.entry_pc r.kernel in
    if_keeps (Kept s) (s.entry_pc == 0) (Kept-refl s r)
      (kernel-Kept s _ r (reset_arguments-IsValid _ v))

pub traced-Kept :
    (s : Spurs) (limit traced : ℕ)
    → IsReady s
    → Kept s (record s {
      kernel = record (s.kernel) { running = true; trace_limit = limit; trace_count = traced };
    })
traced-Kept s limit traced r =
    kernel-Kept s _ r (control-IsValid s.kernel s.kernel.pc limit traced true r.kernel.pc r.kernel)

pub resume-Kept : (s : Spurs) → IsReady s → Kept s (resume s)
resume-Kept s r = traced-Kept s s.kernel.trace_limit s.kernel.trace_count r

pub resumed : {s t : Spurs} → Kept s t → Kept s (resume t)
resumed {t = t} k = Kept-trans k (resume-Kept t k.ready)

abbrev Decides : Spurs → Decision → Type 0
Decides s (runs t) = Kept s t
Decides s leaves_loop = Unit {0}

module _ (F : Floats) (sphere : Sphere) where
  kernel_yielded-Kept : (s : Spurs) → IsReady s → Partial (Kept s) (kernel_yielded F sphere s)
  unfolding kernel_yielded
  kernel_yielded-Kept s r =
      let pc = s.kernel.pc in
      if_keeps (Partial (Kept s)) (dispatched pc)
        (Partial->>= (spurs_run_workload-Kept F sphere (slot_of pc) s r)
          (λ t k. result (resumed k)))
        (if_keeps (Partial (Kept s)) (leb 0x20000 pc)
          (result (resumed (restart_from_entry-Kept s r))) (result (resume-Kept s r)))

  kernel_decision-Kept : (s : Spurs) → IsReady s → Partial (Decides s) (kernel_decision F sphere s)
  unfolding kernel_decision
  kernel_decision-Kept s r =
      let P = Partial (Decides s) in
      if_keeps P s.kernel.running (result (Kept-refl s r)) (
        if_keeps P (s.kernel.stop_code == 0)
          (Partial->>= (kernel_yielded-Kept s r) (λ t k. result k))
          (if_keeps P (s.kernel.stop_code == 0x100) (result (resumed (restart_from_entry-Kept s r)))
            (result tt)))

  thread_rest-Kept :
      (flags : List Bool) (s : Spurs) (decision : Decision)
      → IsReady s
      → Decides s decision
      → ((u : Spurs) → IsReady u → Partial (Kept u) (spurs_kernel_thread F sphere flags u))
      → Partial (Kept s) (elim decision [
        | leaves_loop ↦ some s
        | runs t ↦ (do (n, u) ← run_kernel_ctx F 100000 t; spurs_kernel_thread F sphere flags u)
      ])
  thread_rest-Kept flags s leaves_loop r d rest = result (Kept-refl s r)
  thread_rest-Kept flags s (runs t) r k rest =
      Partial->>= (run_kernel_ctx-Kept F 100000 t k.ready)
        λ p q. after (Kept-trans k q) (spurs_kernel_thread F sphere flags p.1) (rest p.1 q.ready)

  pub spurs_kernel_thread-Kept :
      (flags : List Bool) (s : Spurs)
      → IsReady s
      → Partial (Kept s) (spurs_kernel_thread F sphere flags s)
  unfolding spurs_kernel_thread
  spurs_kernel_thread-Kept [] s r = result (Kept-refl s r)
  spurs_kernel_thread-Kept (true ∷ flags) s r = result (Kept-refl s r)
  spurs_kernel_thread-Kept (false ∷ flags) s r =
      Partial->>= (kernel_decision-Kept s r)
        λ decision d. thread_rest-Kept flags s decision r d (spurs_kernel_thread-Kept flags)
