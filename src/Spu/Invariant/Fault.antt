-- ===== src/Spu/Invariant/Fault.antt =====
-- `spu_run`: where a run leaves the arrays of the program.
use dbz_budokai_hd.Common.{
  ℕ, zero, suc, true, ◌+◌, ◌≤◌, ◌<◌, ◌≡◌, ◌∙◌, sym, ap, subst, arith, some, none, Option-cases,
  Bool-cases, inl, inr,
}
use dbz_budokai_hd.Spu.Context.{Ctx, ls_size}
use dbz_budokai_hd.Spu.Mfc.{◌>>=◌, dma_ea, dma_lsa, dma_size}
use dbz_budokai_hd.Spu.Isa.Floats.{Floats}
use dbz_budokai_hd.Spu.Step.{spu_step, spu_run_loop, spu_run}
use dbz_budokai_hd.Spu.Invariant.{IsValid}
use dbz_budokai_hd.Spu.Invariant.Keeps.{Effect}
use dbz_budokai_hd.Spu.Invariant.Step.{spu_step-After, spu_step-IsValid, Effect-none}
use dbz_budokai_hd.Spu.Invariant.Run.{run_stopped, run_running, counted, counted-IsValid}

-- The transfer that the registers of the MFC describe leaves the local store or addresses its window.
abbrev pub IsWild : Ctx → Type 0
IsWild c = ¬ ((dma_lsa c + dma_size c ≤ ls_size) × (dma_ea c < 0xFE000000))

-- After m of the instructions allowed, the context d is about to fault.
abbrev pub IsFaultAt : Floats → ℕ → Ctx → ℕ → Ctx → Type 0
IsFaultAt F left c m d =
    (m < left) × IsValid d × (d.running ≡ true) × (spu_step F d ≡ none) × IsWild d

module _ (F : Floats) where
  abbrev Faults : ℕ → ℕ → Ctx → Type 0
  Faults left n c =
      (m : ℕ) × (d : Ctx) × ((k : ℕ) → k ≡ n + m → spu_run_loop F m n c ≡ some (k, d))
      × IsFaultAt F left c m d

  -- One more instruction before the fault.
  Faults-suc :
      (left n : ℕ) (c c' : Ctx)
      → c.running ≡ true
      → spu_step F c ≡ some c'
      → Faults left (n + 1) (counted c')
      → Faults (suc left) n c
  Faults-suc left n c c' on step (m, d, runs, (less, valid, running, stuck, wild)) = (
    suc m,
    d,
    λ k e.
        run_running F m n c on
        ∙ ap (λ o. o >>= λ x. spu_run_loop F m (n + 1) (counted x)) step
        ∙ runs k (omega arith),
    (omega arith, valid, running, stuck, wild),
  )

  loop_fault : (left n : ℕ) (c : Ctx) → IsValid c → spu_run_loop F left n c ≡ none → Faults left n c
  unfolding spu_run_loop
  loop_fault zero n c v e = absurd (ground arith)
  loop_fault (suc left) n c v e = elim (Bool-cases c.running) [
    | inr off ↦ absurd (cc (run_stopped F (suc left) n c off))
    | inl on ↦ elim (Option-cases (spu_step F c)) [
      | inl stuck ↦ (
        0,
        c,
        λ k f. ground arith,
        (omega arith, v, on, stuck, Effect-none (subst (Effect c) stuck (spu_step-After F c v))),
      )
      | inr (c', step) ↦ Faults-suc left n c c' on step (
          loop_fault left (n + 1) (counted c') (counted-IsValid c' (spu_step-IsValid F c c' v step))
            (sym (ap (λ o. o >>= λ x. spu_run_loop F left (n + 1) (counted x)) step)
              ∙ sym (run_running F left n c on)
              ∙ e))
    ]
  ]

  -- A run from a valid context that faults has reached, after fewer instructions than its limit,
  -- a valid running context whose step faults, and there the transfer described by the registers
  -- of the MFC leaves the local store or addresses the window at 0xFE000000.
  pub spu_run_fault :
      (c : Ctx) (max : ℕ)
      → IsValid c
      → spu_run F c max ≡ none
      → (m : ℕ) × (d : Ctx) × (spu_run F c m ≡ some (m, d)) × IsFaultAt F max c m d
  unfolding spu_run
  spu_run_fault c max v e =
      let (m, d, runs, rest) = loop_fault max 0 c v e in (m, d, runs m (omega arith), rest)
