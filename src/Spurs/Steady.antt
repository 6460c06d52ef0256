-- ===== src/Spurs/Steady.antt =====
-- spu_spurs.cpp: the state that all its functions keep, and the main memory that they leave alone.
use dbz_budokai_hd.Common.{
  ℕ, Bool, ◌^◌, ◌<◌, ◌≡◌, ◌∙◌, refl, arith, Option, some, none, Option-cases, inl, inr, if_keeps,
}
use dbz_budokai_hd.Spu.Context.{Ctx}
use dbz_budokai_hd.Spu.Reg.{set_w}
use dbz_budokai_hd.Spu.Reg.Words.{set_w-IsBytes}
use dbz_budokai_hd.Spu.Mfc.{◌>>=◌}
use dbz_budokai_hd.Spu.Mfc.Laws.{IsProtected}
use dbz_budokai_hd.Spu.Isa.Floats.{Floats}
use dbz_budokai_hd.Spu.Step.{spu_run}
use dbz_budokai_hd.Spu.Invariant.{IsValid, AreBytes}
use dbz_budokai_hd.Spu.Invariant.Blocks.{modify-AreBytes}
use dbz_budokai_hd.Spu.Invariant.Channels.{ls-IsValid, vm-IsValid, gpr-IsValid}
use dbz_budokai_hd.Spu.Invariant.Run.{spu_run-IsValid, spu_run_protects}
use dbz_budokai_hd.Spurs.State.{
  Spurs, set_word, clear_reg, stop100, place_sentinel, rsx_process_edge, run_workload_ctx,
  run_kernel_ctx,
}
use dbz_budokai_hd.Spurs.Within.{put_bytes-Within}

-- A property of the result, unless the access is undefined.
pub data Partial {A : Type 0} (P : A → Type 0) : Option A → Type 0 where
  no_result : Partial P none
  result : {a : A} → P a → Partial P (some a)

pub Partial->>= :
    {A B : Type 0} {P : A → Type 0} {Q : B → Type 0} {m : Option A} {f : A → Option B}
    → Partial P m
    → ((a : A) → P a → Partial Q (f a))
    → Partial Q (m >>= f)
Partial->>= no_result next = no_result
Partial->>= (result p) next = next _ p

-- Bytes in the memories and registers, words in the word-sized fields.
pub record IsReady (s : Spurs) : Type 0 where
  pub vm : AreBytes s.vm
  pub kernel : IsValid s.kernel
  pub workload : IsValid s.workload
  pub entry_pc : s.entry_pc < 2 ^ 32

-- What every function of the file keeps, from a state to a later one.
pub record Kept (s t : Spurs) : Type 0 where
  pub ready : IsReady t
  pub protected : (a : ℕ) → IsProtected a → t.vm a ≡ s.vm a

pub Kept-trans : {s t u : Spurs} → Kept s t → Kept t u → Kept s u
Kept-trans p q = record { ready = q.ready; protected = λ a o. q.protected a o ∙ p.protected a o }

-- What is kept from a later state on is kept from the first on.
pub after : {s t : Spurs} → Kept s t → (o : Option Spurs) → Partial (Kept t) o → Partial (Kept s) o
after k none no_result = no_result
after k (some u) (result q) = result (Kept-trans k q)

-- The same of a result that has a count beside the state.
pub after_counted :
    {s t : Spurs}
    → Kept s t
    → (o : Option (ℕ × Spurs)) → Partial (λ p. Kept t p.1) o
    → Partial (λ p. Kept s p.1) o
after_counted k none no_result = no_result
after_counted k (some p) (result q) = result (Kept-trans k q)

-- A change of the contexts alone.
pub contexts-Kept :
    (s : Spurs) (kernel workload : Ctx)
    → IsReady s
    → IsValid kernel
    → IsValid workload
    → Kept s (record s { kernel = kernel; workload = workload })
contexts-Kept s kernel workload r k w = record {
  ready = record { vm = r.vm; kernel = k; workload = w; entry_pc = r.entry_pc };
  protected = λ a o. refl;
}

pub Kept-refl : (s : Spurs) → IsReady s → Kept s s
Kept-refl s r = contexts-Kept s s.kernel s.workload r r.kernel r.workload

-- The fields that the invariant says nothing of, and the program counter.
pub control-IsValid :
    (c : Ctx) (pc limit traced : ℕ) (running : Bool)
    → pc < 2 ^ 32
    → IsValid c
    → IsValid (record c { pc = pc; running = running; trace_limit = limit; trace_count = traced })
control-IsValid c pc limit traced running small v = assumption

pub set_word-IsValid : (t i w : ℕ) (c : Ctx) → IsValid c → IsValid (set_word t i w c)
set_word-IsValid t i w c v =
    gpr-IsValid c _ (modify-AreBytes t (λ r. set_w r i w) c.gpr (λ r. set_w-IsBytes i w) v.gpr) v

pub clear_reg-IsValid : (t : ℕ) (c : Ctx) → IsValid c → IsValid (clear_reg t c)
clear_reg-IsValid t c v =
    gpr-IsValid c _ (modify-AreBytes t (λ r k. 0) c.gpr (λ r h k. omega arith) v.gpr) v

pub place_sentinel-IsValid : (c : Ctx) → IsValid c → IsValid (place_sentinel c)
unfolding place_sentinel
place_sentinel-IsValid c v =
    ls-IsValid c _
      ((put_bytes-Within {lo = 0x40} {hi = 0x44} c.ls 0x40 stop100 (omega arith) (omega arith)
          (omega arith)).bytes
        v.ls)
      v

pub rsx_process_edge-Kept : (s : Spurs) → IsReady s → Kept s (rsx_process_edge s)
unfolding rsx_process_edge
rsx_process_edge-Kept s r =
    if_keeps (Kept s) s.vm_base
      (record {
        ready = record {
          vm = r.vm;
          kernel = r.kernel;
          workload = r.workload;
          entry_pc = r.entry_pc;
        };
        protected = λ a o. refl;
      })
      (Kept-refl s r)

module _ (F : Floats) (max : ℕ) (s : Spurs) (r : IsReady s) where
  pub run_workload_ctx-Kept : Partial (λ p. Kept s p.1) (run_workload_ctx F max s)
  unfolding run_workload_ctx
  run_workload_ctx-Kept =
      let c = record (s.workload) { vm = s.vm } in
      let v = vm-IsValid s.workload s.vm r.vm r.workload in
      elim (Option-cases (spu_run F c max)) [
        | inl n ↦ rw n no_result
        | inr ((n, d), e) ↦
            let valid = spu_run-IsValid F c d max n v e in
            rw e (
              result (record {
                ready = record {
                  vm = valid.vm;
                  kernel = r.kernel;
                  workload = valid;
                  entry_pc = r.entry_pc;
                };
                protected = spu_run_protects F c d max n v e;
              }))
      ]

  pub run_kernel_ctx-Kept : Partial (λ p. Kept s p.1) (run_kernel_ctx F max s)
  unfolding run_kernel_ctx
  run_kernel_ctx-Kept =
      let c = record (s.kernel) { vm = s.vm } in
      let v = vm-IsValid s.kernel s.vm r.vm r.kernel in
      elim (Option-cases (spu_run F c max)) [
        | inl n ↦ rw n no_result
        | inr ((n, d), e) ↦
            let valid = spu_run-IsValid F c d max n v e in
            rw e (
              result (record {
                ready = record {
                  vm = valid.vm;
                  kernel = valid;
                  workload = r.workload;
                  entry_pc = r.entry_pc;
                };
                protected = spu_run_protects F c d max n v e;
              }))
      ]
