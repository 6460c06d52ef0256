-- ===== src/Spurs/Kernel/Decides.antt =====
-- spu_spurs.cpp: what the kernel thread makes of each stop, and a restart from the entry.
use dbz_budokai_hd.Common.{
  ℕ, true, false, ◌≡◌, ◌≢◌, ◌↔◌, ◌⊎◌, ◌==◌, ◌∙◌, refl, subst, arith, Option, some, none, inl, inr,
  if_keeps, if_split, leb, ==_iff,
}
use dbz_budokai_hd.Spu.Mfc.{◌>>=◌}
use dbz_budokai_hd.Spu.Reg.{get_w, set_w}
use dbz_budokai_hd.Spu.Reg.Words.{get_w-set_w_self, get_w-set_w_ne}
use dbz_budokai_hd.Spu.LocalStore.{ls_read32}
use dbz_budokai_hd.Spu.Isa.Floats.{Floats}
use dbz_budokai_hd.Spurs.State.{Spurs, put_bytes, place_sentinel, spurs_kernel_mgmt_ea}
use dbz_budokai_hd.Spurs.Steady.{Partial, no_result, result}
use dbz_budokai_hd.Spurs.Vertices.{Sphere}
use dbz_budokai_hd.Spurs.Workload.{spurs_run_workload}
use dbz_budokai_hd.Spurs.Kernel.{
  dispatched, slot_of, reset_arguments, restart_from_entry, resume, Decision, runs, leaves_loop,
  kernel_yielded, kernel_decision,
}

-- A state in which the kernel can run.
abbrev Running : Spurs → Type 0
Running t = t.kernel.running ≡ true

abbrev GoesOn : Decision → Type 0
GoesOn (runs t) = Running t
GoesOn leaves_loop = ⊥

-- What a decision has to do with the stop that it was made on.
data Answers (s : Spurs) : Option Decision → Type 0 where
  fault : Answers s none
  on :
      {t : Spurs}
      → Running t
      → (s.kernel.running ≡ true) ⊎ (s.kernel.stop_code ≡ 0) ⊎ (s.kernel.stop_code ≡ 0x100)
      → Answers s (some (runs t))
  off :
      s.kernel.running ≡ false
      → s.kernel.stop_code ≢ 0
      → s.kernel.stop_code ≢ 0x100
      → Answers s (some leaves_loop)

module _ (F : Floats) (sphere : Sphere) (s : Spurs) where
  kernel_yielded-Running : Partial Running (kernel_yielded F sphere s)
  unfolding kernel_yielded
  kernel_yielded-Running =
      if_keeps (Partial Running) (dispatched s.kernel.pc)
        (resumes (spurs_run_workload F sphere (slot_of s.kernel.pc) s))
        (if_keeps (Partial Running) (leb 0x20000 s.kernel.pc) (result refl) (result refl))
    where
      resumes : (o : Option Spurs) → Partial Running (o >>= λ t. some (resume t))
      resumes none = no_result
      resumes (some t) = result refl

  kernel_decision-Answers : Answers s (kernel_decision F sphere s)
  unfolding kernel_decision
  kernel_decision-Answers =
      if_split (Answers s) s.kernel.running (λ e. on e (inl e))
        λ e.
          if_split (Answers s) (s.kernel.stop_code == 0)
            (λ f. yields (kernel_yielded F sphere s) kernel_yielded-Running ((==_iff _ 0).0 f))
            λ f.
              if_split (Answers s) (s.kernel.stop_code == 0x100)
                (λ g. on refl (inr (inr ((==_iff _ 0x100).0 g))))
                (λ g. off e (ground arith) (ground arith))
    where
      yields :
          (o : Option Spurs)
          → Partial Running o
          → s.kernel.stop_code ≡ 0
          → Answers s (o >>= λ t. some (runs t))
      yields none no_result z = fault
      yields (some t) (result r) z = on r (inr (inl z))

  -- The decision before a round of the kernel's thread, where no access is undefined, is to leave
  -- the loop if and only if the kernel has stopped with a code that is neither 0 nor 0x100;
  -- otherwise it goes on with a kernel that runs.
  pub kernel_decision_lem :
      (decision : Decision)
      → kernel_decision F sphere s ≡ some decision
      → ((decision ≡ leaves_loop)
          ↔ ((s.kernel.running ≡ false) × (s.kernel.stop_code ≢ 0) × (s.kernel.stop_code ≢ 0x100)))
        × ((t : Spurs) → decision ≡ runs t → t.kernel.running ≡ true)
  kernel_decision_lem decision e = decides decision (subst (Answers s) e kernel_decision-Answers)
    where
      decides :
          (d : Decision)
          → Answers s (some d)
          → ((d ≡ leaves_loop) ↔ (
              (s.kernel.running ≡ false) × (s.kernel.stop_code ≢ 0) × (s.kernel.stop_code ≢ 0x100)))
            × ((t : Spurs) → d ≡ runs t → t.kernel.running ≡ true)
      decides (runs t) (on r why) =
          ((λ f. cc, λ (a, b, c). absurd (ground arith)), λ u f. subst GoesOn f r)
      decides leaves_loop (off a b c) = ((λ f. (a, b, c), λ f. refl), λ u f. cc)

-- Nothing but four registers, the program counter and the sentinel's place changes.
module _ (s : Spurs) (entry : s.entry_pc ≢ 0) where
  from_entry :
      restart_from_entry s
      ≡ record s { kernel = reset_arguments (record (s.kernel) { pc = s.entry_pc }) }
  unfolding restart_from_entry
  from_entry = ground arith

  -- A restart from an entry other than 0 has the kernel run from there with the address of the
  -- management area in the second word of r3, the other words of r3 and all of r4 zero, and a
  -- return address in r0 at which the local store holds the instruction that stops with code
  -- 0x100, whatever the kernel has done to them; the other registers are as they were.
  pub restart_from_entry_lem :
      let k = (resume (restart_from_entry s)).kernel in
      (k.running ≡ true)
      × (k.pc ≡ s.entry_pc)
      × (get_w (k.gpr 3) 1 ≡ spurs_kernel_mgmt_ea)
      × ((i : ℕ) → i ≢ 1 → get_w (k.gpr 3) i ≡ 0)
      × ((i : ℕ) → k.gpr 4 i ≡ 0)
      × (ls_read32 k.ls (get_w (k.gpr 0) 0) ≡ 0x100)
      × ((r : ℕ) → r ≢ 0 → r ≢ 3 → r ≢ 4 → k.gpr r ≡ s.kernel.gpr r)
  unfolding reset_arguments place_sentinel put_bytes ls_read32
  restart_from_entry_lem =
      let zero_word : (i : ℕ) → get_w (λ k. 0) i ≡ 0 = λ i. unfold get_w in refl in
      let address : get_w (set_w (s.kernel.gpr 0) 0 0x40) 0 ≡ 0x40 =
        get_w-set_w_self (s.kernel.gpr 0) 0 0x40 in
      rw from_entry (
        refl,
        refl,
        get_w-set_w_self (λ k. 0) 1 spurs_kernel_mgmt_ea,
        λ i ne. get_w-set_w_ne (λ k. 0) 1 spurs_kernel_mgmt_ea i ne ∙ zero_word i,
        λ i. refl,
        rw address refl,
        λ r a b c. ground arith,
      )
