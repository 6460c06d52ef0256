-- ===== src/Spu/Invariant/Step.antt =====
-- `spu_step` against the invariant and the protected memory.
use dbz_budokai_hd.Common.{
  ℕ, ◌+◌, ◌≤◌, ◌<◌, ◌^◌, ◌≡◌, ◌==◌, ◌&&◌, refl, ◌∙◌, ◌≢◌, subst, arith, Option, some, none,
  if_keeps, ltb, not, update, Memory,
}
use dbz_budokai_hd.Common.Words.{low_bits, add32}
use dbz_budokai_hd.Spu.Context.{Ctx, ls_size}
use dbz_budokai_hd.Spu.Reg.{set_w, modify}
use dbz_budokai_hd.Spu.Reg.Words.{set_w-IsBytes}
use dbz_budokai_hd.Spu.LocalStore.{ls_read32, quad_addr}
use dbz_budokai_hd.Spu.Mfc.{dma_lsa, dma_size, dma_ea}
use dbz_budokai_hd.Spu.Isa.Floats.{Floats}
use dbz_budokai_hd.Spu.Isa.Handler.{gw}
use dbz_budokai_hd.Spu.Step.{
  decode, edge_fixup, patch_descriptor, count_trace, execute_at, spu_step,
}
use dbz_budokai_hd.Spu.Invariant.{IsValid, AreBytes}
use dbz_budokai_hd.Spu.Invariant.Blocks.{modify-AreBytes}
use dbz_budokai_hd.Spu.Invariant.Channels.{ls-IsValid, gpr-IsValid}
use dbz_budokai_hd.Spu.Invariant.Keeps.{Effect, stuck, makes, Fits, After}
use dbz_budokai_hd.Spu.Invariant.Dispatch.{decode-Keeps, run_handler-Keeps}

-- Between contexts: the second is valid and agrees with the first where a program has no reach.
After-trans : {c d e : Ctx} → After c d → After d e → After c e
After-trans a b = record {
  valid = b.valid;
  protected = λ x p. b.protected x p ∙ a.protected x p;
  same_id = b.same_id ∙ a.same_id;
  same_count = b.same_count ∙ a.same_count;
}

patched-AreBytes :
    (m : Memory) (a : ℕ)
    → AreBytes m
    → AreBytes
        (update (update (update (update m (a + 4) 0xD0) (a + 5) 0x10) (a + 6) 0x00) (a + 7) 0x00)
patched-AreBytes m a h k = ground (arith, h k)

patch_descriptor-After : (a : ℕ) (c : Ctx) → IsValid c → After c (patch_descriptor a c)
patch_descriptor-After a c v = record {
  valid = ls-IsValid c _ (patched-AreBytes c.ls a v.ls) v;
  protected = λ x p. refl;
  same_id = refl;
  same_count = refl;
}

edge_fixup-After : (pc : ℕ) (c : Ctx) → IsValid c → After c (edge_fixup pc c)
unfolding edge_fixup
edge_fixup-After pc c v =
    let lsaddr = quad_addr (add32 (gw c.gpr 49 0) (gw c.gpr 124 0)) in
    if_keeps (After c) (pc == 0x35FC && c.id == 2)
      (if_keeps (After c) (ltb lsaddr 0x80)
        (After-trans moved_regs (patch_descriptor-After 0xADD0 moved moved_regs.valid))
        (patch_descriptor-After lsaddr c v))
      (record { valid = v; protected = λ x p. refl; same_id = refl; same_count = refl })
  where
    moved : Ctx
    moved = record c {
      gpr = modify 124 (λ r. set_w r 0 0) (modify 49 (λ r. set_w r 0 0xADD0) c.gpr);
    }

    moved_regs : After c moved
    moved_regs = record {
      valid =
          gpr-IsValid c moved.gpr
            (modify-AreBytes 124 (λ r. set_w r 0 0) (modify 49 (λ r. set_w r 0 0xADD0) c.gpr)
              (λ r. set_w-IsBytes 0 0)
              (modify-AreBytes 49 (λ r. set_w r 0 0xADD0) c.gpr (λ r. set_w-IsBytes 0 0xADD0)
                v.gpr))
            v;
      protected = λ x p. refl;
      same_id = refl;
      same_count = refl;
    }

counted-After : (c : Ctx) → IsValid c → After c (count_trace c)
unfolding count_trace
counted-After c v =
    if_keeps (After c) (not (c.trace_limit == 0) && ltb c.trace_count c.trace_limit)
      (record { valid = assumption; protected = λ x p. refl; same_id = refl; same_count = refl })
      (record { valid = v; protected = λ x p. refl; same_id = refl; same_count = refl })

fetched-After :
    (pc : ℕ) (c : Ctx) → IsValid c → After c (count_trace (record c { pc = low_bits 18 (pc + 4) }))
fetched-After pc c v =
    After-trans next (counted-After (record c { pc = low_bits 18 (pc + 4) }) next.valid)
  where
    small : low_bits 18 (pc + 4) < 2 ^ 32
    small = omega arith

    next : After c (record c { pc = low_bits 18 (pc + 4) })
    next = record {
      valid = assumption small;
      protected = λ x p. refl;
      same_id = refl;
      same_count = refl;
    }

-- Neither the fixup nor the fetch touches the registers of the MFC.
Fits-fixup : (pc : ℕ) (c : Ctx) → Fits c → Fits (edge_fixup pc c)
unfolding edge_fixup
Fits-fixup pc c f =
    if_keeps Fits (pc == 0x35FC && c.id == 2)
      (if_keeps Fits (ltb (quad_addr (add32 (gw c.gpr 49 0) (gw c.gpr 124 0))) 0x80) f f) f

Fits-fetched :
    (pc : ℕ) (c : Ctx) → Fits c → Fits (count_trace (record c { pc = low_bits 18 (pc + 4) }))
unfolding count_trace
Fits-fetched pc c f =
    if_keeps Fits (not (c.trace_limit == 0) && ltb c.trace_count c.trace_limit) f f

Effect-After :
    {c d : Ctx} {m : Option Ctx} → After c d → (Fits c → Fits d) → Effect d m → Effect c m
Effect-After a k (stuck h) = stuck (λ f. h (k f))
Effect-After a k (makes b) = makes (After-trans a b)

module _ (F : Floats) where
  execute_at-After : (pc : ℕ) (c : Ctx) → IsValid c → Effect c (execute_at F pc c)
  unfolding execute_at
  execute_at-After pc c v =
      let insn = ls_read32 (edge_fixup pc c).ls pc in
      let fixed : After c (edge_fixup pc c) = edge_fixup-After pc c v in
      let fetched = After-trans fixed (fetched-After pc (edge_fixup pc c) fixed.valid) in
      Effect-After fetched (λ f. Fits-fetched pc (edge_fixup pc c) (Fits-fixup pc c f))
        (run_handler-Keeps F (decode F insn) (decode-Keeps F insn) insn pc _ fetched.valid)

  -- What one instruction does to a valid context.
  pub spu_step-After : (c : Ctx) → IsValid c → Effect c (spu_step F c)
  unfolding spu_step
  spu_step-After c v = execute_at-After (low_bits 18 c.pc) c v

pub Effect-none : {c : Ctx} → Effect c none → ¬ Fits c
Effect-none (stuck h) = h

pub Effect-some : {c d : Ctx} → Effect c (some d) → After c d
Effect-some (makes a) = a

-- An instruction, whichever it is, does not fault in a valid context in which the transfer that
-- the registers of the MFC describe fits the local store and does not address the window at
-- 0xFE000000.
pub spu_step_total :
    (F : Floats) (c : Ctx)
    → IsValid c
    → dma_lsa c + dma_size c ≤ ls_size
    → dma_ea c < 0xFE000000
    → spu_step F c ≢ none
spu_step_total F c v fits low e =
    Effect-none (subst (Effect c) e (spu_step-After F c v)) (fits, low)

-- An instruction that does not fault takes a valid context to a valid context.
pub spu_step-IsValid : (F : Floats) (c d : Ctx) → IsValid c → spu_step F c ≡ some d → IsValid d
spu_step-IsValid F c d v e =
    let a : After c d = Effect-some (subst (Effect c) e (spu_step-After F c v)) in a.valid
