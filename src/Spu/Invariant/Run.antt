-- ===== src/Spu/Invariant/Run.antt =====
-- `spu_run`: a whole program, of any length, against the invariant.
use dbz_budokai_hd.Common.{
  ℕ, zero, suc, true, false, ◌+◌, ◌-◌, ◌^◌, ◌≤◌, ◌<◌, ◌≡◌, refl, ◌∙◌, sym, subst, ◌⊎◌, arith,
  Option, some, none, Bool-cases, inl, inr,
}
use native.Mathlib.Decide.{dec_lt}
use dbz_budokai_hd.Common.Words.{u64}
use dbz_budokai_hd.Spu.Context.{Ctx}
use dbz_budokai_hd.Spu.Mfc.{◌>>=◌}
use dbz_budokai_hd.Spu.Mfc.Laws.{IsProtected}
use dbz_budokai_hd.Spu.Isa.Floats.{Floats}
use dbz_budokai_hd.Spu.Step.{spu_step, spu_run_loop, spu_run}
use dbz_budokai_hd.Spu.Invariant.{IsValid}
use dbz_budokai_hd.Spu.Invariant.Keeps.{Effect, stuck, makes, After}
use dbz_budokai_hd.Spu.Invariant.Step.{spu_step-After}

-- The loop went from `c` with `n` instructions done to `d` with `m` done, `left` being allowed.
record Ran (left n : ℕ) (c : Ctx) (m : ℕ) (d : Ctx) : Type 0 where
  valid : IsValid d
  protected : (a : ℕ) → IsProtected a → d.vm a ≡ c.vm a
  same_id : d.id ≡ c.id
  at_least : n ≤ m
  at_most : m ≤ n + left
  counted : c.insn_count < 2 ^ 64 → d.insn_count ≡ u64 (c.insn_count + (m - n))
  stopped : m < n + left → d.running ≡ false

data RanOrFault (left n : ℕ) (c : Ctx) : Option (ℕ × Ctx) → Type 0 where
  fault : RanOrFault left n c none
  ran : {m : ℕ} {d : Ctx} → Ran left n c m d → RanOrFault left n c (some (m, d))

-- The context after a step, with the instruction counted.
abbrev pub counted : Ctx → Ctx
counted d = record d { insn_count = u64 (d.insn_count + 1) }

pub counted-IsValid : (d : Ctx) → IsValid d → IsValid (counted d)
counted-IsValid d v = assumption

Ran-suc :
    {left n m : ℕ} {c d e : Ctx}
    → After c d
    → Ran left (n + 1) (counted d) m e
    → Ran (suc left) n c m e
Ran-suc a r = record {
  valid = r.valid;
  protected = λ x p. r.protected x p ∙ a.protected x p;
  same_id = r.same_id ∙ a.same_id;
  at_least = omega (arith, r.at_least);
  at_most = omega (arith, r.at_most);
  counted = λ small. omega (arith, r.counted (omega arith), a.same_count, r.at_least);
  stopped = λ h. r.stopped (omega arith);
}

RanOrFault-suc :
    {left n : ℕ} {c d : Ctx} {o : Option (ℕ × Ctx)}
    → After c d
    → RanOrFault left (n + 1) (counted d) o
    → RanOrFault (suc left) n c o
RanOrFault-suc a fault = fault
RanOrFault-suc a (ran r) = ran (Ran-suc a r)

-- The loop may end where it stands.
stays : (left n : ℕ) (c : Ctx) → IsValid c → (n < n + left → c.running ≡ false) → Ran left n c n c
stays left n c v off = record {
  valid = v;
  protected = λ a p. refl;
  same_id = refl;
  at_least = omega arith;
  at_most = omega arith;
  counted = λ small. omega arith;
  stopped = off;
}

module _ (F : Floats) where
  pub run_stopped :
      (left n : ℕ) (c : Ctx) → c.running ≡ false → spu_run_loop F left n c ≡ some (n, c)
  unfolding spu_run_loop
  run_stopped zero n c off = refl
  run_stopped (suc left) n c off = ground arith

  pub run_running :
      (left n : ℕ) (c : Ctx)
      → c.running ≡ true
      → spu_run_loop F (suc left) n c
        ≡ (spu_step F c >>= λ d. spu_run_loop F left (n + 1) (counted d))
  unfolding spu_run_loop
  run_running left n c on = ground arith

  -- The rest of the loop, after a step that may have faulted.
  rest_Ran :
      (left n : ℕ) {c : Ctx} {m : Option Ctx}
      → Effect c m
      → ((d : Ctx) → IsValid d → RanOrFault left (n + 1) d (spu_run_loop F left (n + 1) d))
      → RanOrFault (suc left) n c (m >>= λ d. spu_run_loop F left (n + 1) (counted d))
  rest_Ran left n (stuck h) k = fault
  rest_Ran left n (makes {d = d} a) k = RanOrFault-suc a (k (counted d) (counted-IsValid d a.valid))

  spu_run_loop-Ran :
      (left n : ℕ) (c : Ctx) → IsValid c → RanOrFault left n c (spu_run_loop F left n c)
  spu_run_loop-Ran zero n c v =
      unfold spu_run_loop in ran (stays 0 n c v (λ h. absurd (omega arith)))
  spu_run_loop-Ran (suc left) n c v = elim (Bool-cases c.running) [
    | inr off ↦
        subst (RanOrFault (suc left) n c) (sym (run_stopped (suc left) n c off))
          (ran (stays (suc left) n c v (λ h. off)))
    | inl on ↦
        subst (RanOrFault (suc left) n c) (sym (run_running left n c on))
          (rest_Ran left n (spu_step-After F c v) (spu_run_loop-Ran left (n + 1)))
  ]

Ran-of : {left n m : ℕ} {c d : Ctx} → RanOrFault left n c (some (m, d)) → Ran left n c m d
Ran-of (ran r) = r

module _ (F : Floats) (c d : Ctx) (max n : ℕ) (v : IsValid c)
    (e : spu_run F c max ≡ some (n, d)) where
  result : Ran max 0 c n d
  unfolding spu_run
  result = Ran-of (subst (RanOrFault max 0 c) e (spu_run_loop-Ran F max 0 c v))

  -- A run of any program from a valid context that does not fault ends in a valid context: bytes
  -- in the arrays, words in the word-sized fields.
  pub spu_run-IsValid : IsValid d
  spu_run-IsValid = result.valid

  -- A run of any program, of any length, that starts in a valid context and does not fault leaves
  -- every byte of the main memory below 0x10000, from 0x40000000 up to 0xD0100000 and from
  -- 0xD0200000 on as it was.
  pub spu_run_protects : (a : ℕ) → IsProtected a → d.vm a ≡ c.vm a
  spu_run_protects = result.protected

  pub spu_run_bound : n ≤ max
  spu_run_bound = omega (arith, result.at_most)

  -- A run from a valid context, whose counter has 64 bits, that does not fault returns the number
  -- of instructions that it has counted, modulo 2 ^ 64, on top of those before; it is at most the
  -- limit, and is the limit unless the processor has stopped.
  pub spu_run_count :
      c.insn_count < 2 ^ 64
      → (n ≤ max) × (d.insn_count ≡ u64 (c.insn_count + n)) × ((n ≡ max) ⊎ (d.running ≡ false))
  spu_run_count small = (
    spu_run_bound,
    omega (arith, result.counted small),
    elim (dec_lt n max) [
      | yes h ↦ inr (result.stopped (omega arith))
      | no h ↦ inl (omega (arith, result.at_most))
    ],
  )
