-- ===== src/Spu/Invariant/Dispatch.antt =====
-- Whatever `spu_step` dispatches to keeps the invariant.
use dbz_budokai_hd.Common.{ℕ, ◌==◌, Option, some, none, List, ◌++◌, if_keeps, leb}
use dbz_budokai_hd.Spu.Isa.Floats.{Floats}
use dbz_budokai_hd.Spu.Isa.Fields.{f_op4, f_op7, f_op8, f_op9, f_op11}
use dbz_budokai_hd.Spu.Isa.Handler.{Handler, switch, or_else}
use dbz_budokai_hd.Spu.Isa.Ri16.{ri18_cases, ri16_cases}
use dbz_budokai_hd.Spu.Isa.Ri10.{ri10_cases}
use dbz_budokai_hd.Spu.Isa.Rr.Control.{channel_cases}
use dbz_budokai_hd.Spu.Step.{decode, run_handler, rr_cases}
use dbz_budokai_hd.Spu.Invariant.Keeps.{Keeps, All, nil, ◌&◌, no_effect-Keeps}
use dbz_budokai_hd.Spu.Invariant.Cases.Arithmetic.{arithmetic_cases-Keeps}
use dbz_budokai_hd.Spu.Invariant.Cases.Count.{count_cases-Keeps}
use dbz_budokai_hd.Spu.Invariant.Cases.Logic.{logic_cases-Keeps}
use dbz_budokai_hd.Spu.Invariant.Cases.Shift.{shift_cases-Keeps}
use dbz_budokai_hd.Spu.Invariant.Cases.QuadShift.{quad_shift_cases-Keeps}
use dbz_budokai_hd.Spu.Invariant.Cases.Compare.{compare_cases-Keeps}
use dbz_budokai_hd.Spu.Invariant.Cases.Multiply.{multiply_cases-Keeps}
use dbz_budokai_hd.Spu.Invariant.Cases.Single.{single_cases-Keeps, conversion_cases-Keeps}
use dbz_budokai_hd.Spu.Invariant.Cases.Double.{double_cases-Keeps}
use dbz_budokai_hd.Spu.Invariant.Cases.Rrr.{rrr_cases-Keeps}
use dbz_budokai_hd.Spu.Invariant.Cases.Ri16.{ri18_cases-Keeps, ri16_cases-Keeps}
use dbz_budokai_hd.Spu.Invariant.Cases.Ri10.{ri10_cases-Keeps}
use dbz_budokai_hd.Spu.Invariant.Cases.Control.{
  channel_cases-Keeps, control_cases-Keeps, branch_cases-Keeps,
}

All-append :
    {P : Handler → Type 0} {xs ys : List (ℕ × Handler)} → All P xs → All P ys → All P (xs ++ ys)
All-append nil k = k
All-append (p & h) k = p & All-append h k

-- Whatever handler the dispatch finds keeps the invariant.
abbrev pub FoundKeeps : Option Handler → Type 0
FoundKeeps none = Unit {0}
FoundKeeps (some h) = Keeps h

switch-Keeps :
    (op : ℕ) {cases : List (ℕ × Handler)} → All Keeps cases → FoundKeeps (switch op cases)
unfolding switch
switch-Keeps op nil = tt
switch-Keeps op (◌&◌ {label = l} {h = h} {cases = cs} p k) =
    if_keeps FoundKeeps (op == l) p (switch-Keeps op k)

or_else-Keeps : (o p : Option Handler) → FoundKeeps o → FoundKeeps p → FoundKeeps (or_else o p)
or_else-Keeps none p h k = k
or_else-Keeps (some g) p h k = h

module _ (F : Floats) where
  rr_cases-Keeps : All Keeps (rr_cases F)
  rr_cases-Keeps = All-append control_cases-Keeps (
      All-append arithmetic_cases-Keeps (
        All-append count_cases-Keeps (
          All-append logic_cases-Keeps (
            All-append shift_cases-Keeps (
              All-append quad_shift_cases-Keeps (
                All-append compare_cases-Keeps (
                  All-append multiply_cases-Keeps (
                    All-append branch_cases-Keeps (
                      All-append (single_cases-Keeps F)
                        (All-append (double_cases-Keeps F) (conversion_cases-Keeps F)))))))))))

  pub decode-Keeps : (insn : ℕ) → FoundKeeps (decode F insn)
  unfolding decode
  decode-Keeps insn =
      if_keeps FoundKeeps (leb 0x8 (f_op4 insn)) (switch-Keeps (f_op4 insn) (rrr_cases-Keeps F)) (
        or_else-Keeps (switch (f_op7 insn) ri18_cases) _
          (switch-Keeps (f_op7 insn) ri18_cases-Keeps)
          (or_else-Keeps (switch (f_op9 insn) ri16_cases) _
            (switch-Keeps (f_op9 insn) ri16_cases-Keeps)
            (or_else-Keeps (switch (f_op8 insn) ri10_cases) _
              (switch-Keeps (f_op8 insn) ri10_cases-Keeps)
              (or_else-Keeps (switch (f_op11 insn) channel_cases) _
                (switch-Keeps (f_op11 insn) channel_cases-Keeps)
                (switch-Keeps (f_op11 insn) rr_cases-Keeps)))))

  pub run_handler-Keeps : (o : Option Handler) → FoundKeeps o → Keeps (run_handler F o)
  run_handler-Keeps none k = no_effect-Keeps
  run_handler-Keeps (some h) k = k
