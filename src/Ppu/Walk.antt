-- ===== src/Ppu/Walk.antt =====
-- extra_funcs.cpp: `func_000E775C`, which walks a list of nodes, calls what their slots and the slots
-- beside them name, and gives each node back.
use dbz_budokai_hd.Common.{ℕ, zero, suc, true, false, if◌then◌else◌, List, [], ◌∷◌}
use dbz_budokai_hd.Common.Outcome.{Outcome, returned, unending, ◌>>=◌}
use dbz_budokai_hd.Ppu.State.{
  Ppu, Env, Op, li, addi, or_imm, clrldi, lbz, lwz, ld, stw, std, stdu, mflr, mtlr, mtctr, cmpwi,
  cmpw, call, icall, minus, is_eq, run,
}

abbrev pub entry_000e775c : List Op
entry_000e775c =
    stdu (minus 0x90)
    ∷ mflr
    ∷ std 29 0x78 1
    ∷ lwz 29 (minus 0x5B50) 2
    ∷ li 4 0
    ∷ std 28 0x70 1
    ∷ addi 3 29 0x18
    ∷ std 30 0x80 1
    ∷ std 31 0x88 1
    ∷ std 0 0xA0 1
    ∷ call 0xF1E7C
    ∷ ld 2 0x28 1
    ∷ cmpwi 0 3 0
    ∷ []

abbrev pub exit_000e775c : List Op
exit_000e775c =
    ld 0 0xA0 1
    ∷ ld 28 0x70 1
    ∷ ld 29 0x78 1
    ∷ mtlr
    ∷ ld 30 0x80 1
    ∷ ld 31 0x88 1
    ∷ addi 1 1 0x90
    ∷ []

-- The reads of a slot before each of its three tests, and its call.
abbrev pub slot_flag : List Op
slot_flag = clrldi 9 31 32 ∷ addi 31 31 8 ∷ lbz 0 0 9 ∷ cmpwi 0 0 0 ∷ []

abbrev pub slot_function : List Op
slot_function = lwz 0 0x4 9 ∷ clrldi 3 30 32 ∷ cmpwi 0 0 0 ∷ []

abbrev pub slot_argument : List Op
slot_argument = clrldi 9 0 32 ∷ lwz 0 0 3 ∷ cmpwi 0 0 0 ∷ clrldi 3 0 32 ∷ []

abbrev pub slot_call : List Op
slot_call = lwz 0 0 9 ∷ std 2 0x28 1 ∷ mtctr 0 ∷ lwz 2 0x4 9 ∷ icall ∷ ld 2 0x28 1 ∷ []

-- The step to the next slot, with the comparison with the end of the slots.
abbrev pub slot_step : List Op
slot_step = addi 0 29 0x50 ∷ addi 30 30 4 ∷ cmpw 0 31 0 ∷ []

-- The places of the first slot, and what follows the last.
abbrev pub node_slots : List Op
node_slots = addi 30 28 0x10 ∷ addi 31 29 0x30 ∷ []

abbrev pub node_given_back : List Op
node_given_back = clrldi 9 28 32 ∷ or_imm 3 9 0 ∷ lwz 31 0 9 ∷ call 0xD90FC ∷ cmpwi 0 31 0 ∷ []

abbrev pub list_emptied : List Op
list_emptied = li 0 0 ∷ addi 3 29 0x18 ∷ stw 0 0x78 29 ∷ call 0xF1E9C ∷ ld 2 0x28 1 ∷ []

module _ (E : Env) where
  -- Statements that end in a comparison, and what follows unless it says equal.
  unfoldable pub unless_eq : List Op → (Ppu → Outcome Ppu) → Ppu → Outcome Ppu
  unfolding run
  unless_eq ops next c = do d ← run E ops c; if is_eq 0 d then returned d else next d

  unfoldable pub visit_slot : Ppu → Outcome Ppu
  unfolding run unless_eq
  visit_slot =
      unless_eq slot_flag (unless_eq slot_function (unless_eq slot_argument (run E slot_call)))

  unfoldable pub visit_slots : ℕ → Ppu → Outcome Ppu
  unfolding run visit_slot
  visit_slots zero c = unending
  visit_slots (suc left) c = do
    d ← visit_slot c
    e ← run E slot_step d
    elim (is_eq 0 e) [ true ↦ returned e | false ↦ visit_slots left e ]

  unfoldable pub visit_nodes : ℕ → Ppu → Outcome Ppu
  unfolding run visit_slots
  visit_nodes zero c = unending
  visit_nodes (suc left) c = do
    d ← run E node_slots c
    e ← visit_slots E.rounds d
    f ← run E node_given_back e
    elim (is_eq 0 f) [
      | true ↦ returned f
      | false ↦ (do g ← run E (or_imm 28 31 0 ∷ []) f; visit_nodes left g)
    ]

  unfoldable pub func_000e775c : Ppu → Outcome Ppu
  unfolding run unless_eq visit_nodes
  func_000e775c c = do
    d ← run E entry_000e775c c
    if is_eq 0 d
        then (do
          e ← unless_eq (lwz 28 0x78 29 ∷ cmpwi 0 28 0 ∷ []) (visit_nodes E.rounds) d
          f ← run E list_emptied e
          run E exit_000e775c f)
        else run E exit_000e775c d
