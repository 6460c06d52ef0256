-- ===== src/Ppu/Loops.antt =====
-- extra_funcs.cpp: the hand-lifted functions with loops. A loop is still running when its rounds are
-- over: the result is then `unending`.
pub mod Laws
use dbz_budokai_hd.Common.{ℕ, zero, suc, Bool, true, false, List, [], ◌∷◌, if◌then◌else◌}
use dbz_budokai_hd.Common.Outcome.{Outcome, returned, unending, ◌>>=◌}
use dbz_budokai_hd.Ppu.State.{
  Ppu, Env, Op, li, lis, addi, addw, or_imm, clrldi, lwz, ld, stb, stw, std, stdu, mflr, mtlr,
  mtctr, cmpwi, lwarx, stwcx, call, icall, minus, is_eq, is_lt, run,
}

-- The parts of `func_000393d4` and of `func_0003937c`: before the loop, its body, and after it.
abbrev pub entry_000393d4 : List Op
entry_000393d4 =
    stdu (minus 0x90)
    ∷ mflr
    ∷ std 0 0xA0 1
    ∷ lis 3 0x29
    ∷ std 31 0x88 1
    ∷ li 4 0
    ∷ addi 31 3 (minus 27248)
    ∷ li 5 0x5B0
    ∷ std 30 0x80 1
    ∷ std 29 0x78 1
    ∷ addi 3 31 0x18
    ∷ call 0xD5654
    ∷ li 30 0
    ∷ li 29 1
    ∷ li 3 1
    ∷ stw 30 0x5C8 31
    ∷ stw 30 0x5CC 31
    ∷ stb 30 0x5D0 31
    ∷ stb 30 0x5D1 31
    ∷ stb 30 0x5D6 31
    ∷ stb 30 0x5D2 31
    ∷ stb 30 0x5D3 31
    ∷ stb 30 0x5D4 31
    ∷ stb 30 0x5D5 31
    ∷ stb 29 0x5D7 31
    ∷ stb 30 0x5D8 31
    ∷ stb 30 0x5F8 31
    ∷ std 2 0x28 1
    ∷ call 0xF109C
    ∷ ld 2 0x28 1
    ∷ lis 3 0x29
    ∷ li 4 0
    ∷ addi 31 3 (minus 25712)
    ∷ li 5 0x5B0
    ∷ addi 3 31 0x18
    ∷ call 0xD5654
    ∷ stw 30 0x5C8 31
    ∷ li 3 1
    ∷ stw 30 0x5CC 31
    ∷ stb 30 0x5D0 31
    ∷ stb 30 0x5D1 31
    ∷ stb 30 0x5D6 31
    ∷ stb 30 0x5D2 31
    ∷ stb 30 0x5D3 31
    ∷ stb 30 0x5D4 31
    ∷ stb 30 0x5D5 31
    ∷ stb 29 0x5D7 31
    ∷ stb 30 0x5D8 31
    ∷ stb 30 0x5F8 31
    ∷ std 2 0x28 1
    ∷ call 0xF109C
    ∷ ld 2 0x28 1
    ∷ lis 3 0x29
    ∷ li 4 0
    ∷ addi 31 3 (minus 24176)
    ∷ li 5 0x5B0
    ∷ addi 3 31 0x18
    ∷ call 0xD5654
    ∷ stw 30 0x5C8 31
    ∷ li 3 1
    ∷ stw 30 0x5CC 31
    ∷ stb 30 0x5D0 31
    ∷ stb 30 0x5D1 31
    ∷ stb 30 0x5D6 31
    ∷ stb 30 0x5D2 31
    ∷ stb 30 0x5D3 31
    ∷ stb 30 0x5D4 31
    ∷ stb 30 0x5D5 31
    ∷ stb 29 0x5D7 31
    ∷ stb 30 0x5D8 31
    ∷ stb 30 0x5F8 31
    ∷ std 2 0x28 1
    ∷ call 0xF109C
    ∷ ld 2 0x28 1
    ∷ lis 31 0x29
    ∷ addi 31 31 (minus 22464)
    ∷ []

abbrev pub body_000393d4 : List Op
body_000393d4 =
    clrldi 3 31 32 ∷ call 0x39540 ∷ addi 30 30 1 ∷ addi 31 31 0x90 ∷ cmpwi 28 30 0xE ∷ []

abbrev pub exit_000393d4 : List Op
exit_000393d4 = ld 0 0xA0 1 ∷ mtlr ∷ ld 29 0x78 1 ∷ ld 30 0x80 1 ∷ ld 31 0x88 1 ∷ addi 1 1 0x90 ∷ []

abbrev pub entry_0003937c : List Op
entry_0003937c =
    stdu (minus 0x80)
    ∷ mflr
    ∷ std 0 0x90 1
    ∷ std 30 0x70 1
    ∷ lis 3 0x29
    ∷ std 31 0x78 1
    ∷ li 30 0xD
    ∷ addi 31 3 (minus 22464)
    ∷ addi 31 31 0x750
    ∷ []

abbrev pub body_0003937c : List Op
body_0003937c =
    clrldi 3 31 32
    ∷ call 0x3959C
    ∷ addi 30 30 (minus 1)
    ∷ addi 31 31 (minus 144)
    ∷ cmpwi 28 30 0
    ∷ []

abbrev pub exit_0003937c : List Op
exit_0003937c = ld 0 0x90 1 ∷ mtlr ∷ ld 30 0x70 1 ∷ ld 31 0x78 1 ∷ addi 1 1 0x80 ∷ []

-- Before and after the releases of `func_0003b124` and of `func_00027110`.
abbrev pub entry_0003b124 : List Op
entry_0003b124 =
    stdu (minus 0x80)
    ∷ mflr
    ∷ std 0 0x90 1
    ∷ std 30 0x70 1
    ∷ lis 3 0x29
    ∷ addi 30 3 (minus 20344)
    ∷ lwz 30 0x4 30
    ∷ std 31 0x78 1
    ∷ []

abbrev pub exit_0003b124 : List Op
exit_0003b124 = ld 0 0x90 1 ∷ mtlr ∷ ld 30 0x70 1 ∷ ld 31 0x78 1 ∷ addi 1 1 0x80 ∷ []

abbrev pub entry_00027110 : List Op
entry_00027110 =
    stdu (minus 0x90)
    ∷ mflr
    ∷ std 0 0xA0 1
    ∷ std 31 0x88 1
    ∷ lis 31 0x28
    ∷ std 29 0x78 1
    ∷ addi 31 31 (minus 2060)
    ∷ lwz 29 0x34 31
    ∷ std 30 0x80 1
    ∷ []

abbrev pub exit_00027110 : List Op
exit_00027110 = ld 0 0xA0 1 ∷ mtlr ∷ ld 29 0x78 1 ∷ ld 30 0x80 1 ∷ ld 31 0x88 1 ∷ addi 1 1 0x90 ∷ []

-- The pieces of a release of the shared object in register o, with -1 in register w: the address
-- of the first count, and of the second, and a call of the method at k in the table.
abbrev pub first_count : ℕ → ℕ → List Op
first_count o w = lis 3 0xFFFF ∷ addi 4 o 4 ∷ or_imm 3 3 0xFFFF ∷ clrldi 4 4 32 ∷ clrldi w 3 32 ∷ []

abbrev pub second_count : ℕ → List Op
second_count o = addi 3 o 8 ∷ ld 2 0x28 1 ∷ clrldi 3 3 32 ∷ []

abbrev pub call_method : ℕ → ℕ → List Op
call_method o k =
    lwz 4 0 o
    ∷ or_imm 3 o 0
    ∷ std 2 0x28 1
    ∷ lwz 4 k 4
    ∷ lwz 5 0 4
    ∷ lwz 2 4 4
    ∷ mtctr 5
    ∷ icall
    ∷ []

module _ (E : Env) where
  -- do body while the test holds, with the rounds left
  unfoldable pub repeat : (Ppu → Bool) → List Op → ℕ → Ppu → Outcome Ppu
  unfolding run
  repeat again body zero c = unending
  repeat again body (suc left) c = do
    d ← run E body c
    elim (again d) [ true ↦ repeat again body left d | false ↦ returned d ]

  unfoldable pub func_000393d4 : Ppu → Outcome Ppu
  unfolding repeat
  func_000393d4 c = do
    d ← run E entry_000393d4 c
    e ← repeat (is_lt 28) body_000393d4 E.rounds d
    run E exit_000393d4 e

  unfoldable pub func_0003937c : Ppu → Outcome Ppu
  unfolding repeat
  func_0003937c c = do
    d ← run E entry_0003937c c
    e ← repeat (λ s. if is_lt 28 s then false else true) body_0003937c E.rounds d
    run E exit_0003937c e

  -- The loop around lwarx and stwcx., on the count at the address in register b, until the store
  -- is done; register d gets the count.
  unfoldable pub decrement : ℕ → ℕ → ℕ → ℕ → Ppu → Outcome Ppu
  unfolding run
  decrement w d b zero c = unending
  decrement w d b (suc left) c = do
    s ← run E (lwarx d b ∷ addw 0 w d ∷ stwcx b ∷ []) c
    elim (is_eq 28 s) [ true ↦ returned s | false ↦ decrement w d b left s ]

  -- The decrement, and what follows if the count was 1.
  unfoldable pub if_last : ℕ → ℕ → ℕ → (Ppu → Outcome Ppu) → Ppu → Outcome Ppu
  unfolding decrement
  if_last w d b next c = do
    s ← decrement w d b E.rounds c
    t ← run E (cmpwi 28 d 1 ∷ []) s
    if is_eq 28 t then next t else returned t

  -- From the comparison of register o with 0 up to the label behind the block.
  unfoldable pub release : ℕ → ℕ → Ppu → Outcome Ppu
  unfolding if_last
  release o w c = do
    d ← run E (cmpwi 28 o 0 ∷ []) c
    if is_eq 28 d then returned d else do
      s ← run E (first_count o w) d
      if_last w 3 4
          (λ t. do
            u ← run E (call_method o 0x8) t
            v ← run E (second_count o) u
            if_last w 4 3 (λ x. do y ← run E (call_method o 0xC) x; run E (ld 2 0x28 1 ∷ []) y) v)
          s

  unfoldable pub func_0003b124 : Ppu → Outcome Ppu
  unfolding release
  func_0003b124 c = do d ← run E entry_0003b124 c; e ← release 30 31 d; run E exit_0003b124 e

  -- A block of `func_00027110`: the object at k from r31 on is loaded and released.
  unfoldable pub release_at : ℕ → Ppu → Outcome Ppu
  unfolding release
  release_at k c = do d ← run E (lwz 29 k 31 ∷ []) c; release 29 30 d

  unfoldable pub func_00027110 : Ppu → Outcome Ppu
  unfolding release_at
  func_00027110 c = do
    s ← run E entry_00027110 c
    e34 ← release 29 30 s
    e2c ← release_at 0x2C e34
    e24 ← release_at 0x24 e2c
    e1c ← release_at 0x1C e24
    e14 ← release_at 0x14 e1c
    e0c ← release_at 0xC e14
    last ← run E (lwz 31 0x4 31 ∷ []) e0c
    e04 ← release 31 30 last
    run E exit_00027110 e04
