-- ===== src/Ppu/Lifted.antt =====
-- extra_funcs.cpp: the hand-lifted functions without loops, statement by statement.
pub mod Laws
use dbz_budokai_hd.Common.{ℕ, if◌then◌else◌, List, [], ◌∷◌}
use dbz_budokai_hd.Common.Outcome.{Outcome, ◌>>=◌}
use dbz_budokai_hd.Ppu.State.{
  Ppu, Env, Op, li, lis, addi, clrldi, lwz, ld, stb, stw, std, stdu, mflr, mtlr, cmpwi, call, tail,
  minus, is_eq, run,
}

abbrev pub func_000e9218 : List Op
func_000e9218 = li 4 (minus 1) ∷ li 3 1 ∷ clrldi 4 4 48 ∷ tail 0xE9144 ∷ []

abbrev pub func_000cb5b0 : List Op
func_000cb5b0 = li 4 (minus 1) ∷ li 3 1 ∷ clrldi 4 4 48 ∷ tail 0xCB564 ∷ []

abbrev pub func_000c5c9c : List Op
func_000c5c9c = li 4 (minus 1) ∷ li 3 1 ∷ clrldi 4 4 48 ∷ tail 0xC5C38 ∷ []

abbrev pub func_000b73bc : List Op
func_000b73bc = li 4 (minus 1) ∷ li 3 1 ∷ clrldi 4 4 48 ∷ tail 0xB7398 ∷ []

abbrev pub func_0003b208 : List Op
func_0003b208 =
    lis 3 0x29 ∷ li 4 0 ∷ addi 5 3 (minus 20344) ∷ stw 4 (minus 0x4F78) 3 ∷ stw 4 0x4 5 ∷ []

abbrev pub func_00033a54 : List Op
func_00033a54 =
    stdu (minus 0x70)
    ∷ mflr
    ∷ std 0 0x80 1
    ∷ lis 4 0x28
    ∷ li 5 0
    ∷ addi 6 4 (minus 1872)
    ∷ lis 3 0x28
    ∷ addi 3 3 (minus 1864)
    ∷ stb 5 (minus 0x750) 4
    ∷ stw 5 0x4 6
    ∷ call 0x32C08
    ∷ lis 3 0x28
    ∷ addi 3 3 0x396C
    ∷ call 0x32C08
    ∷ ld 0 0x80 1
    ∷ mtlr
    ∷ addi 1 1 0x70
    ∷ []

abbrev pub func_0002761c : List Op
func_0002761c =
    lis 3 0x28
    ∷ li 4 0
    ∷ addi 5 3 (minus 2060)
    ∷ stw 4 (minus 0x80C) 3
    ∷ stw 4 0x4 5
    ∷ stw 4 0x8 5
    ∷ stw 4 0xC 5
    ∷ stw 4 0x10 5
    ∷ stw 4 0x14 5
    ∷ stw 4 0x18 5
    ∷ stw 4 0x1C 5
    ∷ stw 4 0x20 5
    ∷ stw 4 0x24 5
    ∷ stw 4 0x28 5
    ∷ stw 4 0x2C 5
    ∷ stw 4 0x30 5
    ∷ stw 4 0x34 5
    ∷ []

abbrev pub func_00019e8c : List Op
func_00019e8c =
    lis 4 0x28
    ∷ lis 5 0x24
    ∷ lis 3 0x16
    ∷ addi 5 5 0x3EF0
    ∷ lis 7 0x24
    ∷ addi 8 4 (minus 2112)
    ∷ lis 6 0x24
    ∷ addi 3 3 0xA70
    ∷ lis 9 0x28
    ∷ stw 5 (minus 0x840) 4
    ∷ addi 7 7 0x3FD0
    ∷ addi 6 6 0x3FD0
    ∷ lis 10 0x24
    ∷ stw 3 0x8 8
    ∷ addi 4 9 (minus 2100)
    ∷ stw 7 0x4 8
    ∷ addi 5 10 0x4060
    ∷ stw 6 (minus 0x834) 9
    ∷ lis 7 0x24
    ∷ lis 6 0x28
    ∷ addi 7 7 0x4060
    ∷ stw 3 0x8 4
    ∷ lis 9 0x24
    ∷ stw 5 0x4 4
    ∷ lis 8 0x24
    ∷ addi 5 9 0x4140
    ∷ addi 4 6 (minus 2088)
    ∷ stw 7 (minus 0x828) 6
    ∷ lis 9 0x24
    ∷ addi 6 8 0x4140
    ∷ lis 7 0x28
    ∷ addi 8 9 0x4220
    ∷ addi 9 7 (minus 2076)
    ∷ stw 3 0x8 4
    ∷ stw 5 0x4 4
    ∷ stw 6 (minus 0x81C) 7
    ∷ stw 8 0x4 9
    ∷ stw 3 0x8 9
    ∷ []

abbrev pub func_00014660 : List Op
func_00014660 =
    lis 3 0xF
    ∷ lis 5 0x28
    ∷ lis 4 0x28
    ∷ lis 8 0x28
    ∷ addi 6 5 (minus 16912)
    ∷ ld 7 0x28F0 3
    ∷ addi 3 3 0x28F0
    ∷ std 7 (minus 0x4210) 5
    ∷ addi 5 4 (minus 16896)
    ∷ std 7 (minus 0x4200) 4
    ∷ lis 4 0x28
    ∷ addi 10 8 (minus 16880)
    ∷ ld 3 0x8 3
    ∷ lis 9 0x28
    ∷ std 7 (minus 0x41F0) 8
    ∷ addi 8 4 (minus 16864)
    ∷ std 3 0x8 6
    ∷ addi 6 9 (minus 16832)
    ∷ std 3 0x8 5
    ∷ std 7 (minus 0x41E0) 4
    ∷ std 3 0x8 10
    ∷ std 3 0x8 8
    ∷ std 7 (minus 0x41C0) 9
    ∷ std 3 0x8 6
    ∷ []

abbrev pub func_00014538 : List Op
func_00014538 =
    lis 3 0x28
    ∷ lis 6 0xF
    ∷ addi 4 3 (minus 17008)
    ∷ li 5 0
    ∷ addi 6 6 0x2890
    ∷ stb 5 (minus 0x4270) 3
    ∷ stw 6 0x4 4
    ∷ []

abbrev pub func_000c5c8c : List Op
func_000c5c8c = li 4 (minus 1) ∷ li 3 0 ∷ clrldi 4 4 48 ∷ tail 0xC5C38 ∷ []

abbrev pub func_000cb5c0 : List Op
func_000cb5c0 = li 4 (minus 1) ∷ li 3 0 ∷ clrldi 4 4 48 ∷ tail 0xCB564 ∷ []

abbrev pub func_000e9208 : List Op
func_000e9208 = li 4 (minus 1) ∷ li 3 0 ∷ clrldi 4 4 48 ∷ tail 0xE9144 ∷ []

-- The branch of `func_000e770c`: a tail call, or the rest.
abbrev pub entry_000e770c : List Op
entry_000e770c =
    lwz 3 (minus 0x5B50) 2
    ∷ mflr
    ∷ lwz 4 (minus 0x5B54) 2
    ∷ addi 3 3 0x18
    ∷ addi 4 4 0x10
    ∷ stdu (minus 0x70)
    ∷ std 0 0x80 1
    ∷ call 0xF1EFC
    ∷ ld 2 0x28 1
    ∷ cmpwi 0 3 0
    ∷ []

abbrev pub rest_000e770c : List Op
rest_000e770c = lwz 3 (minus 0x5B48) 2 ∷ call 0xCE56C ∷ ld 0 0x80 1 ∷ addi 1 1 0x70 ∷ mtlr ∷ []

module _ (E : Env) where
  unfoldable pub func_000e770c : Ppu → Outcome Ppu
  unfolding run
  func_000e770c c = do
    d ← run E entry_000e770c c
    if is_eq 0 d then run E rest_000e770c d else run E (tail 0xE7754 ∷ []) d
