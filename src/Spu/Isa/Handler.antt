-- ===== src/Spu/Isa/Handler.antt =====
-- The shape of an instruction: what the code of one `case` does with the instruction word, its
-- address and the context, whose `pc` is already the next address.
use dbz_budokai_hd.Common.{ℕ, ◌==◌, if◌then◌else◌, Option, some, none, List, [], ◌∷◌}
use dbz_budokai_hd.Common.{for_range}
use dbz_budokai_hd.Spu.Context.{Ctx}
use dbz_budokai_hd.Spu.Reg.{Reg, Gpr, get_w, set_w, set_h, zero_reg}

abbrev pub Handler : Type 0
Handler = ℕ → ℕ → Ctx → Option Ctx

-- An instruction that changes registers alone.
abbrev pub RegOp : Type 0
RegOp = ℕ → Gpr → Gpr

abbrev pub on_gpr : RegOp → Handler
on_gpr f i pc c = some (record c { gpr = f i c.gpr })

-- A `case` with nothing but `return`.
abbrev pub no_effect : Handler
no_effect i pc c = some c

-- GW(R[r], k)
abbrev pub gw : Gpr → ℕ → ℕ → ℕ
gw R r k = get_w (R r) k

-- memset(&R[rt], 0, 16); SW(R[rt], 0, v)
abbrev pub preferred : ℕ → Reg
preferred v = set_w zero_reg 0 v

-- A fresh register of four words, or of eight halfwords.
unfoldable pub of_words : (ℕ → ℕ) → Reg
unfolding for_range
of_words f = for_range 4 0 (λ i t. set_w t i (f i)) zero_reg

unfoldable pub of_halves : (ℕ → ℕ) → Reg
unfolding for_range
of_halves f = for_range 8 0 (λ i t. set_h t i (f i)) zero_reg

-- `switch` over the labels of its cases.
unfoldable pub switch : ℕ → List (ℕ × Handler) → Option Handler
switch op [] = none
switch op ((label, h) ∷ cases) = if op == label then some h else switch op cases

-- The first switch that has a case.
abbrev pub or_else : Option Handler → Option Handler → Option Handler
or_else (some h) o = some h
or_else none o = o
