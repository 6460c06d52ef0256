-- ===== src/Spu/Isa/Ri10.antt =====
-- spu_interp.cpp, `spu_step`: the RI10 format.
use dbz_budokai_hd.Common.{ℕ, ◌*◌, ◌+◌, ◌-◌, ◌^◌, ◌==◌, ltb, bit_and, bit_or, bit_xor}
use dbz_budokai_hd.Common.{some, List, [], ◌∷◌, update}
use dbz_budokai_hd.Common.Int.{◌*ℤ◌, ltb_ℤ}
use dbz_budokai_hd.Common.Words.{
  u8, u16, u32, add32, sub32, low_bits, signed, wrap, mask8, mask16, mask32, ◌<<<◌,
}
use dbz_budokai_hd.Spu.Reg.{get_h, for_words, for_halves, for_bytes}
use dbz_budokai_hd.Spu.LocalStore.{quad_addr, ls_read128, ls_write128}
use dbz_budokai_hd.Spu.Isa.Fields.{f_rt, f_ra, f_i10, f_i10u, sign_ext10}
use dbz_budokai_hd.Spu.Isa.Handler.{Handler, RegOp, on_gpr, no_effect, gw}

-- The address GW(R[ra], 0) + (F_I10 << 4) of `lqd` and `stqd`.
abbrev pub displaced : ℕ → ℕ → ℕ
displaced base i = quad_addr (add32 base (u32 (f_i10 i <<< 4)))

unfoldable pub lqd : Handler
lqd i pc c = some (record c {
  gpr =
      update c.gpr (f_rt i) (ls_read128 c.ls (displaced (gw c.gpr (f_ra i) 0) i) (c.gpr (f_rt i)));
})

unfoldable pub stqd : Handler
stqd i pc c =
    some (record c { ls = ls_write128 c.ls (displaced (gw c.gpr (f_ra i) 0) i) (c.gpr (f_rt i)) })

unfoldable pub ai : RegOp
ai i R = for_words (f_rt i) (λ S k. add32 (gw S (f_ra i) k) (f_i10 i)) R

unfoldable pub sfi : RegOp
sfi i R = for_words (f_rt i) (λ S k. sub32 (f_i10 i) (gw S (f_ra i) k)) R

unfoldable pub ahi : RegOp
ahi i R = for_halves (f_rt i) (λ S k. get_h (S (f_ra i)) k + u16 (f_i10 i)) R

unfoldable pub sfhi : RegOp
sfhi i R = for_halves (f_rt i) (λ S k. u16 (f_i10 i) + 2 ^ 32 - get_h (S (f_ra i)) k) R

unfoldable pub andi : RegOp
andi i R = for_words (f_rt i) (λ S k. bit_and (gw S (f_ra i) k) (f_i10 i)) R

unfoldable pub andhi : RegOp
andhi i R = for_halves (f_rt i) (λ S k. bit_and (get_h (S (f_ra i)) k) (u16 (f_i10 i))) R

unfoldable pub andbi : RegOp
andbi i R = for_bytes (f_rt i) (λ S k. bit_and (S (f_ra i) k) (u8 (f_i10 i))) R

unfoldable pub ori : RegOp
ori i R = for_words (f_rt i) (λ S k. bit_or (gw S (f_ra i) k) (f_i10 i)) R

unfoldable pub orhi : RegOp
orhi i R = for_halves (f_rt i) (λ S k. bit_or (get_h (S (f_ra i)) k) (u16 (f_i10 i))) R

unfoldable pub orbi : RegOp
orbi i R = for_bytes (f_rt i) (λ S k. bit_or (S (f_ra i) k) (u8 (f_i10 i))) R

unfoldable pub xori : RegOp
xori i R = for_words (f_rt i) (λ S k. bit_xor (gw S (f_ra i) k) (f_i10 i)) R

unfoldable pub xorhi : RegOp
xorhi i R = for_halves (f_rt i) (λ S k. bit_xor (get_h (S (f_ra i)) k) (u16 (f_i10 i))) R

unfoldable pub xorbi : RegOp
xorbi i R = for_bytes (f_rt i) (λ S k. bit_xor (S (f_ra i) k) (u8 (f_i10 i))) R

unfoldable pub ceqi : RegOp
ceqi i R = for_words (f_rt i) (λ S k. mask32 (gw S (f_ra i) k == f_i10 i)) R

unfoldable pub ceqhi : RegOp
ceqhi i R = for_halves (f_rt i) (λ S k. mask16 (get_h (S (f_ra i)) k == u16 (f_i10 i))) R

unfoldable pub ceqbi : RegOp
ceqbi i R = for_bytes (f_rt i) (λ S k. mask8 (S (f_ra i) k == u8 (f_i10 i))) R

unfoldable pub cgti : RegOp
cgti i R =
    for_words (f_rt i) (λ S k. mask32 (ltb_ℤ (signed 32 (f_i10 i)) (signed 32 (gw S (f_ra i) k)))) R

unfoldable pub cgthi : RegOp
cgthi i R =
    for_halves (f_rt i)
      (λ S k. mask16 (ltb_ℤ (signed 16 (u16 (f_i10 i))) (signed 16 (get_h (S (f_ra i)) k)))) R

unfoldable pub cgtbi : RegOp
cgtbi i R =
    for_bytes (f_rt i) (λ S k. mask8 (ltb_ℤ (signed 8 (u8 (f_i10 i))) (signed 8 (S (f_ra i) k)))) R

unfoldable pub clgti : RegOp
clgti i R = for_words (f_rt i) (λ S k. mask32 (ltb (f_i10 i) (gw S (f_ra i) k))) R

unfoldable pub clgthi : RegOp
clgthi i R = for_halves (f_rt i) (λ S k. mask16 (ltb (u16 (f_i10 i)) (get_h (S (f_ra i)) k))) R

unfoldable pub clgtbi : RegOp
clgtbi i R = for_bytes (f_rt i) (λ S k. mask8 (ltb (u8 (f_i10 i)) (S (f_ra i) k))) R

unfoldable pub mpyi : RegOp
mpyi i R =
    for_words (f_rt i)
      (λ S k. wrap 32 (signed 16 (low_bits 16 (gw S (f_ra i) k)) *ℤ signed 32 (f_i10 i))) R

unfoldable pub mpyui : RegOp
mpyui i R =
    for_words (f_rt i)
      (λ S k. u32 (low_bits 16 (gw S (f_ra i) k) * low_bits 16 (sign_ext10 (f_i10u i)))) R

-- switch (op8); the halts are ignored.
abbrev pub ri10_cases : List (ℕ × Handler)
ri10_cases =
    (0x34, lqd)
    ∷ (0x24, stqd)
    ∷ (0x1C, on_gpr ai)
    ∷ (0x0C, on_gpr sfi)
    ∷ (0x1D, on_gpr ahi)
    ∷ (0x0D, on_gpr sfhi)
    ∷ (0x14, on_gpr andi)
    ∷ (0x15, on_gpr andhi)
    ∷ (0x16, on_gpr andbi)
    ∷ (0x04, on_gpr ori)
    ∷ (0x05, on_gpr orhi)
    ∷ (0x06, on_gpr orbi)
    ∷ (0x44, on_gpr xori)
    ∷ (0x45, on_gpr xorhi)
    ∷ (0x46, on_gpr xorbi)
    ∷ (0x7C, on_gpr ceqi)
    ∷ (0x7D, on_gpr ceqhi)
    ∷ (0x7E, on_gpr ceqbi)
    ∷ (0x4C, on_gpr cgti)
    ∷ (0x4D, on_gpr cgthi)
    ∷ (0x4E, on_gpr cgtbi)
    ∷ (0x5C, on_gpr clgti)
    ∷ (0x5D, on_gpr clgthi)
    ∷ (0x5E, on_gpr clgtbi)
    ∷ (0x74, on_gpr mpyi)
    ∷ (0x75, on_gpr mpyui)
    ∷ (0x4F, no_effect)
    ∷ (0x5F, no_effect)
    ∷ (0x7F, no_effect)
    ∷ []
