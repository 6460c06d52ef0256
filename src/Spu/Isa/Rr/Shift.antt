-- ===== src/Spu/Isa/Rr/Shift.antt =====
-- spu_interp.cpp, `spu_step`, RR format: shifts and rotations of the elements, by RB or by an immediate.
use dbz_budokai_hd.Common.{ℕ, ◌-◌, ◌==◌, ltb, if◌then◌else◌, bit_or, List, [], ◌∷◌}
use dbz_budokai_hd.Common.Words.{u16, u32, sub32, low_bits, sar, ◌<<<◌, ◌>>>◌}
use dbz_budokai_hd.Spu.Reg.{get_h, for_words, for_halves}
use dbz_budokai_hd.Spu.Isa.Fields.{f_rt, f_ra, f_rb, f_i7}
use dbz_budokai_hd.Spu.Isa.Handler.{Handler, RegOp, on_gpr, gw}

-- s ? ((v << s) | (v >> (32 - s))) : v
abbrev pub rotl32 : ℕ → ℕ → ℕ
rotl32 v s = if s == 0 then v else bit_or (u32 (v <<< s)) (v >>> (32 - s))

abbrev pub rotl16 : ℕ → ℕ → ℕ
rotl16 v s = if s == 0 then v else u16 (bit_or (v <<< s) (v >>> (16 - s)))

-- (s < w) ? (v >> s) : 0, and the same to the left
abbrev pub shr_or_zero : ℕ → ℕ → ℕ → ℕ
shr_or_zero w v s = if ltb s w then v >>> s else 0

abbrev pub shl_or_zero : ℕ → ℕ → ℕ → ℕ
shl_or_zero w v s = if ltb s w then v <<< s else 0

-- if (s > m) s = m
abbrev pub at_most : ℕ → ℕ → ℕ
at_most m s = if ltb m s then m else s

unfoldable pub rot : RegOp
rot i R = for_words (f_rt i) (λ S k. rotl32 (gw S (f_ra i) k) (low_bits 5 (gw S (f_rb i) k))) R

unfoldable pub rotm : RegOp
rotm i R =
    for_words (f_rt i)
      (λ S k. shr_or_zero 32 (gw S (f_ra i) k) (low_bits 6 (sub32 0 (gw S (f_rb i) k)))) R

unfoldable pub rotma : RegOp
rotma i R =
    for_words (f_rt i)
      (λ S k. sar 32 (gw S (f_ra i) k) (at_most 31 (low_bits 6 (sub32 0 (gw S (f_rb i) k))))) R

unfoldable pub shl : RegOp
shl i R =
    for_words (f_rt i) (λ S k. shl_or_zero 32 (gw S (f_ra i) k) (low_bits 6 (gw S (f_rb i) k))) R

unfoldable pub roth : RegOp
roth i R =
    for_halves (f_rt i) (λ S k. rotl16 (get_h (S (f_ra i)) k) (low_bits 4 (get_h (S (f_rb i)) k))) R

unfoldable pub rothm : RegOp
rothm i R =
    for_halves (f_rt i)
      (λ S k. shr_or_zero 16 (get_h (S (f_ra i)) k) (low_bits 5 (sub32 0 (get_h (S (f_rb i)) k)))) R

unfoldable pub rotmah : RegOp
rotmah i R =
    for_halves (f_rt i)
      (λ S k.
        sar 16 (get_h (S (f_ra i)) k) (at_most 15 (low_bits 5 (sub32 0 (get_h (S (f_rb i)) k)))))
      R

unfoldable pub shlh : RegOp
shlh i R =
    for_halves (f_rt i)
      (λ S k. shl_or_zero 16 (get_h (S (f_ra i)) k) (low_bits 5 (get_h (S (f_rb i)) k))) R

unfoldable pub roti : RegOp
roti i R = for_words (f_rt i) (λ S k. rotl32 (gw S (f_ra i) k) (low_bits 5 (f_i7 i))) R

unfoldable pub rotmi : RegOp
rotmi i R =
    for_words (f_rt i) (λ S k. shr_or_zero 32 (gw S (f_ra i) k) (low_bits 6 (sub32 0 (f_i7 i)))) R

unfoldable pub rotmai : RegOp
rotmai i R =
    for_words (f_rt i)
      (λ S k. sar 32 (gw S (f_ra i) k) (at_most 31 (low_bits 6 (sub32 0 (f_i7 i))))) R

unfoldable pub shli : RegOp
shli i R = for_words (f_rt i) (λ S k. shl_or_zero 32 (gw S (f_ra i) k) (low_bits 6 (f_i7 i))) R

unfoldable pub rothi : RegOp
rothi i R = for_halves (f_rt i) (λ S k. rotl16 (get_h (S (f_ra i)) k) (low_bits 4 (f_i7 i))) R

unfoldable pub rothmi : RegOp
rothmi i R =
    for_halves (f_rt i)
      (λ S k. shr_or_zero 16 (get_h (S (f_ra i)) k) (low_bits 5 (sub32 0 (f_i7 i)))) R

unfoldable pub rotmahi : RegOp
rotmahi i R =
    for_halves (f_rt i)
      (λ S k. sar 16 (get_h (S (f_ra i)) k) (at_most 15 (low_bits 5 (sub32 0 (f_i7 i))))) R

unfoldable pub shlhi : RegOp
shlhi i R =
    for_halves (f_rt i) (λ S k. shl_or_zero 16 (get_h (S (f_ra i)) k) (low_bits 5 (f_i7 i))) R

abbrev pub shift_cases : List (ℕ × Handler)
shift_cases =
    (0x058, on_gpr rot)
    ∷ (0x059, on_gpr rotm)
    ∷ (0x05A, on_gpr rotma)
    ∷ (0x05B, on_gpr shl)
    ∷ (0x05C, on_gpr roth)
    ∷ (0x05D, on_gpr rothm)
    ∷ (0x05E, on_gpr rotmah)
    ∷ (0x05F, on_gpr shlh)
    ∷ (0x078, on_gpr roti)
    ∷ (0x079, on_gpr rotmi)
    ∷ (0x07A, on_gpr rotmai)
    ∷ (0x07B, on_gpr shli)
    ∷ (0x07C, on_gpr rothi)
    ∷ (0x07D, on_gpr rothmi)
    ∷ (0x07E, on_gpr rotmahi)
    ∷ (0x07F, on_gpr shlhi)
    ∷ []
