-- ===== src/Spu/Isa/Rr/Arithmetic.antt =====
-- spu_interp.cpp, `spu_step`, RR format: integer addition and subtraction.
use dbz_budokai_hd.Common.{
  ℕ, ◌+◌, ◌-◌, ◌*◌, ◌/◌, ◌^◌, ◌==◌, ltb, leb, if◌then◌else◌, List, [], ◌∷◌, update, for_range,
}
use dbz_budokai_hd.Common.Words.{u16, u64, add32, sub32, not32, low_bits, ◌>>>◌}
use dbz_budokai_hd.Spu.Reg.{Reg, get_h, for_words, for_halves, for_bytes}
use dbz_budokai_hd.Spu.Isa.Fields.{f_rt, f_ra, f_rb}
use dbz_budokai_hd.Spu.Isa.Handler.{Handler, RegOp, on_gpr, gw, of_halves}

unfoldable pub rr_a : RegOp
rr_a i R = for_words (f_rt i) (λ S k. add32 (gw S (f_ra i) k) (gw S (f_rb i) k)) R

unfoldable pub sf : RegOp
sf i R = for_words (f_rt i) (λ S k. sub32 (gw S (f_rb i) k) (gw S (f_ra i) k)) R

unfoldable pub ah : RegOp
ah i R = for_halves (f_rt i) (λ S k. get_h (S (f_ra i)) k + get_h (S (f_rb i)) k) R

unfoldable pub sfh : RegOp
sfh i R = for_halves (f_rt i) (λ S k. get_h (S (f_rb i)) k + 2 ^ 32 - get_h (S (f_ra i)) k) R

-- The carry out of 32 bits, and the absence of a borrow.

unfoldable pub cg : RegOp
cg i R = for_words (f_rt i) (λ S k. u64 (gw S (f_ra i) k + gw S (f_rb i) k) >>> 32) R

unfoldable pub bg : RegOp
bg i R = for_words (f_rt i) (λ S k. if leb (gw S (f_ra i) k) (gw S (f_rb i) k) then 1 else 0) R

-- The same with a carry in, the lowest bit of RT.

unfoldable pub addx : RegOp
addx i R =
    for_words (f_rt i)
      (λ S k. add32 (add32 (gw S (f_ra i) k) (gw S (f_rb i) k)) (low_bits 1 (gw S (f_rt i) k))) R

unfoldable pub sfx : RegOp
sfx i R =
    for_words (f_rt i)
      (λ S k.
        add32 (add32 (gw S (f_rb i) k) (not32 (gw S (f_ra i) k))) (low_bits 1 (gw S (f_rt i) k)))
      R

unfoldable pub cgx : RegOp
cgx i R =
    for_words (f_rt i)
      (λ S k. u64 (u64 (gw S (f_ra i) k + gw S (f_rb i) k) + low_bits 1 (gw S (f_rt i) k)) >>> 32) R

unfoldable pub bgx : RegOp
bgx i R =
    for_words (f_rt i)
      (λ S k.
        u64 (u64 (gw S (f_rb i) k + not32 (gw S (f_ra i) k)) + low_bits 1 (gw S (f_rt i) k)) >>> 32)
      R

unfoldable pub absdb : RegOp
absdb i R =
    for_bytes (f_rt i)
      (λ S k.
        if ltb (S (f_ra i) k) (S (f_rb i) k)
        then S (f_rb i) k - S (f_ra i) k
        else S (f_ra i) k - S (f_rb i) k)
      R

unfoldable pub avgb : RegOp
avgb i R = for_bytes (f_rt i) (λ S k. (S (f_ra i) k + S (f_rb i) k + 1) >>> 1) R

-- The sum of the four bytes of word i.
abbrev pub sum_bytes : Reg → ℕ → ℕ
sum_bytes r w = for_range 4 0 (λ k s. u16 (s + r (4 * w + k))) 0

-- Halfword 2i is the sum over word i of RB, halfword 2i + 1 that of RA.
unfoldable pub sumb : RegOp
unfolding for_range
sumb i R = update R (f_rt i) (
    of_halves λ h.
      if low_bits 1 h == 0 then sum_bytes (R (f_rb i)) (h / 2) else sum_bytes (R (f_ra i)) (h / 2))

abbrev pub arithmetic_cases : List (ℕ × Handler)
arithmetic_cases =
    (0x0C0, on_gpr rr_a)
    ∷ (0x040, on_gpr sf)
    ∷ (0x0C8, on_gpr ah)
    ∷ (0x048, on_gpr sfh)
    ∷ (0x0C2, on_gpr cg)
    ∷ (0x042, on_gpr bg)
    ∷ (0x340, on_gpr addx)
    ∷ (0x341, on_gpr sfx)
    ∷ (0x342, on_gpr cgx)
    ∷ (0x343, on_gpr bgx)
    ∷ (0x053, on_gpr absdb)
    ∷ (0x0D3, on_gpr avgb)
    ∷ (0x253, on_gpr sumb)
    ∷ []
