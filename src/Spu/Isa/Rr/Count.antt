-- ===== src/Spu/Isa/Rr/Count.antt =====
-- spu_interp.cpp, `spu_step`, RR format: counting, sign extension, gathering and spreading of bits.
use dbz_budokai_hd.Common.{
  ℕ, zero, suc, ◌+◌, ◌-◌, ◌*◌, ◌/◌, ◌==◌, if◌then◌else◌, bit_or, List, [], ◌∷◌, update, for_range,
}
use dbz_budokai_hd.Common.Words.{
  u32, low_bits, signed, wrap, test_bit, mask8, mask16, mask32, ◌<<<◌, ◌>>>◌,
}
use dbz_budokai_hd.Spu.Reg.{get_h, for_words, for_halves, for_bytes}
use dbz_budokai_hd.Spu.Isa.Fields.{f_rt, f_ra}
use dbz_budokai_hd.Spu.Isa.Handler.{Handler, RegOp, on_gpr, gw, preferred, of_words}

-- while (!(v & 0x80000000u)) { n++; v <<= 1; }, with fuel: 32 rounds suffice for a word that is not 0.
unfoldable pub clz_loop : ℕ → ℕ → ℕ → ℕ
clz_loop zero v n = n
clz_loop (suc fuel) v n =
    let rest = clz_loop fuel (u32 (v <<< 1)) (n + 1) in if test_bit 31 v then n else rest

unfoldable pub clz_word : ℕ → ℕ
unfolding clz_loop
clz_word v = if v == 0 then 32 else clz_loop 32 v 0

unfoldable pub clz : RegOp
clz i R = for_words (f_rt i) (λ S k. clz_word (gw S (f_ra i) k)) R

-- while (v) { n += v & 1; v >>= 1; }, which ends within eight rounds on a byte.
unfoldable pub cntb_loop : ℕ → ℕ → ℕ → ℕ
cntb_loop zero v n = n
cntb_loop (suc fuel) v n =
    let rest = cntb_loop fuel (v >>> 1) (n + low_bits 1 v) in if v == 0 then n else rest

unfoldable pub cntb : RegOp
cntb i R = for_bytes (f_rt i) (λ S k. cntb_loop 8 (S (f_ra i) k) 0) R

-- The w-bit pattern of the integer that a v-bit pattern stands for.
abbrev pub sext : ℕ → ℕ → ℕ → ℕ
sext v w x = wrap w (signed v x)

unfoldable pub xsbh : RegOp
xsbh i R = for_halves (f_rt i) (λ S k. sext 8 16 (low_bits 8 (get_h (S (f_ra i)) k))) R

unfoldable pub xshw : RegOp
xshw i R = for_words (f_rt i) (λ S k. sext 16 32 (low_bits 16 (gw S (f_ra i) k))) R

-- Doubleword d is word 2d + 1 with its sign: the words of the result in turn.
unfoldable pub xswd : RegOp
xswd i R = update R (f_rt i) (
    of_words λ k.
      let v = sext 32 64 (gw R (f_ra i) (2 * (k / 2) + 1)) in
      if low_bits 1 k == 0 then v >>> 32 else u32 v)

-- v |= bit(k) << (n - 1 - k) over the n elements: element 0 is the highest bit.
abbrev pub gather : ℕ → (ℕ → ℕ) → ℕ
gather n bit = for_range n 0 (λ k v. bit_or v (low_bits 1 (bit k) <<< (n - 1 - k))) 0

unfoldable pub gb : RegOp
unfolding for_range
gb i R = update R (f_rt i) (preferred (gather 4 (λ k. gw R (f_ra i) k)))

unfoldable pub gbh : RegOp
unfolding for_range
gbh i R = update R (f_rt i) (preferred (gather 8 (λ k. get_h (R (f_ra i)) k)))

unfoldable pub gbb : RegOp
unfolding for_range
gbb i R = update R (f_rt i) (preferred (gather 16 (λ k. R (f_ra i) k)))

-- The bits are read before the loop writes.
unfoldable pub fsm : RegOp
fsm i R = let s = gw R (f_ra i) 0 in for_words (f_rt i) (λ S k. mask32 (test_bit (3 - k) s)) R

unfoldable pub fsmh : RegOp
fsmh i R = let s = gw R (f_ra i) 0 in for_halves (f_rt i) (λ S k. mask16 (test_bit (7 - k) s)) R

unfoldable pub fsmb : RegOp
fsmb i R = let s = gw R (f_ra i) 0 in for_bytes (f_rt i) (λ S k. mask8 (test_bit (15 - k) s)) R

abbrev pub count_cases : List (ℕ × Handler)
count_cases =
    (0x2A5, on_gpr clz)
    ∷ (0x2B4, on_gpr cntb)
    ∷ (0x2B6, on_gpr xsbh)
    ∷ (0x2AE, on_gpr xshw)
    ∷ (0x2A6, on_gpr xswd)
    ∷ (0x1B0, on_gpr gb)
    ∷ (0x1B1, on_gpr gbh)
    ∷ (0x1B2, on_gpr gbb)
    ∷ (0x1B4, on_gpr fsm)
    ∷ (0x1B5, on_gpr fsmh)
    ∷ (0x1B6, on_gpr fsmb)
    ∷ []
