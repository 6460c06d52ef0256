-- ===== src/Spu/Meaning/Carry.antt =====
-- Addition and subtraction over several words: the sums and the carries, also where the target is
-- one of the operands.
use dbz_budokai_hd.Common.{ℕ, ◌+◌, ◌*◌, ◌^◌, ◌<◌, ◌≡◌, arith, if◌then◌else◌, leb}
use dbz_budokai_hd.Common.Words.{u32, u64, add32, sub32, not32, low_bits, ◌>>>◌}
use dbz_budokai_hd.Spu.Reg.{Gpr}
use dbz_budokai_hd.Spu.Reg.Words.{get_w-lt}
use dbz_budokai_hd.Spu.Meaning.Lane.{word_of}
use dbz_budokai_hd.Spu.Isa.Fields.{f_rt, f_ra, f_rb}
use dbz_budokai_hd.Spu.Isa.Handler.{gw}
use dbz_budokai_hd.Spu.Isa.Rr.Arithmetic.{rr_a, sf, cg, bg, addx, sfx, cgx, bgx}
use dbz_budokai_hd.Spu.Invariant.{AreByteRegs}

-- Word k of the target after an instruction, and of the registers before it.
abbrev pub target : ℕ → Gpr → ℕ → ℕ
target i S k = gw S (f_rt i) k

module _ (i : ℕ) (R : Gpr) (k : ℕ) (bytes : AreByteRegs R) (lane : k < 4) where
  a_lem : target i (rr_a i R) k ≡ u32 (add32 (gw R (f_ra i) k) (gw R (f_rb i) k))
  unfolding rr_a
  a_lem = word_of i R (λ t a b. add32 a b) k lane

  cg_lem : target i (cg i R) k ≡ u32 (u64 (gw R (f_ra i) k + gw R (f_rb i) k) >>> 32)
  unfolding cg
  cg_lem = word_of i R (λ t a b. u64 (a + b) >>> 32) k lane

  sf_lem : target i (sf i R) k ≡ u32 (sub32 (gw R (f_rb i) k) (gw R (f_ra i) k))
  unfolding sf
  sf_lem = word_of i R (λ t a b. sub32 b a) k lane

  bg_lem : target i (bg i R) k ≡ u32 (if leb (gw R (f_ra i) k) (gw R (f_rb i) k) then 1 else 0)
  unfolding bg
  bg_lem = word_of i R (λ t a b. if leb a b then 1 else 0) k lane

  addx_lem :
      target i (addx i R) k
      ≡ u32 (add32 (add32 (gw R (f_ra i) k) (gw R (f_rb i) k)) (low_bits 1 (gw R (f_rt i) k)))
  unfolding addx
  addx_lem = word_of i R (λ t a b. add32 (add32 a b) (low_bits 1 t)) k lane

  cgx_lem :
      target i (cgx i R) k
      ≡ u32 (u64 (u64 (gw R (f_ra i) k + gw R (f_rb i) k) + low_bits 1 (gw R (f_rt i) k)) >>> 32)
  unfolding cgx
  cgx_lem = word_of i R (λ t a b. u64 (u64 (a + b) + low_bits 1 t) >>> 32) k lane

  sfx_lem :
      target i (sfx i R) k
      ≡ u32
          (add32 (add32 (gw R (f_rb i) k) (not32 (gw R (f_ra i) k))) (low_bits 1 (gw R (f_rt i) k)))
  unfolding sfx
  sfx_lem = word_of i R (λ t a b. add32 (add32 b (not32 a)) (low_bits 1 t)) k lane

  bgx_lem :
      target i (bgx i R) k
      ≡ u32 (
          u64 (u64 (gw R (f_rb i) k + not32 (gw R (f_ra i) k)) + low_bits 1 (gw R (f_rt i) k))
          >>> 32)
  unfolding bgx
  bgx_lem = word_of i R (λ t a b. u64 (u64 (b + not32 a) + low_bits 1 t) >>> 32) k lane

  a-lt : gw R (f_ra i) k < 2 ^ 32
  a-lt = get_w-lt (bytes (f_ra i)) k

  b-lt : gw R (f_rb i) k < 2 ^ 32
  b-lt = get_w-lt (bytes (f_rb i)) k

  -- In each word `a` and `cg` make up the exact sum of the words of RA and RB, for registers of
  -- bytes.
  pub a-cg :
      target i (rr_a i R) k + 2 ^ 32 * target i (cg i R) k ≡ gw R (f_ra i) k + gw R (f_rb i) k
  a-cg = omega (arith, a_lem, cg_lem, a-lt, b-lt)

  -- In each word addx and cgx make up the exact sum of the words of RA and RB and of the lowest
  -- bit of RT, for registers of bytes.
  pub addx-cgx :
      target i (addx i R) k + 2 ^ 32 * target i (cgx i R) k
      ≡ gw R (f_ra i) k + gw R (f_rb i) k + low_bits 1 (gw R (f_rt i) k)
  addx-cgx = omega (arith, addx_lem, cgx_lem, a-lt, b-lt)

  -- In each word `sf` is RB - RA, with 2 ^ 32 borrowed exactly when `bg` gives 0, for registers
  -- of bytes.
  pub sf-bg :
      target i (sf i R) k + gw R (f_ra i) k + 2 ^ 32 * target i (bg i R) k
      ≡ gw R (f_rb i) k + 2 ^ 32
  sf-bg = ground (arith, sf_lem, bg_lem, a-lt, b-lt)

  -- In each word `sfx` and `bgx` make up RB - RA with the incoming borrow, which the lowest bit
  -- of RT tells by 0, for registers of bytes.
  sfx-bgx :
      target i (sfx i R) k + gw R (f_ra i) k + 1 + 2 ^ 32 * target i (bgx i R) k
      ≡ gw R (f_rb i) k + 2 ^ 32 + low_bits 1 (gw R (f_rt i) k)
  sfx-bgx = omega (arith, sfx_lem, bgx_lem, a-lt, b-lt)
