-- ===== src/Ppu/Rotate/Laws.antt =====
-- extra_funcs.cpp: `ppc_rldicl` without a rotation, as the hand-lifted functions use it.
use dbz_budokai_hd.Common.{ℕ, ◌%◌, ◌^◌, ◌<◌, ◌≡◌, ◌∙◌, refl, ap, arith, bit_and, bit_or}
use dbz_budokai_hd.Common.Bits.{bit_and_low}
use dbz_budokai_hd.Common.Words.{u64, ◌<<<◌}
use dbz_budokai_hd.Ppu.Rotate.{ppc_rotl64, ppc_mask64, ppc_rldicl}

module _ (wide : ℕ → ℕ) (v : ℕ) (word : v < 2 ^ 64) (harmless : bit_or v (wide v) ≡ v) where
  -- A rotation by nothing joins the word with its shift by 64.
  unrotated : ppc_rotl64 wide v 0 ≡ v
  unfolding ppc_rotl64
  unrotated =
      let same : u64 (v <<< 0) ≡ v = omega arith in ap (λ x. bit_or x (wide v)) same ∙ harmless

  masked_32 : ppc_rldicl wide v 0 32 ≡ v % 2 ^ 32
  unfolding ppc_rldicl ppc_mask64
  masked_32 = ap (λ x. bit_and x 0xFFFFFFFF) unrotated ∙ bit_and_low 32 0xFFFFFFFF v refl

  masked_48 : ppc_rldicl wide v 0 48 ≡ v % 2 ^ 16
  unfolding ppc_rldicl ppc_mask64
  masked_48 = ap (λ x. bit_and x 0xFFFF) unrotated ∙ bit_and_low 16 0xFFFF v refl

  -- The two masks that the hand-lifted functions use leave the low 32 and the low 16 bits of a
  -- word of 64 bits, if the bits that the compiled code makes of a shift of the word by 64 are
  -- among those of the word.
  pub ppc_rldicl_lem : (ppc_rldicl wide v 0 32 ≡ v % 2 ^ 32) × (ppc_rldicl wide v 0 48 ≡ v % 2 ^ 16)
  ppc_rldicl_lem = (masked_32, masked_48)
