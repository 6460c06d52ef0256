-- ===== src/Spu/Meaning/Lane.antt =====
-- The element that an instruction leaves in its target, from the elements that it reads: the loops
-- with a body that is a function of the three registers which an instruction word names.
use dbz_budokai_hd.Common.{ℕ, ◌<◌, ◌≡◌}
use dbz_budokai_hd.Common.Words.{u8, u16, u32}
use dbz_budokai_hd.Spu.Reg.{Gpr, get_h, for_words, for_halves, for_bytes}
use dbz_budokai_hd.Spu.Reg.Lanes.{for_words_lem, for_halves_lem, for_bytes_lem}
use dbz_budokai_hd.Spu.Isa.Fields.{f_rt, f_ra, f_rb}
use dbz_budokai_hd.Spu.Isa.Handler.{gw}

module _ (i : ℕ) (R : Gpr) (f : ℕ → ℕ → ℕ → ℕ) (k : ℕ) where
  pub word_of :
      k < 4
      → gw
          (for_words (f_rt i) (λ S k. f (gw S (f_rt i) k) (gw S (f_ra i) k) (gw S (f_rb i) k)) R)
          (f_rt i)
          k
        ≡ u32 (f (gw R (f_rt i) k) (gw R (f_ra i) k) (gw R (f_rb i) k))
  word_of =
      for_words_lem (f_rt i) _ R (λ S T k h. λ j. f (h (f_rt i) j) (h (f_ra i) j) (h (f_rb i) j)) k

  pub half_of :
      k < 8
      → get_h
          (for_halves
            (f_rt i)
            (λ S k. f (get_h (S (f_rt i)) k) (get_h (S (f_ra i)) k) (get_h (S (f_rb i)) k))
            R
            (f_rt i))
          k
        ≡ u16 (f (get_h (R (f_rt i)) k) (get_h (R (f_ra i)) k) (get_h (R (f_rb i)) k))
  half_of =
      for_halves_lem (f_rt i) _ R (λ S T k h. λ j. f (h (f_rt i) j) (h (f_ra i) j) (h (f_rb i) j)) k

  pub byte_of :
      k < 16
      → for_bytes (f_rt i) (λ S k. f (S (f_rt i) k) (S (f_ra i) k) (S (f_rb i) k)) R (f_rt i) k
        ≡ u8 (f (R (f_rt i) k) (R (f_ra i) k) (R (f_rb i) k))
  byte_of =
      for_bytes_lem (f_rt i) _ R (λ S T k h. λ j. f (h (f_rt i) j) (h (f_ra i) j) (h (f_rb i) j)) k
