-- ===== src/Spu/Isa/Fields.antt =====
-- spu_interp.cpp: the fields of an instruction word and their sign extension.
use dbz_budokai_hd.Common.{ℕ, if◌then◌else◌, bit_or}
use dbz_budokai_hd.Common.Words.{low_bits, test_bit, ◌>>>◌}

-- (v & 0x40) tests bit 6 of the field, and so on.
unfoldable pub sign_ext7 : ℕ → ℕ
sign_ext7 v = if test_bit 6 v then bit_or v 0xFFFFFF80 else v

unfoldable pub sign_ext10 : ℕ → ℕ
sign_ext10 v = if test_bit 9 v then bit_or v 0xFFFFFC00 else v

unfoldable pub sign_ext16 : ℕ → ℕ
sign_ext16 v = if test_bit 15 v then bit_or v 0xFFFF0000 else v

unfoldable pub sign_ext18 : ℕ → ℕ
sign_ext18 v = if test_bit 17 v then bit_or v 0xFFFC0000 else v

abbrev pub f_rt : ℕ → ℕ
f_rt i = low_bits 7 i

abbrev pub f_ra : ℕ → ℕ
f_ra i = low_bits 7 (i >>> 7)

abbrev pub f_rb : ℕ → ℕ
f_rb i = low_bits 7 (i >>> 14)

-- The destination of the RRR format.
abbrev pub f_rc : ℕ → ℕ
f_rc i = low_bits 7 (i >>> 21)

abbrev pub f_i7 : ℕ → ℕ
f_i7 i = low_bits 7 (i >>> 14)

abbrev pub f_i8 : ℕ → ℕ
f_i8 i = low_bits 8 (i >>> 14)

abbrev pub f_i10u : ℕ → ℕ
f_i10u i = low_bits 10 (i >>> 14)

abbrev pub f_i10 : ℕ → ℕ
f_i10 i = sign_ext10 (f_i10u i)

abbrev pub f_i16u : ℕ → ℕ
f_i16u i = low_bits 16 (i >>> 7)

abbrev pub f_i16 : ℕ → ℕ
f_i16 i = sign_ext16 (f_i16u i)

abbrev pub f_i18 : ℕ → ℕ
f_i18 i = low_bits 18 (i >>> 7)

abbrev pub f_ch : ℕ → ℕ
f_ch i = low_bits 5 (i >>> 7)

abbrev pub f_op11 : ℕ → ℕ
f_op11 i = low_bits 11 (i >>> 21)

abbrev pub f_op9 : ℕ → ℕ
f_op9 i = low_bits 9 (i >>> 23)

abbrev pub f_op8 : ℕ → ℕ
f_op8 i = low_bits 8 (i >>> 24)

abbrev pub f_op7 : ℕ → ℕ
f_op7 i = low_bits 7 (i >>> 25)

abbrev pub f_op4 : ℕ → ℕ
f_op4 i = low_bits 4 (i >>> 28)
