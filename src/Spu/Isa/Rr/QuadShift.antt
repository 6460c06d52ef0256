-- ===== src/Spu/Isa/Rr/QuadShift.antt =====
-- spu_interp.cpp, `spu_step`, RR format: shifts and rotations of the whole register.
use dbz_budokai_hd.Common.{ℕ, List, [], ◌∷◌, update}
use dbz_budokai_hd.Common.Words.{sub32, low_bits, ◌>>>◌}
use dbz_budokai_hd.Spu.Isa.Fields.{f_rt, f_ra, f_rb, f_i7}
use dbz_budokai_hd.Spu.Isa.Handler.{Handler, RegOp, on_gpr, gw}
use dbz_budokai_hd.Spu.Quad.{
  q_shl_bytes, q_shr_bytes, q_rot_bytes, q_shl_bits, q_shr_bits, q_rot_bits,
}

unfoldable pub rotqbi : RegOp
rotqbi i R = update R (f_rt i) (q_rot_bits (R (f_ra i)) (low_bits 3 (gw R (f_rb i) 0)))

unfoldable pub rotqmbi : RegOp
rotqmbi i R = update R (f_rt i) (q_shr_bits (R (f_ra i)) (low_bits 3 (sub32 0 (gw R (f_rb i) 0))))

unfoldable pub shlqbi : RegOp
shlqbi i R = update R (f_rt i) (q_shl_bits (R (f_ra i)) (low_bits 3 (gw R (f_rb i) 0)))

unfoldable pub rotqby : RegOp
rotqby i R = update R (f_rt i) (q_rot_bytes (R (f_ra i)) (low_bits 4 (gw R (f_rb i) 0)))

unfoldable pub rotqmby : RegOp
rotqmby i R = update R (f_rt i) (q_shr_bytes (R (f_ra i)) (low_bits 5 (sub32 0 (gw R (f_rb i) 0))))

unfoldable pub shlqby : RegOp
shlqby i R = update R (f_rt i) (q_shl_bytes (R (f_ra i)) (low_bits 5 (gw R (f_rb i) 0)))

unfoldable pub rotqbybi : RegOp
rotqbybi i R = update R (f_rt i) (q_rot_bytes (R (f_ra i)) (low_bits 4 (gw R (f_rb i) 0 >>> 3)))

unfoldable pub rotqmbybi : RegOp
rotqmbybi i R =
    update R (f_rt i) (q_shr_bytes (R (f_ra i)) (low_bits 5 (sub32 0 (gw R (f_rb i) 0 >>> 3))))

unfoldable pub shlqbybi : RegOp
shlqbybi i R = update R (f_rt i) (q_shl_bytes (R (f_ra i)) (low_bits 5 (gw R (f_rb i) 0 >>> 3)))

unfoldable pub rotqbii : RegOp
rotqbii i R = update R (f_rt i) (q_rot_bits (R (f_ra i)) (low_bits 3 (f_i7 i)))

unfoldable pub rotqmbii : RegOp
rotqmbii i R = update R (f_rt i) (q_shr_bits (R (f_ra i)) (low_bits 3 (sub32 0 (f_i7 i))))

unfoldable pub shlqbii : RegOp
shlqbii i R = update R (f_rt i) (q_shl_bits (R (f_ra i)) (low_bits 3 (f_i7 i)))

unfoldable pub rotqbyi : RegOp
rotqbyi i R = update R (f_rt i) (q_rot_bytes (R (f_ra i)) (low_bits 4 (f_i7 i)))

unfoldable pub rotqmbyi : RegOp
rotqmbyi i R = update R (f_rt i) (q_shr_bytes (R (f_ra i)) (low_bits 5 (sub32 0 (f_i7 i))))

unfoldable pub shlqbyi : RegOp
shlqbyi i R = update R (f_rt i) (q_shl_bytes (R (f_ra i)) (low_bits 5 (f_i7 i)))

abbrev pub quad_shift_cases : List (ℕ × Handler)
quad_shift_cases =
    (0x1D8, on_gpr rotqbi)
    ∷ (0x1D9, on_gpr rotqmbi)
    ∷ (0x1DB, on_gpr shlqbi)
    ∷ (0x1DC, on_gpr rotqby)
    ∷ (0x1DD, on_gpr rotqmby)
    ∷ (0x1DF, on_gpr shlqby)
    ∷ (0x1CC, on_gpr rotqbybi)
    ∷ (0x1CD, on_gpr rotqmbybi)
    ∷ (0x1CF, on_gpr shlqbybi)
    ∷ (0x1F8, on_gpr rotqbii)
    ∷ (0x1F9, on_gpr rotqmbii)
    ∷ (0x1FB, on_gpr shlqbii)
    ∷ (0x1FC, on_gpr rotqbyi)
    ∷ (0x1FD, on_gpr rotqmbyi)
    ∷ (0x1FF, on_gpr shlqbyi)
    ∷ []
