-- ===== src/Spu/Invariant/Cases/QuadShift.antt =====
-- The quadword shifts keep the invariant.
use dbz_budokai_hd.Spu.Invariant.Keeps.{Keeps, All, nil, ◌&◌, register-Keeps}
use dbz_budokai_hd.Spu.Invariant.Blocks.{
  q_shl_bytes-AreBytes, q_shr_bytes-AreBytes, q_rot_bytes-AreBytes, q_shl_bits-AreBytes,
  q_shr_bits-AreBytes, q_rot_bits-AreBytes,
}
use dbz_budokai_hd.Spu.Isa.Fields.{f_ra}
use dbz_budokai_hd.Spu.Isa.Rr.QuadShift.{
  quad_shift_cases, rotqbi, rotqbii, rotqby, rotqbybi, rotqbyi, rotqmbi, rotqmbii, rotqmby,
  rotqmbybi, rotqmbyi, shlqbi, shlqbii, shlqby, shlqbybi, shlqbyi,
}

pub quad_shift_cases-Keeps : All Keeps quad_shift_cases
unfolding rotqbi rotqmbi shlqbi rotqby rotqmby shlqby rotqbybi rotqmbybi shlqbybi rotqbii rotqmbii
    shlqbii rotqbyi rotqmbyi shlqbyi
quad_shift_cases-Keeps =
    register-Keeps _ _ (λ i R h. q_rot_bits-AreBytes _ (h (f_ra i)) _)
    & register-Keeps _ _ (λ i R h. q_shr_bits-AreBytes _ (h (f_ra i)) _)
    & register-Keeps _ _ (λ i R h. q_shl_bits-AreBytes _ (h (f_ra i)) _)
    & register-Keeps _ _ (λ i R h. q_rot_bytes-AreBytes _ (h (f_ra i)) _)
    & register-Keeps _ _ (λ i R h. q_shr_bytes-AreBytes _ (h (f_ra i)) _)
    & register-Keeps _ _ (λ i R h. q_shl_bytes-AreBytes _ (h (f_ra i)) _)
    & register-Keeps _ _ (λ i R h. q_rot_bytes-AreBytes _ (h (f_ra i)) _)
    & register-Keeps _ _ (λ i R h. q_shr_bytes-AreBytes _ (h (f_ra i)) _)
    & register-Keeps _ _ (λ i R h. q_shl_bytes-AreBytes _ (h (f_ra i)) _)
    & register-Keeps _ _ (λ i R h. q_rot_bits-AreBytes _ (h (f_ra i)) _)
    & register-Keeps _ _ (λ i R h. q_shr_bits-AreBytes _ (h (f_ra i)) _)
    & register-Keeps _ _ (λ i R h. q_shl_bits-AreBytes _ (h (f_ra i)) _)
    & register-Keeps _ _ (λ i R h. q_rot_bytes-AreBytes _ (h (f_ra i)) _)
    & register-Keeps _ _ (λ i R h. q_shr_bytes-AreBytes _ (h (f_ra i)) _)
    & register-Keeps _ _ (λ i R h. q_shl_bytes-AreBytes _ (h (f_ra i)) _)
    & nil
