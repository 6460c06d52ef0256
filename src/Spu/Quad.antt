-- ===== src/Spu/Quad.antt =====
-- spu_interp.cpp: shifts and rotations of the whole register. "Left" is towards byte 0.
use dbz_budokai_hd.Common.{ℕ, ◌&&◌, ◌+◌, ◌-◌, ◌==◌, ltb, leb, if◌then◌else◌, bit_or}
use dbz_budokai_hd.Common.Words.{u8, low_bits, ◌<<<◌, ◌>>>◌}
use dbz_budokai_hd.Spu.Reg.{Reg}

-- Byte k of `q_shl_bytes` is byte k + n while that is in the register, else zero.
unfoldable pub q_shl_bytes : Reg → ℕ → Reg
q_shl_bytes a n k = if ltb n 16 && ltb (k + n) 16 then a (k + n) else 0

unfoldable pub q_shr_bytes : Reg → ℕ → Reg
q_shr_bytes a n k = if ltb n 16 && leb n k then a (k - n) else 0

unfoldable pub q_rot_bytes : Reg → ℕ → Reg
q_rot_bytes a n k = a (low_bits 4 (k + n))

-- The bit shifts, by s from 0 to 7: a byte and the part that comes over from its neighbour.
unfoldable pub q_shl_bits : Reg → ℕ → Reg
q_shl_bits a s k =
    if s == 0
    then a k
    else if ltb k 15
    then u8 (bit_or (a k <<< s) (a (k + 1) >>> (8 - s)))
    else u8 (a k <<< s)

unfoldable pub q_shr_bits : Reg → ℕ → Reg
q_shr_bits a s k =
    if s == 0
    then a k
    else if ltb 0 k
    then u8 (bit_or (a k >>> s) (a (k - 1) <<< (8 - s)))
    else u8 (a k >>> s)

unfoldable pub q_rot_bits : Reg → ℕ → Reg
q_rot_bits a s k =
    if s == 0 then a k else u8 (bit_or (a k <<< s) (a (low_bits 4 (k + 1)) >>> (8 - s)))
