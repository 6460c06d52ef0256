-- ===== src/Spu/Shuffle.antt =====
-- spu_interp.cpp: `do_shufb` and `gen_controls`. The loops fill a fresh register, each byte once.
pub mod Insert
use dbz_budokai_hd.Common.{ℕ, ◌+◌, ◌-◌, ◌*◌, ◌/◌, ◌&&◌, ◌==◌, leb, ltb, if◌then◌else◌, bit_and}
use dbz_budokai_hd.Common.Words.{u8, low_bits}
use dbz_budokai_hd.Spu.Reg.{Reg}

-- The byte that a control byte selects.
unfoldable pub shuffle_byte : Reg → Reg → ℕ → ℕ
shuffle_byte a b sel =
    if bit_and sel 0xC0 == 0x80
    then 0x00
    else if bit_and sel 0xE0 == 0xC0
    then 0xFF
    else if bit_and sel 0xE0 == 0xE0
    then 0x80
    else let k = low_bits 5 sel in if ltb k 16 then a k else b (k - 16)

unfoldable pub do_shufb : Reg → Reg → Reg → Reg
unfolding shuffle_byte
do_shufb a b c i = shuffle_byte a b (c i)

-- pos & 0xF & ~(size - 1), for a size that is a power of two
abbrev pub slot : ℕ → ℕ → ℕ
slot pos size = low_bits 4 pos / size * size

-- The second loop overwrites what the first one wrote.
unfoldable pub gen_controls : ℕ → ℕ → Reg
gen_controls pos size k =
    let p = slot pos size in if leb p k && ltb k (p + size) then u8 (k - p) else u8 (0x10 + k)
