-- ===== src/Ppu/Rotate.antt =====
-- extra_funcs.cpp: the rotations and masks. A shift of a word by its whole width, which C leaves
-- undefined, is the parameter `wide`: what the compiled code makes of the word.
pub mod Laws
use dbz_budokai_hd.Common.{ℕ, ◌-◌, ◌+◌, ◌^◌, ◌==◌, leb, ltb, if◌then◌else◌, bit_and, bit_or}
use dbz_budokai_hd.Common.Words.{u32, u64, low_bits, ◌<<<◌, ◌>>>◌}

-- (uint32_t)-1 and ~0ULL
abbrev pub ones32 : ℕ
ones32 = 2 ^ 32 - 1

abbrev pub ones64 : ℕ
ones64 = 2 ^ 64 - 1

-- v >> n in 64 bits, where n may be 64
abbrev pub shr64 : (ℕ → ℕ) → ℕ → ℕ → ℕ
shr64 wide v n = if ltb n 64 then v >>> n else wide v

abbrev pub shr32 : (ℕ → ℕ) → ℕ → ℕ → ℕ
shr32 wide v n = if ltb n 32 then v >>> n else wide v

unfoldable pub ppc_rlwinm : (ℕ → ℕ) → ℕ → ℕ → ℕ → ℕ → ℕ
ppc_rlwinm wide rs sh mb me =
    let rotated = bit_or (u32 (rs <<< sh)) (shr32 wide rs (32 - sh)) in
    let from = ones32 >>> mb in
    let to = u32 (ones32 <<< (31 - me)) in
    bit_and rotated (if leb mb me then bit_and from to else bit_or from to)

unfoldable pub ppc_rotl64 : (ℕ → ℕ) → ℕ → ℕ → ℕ
ppc_rotl64 wide v n = let k = low_bits 6 n in bit_or (u64 (v <<< k)) (shr64 wide v (64 - k))

unfoldable pub ppc_mask64 : ℕ → ℕ → ℕ
ppc_mask64 mb me =
    if leb mb me
    then bit_and (if mb == 0 then ones64 else ones64 >>> mb)
        (if me == 63 then ones64 else u64 (ones64 <<< (63 - me)))
    else bit_or (ones64 >>> mb) (u64 (ones64 <<< (63 - me)))

unfoldable pub ppc_rldicl : (ℕ → ℕ) → ℕ → ℕ → ℕ → ℕ
unfolding ppc_rotl64 ppc_mask64
ppc_rldicl wide rs sh mb = bit_and (ppc_rotl64 wide rs sh) (ppc_mask64 mb 63)

unfoldable pub ppc_rldicr : (ℕ → ℕ) → ℕ → ℕ → ℕ → ℕ
unfolding ppc_rotl64 ppc_mask64
ppc_rldicr wide rs sh me = bit_and (ppc_rotl64 wide rs sh) (ppc_mask64 0 me)
