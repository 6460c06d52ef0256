-- ===== src/Spu/LocalStore.antt =====
-- spu_interp.cpp: access to the 256 KB local store.
pub mod Laws
use dbz_budokai_hd.Common.{ℕ, ◌+◌, ◌*◌, ◌^◌, Memory, memcpy, update}
use dbz_budokai_hd.Common.Words.{u8, ◌>>>◌, low_bits, clear_low}
use dbz_budokai_hd.Spu.Reg.{Reg}

-- addr & (SPU_LS_SIZE - 1) & ~3u, and the same with ~15u
abbrev pub word_addr : ℕ → ℕ
word_addr addr = clear_low 2 (low_bits 18 addr)

abbrev pub quad_addr : ℕ → ℕ
quad_addr addr = clear_low 4 (low_bits 18 addr)

-- The four bytes at an address, most significant first.
abbrev pub be32 : Memory → ℕ → ℕ
be32 m a = m a * 2 ^ 24 + m (a + 1) * 2 ^ 16 + m (a + 2) * 2 ^ 8 + m (a + 3)

unfoldable pub ls_read32 : Memory → ℕ → ℕ
ls_read32 ls addr = be32 ls (word_addr addr)

unfoldable pub ls_write32 : Memory → ℕ → ℕ → Memory
ls_write32 ls addr v =
    let p = word_addr addr in
    update
      (update (update (update ls p (u8 (v >>> 24))) (p + 1) (u8 (v >>> 16))) (p + 2) (u8 (v >>> 8)))
      (p + 3) (u8 v)

-- The register `dst` with its sixteen bytes replaced.
unfoldable pub ls_read128 : Memory → ℕ → Reg → Reg
unfolding memcpy
ls_read128 ls addr dst = memcpy dst 0 ls (quad_addr addr) 16

unfoldable pub ls_write128 : Memory → ℕ → Reg → Memory
unfolding memcpy
ls_write128 ls addr src = memcpy ls (quad_addr addr) src 0 16
