-- ===== src/Guest.antt =====
-- runtime_glue.cpp: the guest's memory, big-endian. An address is cut to 32 bits, and so is each index
-- next to it. The reports of accesses below 0x1000 are left out.
pub mod Laws
use dbz_budokai_hd.Common.{ℕ, ◌+◌, ◌*◌, ◌^◌, Memory, update}
use dbz_budokai_hd.Common.Words.{u8, u32, ◌>>>◌}

-- vm_base[a + k], with the sum in `uint32_t`
abbrev pub vm_byte : Memory → ℕ → ℕ → ℕ
vm_byte m a k = m (u32 (a + k))

unfoldable pub vm_read8 : Memory → ℕ → ℕ
vm_read8 m addr = m (u32 addr)

unfoldable pub vm_read16 : Memory → ℕ → ℕ
vm_read16 m addr = vm_byte m (u32 addr) 0 * 2 ^ 8 + vm_byte m (u32 addr) 1

unfoldable pub vm_read32 : Memory → ℕ → ℕ
vm_read32 m addr =
    vm_byte m (u32 addr) 0 * 2 ^ 24
    + vm_byte m (u32 addr) 1 * 2 ^ 16
    + vm_byte m (u32 addr) 2 * 2 ^ 8
    + vm_byte m (u32 addr) 3

unfoldable pub vm_read64 : Memory → ℕ → ℕ
unfolding vm_read32
vm_read64 m addr = vm_read32 m addr * 2 ^ 32 + vm_read32 m (addr + 4)

unfoldable pub vm_write8 : Memory → ℕ → ℕ → Memory
vm_write8 m addr val = update m (u32 addr) (u8 val)

unfoldable pub vm_write16 : Memory → ℕ → ℕ → Memory
vm_write16 m addr val = update (update m (u32 addr) (u8 (val >>> 8))) (u32 (u32 addr + 1)) (u8 val)

-- The four stores at the end of `vm_write32`.
unfoldable pub store32 : Memory → ℕ → ℕ → Memory
store32 m a val =
    update
      (update (update (update m (u32 a) (u8 (val >>> 24))) (u32 (a + 1)) (u8 (val >>> 16)))
        (u32 (a + 2)) (u8 (val >>> 8)))
      (u32 (a + 3)) (u8 val)
