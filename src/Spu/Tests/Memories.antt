-- ===== src/Spu/Tests/Memories.antt =====
-- DMA, channels and the local store on concrete contexts.
use dbz_budokai_hd.Common.{
  ℕ, refl, ◌≡◌, ◌+◌, ◌-◌, ◌<◌, ◌↔◌, ◌&&◌, ◌==◌, some, none, Option, inl, arith, leb, ltb,
  if◌then◌else◌,
}
use dbz_budokai_hd.Spu.Context.{Ctx, spu_ctx_init, ls_size}
use dbz_budokai_hd.Spu.LocalStore.{ls_read128, ls_write128, quad_addr}
use dbz_budokai_hd.Spu.LocalStore.Laws.{ls_read128-ls_write128}
use dbz_budokai_hd.Spu.Mfc.{mfc_execute, dma_lsa, dma_size}
use dbz_budokai_hd.Spu.Mfc.Laws.{mfc_execute_protects}
use dbz_budokai_hd.Spu.Mfc.Transfer.{transfer_faults_iff, put_get_roundtrip}
use dbz_budokai_hd.Spu.Tests.{boot, counting}

abbrev outcome : Option Ctx → Ctx
outcome none = boot
outcome (some c) = c

abbrev sent : Ctx
sent = outcome (mfc_execute boot 0x20)

boot_sends : mfc_execute boot 0x20 ≡ some sent
unfolding mfc_execute spu_ctx_init
boot_sends = refl

mfc_execute_protects_example : sent.vm 0xFFFF ≡ boot.vm 0xFFFF
mfc_execute_protects_example =
    mfc_execute_protects boot sent 0x20 0xFFFF boot_sends (inl (omega arith))

-- The transfer would end 16 bytes beyond the local store.
abbrev overrun : Ctx
overrun = record boot { mfc_lsa = 0x3FFF0; mfc_size = 32 }

transfer_faults_iff_example :
    (mfc_execute overrun 0x40 ≡ none) ↔ (ls_size < dma_lsa overrun + dma_size overrun)
unfolding spu_ctx_init
transfer_faults_iff_example = transfer_faults_iff overrun 0x40 (refl, omega arith, omega arith) refl

put_get_roundtrip_example :
    (c₁ c₂ : Ctx) × (mfc_execute boot 0x20 ≡ some c₁)
    × (mfc_execute (record c₁ { mfc_lsa = 0x400 }) 0x40 ≡ some c₂)
    × ((k : ℕ)
        → c₂.ls k ≡ (
            if leb 0x400 k && ltb k (0x400 + dma_size boot)
            then boot.ls (dma_lsa boot + (k - 0x400))
            else boot.ls k))
unfolding spu_ctx_init
put_get_roundtrip_example =
    put_get_roundtrip boot 0x20 0x40 0x400 (refl, omega arith, omega arith) (omega arith)
      (omega arith) refl refl

-- A message of the PPU waits.
abbrev mailed : Ctx
mailed = record boot { inbound_mbox = 7; inbound_mbox_count = 1 }

ls_read128-ls_write128_example :
    ls_read128 (ls_write128 counting 0x105 (λ k. k)) 0x103 (λ k. 0) 9
    ≡ (if quad_addr 0x105 == quad_addr 0x103 then 9 else ls_read128 counting 0x103 (λ k. 0) 9)
ls_read128-ls_write128_example =
    ls_read128-ls_write128 counting 0x105 0x103 (λ k. k) (λ k. 0) 9 (omega arith)
