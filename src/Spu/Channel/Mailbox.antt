-- ===== src/Spu/Channel/Mailbox.antt =====
-- The blocking channels, as `rchcnt` and `rdch` see them.
use dbz_budokai_hd.Common.{ℕ, false, ◌<◌, ◌≡◌, ◌⊎◌, ◌&&◌, not, ◌==◌, arith}
use dbz_budokai_hd.Spu.Context.{Ctx}
use dbz_budokai_hd.Spu.Channel.{rdch, rchcnt}
use dbz_budokai_hd.Spu.Channel.Ch

-- The channels that stop the processor when there is nothing to read.
abbrev pub IsBlocking : ℕ → Type 0
IsBlocking ch = (ch ≡ Ch.rd_in_mbox) ⊎ (ch ≡ Ch.rd_sig_notify1) ⊎ (ch ≡ Ch.rd_sig_notify2)

-- A read of the mailbox or of one of the two signal channels leaves the processor running exactly
-- when it was running and the count of the channel is not 0.
pub running-rdch :
    (c : Ctx) (ch : ℕ)
    → IsBlocking ch
    → (rdch c ch).0.running ≡ (c.running && not (rchcnt c ch == 0))
unfolding rdch rchcnt
running-rdch c ch b = ground arith

-- If the inbound mailbox holds a message, reading it gives the message, empties the mailbox and
-- lets the processor run on; a second read gives 0 and stops the processor.
pub rdch_in_mbox_once :
    (c : Ctx)
    → 0 < rchcnt c Ch.rd_in_mbox
    → let (c₁, v) = rdch c Ch.rd_in_mbox in
      let (c₂, w) = rdch c₁ Ch.rd_in_mbox in
      (v ≡ c.inbound_mbox)
      × (rchcnt c₁ Ch.rd_in_mbox ≡ 0)
      × (c₁.running ≡ c.running)
      × (w ≡ 0)
      × (c₂.running ≡ false)
unfolding rdch rchcnt
rdch_in_mbox_once c h = ground arith
