-- ===== src/Spu/Channel.antt =====
-- spu_interp.cpp: the channels. A write can start a DMA command, and so be `none` where that is.
pub mod Ch
pub mod Mailbox
pub mod Safety
use dbz_budokai_hd.Common.{ℕ, false, ◌||◌, ◌-◌, ◌==◌, ltb, if◌then◌else◌, Option, some, update}
use dbz_budokai_hd.Spu.Context.{Ctx}
use dbz_budokai_hd.Spu.Mfc.{mfc_execute}

-- The channels that only log, and the unknown ones, change nothing.
unfoldable pub wrch : Ctx → ℕ → ℕ → Option Ctx
unfolding mfc_execute
wrch c ch val =
    if ch == Ch.mfc_lsa
    then some (record c { mfc_lsa = val })
    else if ch == Ch.mfc_eah
    then some (record c { mfc_eah = val })
    else if ch == Ch.mfc_eal
    then some (record c { mfc_eal = val })
    else if ch == Ch.mfc_size
    then some (record c { mfc_size = val })
    else if ch == Ch.mfc_tag_id
    then some (record c { mfc_tag = val })
    else if ch == Ch.mfc_cmd
    then mfc_execute c val
    else if ch == Ch.mfc_wr_tag_mask
    then some (record c { mfc_tagmask = val })
    else if ch == Ch.mfc_wr_tag_update
    then some (record c { tag_update_pending = 1 })
    else if ch == Ch.wr_out_mbox || ch == Ch.wr_out_intr_mbox
    then some (record c { outbound_mbox = val; outbound_mbox_count = 1 })
    else if ch == Ch.wr_dec
    then some (record c { decr = val })
    else if ch == Ch.wr_srr0
    then some (record c { pc = val })
    else some c

-- `SPU_RdSigNotify1` and `2`, at index 0 and 1
unfoldable pub rd_signal : Ctx → ℕ → Ctx × ℕ
rd_signal c i =
    if c.signal_count i == 0
    then (record c { running = false }, 0)
    else (record c { signal_count = update c.signal_count i (c.signal_count i - 1) }, c.signal i)

unfoldable pub rd_in_mbox : Ctx → Ctx × ℕ
rd_in_mbox c =
    if ltb 0 c.inbound_mbox_count
    then (record c { inbound_mbox_count = 0 }, c.inbound_mbox)
    else (record c { running = false }, 0)

-- The remaining channels read as zero.
unfoldable pub rdch : Ctx → ℕ → Ctx × ℕ
unfolding rd_signal rd_in_mbox
rdch c ch =
    if ch == Ch.mfc_rd_tag_stat
    then (record c { tag_update_pending = 0 }, c.mfc_tagmask)
    else if ch == Ch.rd_in_mbox
    then rd_in_mbox c
    else if ch == Ch.rd_sig_notify1
    then rd_signal c 0
    else if ch == Ch.rd_sig_notify2
    then rd_signal c 1
    else if ch == Ch.rd_dec
    then (c, c.decr)
    else if ch == Ch.rd_srr0
    then (c, c.pc)
    else (c, 0)

unfoldable pub rchcnt : Ctx → ℕ → ℕ
rchcnt c ch =
    if ch == Ch.rd_in_mbox
    then c.inbound_mbox_count
    else if ch == Ch.wr_out_mbox
    then (if c.outbound_mbox_count == 0 then 1 else 0)
    else if ch == Ch.mfc_wr_tag_update
    then 1
    else if ch == Ch.mfc_rd_tag_stat
    then 1
    else if ch == Ch.rd_sig_notify1
    then c.signal_count 0
    else if ch == Ch.rd_sig_notify2
    then c.signal_count 1
    else 0
