-- ===== src/Spu/Channel/Safety.antt =====
-- The channels against the main memory.
use dbz_budokai_hd.Common.{ℕ, ◌≡◌, ◌+◌, ◌≤◌, ◌<◌, arith, some, none}
use dbz_budokai_hd.Spu.Context.{Ctx, ls_size}
use dbz_budokai_hd.Spu.Mfc.{mfc_execute, dma_lsa, dma_size, dma_ea}
use dbz_budokai_hd.Spu.Mfc.Laws.{IsProtected, mfc_execute_total, mfc_execute_protects}
use dbz_budokai_hd.Spu.Channel.{rdch, wrch}

pub wrch_protects :
    (c c' : Ctx) (ch val a : ℕ) → wrch c ch val ≡ some c' → IsProtected a → c'.vm a ≡ c.vm a
unfolding wrch
wrch_protects c c' ch val a h p = ground (arith, mfc_execute_protects c c' val a)

pub vm-rdch : (c : Ctx) (ch : ℕ) → (rdch c ch).0.vm ≡ c.vm
unfolding rdch
vm-rdch c ch = ground arith

mfc_execute_keeps :
    (c c' : Ctx) (cmd : ℕ)
    → mfc_execute c cmd ≡ some c'
    → (c'.id ≡ c.id) × (c'.insn_count ≡ c.insn_count)
unfolding mfc_execute
mfc_execute_keeps c c' cmd h = (ground arith, ground arith)

pub wrch_keeps :
    (c c' : Ctx) (ch val : ℕ)
    → wrch c ch val ≡ some c'
    → (c'.id ≡ c.id) × (c'.insn_count ≡ c.insn_count)
unfolding wrch
wrch_keeps c c' ch val h = ground (arith, mfc_execute_keeps c c' val)

-- A channel write faults only if it starts a command that leaves the local store or copies within it.
pub wrch_faults :
    (c : Ctx) (ch val : ℕ)
    → wrch c ch val ≡ none
    → ¬ ((dma_lsa c + dma_size c ≤ ls_size) × (dma_ea c < 0xFE000000))
unfolding wrch
wrch_faults c ch val h fits = ground (arith, mfc_execute_total c val fits.0 fits.1)
