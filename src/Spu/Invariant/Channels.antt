-- ===== src/Spu/Invariant/Channels.antt =====
-- The channels and the DMA commands keep the invariant.
use dbz_budokai_hd.Common.{ℕ, Bool, true, false, ◌^◌, ◌<◌, ◌==◌, if◌then◌else◌, some, none, ltb}
use dbz_budokai_hd.Common.{Option, Memory, ◌||◌, if_keeps, Bool-cases, inl, inr}
use dbz_budokai_hd.Spu.Context.{Ctx}
use dbz_budokai_hd.Common.Words.{low_bits}
use dbz_budokai_hd.Spu.Reg.{Gpr}
use dbz_budokai_hd.Spu.Mfc.{
  mfc_execute, mfc_get, mfc_put, put_main, put_rsx, is_get, is_put, dma_ea, dma_lsa, dma_size,
  ◌>>=◌,
}
use dbz_budokai_hd.Spu.Mfc.{copy_ls_to_ls, copy_vm_to_ls, copy_ls_to_vm}
use dbz_budokai_hd.Spu.Channel.{rdch, wrch, rd_in_mbox, rd_signal}
use dbz_budokai_hd.Spu.Channel.Ch
use dbz_budokai_hd.Spu.Invariant.{IsValid, AreBytes, AreByteRegs}
use dbz_budokai_hd.Spu.Invariant.Blocks.{memcpy-AreBytes}

-- What holds of the context, unless there is none.
pub data Holds (P : Ctx → Type 0) : Option Ctx → Type 0 where
  faults : Holds P none
  leaves : {c : Ctx} → P c → Holds P (some c)

-- The branches of a conditional.
pub either :
    {P : Ctx → Type 0} (b : Bool) {x y : Option Ctx}
    → Holds P x
    → Holds P y
    → Holds P (if b then x else y)
either true h k = h
either false h k = k

pub ls-IsValid : (c : Ctx) (m : Memory) → AreBytes m → IsValid c → IsValid (record c { ls = m })
ls-IsValid c m h v = assumption

pub vm-IsValid : (c : Ctx) (m : Memory) → AreBytes m → IsValid c → IsValid (record c { vm = m })
vm-IsValid c m h v = assumption

pub gpr-IsValid : (c : Ctx) (R : Gpr) → AreByteRegs R → IsValid c → IsValid (record c { gpr = R })
gpr-IsValid c R h v = assumption

copy_ls_to_ls-IsValid :
    (c : Ctx) (dst src sz : ℕ) → IsValid c → Holds IsValid (copy_ls_to_ls c dst src sz)
unfolding copy_ls_to_ls
copy_ls_to_ls-IsValid c dst src sz v =
    either _ (leaves (ls-IsValid c _ (memcpy-AreBytes c.ls dst c.ls src sz v.ls v.ls) v)) faults

copy_vm_to_ls-IsValid :
    (c : Ctx) (dst ea sz : ℕ) → IsValid c → Holds IsValid (copy_vm_to_ls c dst ea sz)
unfolding copy_vm_to_ls
copy_vm_to_ls-IsValid c dst ea sz v =
    either _ (leaves (ls-IsValid c _ (memcpy-AreBytes c.ls dst c.vm ea sz v.ls v.vm) v)) faults

copy_ls_to_vm-IsValid :
    (c : Ctx) (ea src sz : ℕ) → IsValid c → Holds IsValid (copy_ls_to_vm c ea src sz)
unfolding copy_ls_to_vm
copy_ls_to_vm-IsValid c ea src sz v =
    either _ (leaves (vm-IsValid c _ (memcpy-AreBytes c.vm ea c.ls src sz v.vm v.ls) v)) faults

mfc_get-IsValid : (c : Ctx) (ea lsa sz : ℕ) → IsValid c → Holds IsValid (mfc_get c ea lsa sz)
unfolding mfc_get
mfc_get-IsValid c ea lsa sz v =
    either _ (either _ (copy_ls_to_ls-IsValid c lsa _ sz v) (leaves v))
      (either _ (copy_vm_to_ls-IsValid c lsa ea sz v) (leaves v))

-- A property that both steps of a chain keep.
Holds->>= :
    (P : Ctx → Type 0) (m : Option Ctx) (f : Ctx → Option Ctx)
    → ((c : Ctx) → P c → Holds P (f c))
    → Holds P m
    → Holds P (m >>= f)
Holds->>= P none f k h = faults
Holds->>= P (some c) f k (leaves h) = k c h

mfc_put-IsValid : (c : Ctx) (ea lsa sz : ℕ) → IsValid c → Holds IsValid (mfc_put c ea lsa sz)
unfolding mfc_put
mfc_put-IsValid c ea lsa sz v =
    either _ (either _ (copy_ls_to_ls-IsValid c _ lsa sz v) (leaves v))
      (Holds->>= IsValid (put_main c ea lsa sz) (λ d. put_rsx d ea lsa sz) rsx main)
  where
    rsx : (d : Ctx) → IsValid d → Holds IsValid (put_rsx d ea lsa sz)
    rsx d w = either _ (copy_ls_to_vm-IsValid d ea lsa sz w) (leaves w)

    main : Holds IsValid (put_main c ea lsa sz)
    main = either _ (copy_ls_to_vm-IsValid c ea lsa sz v) (leaves v)

-- A DMA command keeps the invariant.
pub mfc_execute-IsValid : (c : Ctx) (cmd : ℕ) → IsValid c → Holds IsValid (mfc_execute c cmd)
unfolding mfc_execute
mfc_execute-IsValid c cmd v =
    either c.vm_base
      (either (is_get (low_bits 8 cmd)) (mfc_get-IsValid c (dma_ea c) (dma_lsa c) (dma_size c) v) (
        either (is_put (low_bits 8 cmd)) (mfc_put-IsValid c (dma_ea c) (dma_lsa c) (dma_size c) v)
          (leaves v)))
      (leaves v)

-- So does a channel write of a word.
pub wrch-IsValid : (c : Ctx) (ch val : ℕ) → val < 2 ^ 32 → IsValid c → Holds IsValid (wrch c ch val)
unfolding wrch
wrch-IsValid c ch val h v =
    either (ch == Ch.mfc_lsa) (the (record c { mfc_lsa = val }) assumption) (
      either (ch == Ch.mfc_eah) (the (record c { mfc_eah = val }) assumption) (
        either (ch == Ch.mfc_eal) (the (record c { mfc_eal = val }) assumption) (
          either (ch == Ch.mfc_size) (the (record c { mfc_size = val }) assumption) (
            either (ch == Ch.mfc_tag_id) (the (record c { mfc_tag = val }) assumption) (
              either (ch == Ch.mfc_cmd) (mfc_execute-IsValid c val v) (
                either (ch == Ch.mfc_wr_tag_mask) (the (record c { mfc_tagmask = val }) assumption)
                  (either (ch == Ch.mfc_wr_tag_update)
                    (the (record c { tag_update_pending = 1 }) assumption)
                    (either (ch == Ch.wr_out_mbox || ch == Ch.wr_out_intr_mbox)
                      (the (record c { outbound_mbox = val; outbound_mbox_count = 1 }) assumption)
                      (either (ch == Ch.wr_dec) (the (record c { decr = val }) assumption) (
                        either (ch == Ch.wr_srr0) (the (record c { pc = val }) assumption)
                          (leaves v)))))))))))
  where
    the : (d : Ctx) → IsValid d → Holds IsValid (some d)
    the d w = leaves w

rd_in_mbox-IsValid : (c : Ctx) → IsValid c → IsValid (rd_in_mbox c).0
unfolding rd_in_mbox
rd_in_mbox-IsValid c v = elim (Bool-cases (ltb 0 c.inbound_mbox_count)) [
  | inl e ↦ rw e assumption
  | inr e ↦ rw e assumption
]

rd_signal-IsValid : (c : Ctx) (i : ℕ) → IsValid c → IsValid (rd_signal c i).0
unfolding rd_signal
rd_signal-IsValid c i v = elim (Bool-cases (c.signal_count i == 0)) [
  | inl e ↦ rw e assumption
  | inr e ↦ rw e assumption
]

-- And a channel read.
pub rdch-IsValid : (c : Ctx) (ch : ℕ) → IsValid c → IsValid (rdch c ch).0
unfolding rdch
rdch-IsValid c ch v =
    valid (ch == Ch.mfc_rd_tag_stat) (record c { tag_update_pending = 0 }, c.mfc_tagmask) _
      (assumption)
      (valid (ch == Ch.rd_in_mbox) (rd_in_mbox c) _ (rd_in_mbox-IsValid c v) (
        valid (ch == Ch.rd_sig_notify1) (rd_signal c 0) _ (rd_signal-IsValid c 0 v) (
          valid (ch == Ch.rd_sig_notify2) (rd_signal c 1) _ (rd_signal-IsValid c 1 v) (
            valid (ch == Ch.rd_dec) (c, c.decr) _ v
              (valid (ch == Ch.rd_srr0) (c, c.pc) (c, 0) v v)))))
  where
    valid : (b : Bool) (x y : Ctx × ℕ) → IsValid x.0 → IsValid y.0 → IsValid (if b then x else y).0
    valid b x y h k = if_keeps (λ (r : Ctx × ℕ). IsValid r.0) b h k
