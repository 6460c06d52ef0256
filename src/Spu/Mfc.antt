-- ===== src/Spu/Mfc.antt =====
-- spu_interp.cpp: the memory flow controller, which copies between the local store and the main
-- memory. `none` is a `memcpy` that C leaves undefined: out of an array, or on regions that overlap.
pub mod Laws
pub mod Transfer
use dbz_budokai_hd.Common.{ℕ, Bool, true, false, ◌&&◌, ◌||◌, ◌+◌, ◌-◌, ◌*◌, ◌^◌, ◌==◌, leb, ltb}
use dbz_budokai_hd.Common.{if◌then◌else◌, Option, some, none, Memory, memcpy}
use dbz_budokai_hd.Common.Words.{u32, add32, low_bits}
use dbz_budokai_hd.Spu.Context.{Ctx, ls_size}

-- The chain of fallible steps.
infixl 5 ◌>>=◌
abbrev pub ◌>>=◌ {ℓ κ} : {A : Type ℓ} {B : Type κ} → Option A → (A → Option B) → Option B
none >>= f = none
some a >>= f = f a

-- The size of the `vm_base` reservation.
abbrev pub vm_size : ℕ
vm_size = 2 ^ 32

abbrev pub disjoint : ℕ → ℕ → ℕ → Bool
disjoint a b n = leb (a + n) b || leb (b + n) a || n == 0

-- memcpy(ctx->ls + dst, ctx->ls + src, sz)
unfoldable pub copy_ls_to_ls : Ctx → ℕ → ℕ → ℕ → Option Ctx
copy_ls_to_ls c dst src sz =
    if leb (dst + sz) ls_size && leb (src + sz) ls_size && disjoint dst src sz
    then some (record c { ls = memcpy c.ls dst c.ls src sz })
    else none

-- memcpy(ctx->ls + dst, ctx->vm_base + ea, sz)
unfoldable pub copy_vm_to_ls : Ctx → ℕ → ℕ → ℕ → Option Ctx
copy_vm_to_ls c dst ea sz =
    if leb (dst + sz) ls_size && leb (ea + sz) vm_size
    then some (record c { ls = memcpy c.ls dst c.vm ea sz })
    else none

-- memcpy(ctx->vm_base + ea, ctx->ls + src, sz)
unfoldable pub copy_ls_to_vm : Ctx → ℕ → ℕ → ℕ → Option Ctx
copy_ls_to_vm c ea src sz =
    if leb (ea + sz) vm_size && leb (src + sz) ls_size
    then some (record c { vm = memcpy c.vm ea c.ls src sz })
    else none

-- ea32 >= 0xFE000000u && ea32 + sz <= 0xFF000000u, the sum in `uint32_t`
abbrev pub in_ls_window : ℕ → ℕ → Bool
in_ls_window ea32 sz = leb 0xFE000000 ea32 && leb (add32 ea32 sz) 0xFF000000

-- ctx->vm_base && ea32 >= 0x10000 && ea32 + sz < 0x40000000u
abbrev pub in_main_memory : Ctx → ℕ → ℕ → Bool
in_main_memory c ea32 sz = c.vm_base && leb 0x10000 ea32 && ltb (add32 ea32 sz) 0x40000000

-- ea32 >= 0xD0100000u && ea32 + sz <= 0xD0200000u
abbrev pub in_rsx_region : ℕ → ℕ → Bool
in_rsx_region ea32 sz = leb 0xD0100000 ea32 && leb (add32 ea32 sz) 0xD0200000

unfoldable pub mfc_get : Ctx → ℕ → ℕ → ℕ → Option Ctx
unfolding copy_ls_to_ls copy_vm_to_ls
mfc_get c ea32 lsa sz =
    if in_ls_window ea32 sz
    then (let ls_src = ea32 - 0xFE000000 in
        if leb (add32 ls_src sz) ls_size then copy_ls_to_ls c lsa ls_src sz else some c)
    else if in_main_memory c ea32 sz
    then copy_vm_to_ls c lsa ea32 sz
    else some c

unfoldable pub put_main : Ctx → ℕ → ℕ → ℕ → Option Ctx
unfolding copy_ls_to_vm
put_main c ea32 lsa sz = if in_main_memory c ea32 sz then copy_ls_to_vm c ea32 lsa sz else some c

-- The output of the EDGE geometry job.
unfoldable pub put_rsx : Ctx → ℕ → ℕ → ℕ → Option Ctx
unfolding copy_ls_to_vm
put_rsx c ea32 lsa sz =
    if in_rsx_region ea32 sz && c.vm_base then copy_ls_to_vm c ea32 lsa sz else some c

unfoldable pub mfc_put : Ctx → ℕ → ℕ → ℕ → Option Ctx
unfolding copy_ls_to_ls put_main put_rsx
mfc_put c ea32 lsa sz =
    if in_ls_window ea32 sz
    then (let ls_dst = ea32 - 0xFE000000 in
        if leb (add32 ls_dst sz) ls_size then copy_ls_to_ls c ls_dst lsa sz else some c)
    else (do c' ← put_main c ea32 lsa sz; put_rsx c' ea32 lsa sz)

-- MFC_GET, MFC_GETB, MFC_GETF, and MFC_PUT, MFC_PUTB, MFC_PUTF
abbrev pub is_get : ℕ → Bool
is_get cmd = cmd == 0x40 || cmd == 0x42 || cmd == 0x44

abbrev pub is_put : ℕ → Bool
is_put cmd = cmd == 0x20 || cmd == 0x22 || cmd == 0x24

-- The registers of the MFC as the command reads them.
abbrev pub dma_ea : Ctx → ℕ
dma_ea c = u32 (c.mfc_eah * 2 ^ 32 + c.mfc_eal)

abbrev pub dma_lsa : Ctx → ℕ
dma_lsa c = low_bits 18 c.mfc_lsa

abbrev pub dma_size : Ctx → ℕ
dma_size c = if ltb 16384 c.mfc_size then 16384 else c.mfc_size

unfoldable pub mfc_execute : Ctx → ℕ → Option Ctx
unfolding mfc_get mfc_put
mfc_execute c cmd =
    if c.vm_base
    then (if is_get (low_bits 8 cmd)
        then mfc_get c (dma_ea c) (dma_lsa c) (dma_size c)
        else if is_put (low_bits 8 cmd)
        then mfc_put c (dma_ea c) (dma_lsa c) (dma_size c)
        else some c)
    else some c
