-- ===== src/Spu/Mfc/Laws.antt =====
-- What a DMA command may touch, what it moves, and when it leaves the arrays.
use dbz_budokai_hd.Common.{ℕ, ◌+◌, false, ◌^◌, ◌≤◌, ◌<◌, ◌≡◌, ◌⊎◌}
use dbz_budokai_hd.Common.{◌≢◌, none, arith, ◌∙◌, some}
use dbz_budokai_hd.Common.{memcpy_outside, inl, inr, Bool-cases}
use dbz_budokai_hd.Spu.Context.{Ctx, ls_size}
use dbz_budokai_hd.Common.{Option-cases}
use dbz_budokai_hd.Spu.Mfc.{in_ls_window, mfc_execute, mfc_get, mfc_put, put_main, put_rsx}
use dbz_budokai_hd.Spu.Mfc.{dma_ea, dma_lsa, dma_size}

-- A transfer whose size and address come from the code's own clamp.
dma_size-le : (c : Ctx) → dma_size c ≤ 16384
dma_size-le c = ground arith

-- Outside of the main memory proper and of the RSX region.
abbrev pub IsProtected : ℕ → Type 0
IsProtected a = (a < 0x10000) ⊎ ((0x40000000 ≤ a) × (a < 0xD0100000)) ⊎ (0xD0200000 ≤ a)

-- With a clamped size, the wrapping sum of the guards can wrap only where the first guard takes the
-- transfer away.
module _ (c : Ctx) (ea lsa sz : ℕ) (word : ea < 2 ^ 32) (clamped : sz ≤ 16384) where
  put_main_keeps :
      (c' : Ctx) (a : ℕ)
      → in_ls_window ea sz ≡ false
      → put_main c ea lsa sz ≡ some c'
      → IsProtected a
      → (c'.vm a ≡ c.vm a)
  unfolding put_main
  put_main_keeps c' a e h p = ground (arith, memcpy_outside c.vm ea c.ls lsa sz a)

  put_rsx_keeps :
      (c' : Ctx) (a : ℕ)
      → in_ls_window ea sz ≡ false
      → put_rsx c ea lsa sz ≡ some c'
      → IsProtected a
      → (c'.vm a ≡ c.vm a)
  unfolding put_rsx
  put_rsx_keeps c' a e h p = ground (arith, memcpy_outside c.vm ea c.ls lsa sz a)

  get_keeps : (c' : Ctx) (a : ℕ) → mfc_get c ea lsa sz ≡ some c' → (c'.vm a ≡ c.vm a)
  unfolding mfc_get
  get_keeps c' a h = ground arith

module _ (c : Ctx) (ea lsa sz : ℕ) (word : ea < 2 ^ 32) (clamped : sz ≤ 16384) where
  put_keeps :
      (c' : Ctx) (a : ℕ) → mfc_put c ea lsa sz ≡ some c' → IsProtected a → (c'.vm a ≡ c.vm a)
  unfolding mfc_put
  put_keeps c' a h p = elim (Bool-cases (in_ls_window ea sz)) [
    | inl e ↦ ground arith
    | inr e ↦ elim (Option-cases (put_main c ea lsa sz)) [
      | inl n ↦ ground arith
      | inr (d, m) ↦
          put_rsx_keeps d ea lsa sz word clamped c' a e (rw (e, m, mfc_put) at h) p
          ∙ put_main_keeps c ea lsa sz word clamped d a e m p
    ]
  ]

-- A DMA command that does not fault, of any kind and with any values in the registers of the MFC,
-- leaves every byte of the main memory below 0x10000, from 0x40000000 up to 0xD0100000 and from
-- 0xD0200000 on as it was.
pub mfc_execute_protects :
    (c c' : Ctx) (cmd a : ℕ) → mfc_execute c cmd ≡ some c' → IsProtected a → c'.vm a ≡ c.vm a
unfolding mfc_execute
mfc_execute_protects c c' cmd a h p = ground (
  arith,
  get_keeps c (dma_ea c) (dma_lsa c) (dma_size c) (omega arith) (dma_size-le c) c' a,
  put_keeps c (dma_ea c) (dma_lsa c) (dma_size c) (omega arith) (dma_size-le c) c' a,
)

module _ (c : Ctx) (ea lsa sz : ℕ) (fits : lsa + sz ≤ ls_size) (low : ea < 0xFE000000) where
  get_total : sz ≤ 16384 → mfc_get c ea lsa sz ≢ none
  unfolding mfc_get
  get_total clamped h = ground arith

  put_main_total : sz ≤ 16384 → put_main c ea lsa sz ≢ none
  unfolding put_main
  put_main_total clamped h = ground arith

  put_rsx_total : sz ≤ 16384 → put_rsx c ea lsa sz ≢ none
  unfolding put_rsx
  put_rsx_total clamped h = ground arith

module _ (c : Ctx) (ea lsa sz : ℕ) (fits : lsa + sz ≤ ls_size) (low : ea < 0xFE000000) where
  put_total : sz ≤ 16384 → mfc_put c ea lsa sz ≢ none
  unfolding mfc_put
  put_total clamped h = elim (Option-cases (put_main c ea lsa sz)) [
    | inl n ↦ put_main_total c ea lsa sz fits low clamped n
    | inr (d, m) ↦ put_rsx_total d ea lsa sz fits low clamped (ground (arith, m))
  ]

-- A DMA command does not fault if its transfer fits the local store and its address is below the
-- window at 0xFE000000.
pub mfc_execute_total :
    (c : Ctx) (cmd : ℕ)
    → dma_lsa c + dma_size c ≤ ls_size
    → dma_ea c < 0xFE000000
    → mfc_execute c cmd ≢ none
unfolding mfc_execute
mfc_execute_total c cmd fits low h = ground (
  arith,
  get_total c (dma_ea c) (dma_lsa c) (dma_size c) fits low (dma_size-le c),
  put_total c (dma_ea c) (dma_lsa c) (dma_size c) fits low (dma_size-le c),
)
