-- ===== src/Spu/Mfc/Transfer.antt =====
-- What a transfer between the main memory and the local store moves.
use dbz_budokai_hd.Common.{ℕ, true, ◌+◌, ◌-◌, ◌≤◌, ◌<◌, ◌≡◌, ◌↔◌, ◌&&◌, ◌||◌, Bool-cases, inl, inr}
use dbz_budokai_hd.Common.{arith, some, none, memcpy, leb, ltb}
use dbz_budokai_hd.Common.{memcpy-memcpy, if◌then◌else◌}
use dbz_budokai_hd.Common.Words.{low_bits}
use dbz_budokai_hd.Spu.Context.{Ctx, ls_size}
use dbz_budokai_hd.Spu.Mfc.{mfc_execute, is_get, is_put}
use dbz_budokai_hd.Spu.Mfc.{dma_ea, dma_lsa, dma_size}

-- The registers of the MFC name a piece of the main memory that the guards let through.
abbrev pub IsMainTransfer : Ctx → Type 0
IsMainTransfer c = (c.vm_base ≡ true) × (0x10000 ≤ dma_ea c) × (dma_ea c + dma_size c < 0x40000000)

-- The transfer fits the local store.
abbrev pub FitsLs : Ctx → Type 0
FitsLs c = dma_lsa c + dma_size c ≤ ls_size

get_main :
    (c : Ctx) (cmd : ℕ)
    → IsMainTransfer c
    → is_get (low_bits 8 cmd) ≡ true
    → mfc_execute c cmd ≡ (
        if leb (dma_lsa c + dma_size c) ls_size
        then some (record c { ls = memcpy c.ls (dma_lsa c) c.vm (dma_ea c) (dma_size c) })
        else none)
unfolding mfc_execute
get_main c cmd m g = ground arith

put_main_lem :
    (c : Ctx) (cmd : ℕ)
    → IsMainTransfer c
    → is_put (low_bits 8 cmd) ≡ true
    → mfc_execute c cmd ≡ (
        if leb (dma_lsa c + dma_size c) ls_size
        then some (record c { vm = memcpy c.vm (dma_ea c) c.ls (dma_lsa c) (dma_size c) })
        else none)
unfolding mfc_execute
put_main_lem c cmd m g = ground arith

-- A GET or PUT between the main memory that the guards admit and the local store leaves the
-- arrays if and only if it runs past the end of the local store.
pub transfer_faults_iff :
    (c : Ctx) (cmd : ℕ)
    → IsMainTransfer c
    → (is_get (low_bits 8 cmd) || is_put (low_bits 8 cmd)) ≡ true
    → (mfc_execute c cmd ≡ none) ↔ (ls_size < dma_lsa c + dma_size c)
transfer_faults_iff c cmd m k = elim (Bool-cases (is_get (low_bits 8 cmd))) [
  | inl g ↦ ground (arith, get_main c cmd m g)
  | inr n ↦ ground (arith, put_main_lem c cmd m (rw n at k))
]

put_lem :
    (c : Ctx) (cmd : ℕ)
    → IsMainTransfer c
    → is_put (low_bits 8 cmd) ≡ true
    → FitsLs c
    → mfc_execute c cmd
      ≡ some (record c { vm = memcpy c.vm (dma_ea c) c.ls (dma_lsa c) (dma_size c) })
put_lem c cmd m p fits = ground (arith, put_main_lem c cmd m p)

get_lem :
    (c : Ctx) (cmd : ℕ)
    → IsMainTransfer c
    → is_get (low_bits 8 cmd) ≡ true
    → FitsLs c
    → mfc_execute c cmd
      ≡ some (record c { ls = memcpy c.ls (dma_lsa c) c.vm (dma_ea c) (dma_size c) })
get_lem c cmd m p fits = ground (arith, get_main c cmd m p)

-- What a PUT leaves, with the MFC's local address set anew for the GET that follows.
abbrev after_put : Ctx → ℕ → Ctx
after_put c lsa = record c {
  vm = memcpy c.vm (dma_ea c) c.ls (dma_lsa c) (dma_size c);
  mfc_lsa = lsa;
}

-- A PUT to admitted main memory that fits the local store, followed by a GET of the same memory
-- to a local address where it fits, succeeds, copies the bytes in order and keeps the rest of the
-- local store.
pub put_get_roundtrip :
    (c : Ctx) (put get lsa : ℕ)
    → IsMainTransfer c
    → FitsLs c
    → low_bits 18 lsa + dma_size c ≤ ls_size
    → is_put (low_bits 8 put) ≡ true
    → is_get (low_bits 8 get) ≡ true
    → (c₁ c₂ : Ctx) × (mfc_execute c put ≡ some c₁)
      × (mfc_execute (record c₁ { mfc_lsa = lsa }) get ≡ some c₂)
      × ((k : ℕ)
          → c₂.ls k ≡ (
              if leb (low_bits 18 lsa) k && ltb k (low_bits 18 lsa + dma_size c)
              then c.ls (dma_lsa c + (k - low_bits 18 lsa))
              else c.ls k))
put_get_roundtrip c put get lsa m fits fits' p g = (
  record c { vm = memcpy c.vm (dma_ea c) c.ls (dma_lsa c) (dma_size c) },
  record (after_put c lsa) {
    ls =
        memcpy c.ls (low_bits 18 lsa) (memcpy c.vm (dma_ea c) c.ls (dma_lsa c) (dma_size c))
          (dma_ea c) (dma_size c);
  },
  put_lem c put m p fits,
  get_lem (after_put c lsa) get m g fits',
  λ k. memcpy-memcpy c.ls (low_bits 18 lsa) c.vm (dma_ea c) c.ls (dma_lsa c) (dma_size c) k,
)
