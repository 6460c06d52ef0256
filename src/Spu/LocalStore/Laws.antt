-- ===== src/Spu/LocalStore/Laws.antt =====
-- What the accessors of the local store read and write.
use dbz_budokai_hd.Common.{ℕ, ◌+◌, ◌*◌, ◌≤◌, ◌<◌, ◌≡◌, ◌≢◌, arith, ap, sym, ◌∙◌, ◌==◌, ==_iff}
use dbz_budokai_hd.Common.{if◌then◌else◌, Bool-cases, inl, inr}
use dbz_budokai_hd.Common.{Memory, memcpy_inside, memcpy_outside}
use dbz_budokai_hd.Common.Words.{u32}
use dbz_budokai_hd.Spu.Context.{ls_size}
use dbz_budokai_hd.Spu.Reg.{Reg, get_w}
use dbz_budokai_hd.Spu.LocalStore.{
  word_addr, quad_addr, ls_read32, ls_write32, ls_read128, ls_write128,
}

-- No access leaves the local store.
pub addr_in_range : (addr : ℕ) → (word_addr addr + 4 ≤ ls_size) × (quad_addr addr + 16 ≤ ls_size)
addr_in_range addr = omega arith

-- A word read after a word was written is the word written if both addresses fall into the same
-- word, and the word from before otherwise.
pub ls_read32-ls_write32 :
    (ls : Memory) (a b v : ℕ)
    → ls_read32 (ls_write32 ls a v) b
      ≡ (if word_addr a == word_addr b then u32 v else ls_read32 ls b)
unfolding ls_read32 ls_write32
ls_read32-ls_write32 ls a b v = ground arith

written_quad :
    (ls : Memory) (a b : ℕ) (src dst : Reg) (k : ℕ)
    → k < 16
    → ls_read128 (ls_write128 ls a src) b dst k ≡ ls_write128 ls a src (quad_addr b + k)
unfolding ls_read128
written_quad ls a b src dst k h =
    memcpy_inside dst 0 (ls_write128 ls a src) (quad_addr b) 16 k (omega arith) (omega arith)
    ∙ ap (ls_write128 ls a src) (omega arith)

-- Byte k of a register that a quadword is loaded into.
pub ls_read128_lem :
    (ls : Memory) (addr : ℕ) (dst : Reg) (k : ℕ)
    → k < 16
    → ls_read128 ls addr dst k ≡ ls (quad_addr addr + k)
unfolding ls_read128
ls_read128_lem ls addr dst k h =
    memcpy_inside dst 0 ls (quad_addr addr) 16 k (omega arith) (omega arith) ∙ ap ls (omega arith)

-- Word i of a quadword is the word that the local store holds there.
pub get_w-ls_read128 :
    (ls : Memory) (addr : ℕ) (dst : Reg) (i : ℕ)
    → i < 4
    → get_w (ls_read128 ls addr dst) i ≡ ls_read32 ls (quad_addr addr + 4 * i)
unfolding ls_read32 get_w
get_w-ls_read128 ls addr dst i h = omega (
  arith,
  at (4 * i) a (omega arith) (omega arith),
  at (4 * i + 1) (a + 1) (omega arith) (omega arith),
  at (4 * i + 2) (a + 2) (omega arith) (omega arith),
  at (4 * i + 3) (a + 3) (omega arith) (omega arith),
)
  where
    a : ℕ
    a = word_addr (quad_addr addr + 4 * i)

    at : (k m : ℕ) → k < 16 → quad_addr addr + k ≡ m → ls_read128 ls addr dst k ≡ ls m
    at k m p e = ls_read128_lem ls addr dst k p ∙ ap ls e

-- A byte of a quadword read after a quadword was written is the byte written if both addresses
-- fall into the same quadword, and the byte from before otherwise.
pub ls_read128-ls_write128 :
    (ls : Memory) (a b : ℕ) (src dst : Reg) (k : ℕ)
    → k < 16
    → ls_read128 (ls_write128 ls a src) b dst k
      ≡ (if quad_addr a == quad_addr b then src k else ls_read128 ls b dst k)
unfolding ls_write128
ls_read128-ls_write128 ls a b src dst k h =
    rw (written_quad ls a b src dst k h) (elim (Bool-cases (quad_addr a == quad_addr b)) [
      | inl e ↦
          let same : quad_addr a ≡ quad_addr b = (==_iff _ _).0 e in
          rw e (
            memcpy_inside ls (quad_addr a) src 0 16 (quad_addr b + k) (omega arith) (omega arith)
            ∙ ap src (omega arith))
      | inr e ↦
          let ne : quad_addr a ≢ quad_addr b = λ s. cc ((==_iff _ _).1 s) in
          rw e (
            memcpy_outside ls (quad_addr a) src 0 16 (quad_addr b + k) (omega arith)
            ∙ sym (ls_read128_lem ls b dst k h))
    ])
