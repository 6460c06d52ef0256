-- ===== src/Spu/Reg.antt =====
-- spu_interp.h: the 128-bit register and its big-endian element accessors.
pub mod Words
pub mod Lanes
use dbz_budokai_hd.Common.{ℕ, ◌+◌, ◌*◌, ◌^◌, ◌==◌, if◌then◌else◌, update, for_range}
use dbz_budokai_hd.Common.Words.{u8, ◌>>>◌}

-- `spu_reg_t`: byte k at index k, byte 0 the most significant; only indices below 16 are used.
abbrev pub Reg : Type 0
Reg = ℕ → ℕ

-- `gpr[128]`
abbrev pub Gpr : Type 0
Gpr = ℕ → Reg

-- What `memset(r, 0, 16)` leaves.
abbrev pub zero_reg : Reg
zero_reg k = 0

-- `spu_reg_get_w`: the `|` of the four shifted bytes is their sum, as the fields are disjoint.
unfoldable pub get_w : Reg → ℕ → ℕ
get_w r i = r (4 * i) * 2 ^ 24 + r (4 * i + 1) * 2 ^ 16 + r (4 * i + 2) * 2 ^ 8 + r (4 * i + 3)

unfoldable pub set_w : Reg → ℕ → ℕ → Reg
set_w r i v =
    update
      (update (update (update r (4 * i) (u8 (v >>> 24))) (4 * i + 1) (u8 (v >>> 16))) (4 * i + 2)
        (u8 (v >>> 8)))
      (4 * i + 3) (u8 v)

unfoldable pub get_h : Reg → ℕ → ℕ
get_h r i = r (2 * i) * 2 ^ 8 + r (2 * i + 1)

unfoldable pub set_h : Reg → ℕ → ℕ → Reg
set_h r i v = update (update r (2 * i) (u8 (v >>> 8))) (2 * i + 1) (u8 v)

-- `R[t]` changed by a function of the register, the others kept.
abbrev pub modify : ℕ → (Reg → Reg) → Gpr → Gpr
modify t f R k = if k == t then f (R k) else R k

-- for (i = 0; i < 4; i++) SW(R[t], i, f(R, i)), in place: round i reads what the rounds before
-- it have written.
unfoldable pub for_words : ℕ → (Gpr → ℕ → ℕ) → Gpr → Gpr
unfolding for_range
for_words t f R = for_range 4 0 (λ i S. modify t (λ r. set_w r i (f S i)) S) R

-- The same over the eight halfwords and over the sixteen bytes.
unfoldable pub for_halves : ℕ → (Gpr → ℕ → ℕ) → Gpr → Gpr
unfolding for_range
for_halves t f R = for_range 8 0 (λ i S. modify t (λ r. set_h r i (f S i)) S) R

unfoldable pub for_bytes : ℕ → (Gpr → ℕ → ℕ) → Gpr → Gpr
unfolding for_range
for_bytes t f R = for_range 16 0 (λ i S. modify t (λ r. update r i (u8 (f S i))) S) R
