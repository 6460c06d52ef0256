-- ===== src/Spu/Invariant/Blocks.antt =====
-- Registers stay registers of bytes under the building blocks of the instructions.
use dbz_budokai_hd.Common.{ℕ, zero, suc, Bool, ◌+◌, ◌-◌, ◌^◌, ◌<◌, ◌==◌, arith, ltb, leb, update}
use dbz_budokai_hd.Common.{for_range, if_keeps, Memory, memcpy, ◌&&◌, ◌*◌}
use dbz_budokai_hd.Common.Words.{u8, low_bits, mask32}
use dbz_budokai_hd.Spu.Reg.{
  Reg, Gpr, modify, set_w, set_h, zero_reg, for_words, for_halves, for_bytes,
}
use dbz_budokai_hd.Spu.Reg.Words.{set_w-IsBytes, set_h-IsBytes}
use dbz_budokai_hd.Spu.LocalStore.{ls_read128, ls_write128}
use dbz_budokai_hd.Spu.Shuffle.{do_shufb, gen_controls}
use dbz_budokai_hd.Spu.Quad.{
  q_shl_bytes, q_shr_bytes, q_rot_bytes, q_shl_bits, q_shr_bits, q_rot_bits,
}
use dbz_budokai_hd.Spu.Isa.Floats.{set_d}
use dbz_budokai_hd.Spu.Isa.Handler.{of_words, of_halves, preferred}
use dbz_budokai_hd.Spu.Isa.Rr.Double.{for_doubles, for_double_masks}
use dbz_budokai_hd.Spu.Invariant.{AreBytes, AreByteRegs}

-- A property that each round keeps holds after the loop.
pub for_range_keeps {ℓ κ} :
    {S : Type ℓ} (P : S → Type κ) (body : ℕ → S → S)
    → ((i : ℕ) (s : S) → P s → P (body i s))
    → (n i : ℕ) (s : S) → P s
    → P (for_range n i body s)
unfolding for_range
for_range_keeps P body keep zero i s h = h
for_range_keeps P body keep (suc n) i s h =
    for_range_keeps P body keep n (i + 1) (body i s) (keep i s h)

pub modify-AreBytes :
    (t : ℕ) (f : Reg → Reg) (R : Gpr)
    → ((r : Reg) → AreBytes r → AreBytes (f r))
    → AreByteRegs R
    → AreByteRegs (modify t f R)
modify-AreBytes t f R k h r = if_keeps AreBytes (r == t) (k (R r) (h r)) (h r)

pub update-AreBytes :
    (t : ℕ) (v : Reg) (R : Gpr) → AreBytes v → AreByteRegs R → AreByteRegs (update R t v)
update-AreBytes t v R hv h r = if_keeps AreBytes (r == t) hv (h r)

byte-AreBytes : (r : Reg) (i v : ℕ) → AreBytes r → AreBytes (update r i (u8 v))
byte-AreBytes r i v h k = ground (arith, h k)

module _ (t : ℕ) (f : Gpr → ℕ → ℕ) (R : Gpr) (h : AreByteRegs R) where
  pub for_words-AreBytes : AreByteRegs (for_words t f R)
  unfolding for_words
  for_words-AreBytes =
      for_range_keeps AreByteRegs _
        (λ i S hS. modify-AreBytes t (λ r. set_w r i (f S i)) S (λ r. set_w-IsBytes i (f S i)) hS) 4
        0 R h

  pub for_halves-AreBytes : AreByteRegs (for_halves t f R)
  unfolding for_halves
  for_halves-AreBytes =
      for_range_keeps AreByteRegs _
        (λ i S hS. modify-AreBytes t (λ r. set_h r i (f S i)) S (λ r. set_h-IsBytes i (f S i)) hS) 8
        0 R h

  pub for_bytes-AreBytes : AreByteRegs (for_bytes t f R)
  unfolding for_bytes
  for_bytes-AreBytes =
      for_range_keeps AreByteRegs _
        (λ i S hS.
          modify-AreBytes t (λ r. update r i (u8 (f S i))) S (λ r. byte-AreBytes r i (f S i)) hS)
        16 0 R h

pub set_d-AreBytes : (i b : ℕ) (r : Reg) → AreBytes r → AreBytes (set_d r i b)
unfolding set_d
set_d-AreBytes i b r h = set_w-IsBytes _ _ (set_w-IsBytes _ _ h)

pub for_doubles-AreBytes :
    (t : ℕ) (f : Gpr → ℕ → ℕ) (R : Gpr) → AreByteRegs R → AreByteRegs (for_doubles t f R)
unfolding for_doubles
for_doubles-AreBytes t f R h =
    for_range_keeps AreByteRegs _
      (λ k S hS. modify-AreBytes t (λ r. set_d r k (f S k)) S (set_d-AreBytes k (f S k)) hS) 2 0 R h

pub for_double_masks-AreBytes :
    (t : ℕ) (f : Gpr → ℕ → Bool) (R : Gpr) → AreByteRegs R → AreByteRegs (for_double_masks t f R)
unfolding for_double_masks
for_double_masks-AreBytes t f R h =
    for_range_keeps AreByteRegs _
      (λ k S hS.
        modify-AreBytes t
          (λ r. set_w (set_w r (2 * k) (mask32 (f S k))) (2 * k + 1) (mask32 (f S k))) S
          (λ r hr. set_w-IsBytes _ _ (set_w-IsBytes _ _ hr)) hS)
      2 0 R h

pub zero_reg-AreBytes : AreBytes zero_reg
zero_reg-AreBytes k = omega arith

pub preferred-AreBytes : (v : ℕ) → AreBytes (preferred v)
preferred-AreBytes v = set_w-IsBytes {r = zero_reg} 0 v zero_reg-AreBytes

pub of_words-AreBytes : (f : ℕ → ℕ) → AreBytes (of_words f)
unfolding of_words
of_words-AreBytes f =
    for_range_keeps AreBytes _ (λ i t h. set_w-IsBytes i (f i) h) 4 0 zero_reg zero_reg-AreBytes

pub of_halves-AreBytes : (f : ℕ → ℕ) → AreBytes (of_halves f)
unfolding of_halves
of_halves-AreBytes f =
    for_range_keeps AreBytes _ (λ i t h. set_h-IsBytes i (f i) h) 8 0 zero_reg zero_reg-AreBytes

pub memcpy-AreBytes :
    (dst : Memory) (d : ℕ) (src : Memory) (s n : ℕ)
    → AreBytes dst
    → AreBytes src
    → AreBytes (memcpy dst d src s n)
unfolding memcpy
memcpy-AreBytes dst d src s n hd hs k =
    if_keeps (λ x. x < 2 ^ 8) (leb d k && ltb k (d + n)) (hs (s + (k - d))) (hd k)

module _ (ls : Memory) (addr : ℕ) (r : Reg) (hl : AreBytes ls) (hr : AreBytes r) where
  pub ls_read128-AreBytes : AreBytes (ls_read128 ls addr r)
  unfolding ls_read128
  ls_read128-AreBytes = memcpy-AreBytes r 0 ls _ 16 hr hl

  pub ls_write128-AreBytes : AreBytes (ls_write128 ls addr r)
  unfolding ls_write128
  ls_write128-AreBytes = memcpy-AreBytes ls _ r 0 16 hl hr

pub gen_controls-AreBytes : (pos size : ℕ) → AreBytes (gen_controls pos size)
unfolding gen_controls
gen_controls-AreBytes pos size k = ground arith

module _ (a : Reg) (h : AreBytes a) where
  pub do_shufb-AreBytes : (b c : Reg) → AreBytes b → AreBytes (do_shufb a b c)
  unfolding do_shufb
  do_shufb-AreBytes b c hb k = ground (arith, h (low_bits 5 (c k)), hb (low_bits 5 (c k) - 16))

  pub q_shl_bytes-AreBytes : (n : ℕ) → AreBytes (q_shl_bytes a n)
  unfolding q_shl_bytes
  q_shl_bytes-AreBytes n k = ground (arith, h (k + n))

  pub q_shr_bytes-AreBytes : (n : ℕ) → AreBytes (q_shr_bytes a n)
  unfolding q_shr_bytes
  q_shr_bytes-AreBytes n k = ground (arith, h (k - n))

  pub q_rot_bytes-AreBytes : (n : ℕ) → AreBytes (q_rot_bytes a n)
  unfolding q_rot_bytes
  q_rot_bytes-AreBytes n k = h (low_bits 4 (k + n))

  pub q_shl_bits-AreBytes : (s : ℕ) → AreBytes (q_shl_bits a s)
  unfolding q_shl_bits
  q_shl_bits-AreBytes s k = ground (arith, h k)

  pub q_shr_bits-AreBytes : (s : ℕ) → AreBytes (q_shr_bits a s)
  unfolding q_shr_bits
  q_shr_bits-AreBytes s k = ground (arith, h k)

  pub q_rot_bits-AreBytes : (s : ℕ) → AreBytes (q_rot_bits a s)
  unfolding q_rot_bits
  q_rot_bits-AreBytes s k = ground (arith, h k)
