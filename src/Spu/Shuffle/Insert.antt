-- ===== src/Spu/Shuffle/Insert.antt =====
-- A shuffle by generated controls inserts an element.
use dbz_budokai_hd.Common.{
  ℕ, true, ◌+◌, ◌-◌, ◌<◌, ◌≤◌, ◌≡◌, ◌⊎◌, ◌∙◌, ap, inl, inr, Bool-cases, ◌&&◌, ◌==◌,
}
use dbz_budokai_hd.Common.{
  if◌then◌else◌, leb, ltb, arith, refl, bit_and, holds_below, holds_below_lem,
}
use dbz_budokai_hd.Common.Words.{u8}
use dbz_budokai_hd.Spu.Reg.{Reg}
use dbz_budokai_hd.Spu.Shuffle.{shuffle_byte, do_shufb, gen_controls, slot}

plain_table : holds_below (λ s. (bit_and s 0xC0 == 0) && (bit_and s 0xE0 == 0)) 32 ≡ true
unfolding holds_below
plain_table = refl

-- Control bytes below 32 select from the thirty-two bytes of both registers.
shuffle_byte_plain :
    (a b : Reg) (s : ℕ) → s < 32 → shuffle_byte a b s ≡ (if ltb s 16 then a s else b (s - 16))
unfolding shuffle_byte
shuffle_byte_plain a b s h = ground (
  arith,
  holds_below_lem (λ s. (bit_and s 0xC0 == 0) && (bit_and s 0xE0 == 0)) 32 s h plain_table,
)

abbrev pub IsSize : ℕ → Type 0
IsSize size = (size ≡ 1) ⊎ (size ≡ 2) ⊎ (size ≡ 4) ⊎ (size ≡ 8)

-- The slot of an element is aligned and lies in the register.
slot_fits : (pos size : ℕ) → IsSize size → (slot pos size + size ≤ 16) × (size ≤ 8)
slot_fits pos size (inl e) = rw e (omega arith)
slot_fits pos size (inr (inl e)) = rw e (omega arith)
slot_fits pos size (inr (inr (inl e))) = rw e (omega arith)
slot_fits pos size (inr (inr (inr e))) = rw e (omega arith)

-- With the controls generated for an element of 1, 2, 4 or 8 bytes, `shufb` takes the bytes of
-- the aligned element from the first bytes of RA, in order, and all the others from RB.
pub do_shufb-gen_controls :
    (a b : Reg) (pos size k : ℕ)
    → IsSize size
    → k < 16
    → do_shufb a b (gen_controls pos size) k ≡ (
        if leb (slot pos size) k && ltb k (slot pos size + size)
        then a (k - slot pos size)
        else b k)
unfolding do_shufb gen_controls
do_shufb-gen_controls a b pos size k s h =
    elim (Bool-cases (leb (slot pos size) k && ltb k (slot pos size + size))) [
      | inl e ↦
          let fits : (slot pos size + size ≤ 16) × (size ≤ 8) = slot_fits pos size s in
          let low : u8 (k - slot pos size) ≡ k - slot pos size = omega arith in
          rw (e, low) (shuffle_byte_plain a b (k - slot pos size) (omega arith) ∙ ground arith)
      | inr e ↦
          let back : 16 + k - 16 ≡ k = omega arith in
          let high : u8 (0x10 + k) ≡ 16 + k = omega arith in
          rw (e, high) (shuffle_byte_plain a b (16 + k) (omega arith) ∙ ground (arith, ap b back))
    ]
