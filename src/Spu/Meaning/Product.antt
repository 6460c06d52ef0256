-- ===== src/Spu/Meaning/Product.antt =====
-- The multiplications: exact products of halfwords, and the 32-bit product put together from them.
use dbz_budokai_hd.Common.{
  ℕ, suc, ◌+◌, ◌-◌, ◌*◌, ◌%◌, ◌^◌, ◌<◌, ◌≤◌, ◌≡◌, ◌⊎◌, inl, inr, Bool-cases, ltb, ltb→lt, arith, ap,
  ap₂, ◌∙◌,
}
use dbz_budokai_hd.Common.Int.{ℤ, pos, negsuc, pos_part, neg_part, ◌*ℤ◌}
use dbz_budokai_hd.Common.Words.{u32, add32, signed, wrap, ◌<<<◌}
use dbz_budokai_hd.Spu.Reg.{Gpr}
use dbz_budokai_hd.Spu.Reg.Words.{get_w-lt}
use dbz_budokai_hd.Spu.Isa.Fields.{f_ra, f_rb}
use dbz_budokai_hd.Spu.Isa.Handler.{gw}
use dbz_budokai_hd.Spu.Isa.Rr.Multiply.{lo, hi, mpy, mpyu, mpyh}
use dbz_budokai_hd.Spu.Invariant.{AreByteRegs}
use dbz_budokai_hd.Spu.Meaning.Lane.{word_of}
use dbz_budokai_hd.Spu.Meaning.Carry.{target}

product_bound : (x y : ℕ) → x ≤ 2 ^ 15 → y ≤ 2 ^ 15 → x * y ≤ 2 ^ 30
product_bound x y h k = grind arith

-- A halfword is a number below 2 ^ 15, or stands for the negative of what it lacks to 2 ^ 16.
signed_cases :
    (x : ℕ)
    → x < 2 ^ 16
    → ((signed 16 x ≡ pos x) × (x < 2 ^ 15))
      ⊎ ((m : ℕ) × (signed 16 x ≡ negsuc m) × (x + suc m ≡ 2 ^ 16) × (m < 2 ^ 15))
signed_cases x h = elim (Bool-cases (ltb x (2 ^ 15))) [
  | inl e ↦ inl (rw e, ltb→lt x (2 ^ 15) e)
  | inr e ↦ inr (2 ^ 16 - x - 1, rw e, omega arith, ground arith)
]

-- An integer in the range of a word comes back from its pattern.
in_range : (z : ℤ) → pos_part z < 2 ^ 31 → neg_part z ≤ 2 ^ 31 → signed 32 (wrap 32 z) ≡ z
in_range (pos n) h k = ground arith
in_range (negsuc n) h k = ground arith

-- A product of two halfwords, by the signs.
product_parts :
    (a b : ℤ)
    → pos_part a < 2 ^ 15
    → neg_part a ≤ 2 ^ 15
    → pos_part b < 2 ^ 15
    → neg_part b ≤ 2 ^ 15
    → (pos_part (a *ℤ b) < 2 ^ 31) × (neg_part (a *ℤ b) ≤ 2 ^ 31)
unfolding ◌*ℤ◌
product_parts (pos x) (pos y) h k l m = ground (arith, product_bound x y)
product_parts (pos x) (negsuc y) h k l m = ground (arith, product_bound x (suc y))
product_parts (negsuc x) (pos y) h k l m = ground (arith, product_bound (suc x) y)
product_parts (negsuc x) (negsuc y) h k l m = ground (arith, product_bound (suc x) (suc y))

signed_parts :
    (x : ℕ) → x < 2 ^ 16 → (pos_part (signed 16 x) < 2 ^ 15) × (neg_part (signed 16 x) ≤ 2 ^ 15)
signed_parts x h = elim (signed_cases x h) [
  | inl (e, b) ↦ rw e (omega arith)
  | inr (m, e, _, b) ↦ rw e (omega arith)
]

signed_product :
    (x y : ℕ)
    → x < 2 ^ 16
    → y < 2 ^ 16
    → signed 32 (wrap 32 (signed 16 x *ℤ signed 16 y)) ≡ signed 16 x *ℤ signed 16 y
signed_product x y h k =
    let a = signed_parts x h in
    let b = signed_parts y k in
    let p = product_parts (signed 16 x) (signed 16 y) a.0 a.1 b.0 b.1 in
    in_range (signed 16 x *ℤ signed 16 y) p.0 p.1

-- The low half of a signed product does not depend on the signs.
low_product :
    (x y : ℕ)
    → x < 2 ^ 16
    → y < 2 ^ 16
    → wrap 32 (signed 16 x *ℤ signed 16 y) % 2 ^ 16 ≡ x * y % 2 ^ 16
unfolding ◌*ℤ◌
low_product x y h k = elim (signed_cases x h) [
  | inl (e, _) ↦ elim (signed_cases y k) [
    | inl (f, _) ↦ rw (e, f) (ground arith)
    | inr (n, f, c, _) ↦ rw (e, f) (ground (arith, ap (λ (t : ℕ). x * t) c))
  ]
  | inr (m, e, b, _) ↦ elim (signed_cases y k) [
    | inl (f, _) ↦ rw (e, f) (ground (arith, ap (λ (t : ℕ). t * y) b))
    | inr (n, f, c, _) ↦
        rw (e, f) (ground (arith, ap (λ (t : ℕ). t * y) b, ap (λ (t : ℕ). suc m * t) c))
  ]
]

-- A word is put together from its halves, and a product from the products of the halves.
shifted_low : (z p : ℕ) → z % 2 ^ 16 ≡ p % 2 ^ 16 → u32 (z * 2 ^ 16) ≡ u32 (p * 2 ^ 16)
shifted_low z p h = omega arith

expand :
    (p q r s : ℕ)
    → (p * 2 ^ 16 + q) * (r * 2 ^ 16 + s) ≡ p * r * 2 ^ 32 + (p * s + r * q) * 2 ^ 16 + q * s
expand p q r s = grind arith

halves : (a : ℕ) → a < 2 ^ 32 → a ≡ hi a * 2 ^ 16 + lo a
halves a l = omega arith

combine :
    (x y a b : ℕ)
    → x ≡ u32 (hi a * lo b * 2 ^ 16)
    → y ≡ u32 (hi b * lo a * 2 ^ 16)
    → a < 2 ^ 32
    → b < 2 ^ 32
    → add32 (add32 x y) (u32 (lo a * lo b)) ≡ u32 (a * b)
combine x y a b h k l m =
    let e : a * b ≡ (hi a * 2 ^ 16 + lo a) * (hi b * 2 ^ 16 + lo b) =
      ap (λ (t : ℕ). t * b) (halves a l)
      ∙ ap (λ (t : ℕ). (hi a * 2 ^ 16 + lo a) * t) (halves b m) in
    join (hi a * lo b) (hi b * lo a) (lo a * lo b) (hi a * hi b) (a * b) h k
      (e ∙ expand (hi a) (lo a) (hi b) (lo b))
  where
    join :
        (p q r s t : ℕ)
        → x ≡ u32 (p * 2 ^ 16)
        → y ≡ u32 (q * 2 ^ 16)
        → t ≡ s * 2 ^ 32 + (p + q) * 2 ^ 16 + r
        → add32 (add32 x y) (u32 r) ≡ u32 t
    join p q r s t u v w = omega arith

module _ (i : ℕ) (R : Gpr) (k : ℕ) (lane : k < 4) where
  -- `mpy` gives in each word, as a signed number, the exact product of the signed low halves.
  pub mpy_exact :
      signed 32 (target i (mpy i R) k)
      ≡ signed 16 (lo (gw R (f_ra i) k)) *ℤ signed 16 (lo (gw R (f_rb i) k))
  unfolding mpy
  mpy_exact =
      ap (signed 32)
        (word_of i R (λ t a b. wrap 32 (signed 16 (lo a) *ℤ signed 16 (lo b))) k lane ∙ omega arith)
      ∙ signed_product (lo (gw R (f_ra i) k)) (lo (gw R (f_rb i) k)) (omega arith) (omega arith)

  mpyh_lem : target i (mpyh i R) k ≡ u32 (hi (gw R (f_ra i) k) * lo (gw R (f_rb i) k) * 2 ^ 16)
  unfolding mpyh
  mpyh_lem =
      word_of i R (λ t a b. u32 (wrap 32 (signed 16 (hi a) *ℤ signed 16 (lo b)) <<< 16)) k lane
      ∙ omega (
        arith,
        low_product (hi (gw R (f_ra i) k)) (lo (gw R (f_rb i) k)) (omega arith) (omega arith),
      )

  mpyu_lem : target i (mpyu i R) k ≡ u32 (lo (gw R (f_ra i) k) * lo (gw R (f_rb i) k))
  unfolding mpyu
  mpyu_lem = word_of i R (λ t a b. u32 (lo a * lo b)) k lane ∙ omega arith

module _ (i j l : ℕ) (R : Gpr) (k : ℕ) (bytes : AreByteRegs R) (lane : k < 4)
    (j_ra : f_ra j ≡ f_rb i) (j_rb : f_rb j ≡ f_ra i) (l_ra : f_ra l ≡ f_ra i)
    (l_rb : f_rb l ≡ f_rb i) where
  swapped_lem : target j (mpyh j R) k ≡ u32 (hi (gw R (f_rb i) k) * lo (gw R (f_ra i) k) * 2 ^ 16)
  swapped_lem =
      mpyh_lem j R k lane
      ∙ ap₂ (λ (p q : ℕ). u32 (hi (gw R p k) * lo (gw R q k) * 2 ^ 16)) j_ra j_rb

  low_lem : target l (mpyu l R) k ≡ u32 (lo (gw R (f_ra i) k) * lo (gw R (f_rb i) k))
  low_lem = mpyu_lem l R k lane ∙ ap₂ (λ (p q : ℕ). u32 (lo (gw R p k) * lo (gw R q k))) l_ra l_rb

  -- For registers of bytes and three instruction words on the same two operands, swapped in the
  -- second, mpyh, mpyh and mpyu add up in each word to the product of the two words modulo 2 ^
  -- 32.
  pub mpyh-mpyu :
      add32 (add32 (target i (mpyh i R) k) (target j (mpyh j R) k)) (target l (mpyu l R) k)
      ≡ u32 (gw R (f_ra i) k * gw R (f_rb i) k)
  mpyh-mpyu =
      ap (λ (t : ℕ). add32 (add32 (target i (mpyh i R) k) (target j (mpyh j R) k)) t) low_lem
      ∙ combine (target i (mpyh i R) k) (target j (mpyh j R) k) (gw R (f_ra i) k) (gw R (f_rb i) k)
          (mpyh_lem i R k lane) swapped_lem (get_w-lt (bytes (f_ra i)) k)
          (get_w-lt (bytes (f_rb i)) k)
