-- ===== src/Spu/Reg/Words.antt =====
-- Reading back what the element accessors write.
use dbz_budokai_hd.Common.{ℕ, ◌+◌, ◌*◌, ◌^◌, ◌<◌, ◌≡◌, arith}
use dbz_budokai_hd.Common.{◌≢◌, ap}
use dbz_budokai_hd.Common.Words.{u16, u32}
use dbz_budokai_hd.Spu.Reg.{Reg, get_w, set_w, get_h, set_h}

-- Every byte of a register is a byte.
abbrev pub IsBytes : Reg → Type 0
IsBytes r = (k : ℕ) → r k < 2 ^ 8

pub get_w-set_w_self : (r : Reg) (i v : ℕ) → get_w (set_w r i v) i ≡ u32 v
unfolding get_w set_w
get_w-set_w_self r i v = ground arith

pub get_w-set_w_ne : (r : Reg) (i v k : ℕ) → k ≢ i → get_w (set_w r i v) k ≡ get_w r k
unfolding get_w set_w
get_w-set_w_ne r i v k ne = ground arith

pub get_h-set_h_self : (r : Reg) (i v : ℕ) → get_h (set_h r i v) i ≡ u16 v
unfolding get_h set_h
get_h-set_h_self r i v = ground arith

pub get_h-set_h_ne : (r : Reg) (i v k : ℕ) → k ≢ i → get_h (set_h r i v) k ≡ get_h r k
unfolding get_h set_h
get_h-set_h_ne r i v k ne = ground arith

pub get_w-eq-get_h : (r : Reg) (i : ℕ) → get_w r i ≡ get_h r (2 * i) * 2 ^ 16 + get_h r (2 * i + 1)
unfolding get_w get_h
get_w-eq-get_h r i =
    let e₀ : 2 * (2 * i) ≡ 4 * i = omega arith in
    let e₁ : 2 * (2 * i) + 1 ≡ 4 * i + 1 = omega arith in
    let e₂ : 2 * (2 * i + 1) ≡ 4 * i + 2 = omega arith in
    let e₃ : 2 * (2 * i + 1) + 1 ≡ 4 * i + 3 = omega arith in
    omega (arith, ap r e₀, ap r e₁, ap r e₂, ap r e₃)

pub get_w-lt : {r : Reg} → IsBytes r → (i : ℕ) → get_w r i < 2 ^ 32
unfolding get_w
get_w-lt h i = omega (arith, h (4 * i), h (4 * i + 1), h (4 * i + 2), h (4 * i + 3))

pub get_h-lt : {r : Reg} → IsBytes r → (i : ℕ) → get_h r i < 2 ^ 16
unfolding get_h
get_h-lt h i = omega (arith, h (2 * i), h (2 * i + 1))

pub set_w-IsBytes : {r : Reg} (i v : ℕ) → IsBytes r → IsBytes (set_w r i v)
unfolding set_w
set_w-IsBytes i v h k = ground (arith, h k)

pub set_h-IsBytes : {r : Reg} (i v : ℕ) → IsBytes r → IsBytes (set_h r i v)
unfolding set_h
set_h-IsBytes i v h k = ground (arith, h k)

-- Writing a word back where it was read changes nothing.
pub set_w-get_w : {r : Reg} → IsBytes r → (i k : ℕ) → set_w r i (get_w r i) k ≡ r k
unfolding get_w set_w
set_w-get_w {r} h i k = ground (arith, h (4 * i), h (4 * i + 1), h (4 * i + 2), h (4 * i + 3))
