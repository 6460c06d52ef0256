-- ===== src/Spu/Isa/Floats.antt =====
-- The floating-point arithmetic of the host, which the instructions use and the repository does not
-- implement: a parameter. A value stands as its bit pattern, as in `f32_from_bits`; nothing is
-- assumed of the operations.
use dbz_budokai_hd.Common.{ℕ, Bool, ◌+◌, ◌*◌, ◌^◌}
use dbz_budokai_hd.Common.Int.{ℤ}
use dbz_budokai_hd.Common.Words.{u32, ◌>>>◌}
use dbz_budokai_hd.Spu.Reg.{Reg, get_w, set_w}

pub record Floats : Type 0 where
  pub f32_add : ℕ → ℕ → ℕ
  pub f32_sub : ℕ → ℕ → ℕ
  pub f32_mul : ℕ → ℕ → ℕ
  pub f32_div : ℕ → ℕ → ℕ
  pub f32_sqrt : ℕ → ℕ
  pub f32_abs : ℕ → ℕ
  pub f32_eq : ℕ → ℕ → Bool
  pub f32_gt : ℕ → ℕ → Bool
  pub f64_add : ℕ → ℕ → ℕ
  pub f64_sub : ℕ → ℕ → ℕ
  pub f64_mul : ℕ → ℕ → ℕ
  pub f64_neg : ℕ → ℕ
  pub f64_abs : ℕ → ℕ
  pub f64_eq : ℕ → ℕ → Bool
  pub f64_gt : ℕ → ℕ → Bool
  pub f64_ge : ℕ → ℕ → Bool
  -- ldexp(1.0, e)
  pub f64_exp2 : ℤ → ℕ
  -- The casts between the types; an integer stands as its 32-bit pattern.
  pub f64_of_f32 : ℕ → ℕ
  pub f32_of_f64 : ℕ → ℕ
  pub f64_of_i32 : ℕ → ℕ
  pub f64_of_u32 : ℕ → ℕ
  pub i32_of_f64 : ℕ → ℕ
  pub u32_of_f64 : ℕ → ℕ

-- `get_f` is `get_w` and `set_f` is `set_w`, on bit patterns. Double i is words 2i and 2i + 1.
unfoldable pub get_d : Reg → ℕ → ℕ
get_d r i = get_w r (2 * i) * 2 ^ 32 + get_w r (2 * i + 1)

unfoldable pub set_d : Reg → ℕ → ℕ → Reg
set_d r i b = set_w (set_w r (2 * i) (u32 (b >>> 32))) (2 * i + 1) (u32 b)
