-- ===== src/Spu/Tests.antt =====
-- Concrete programs and contexts, and the theorems applied to them.
mod Runs
mod Memories
mod Elements
mod Files
use dbz_budokai_hd.Common.{ℕ, true, false, if◌then◌else◌, ltb, ◌==◌, Memory, arith, update}
use dbz_budokai_hd.Common.Words.{u8}
use dbz_budokai_hd.Spu.Context.{Ctx, spu_ctx_init}
use dbz_budokai_hd.Spu.Reg.{set_w, modify}
use dbz_budokai_hd.Spu.LocalStore.{ls_write32}
use dbz_budokai_hd.Spu.Isa.Floats.{Floats}
use dbz_budokai_hd.Spu.Invariant.{IsValid}

-- A host whose floating point gives zeros.
abbrev pub no_floats : Floats
no_floats = record {
  f32_add = λ a b. 0;
  f32_sub = λ a b. 0;
  f32_mul = λ a b. 0;
  f32_div = λ a b. 0;
  f32_sqrt = λ a. 0;
  f32_abs = λ a. 0;
  f32_eq = λ a b. false;
  f32_gt = λ a b. false;
  f64_add = λ a b. 0;
  f64_sub = λ a b. 0;
  f64_mul = λ a b. 0;
  f64_neg = λ a. 0;
  f64_abs = λ a. 0;
  f64_eq = λ a b. false;
  f64_gt = λ a b. false;
  f64_ge = λ a b. false;
  f64_exp2 = λ e. 0;
  f64_of_f32 = λ a. 0;
  f32_of_f64 = λ a. 0;
  f64_of_i32 = λ a. 0;
  f64_of_u32 = λ a. 0;
  i32_of_f64 = λ a. 0;
  u32_of_f64 = λ a. 0;
}

-- Each byte holds its address modulo 256.
abbrev pub counting : Memory
counting a = u8 a

-- il r3, 5; wrch MFC_Cmd, r4; stop
abbrev pub program : Memory
program = ls_write32 (ls_write32 (ls_write32 counting 0 0x40800283) 4 0x21A00A84) 8 0

-- Ready to run the program, with a PUT of 16 bytes from 0x200 to 0x10000 in the MFC's registers and
-- its command in r4.
abbrev pub boot : Ctx
boot = record (spu_ctx_init 1 true counting) {
  gpr = modify 4 (λ r. set_w r 0 0x20) (λ r k. 0);
  ls = program;
  running = true;
  mfc_lsa = 0x200;
  mfc_eal = 0x10000;
  mfc_size = 16;
}

pub boot-IsValid : IsValid boot
unfolding spu_ctx_init ls_write32 set_w
boot-IsValid = record {
  gpr = λ r k. ground arith;
  ls = λ k. ground arith;
  vm = λ k. omega arith;
  pc = omega arith;
  stop_code = omega arith;
  mfc_lsa = omega arith;
  mfc_eah = omega arith;
  mfc_eal = omega arith;
  mfc_size = omega arith;
  mfc_tag = omega arith;
  mfc_tagmask = omega arith;
  inbound_mbox = omega arith;
  outbound_mbox = omega arith;
  signal = λ i. omega arith;
  decr = omega arith;
}
