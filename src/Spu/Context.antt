-- ===== src/Spu/Context.antt =====
-- spu_interp.h: the interpreter's state, and `spu_ctx_init`.
use dbz_budokai_hd.Common.{ℕ, Bool, false, ◌^◌, Memory}
use dbz_budokai_hd.Spu.Reg.{Gpr}

-- `SPU_LS_SIZE`
abbrev pub ls_size : ℕ
ls_size = 2 ^ 18

-- `spu_ctx_t`. A `uint32_t` or an `int` that is never negative is a number; the main memory behind
-- the `vm_base` pointer stands in `vm`, and `vm_base` says whether the pointer is set.
pub record Ctx : Type 0 where
  pub gpr : Gpr
  pub ls : Memory
  pub pc : ℕ
  pub running : Bool
  pub stop_code : ℕ
  pub mfc_lsa : ℕ
  pub mfc_eah : ℕ
  pub mfc_eal : ℕ
  pub mfc_size : ℕ
  pub mfc_tag : ℕ
  pub mfc_tagmask : ℕ
  pub inbound_mbox : ℕ
  pub inbound_mbox_count : ℕ
  pub outbound_mbox : ℕ
  pub outbound_mbox_count : ℕ
  pub signal : ℕ → ℕ
  pub signal_count : ℕ → ℕ
  pub tag_update_pending : ℕ
  pub decr : ℕ
  pub id : ℕ
  pub vm_base : Bool
  pub vm : Memory
  pub insn_count : ℕ
  pub trace_limit : ℕ
  pub trace_count : ℕ

abbrev pub zeros : ℕ → ℕ
zeros k = 0

-- `spu_ctx_init`: everything is zero but the identifier and the memory pointer.
unfoldable pub spu_ctx_init : ℕ → Bool → Memory → Ctx
spu_ctx_init id vm_base vm = record {
  gpr = λ r k. 0;
  ls = zeros;
  pc = 0;
  running = false;
  stop_code = 0;
  mfc_lsa = 0;
  mfc_eah = 0;
  mfc_eal = 0;
  mfc_size = 0;
  mfc_tag = 0;
  mfc_tagmask = 0;
  inbound_mbox = 0;
  inbound_mbox_count = 0;
  outbound_mbox = 0;
  outbound_mbox_count = 0;
  signal = zeros;
  signal_count = zeros;
  tag_update_pending = 0;
  decr = 0;
  id = id;
  vm_base = vm_base;
  vm = vm;
  insn_count = 0;
  trace_limit = 0;
  trace_count = 0;
}
